-- ===== src/Setup/Opened.antt =====
-- src/rava_core.c and the functions luaopen_rava*: a Lua state that was opened has its modules, each
-- with its name and the hook that carries it to other states.
pub mod Parts
pub mod Classes
pub mod Modules
use rava.Base.{
  ℕ, ◌≡◌, ◌≢◌, refl, sym, ap, ◌∙◌, Bool, true, List, [], ◌∷◌, ◌++◌, Option, some, codes, same_text,
}
use rava.Outcome.{Outcome, ok, ◌>>=◌}
use rava.Lua.{Value, nil, str, table, function, Lua}
use rava.Setup.{
  TableApi, Reg, register, new_module, new_metatable, new_class, name_field, hook_field,
}
use rava.Setup.Frame.{
  absent, IsPlainField, ArePlain, IsOpen, Keeps, AnyTable, Keeps-refl, Keeps-then, Keeps-free,
  set_registry-Keeps, set_field-Keeps, set_plain-Keeps, register-Keeps, register_plain-Keeps,
  new-Keeps,
}
use rava.Setup.Opening.{open_constructor, open_fiber, fiber_name}
use rava.Setup.Names.{fiber_meths}

module _ (L : Lua) (A : TableApi L) where
  open L use {Heap}
  open A use {c_function, set_field, set_registry, set_metatable}

  metatable-Keeps : (h : Heap) (t m : ℕ) → Keeps L A (λ u. u ≢ t) [] h (set_metatable h t m)
  metatable-Keeps h t m = record {
    alive = λ u a. A.set_metatable_alive h t m u a;
    registry = λ k e. A.set_metatable_registry h t m k;
    stays = λ u name free e o.
        let same = A.set_metatable_keeps h t m u free in
        record {
          there = same.alive o.there;
          named = same.fields name_field ∙ o.named;
          hooked = same.fields hook_field ∙ o.hooked;
          own = same.meta ∙ o.own;
          registered = A.set_metatable_registry h t m name ∙ o.registered;
        };
  }

  module _ (h : Heap) (name : List ℕ) (funcs : List Reg) where
    abbrev t : ℕ
    t = (L.new_table h).0

    abbrev h₁ : Heap
    h₁ = (L.new_table h).1

    abbrev h₂ : Heap
    h₂ = set_field h₁ t name_field (str name)

    abbrev h₃ : Heap
    h₃ = set_metatable h₂ t t

    abbrev h₄ : Heap
    h₄ = set_field h₃ t hook_field (function (c_function (codes "ravaL_lib_encoder")))

    abbrev h₅ : Heap
    h₅ = set_registry h₄ name (table t)

    pub module-Keeps : Keeps L A AnyTable (name ∷ []) h (new_module L A h name funcs).1
    unfolding new_module
    module-Keeps =
        let free : ℕ → Type 0 = λ u. u ≢ t in
        new-Keeps L A (name ∷ []) h (register L A h₅ t funcs) (
          Keeps-then L A free [] (name ∷ []) h₁ h₂ (register L A h₅ t funcs)
            (set_field-Keeps L A h₁ t name_field (str name))
            (Keeps-then L A free [] (name ∷ []) h₂ h₃ (register L A h₅ t funcs)
              (metatable-Keeps h₂ t t)
              (Keeps-then L A free [] (name ∷ []) h₃ h₄ (register L A h₅ t funcs)
                (set_field-Keeps L A h₃ t hook_field _)
                (Keeps-then L A free (name ∷ []) [] h₄ h₅ (register L A h₅ t funcs)
                  (Keeps-free L A free (name ∷ []) h₄ h₅ (set_registry-Keeps L A h₄ name (table t)))
                  (register-Keeps L A h₅ t funcs)))))

    named_first : IsOpen L A h₅ t name
    unfolding same_text
    named_first =
        let there₁ = A.new_alive h in
        let there₂ = A.set_field_alive h₁ t t name_field (str name) there₁ in
        let there₃ = A.set_metatable_alive h₂ t t t there₂ in
        let there₄ = A.set_field_alive h₃ t t hook_field _ there₃ in
        let same = A.set_registry_keeps h₄ name (table t) t in
        record {
          there = same.alive there₄;
          named =
              same.fields name_field
              ∙ A.set_field_other h₃ t t hook_field name_field _ (λ p. cc (p))
              ∙ A.set_metatable_fields h₂ t t t name_field
              ∙ A.set_field_at h₁ t name_field (str name);
          hooked = same.fields hook_field ∙ A.set_field_at h₃ t hook_field _;
          own = same.meta ∙ A.set_field_meta h₃ t t hook_field _ ∙ A.set_metatable_at h₂ t t;
          registered = A.set_registry_at h₄ name (table t);
        }

    pub module-IsOpen :
        ArePlain funcs
        → IsOpen L A (new_module L A h name funcs).1 (new_module L A h name funcs).0 name
    unfolding new_module
    module-IsOpen plain =
        let k = register_plain-Keeps L A h₅ t funcs plain in k.stays t name tt refl named_first

  -- A new class, of a name that the registry does not have yet.
  pub new_class-made :
      (h : Heap) (name : List ℕ) (meths : List Reg)
      → L.registry h (str name) ≡ nil
      → (h' : Heap) × (new_class L A h name meths ≡ ok ((L.new_table h).0, h'))
        × Keeps L A (λ u. u ≢ (L.new_table h).0) (name ∷ []) (L.new_table h).1 h'
  unfolding new_class new_metatable
  new_class-made h name meths e =
      let m = (L.new_table h).0 in
      let free : ℕ → Type 0 = λ u. u ≢ m in
      let h₁ = (L.new_table h).1 in
      let h₂ = set_registry h₁ name (table m) in
      let h₃ = set_field h₂ m (codes "__index") (table m) in
      let h₄ = register L A h₃ m meths in
      let h₅ = set_field h₄ m name_field (str name) in
      (
        h₅,
        rw e refl,
        Keeps-then L A free (name ∷ []) [] h₁ h₂ h₅
            (Keeps-free L A free (name ∷ []) h₁ h₂ (set_registry-Keeps L A h₁ name (table m)))
            (Keeps-then L A free [] [] h₂ h₃ h₅
              (set_field-Keeps L A h₂ m (codes "__index") (table m))
              (Keeps-then L A free [] [] h₃ h₄ h₅ (register-Keeps L A h₃ m meths)
                (set_field-Keeps L A h₄ m name_field (str name)))),
      )

  -- A run that makes one class, and gives module `t` a field.
  pub record Made (name : List ℕ) (h : Heap) (r : Outcome Heap) : Type 0 where
    pub after : Heap
    pub eq : r ≡ ok after
    pub keeps : Keeps L A AnyTable (name ∷ []) h after

  pub constructor-Made :
      (name key new : List ℕ) (meths more : List Reg) (t : ℕ) (h : Heap)
      → IsPlainField key
      → L.registry h (str name) ≡ nil
      → Made name h (open_constructor L A name meths more new key t h)
  unfolding open_constructor
  constructor-Made name key new meths more t h plain e =
      let m = (L.new_table h).0 in
      let (h₁, eq, k) = new_class-made h name meths e in
      let h₂ = register L A h₁ m more in
      let v = function (c_function new) in
      record {
        after = set_field h₂ t key v;
        eq = rw eq refl;
        keeps =
            Keeps-then L A AnyTable (name ∷ []) [] h h₂ (set_field h₂ t key v)
              (new-Keeps L A (name ∷ []) h h₂ (
                Keeps-then L A (λ u. u ≢ m) (name ∷ []) [] (L.new_table h).1 h₁ h₂ k
                  (register-Keeps L A h₁ m more)))
              (set_plain-Keeps L A h₂ t key v plain);
      }

  pub fiber-Made :
      (t : ℕ) (h : Heap)
      → L.registry h (str fiber_name) ≡ nil
      → Made fiber_name h (open_fiber L A t h)
  unfolding open_fiber same_text
  fiber-Made t h e =
      let m = (L.new_table h).0 in
      let (h₁, eq, k) = new_class-made h fiber_name fiber_meths e in
      let h₂ = set_field h₁ m (codes "yield") (A.coroutine_yield h₁) in
      let v = function (c_function (codes "rava_new_fiber")) in
      record {
        after = set_field h₂ t (codes "fiber") v;
        eq = rw eq refl;
        keeps =
            Keeps-then L A AnyTable (fiber_name ∷ []) [] h h₂ (set_field h₂ t (codes "fiber") v)
              (new-Keeps L A (fiber_name ∷ []) h h₂ (
                Keeps-then L A (λ u. u ≢ m) (fiber_name ∷ []) [] (L.new_table h).1 h₁ h₂ k
                  (set_field-Keeps L A h₁ m (codes "yield") (A.coroutine_yield h₁))))
              (set_plain-Keeps L A h₂ t (codes "fiber") v refl);
      }
