-- ===== src/Setup/Frame.antt =====
-- What the set-up of modules and classes leaves as it is: a module stays open while other modules and
-- classes are made.
use rava.Base.{
  ℕ, ◌≡◌, ◌≢◌, refl, sym, ap, ◌∙◌, Bool, true, false, not, ◌&&◌, List, [], ◌∷◌, ◌++◌, some,
  same_text, same_text_refl, codes,
}
use rava.Lua.{Value, str, table, function, Lua}
use rava.Setup.{TableApi, Untouched, Reg, register, name_field, hook_field}

-- The text is none of these.
abbrev pub absent : List ℕ → List (List ℕ) → Bool
absent k [] = true
absent k (n ∷ ns) = not (same_text k n) && absent k ns

pub absent-head : (k n : List ℕ) (ns : List (List ℕ)) → absent k (n ∷ ns) ≡ true → k ≢ n
absent-head k n ns e p =
    let same : same_text k n ≡ true = ap (same_text k) (sym p) ∙ same_text_refl k in
    let z : ⊥ = cc (same, e) in z

pub absent-tail :
    (k n : List ℕ) (ns : List (List ℕ)) → absent k (n ∷ ns) ≡ true → absent k ns ≡ true
absent-tail k n ns e = split (same_text k n) e
  where
    split : (b : Bool) → (not b && absent k ns) ≡ true → absent k ns ≡ true
    split true e = cc
    split false e = e

pub absent-append_left :
    (k : List ℕ) (ns ms : List (List ℕ)) → absent k (ns ++ ms) ≡ true → absent k ns ≡ true
absent-append_left k [] ms e = refl
absent-append_left k (n ∷ ns) ms e = split (same_text k n) e (absent-append_left k ns ms)
  where
    split :
        (b : Bool)
        → (not b && absent k (ns ++ ms)) ≡ true
        → (absent k (ns ++ ms) ≡ true → absent k ns ≡ true)
        → (not b && absent k ns) ≡ true
    split true e rest = cc
    split false e rest = rest e

pub absent-append_right :
    (k : List ℕ) (ns ms : List (List ℕ)) → absent k (ns ++ ms) ≡ true → absent k ms ≡ true
absent-append_right k [] ms e = e
absent-append_right k (n ∷ ns) ms e = absent-append_right k ns ms (absent-tail k n (ns ++ ms) e)

-- A field that is neither the name nor the hook of a module.
abbrev pub IsPlainField : List ℕ → Type 0
IsPlainField k = absent k (name_field ∷ hook_field ∷ []) ≡ true

abbrev pub ArePlain : List Reg → Type 0
ArePlain [] = Unit {0}
ArePlain (f ∷ fs) = IsPlainField f.name × ArePlain fs

abbrev pub AllAbsent : List (List ℕ) → List (List ℕ) → Type 0
AllAbsent [] names = Unit {0}
AllAbsent (n ∷ ns) names = (absent n names ≡ true) × AllAbsent ns names

-- Both as tests.
abbrev pub are_plain : List Reg → Bool
are_plain [] = true
are_plain (f ∷ fs) = absent f.name (name_field ∷ hook_field ∷ []) && are_plain fs

abbrev pub all_absent : List (List ℕ) → List (List ℕ) → Bool
all_absent [] names = true
all_absent (n ∷ ns) names = absent n names && all_absent ns names

and_true : (a b : Bool) → (a && b) ≡ true → (a ≡ true) × (b ≡ true)
and_true true b e = (refl, e)
and_true false b e = cc

pub are_plain-ArePlain : (fs : List Reg) → are_plain fs ≡ true → ArePlain fs
are_plain-ArePlain [] e = tt
are_plain-ArePlain (f ∷ fs) e =
    let (p, q) = and_true (absent f.name (name_field ∷ hook_field ∷ [])) (are_plain fs) e in
    (p, are_plain-ArePlain fs q)

pub all_absent-AllAbsent :
    (ns names : List (List ℕ)) → all_absent ns names ≡ true → AllAbsent ns names
all_absent-AllAbsent [] names e = tt
all_absent-AllAbsent (n ∷ ns) names e =
    let (p, q) = and_true (absent n names) (all_absent ns names) e in
    (p, all_absent-AllAbsent ns names q)

abbrev pub AnyTable : ℕ → Type 0
AnyTable t = Unit {0}

module _ (L : Lua) (A : TableApi L) where
  open L use {Heap}
  open A use {Alive, c_function, set_field, set_registry, set_metatable, field, metatable}

  -- Table `t` is the module of this name: what `ravaL_module` sets up.
  pub record IsOpen (h : Heap) (t : ℕ) (name : List ℕ) : Type 0 where
    pub there : Alive h t
    pub named : field h t name_field ≡ str name
    pub hooked : field h t hook_field ≡ function (c_function (codes "ravaL_lib_encoder"))
    pub own : metatable h t ≡ some t
    pub registered : L.registry h (str name) ≡ table t

  -- A run of the set-up that enters these names in the registry keeps the tables that are there, every
  -- other entry, and each module of another name whose table is free.
  pub record Keeps (IsFree : ℕ → Type 0) (names : List (List ℕ)) (h h' : Heap) : Type 0 where
    pub alive : (u : ℕ) → Alive h u → Alive h' u
    pub registry :
        (k : List ℕ) → absent k names ≡ true → L.registry h' (str k) ≡ L.registry h (str k)
    pub stays :
        (t : ℕ) (name : List ℕ)
        → IsFree t
        → absent name names ≡ true
        → IsOpen h t name
        → IsOpen h' t name

  pub Keeps-refl : (IsFree : ℕ → Type 0) (h : Heap) → Keeps IsFree [] h h
  Keeps-refl IsFree h = record {
    alive = λ u a. a;
    registry = λ k e. refl;
    stays = λ t name free e o. o;
  }

  pub Keeps-then :
      (IsFree : ℕ → Type 0) (ns ms : List (List ℕ)) (h₀ h₁ h₂ : Heap)
      → Keeps IsFree ns h₀ h₁
      → Keeps IsFree ms h₁ h₂
      → Keeps IsFree (ns ++ ms) h₀ h₂
  Keeps-then IsFree ns ms h₀ h₁ h₂ a b = record {
    alive = λ u there. b.alive u (a.alive u there);
    registry = λ k e.
        b.registry k (absent-append_right k ns ms e) ∙ a.registry k (absent-append_left k ns ms e);
    stays = λ t name free e o.
        b.stays t name free (absent-append_right name ns ms e)
          (a.stays t name free (absent-append_left name ns ms e) o);
  }

  pub Keeps-free :
      (IsFree : ℕ → Type 0) (ns : List (List ℕ)) (h h' : Heap)
      → Keeps AnyTable ns h h'
      → Keeps IsFree ns h h'
  Keeps-free IsFree ns h h' k = record {
    alive = k.alive;
    registry = k.registry;
    stays = λ t name free e o. k.stays t name tt e o;
  }

  -- A table that was untouched, and whose entry in the registry is as before, is open as before.
  Untouched-IsOpen :
      (h h' : Heap) (t : ℕ) (name : List ℕ)
      → Untouched L field metatable Alive h h' t
      → L.registry h' (str name) ≡ L.registry h (str name)
      → IsOpen h t name
      → IsOpen h' t name
  Untouched-IsOpen h h' t name u r o = record {
    there = u.alive o.there;
    named = u.fields name_field ∙ o.named;
    hooked = u.fields hook_field ∙ o.hooked;
    own = u.meta ∙ o.own;
    registered = r ∙ o.registered;
  }

  pub new_table-Keeps : (h : Heap) → Keeps AnyTable [] h (L.new_table h).1
  new_table-Keeps h = record {
    alive = λ u a. let n = A.new_keeps h u a in n.alive a;
    registry = λ k e. A.new_registry h k;
    stays = λ t name free e o.
        Untouched-IsOpen h (L.new_table h).1 t name (A.new_keeps h t o.there)
          (A.new_registry h name) o;
  }

  pub set_registry-Keeps :
      (h : Heap) (k : List ℕ) (v : Value) → Keeps AnyTable (k ∷ []) h (set_registry h k v)
  set_registry-Keeps h k v = record {
    alive = λ u a. let n = A.set_registry_keeps h k v u in n.alive a;
    registry = λ c e. A.set_registry_other h k c v (absent-head c k [] e);
    stays = λ t name free e o.
        Untouched-IsOpen h (set_registry h k v) t name (A.set_registry_keeps h k v t)
          (A.set_registry_other h k name v (absent-head name k [] e)) o;
  }

  -- A field of a table that is not free.
  pub set_field-Keeps :
      (h : Heap) (m : ℕ) (k : List ℕ) (v : Value) → Keeps (λ t. t ≢ m) [] h (set_field h m k v)
  set_field-Keeps h m k v = record {
    alive = λ u a. A.set_field_alive h m u k v a;
    registry = λ c e. A.set_field_registry h m k c v;
    stays = λ t name free e o.
        Untouched-IsOpen h (set_field h m k v) t name
          (record {
            fields = λ c. A.set_field_keeps h m t k c v free;
            meta = A.set_field_meta h m t k v;
            alive = λ a. A.set_field_alive h m t k v a;
          })
          (A.set_field_registry h m k name v) o;
  }

  -- A field of any table, but neither its name nor its hook.
  pub set_plain-Keeps :
      (h : Heap) (m : ℕ) (k : List ℕ) (v : Value)
      → IsPlainField k
      → Keeps AnyTable [] h (set_field h m k v)
  set_plain-Keeps h m k v plain = record {
    alive = λ u a. A.set_field_alive h m u k v a;
    registry = λ c e. A.set_field_registry h m k c v;
    stays = λ t name free e o. record {
      there = A.set_field_alive h m t k v o.there;
      named =
          A.set_field_other h m t k name_field v
            (λ p. absent-head k name_field (hook_field ∷ []) plain (sym p))
          ∙ o.named;
      hooked =
          A.set_field_other h m t k hook_field v (λ p.
            absent-head k hook_field [] (absent-tail k name_field (hook_field ∷ []) plain) (sym p))
          ∙ o.hooked;
      own = A.set_field_meta h m t k v ∙ o.own;
      registered = A.set_field_registry h m k name v ∙ o.registered;
    };
  }

  pub register-Keeps :
      (h : Heap) (m : ℕ) (fs : List Reg) → Keeps (λ t. t ≢ m) [] h (register L A h m fs)
  unfolding register
  register-Keeps h m [] = Keeps-refl (λ t. t ≢ m) h
  register-Keeps h m (f ∷ fs) =
      let v = function (c_function f.func) in
      Keeps-then (λ t. t ≢ m) [] [] h (set_field h m f.name v)
        (register L A (set_field h m f.name v) m fs) (set_field-Keeps h m f.name v)
        (register-Keeps (set_field h m f.name v) m fs)

  pub register_plain-Keeps :
      (h : Heap) (m : ℕ) (fs : List Reg) → ArePlain fs → Keeps AnyTable [] h (register L A h m fs)
  unfolding register
  register_plain-Keeps h m [] plain = Keeps-refl AnyTable h
  register_plain-Keeps h m (f ∷ fs) plain =
      let v = function (c_function f.func) in
      Keeps-then AnyTable [] [] h (set_field h m f.name v)
        (register L A (set_field h m f.name v) m fs) (set_plain-Keeps h m f.name v plain.0)
        (register_plain-Keeps (set_field h m f.name v) m fs plain.1)

  -- What is done to a table that was made on the way touches no module.
  pub new-Keeps :
      (ns : List (List ℕ)) (h h' : Heap)
      → Keeps (λ t. t ≢ (L.new_table h).0) ns (L.new_table h).1 h'
      → Keeps AnyTable ns h h'
  new-Keeps ns h h' k =
      let new = new_table-Keeps h in
      record {
        alive = λ u a. k.alive u (new.alive u a);
        registry = λ c e. k.registry c e ∙ A.new_registry h c;
        stays = λ t name free e o.
            k.stays t name (A.new_other h t o.there) e (new.stays t name tt refl o);
      }

  pub object-Keeps : (h : Heap) (m : Value) → Keeps AnyTable [] h (A.new_object h m).1
  object-Keeps h m = record {
    alive = λ u a. let n = A.new_object_keeps h m u in n.alive a;
    registry = λ k e. A.new_object_registry h m k;
    stays = λ t name free e o.
        Untouched-IsOpen h (A.new_object h m).1 t name (A.new_object_keeps h m t)
          (A.new_object_registry h m name) o;
  }

  pub self-Keeps : (h : Heap) (s : ℕ) → Keeps AnyTable [] h (A.set_self h s)
  self-Keeps h s = record {
    alive = λ u a. let n = A.set_self_keeps h s u in n.alive a;
    registry = λ k e. A.set_self_registry h s k;
    stays = λ t name free e o.
        Untouched-IsOpen h (A.set_self h s) t name (A.set_self_keeps h s t)
          (A.set_self_registry h s name) o;
  }
