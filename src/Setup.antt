-- ===== src/Setup.antt =====
-- src/rava_core.c, `ravaL_module` and `ravaL_class`: the tables that a Lua state gets for the modules
-- and classes of the program.
--
-- LuaJIT's tables are given, with what the set-up relies on; a C function is given by its name.
pub mod Names
pub mod Opening
pub mod Frame
pub mod Opened
pub mod Travel
use rava.Base.{ℕ, ◌≡◌, ◌≢◌, List, [], ◌∷◌, Option, none, some, codes}
use rava.Outcome.{Outcome, ok, raised, wrong_type}
use rava.Lua.{Value, nil, str, table, function, userdata, Lua}

-- luaL_Reg: a name, and the C function that it stands for
pub record Reg : Type 0 where
  pub name : List ℕ
  pub func : List ℕ

abbrev pub reg : List ℕ → List ℕ → Reg
reg name func = record { name = name; func = func }

abbrev pub name_field : List ℕ
name_field = codes "__name"

abbrev pub hook_field : List ℕ
hook_field = codes "__serialize"

module _ (L : Lua) where
  open L use {Heap}

  -- What is there of a table stays: its fields, its metatable, and that it is there.
  pub record Untouched (field : Heap → ℕ → List ℕ → Value) (metatable : Heap → ℕ → Option ℕ)
      (Alive : Heap → ℕ → Type 0) (h h' : Heap) (u : ℕ) : Type 0 where
    pub fields : (k : List ℕ) → field h' u k ≡ field h u k
    pub meta : metatable h' u ≡ metatable h u
    pub alive : Alive h u → Alive h' u

  pub record TableApi : Type 1 where
    pub Alive : Heap → ℕ → Type 0
    -- lua_pushcfunction
    pub c_function : List ℕ → ℕ
    -- lua_setfield on a table whose metatable has no __newindex, and on the registry
    pub set_field : Heap → ℕ → List ℕ → Value → Heap
    pub set_registry : Heap → List ℕ → Value → Heap
    pub set_metatable : Heap → ℕ → ℕ → Heap
    -- lua_newuserdata and lua_setmetatable, with the value that luaL_getmetatable pushed
    pub new_object : Heap → Value → ℕ × Heap
    -- lua_rawset of the running thread's entry in the registry
    pub set_self : Heap → ℕ → Heap
    -- lua_getglobal of `coroutine` and lua_getfield of `yield`
    pub coroutine_yield : Heap → Value
    pub field : Heap → ℕ → List ℕ → Value
    pub metatable : Heap → ℕ → Option ℕ
    pub new_alive : (h : Heap) → Alive (L.new_table h).1 (L.new_table h).0
    pub new_other : (h : Heap) (u : ℕ) → Alive h u → u ≢ (L.new_table h).0
    pub new_keeps :
        (h : Heap) (u : ℕ) → Alive h u → Untouched field metatable Alive h (L.new_table h).1 u
    pub new_registry :
        (h : Heap) (k : List ℕ) → L.registry (L.new_table h).1 (str k) ≡ L.registry h (str k)
    pub set_field_at :
        (h : Heap) (t : ℕ) (k : List ℕ) (v : Value) → field (set_field h t k v) t k ≡ v
    pub set_field_alive :
        (h : Heap) (t u : ℕ) (k : List ℕ) (v : Value) → Alive h u → Alive (set_field h t k v) u
    pub set_field_other :
        (h : Heap) (t u : ℕ) (k c : List ℕ) (v : Value)
        → c ≢ k
        → field (set_field h t k v) u c ≡ field h u c
    pub set_field_keeps :
        (h : Heap) (t u : ℕ) (k c : List ℕ) (v : Value)
        → u ≢ t
        → field (set_field h t k v) u c ≡ field h u c
    pub set_field_meta :
        (h : Heap) (t u : ℕ) (k : List ℕ) (v : Value)
        → metatable (set_field h t k v) u ≡ metatable h u
    pub set_field_registry :
        (h : Heap) (t : ℕ) (k c : List ℕ) (v : Value)
        → L.registry (set_field h t k v) (str c) ≡ L.registry h (str c)
    pub set_registry_at :
        (h : Heap) (k : List ℕ) (v : Value) → L.registry (set_registry h k v) (str k) ≡ v
    pub set_registry_other :
        (h : Heap) (k c : List ℕ) (v : Value)
        → c ≢ k
        → L.registry (set_registry h k v) (str c) ≡ L.registry h (str c)
    pub set_registry_keeps :
        (h : Heap) (k : List ℕ) (v : Value) (u : ℕ)
        → Untouched field metatable Alive h (set_registry h k v) u
    pub set_metatable_at : (h : Heap) (t m : ℕ) → metatable (set_metatable h t m) t ≡ some m
    pub set_metatable_fields :
        (h : Heap) (t m u : ℕ) (k : List ℕ) → field (set_metatable h t m) u k ≡ field h u k
    pub set_metatable_keeps :
        (h : Heap) (t m u : ℕ) → u ≢ t → Untouched field metatable Alive h (set_metatable h t m) u
    pub set_metatable_alive : (h : Heap) (t m u : ℕ) → Alive h u → Alive (set_metatable h t m) u
    pub set_metatable_registry :
        (h : Heap) (t m : ℕ) (k : List ℕ)
        → L.registry (set_metatable h t m) (str k) ≡ L.registry h (str k)
    pub new_object_keeps :
        (h : Heap) (m : Value) (u : ℕ) → Untouched field metatable Alive h (new_object h m).1 u
    pub new_object_registry :
        (h : Heap) (m : Value) (k : List ℕ)
        → L.registry (new_object h m).1 (str k) ≡ L.registry h (str k)
    pub set_self_keeps : (h : Heap) (s u : ℕ) → Untouched field metatable Alive h (set_self h s) u
    pub set_self_registry :
        (h : Heap) (s : ℕ) (k : List ℕ) → L.registry (set_self h s) (str k) ≡ L.registry h (str k)
    -- luaL_getmetafield
    pub metafield :
        (h : Heap) (t m g : ℕ)
        → metatable h t ≡ some m
        → field h m hook_field ≡ function g
        → L.serializer h (table t) ≡ some (function g)

  module _ (A : TableApi) where
    open A use {c_function, set_field, set_registry, set_metatable}

    -- luaL_register(L, NULL, funcs)
    unfoldable pub register : Heap → ℕ → List Reg → Heap
    register h t [] = h
    register h t (f ∷ fs) = register (set_field h t f.name (function (c_function f.func))) t fs

    -- ravaL_module: the table that it leaves on the stack
    unfoldable pub new_module : Heap → List ℕ → List Reg → ℕ × Heap
    unfolding register
    new_module h name funcs =
        let (t, h₁) = L.new_table h in
        let h₂ = set_field h₁ t name_field (str name) in
        let h₃ = set_metatable h₂ t t in
        let h₄ = set_field h₃ t hook_field (function (c_function (codes "ravaL_lib_encoder"))) in
        let h₅ = set_registry h₄ name (table t) in (t, register h₅ t funcs)

    -- luaL_newmetatable: the registry's entry, or a new table that becomes it
    unfoldable pub new_metatable : Heap → List ℕ → Value × Heap
    new_metatable h name = found (L.registry h (str name))
      where
        found : Value → Value × Heap
        found nil = let (t, h₁) = L.new_table h in (table t, set_registry h₁ name (table t))
        found v = (v, h)

    -- ravaL_class; a field of what is not a table raises
    unfoldable pub new_class : Heap → List ℕ → List Reg → Outcome (ℕ × Heap)
    unfolding register new_metatable
    new_class h name meths = fill (new_metatable h name)
      where
        fill : Value × Heap → Outcome (ℕ × Heap)
        fill (table m, h₁) =
            let h₂ = set_field h₁ m (codes "__index") (table m) in
            let h₃ = register h₂ m meths in ok (m, set_field h₃ m name_field (str name))
        fill (v, h₁) = raised wrong_type
