-- ===== src/Main/Start.antt =====
-- src/main.c, `rava_newlua`, and src/qmain.c, the shorter main function: what a new Lua state offers
-- to `require`, and the run of `init` alone.
use rava.Base.{
  ℕ, ◌≡◌, refl, ◌∙◌, Bool, true, false, List, [], ◌∷◌, Option, none, some, codes, same_text,
}
use rava.Lua.{Value, function, Lua}
use rava.Setup.{TableApi}
use rava.Setup.Frame.{absent, absent-head, absent-tail}

-- A name that `require` knows, and the C function that opens the module.
abbrev pub Preload : Type 0
Preload = List (List ℕ × List ℕ)

unfoldable pub preloads : Preload
preloads =
    (codes "rava", codes "luaopen_rava")
    ∷ (codes "rava.fs", codes "luaopen_rava_fs")
    ∷ (codes "rava.process", codes "luaopen_rava_process")
    ∷ (codes "rava.socket", codes "luaopen_rava_socket")
    ∷ (codes "rava.system", codes "luaopen_rava_system")
    ∷ []

module _ (L : Lua) (A : TableApi L) where
  open L use {Heap}
  open A use {c_function, set_field, field}

  unfoldable pub preload_all : Preload → ℕ → Heap → Heap
  preload_all [] t h = h
  preload_all ((name, func) ∷ ps) t h =
      preload_all ps t (set_field h t name (function (c_function func)))

  -- rava_newlua: `new` is the result of luaL_newstate; `open_libs` is luaL_openlibs, with the table
  -- package.preload.
  unfoldable pub new_lua : (Heap → ℕ × Heap) → Option Heap → Option (ℕ × Heap)
  unfolding preload_all preloads
  new_lua open_libs none = none
  new_lua open_libs (some h) = let (t, h₁) = open_libs h in some (t, preload_all preloads t h₁)

  abbrev names_of : Preload → List (List ℕ)
  names_of [] = []
  names_of ((name, func) ∷ ps) = name ∷ names_of ps

  abbrev pub Holds : Heap → ℕ → Preload → Type 0
  Holds h t [] = Unit {0}
  Holds h t ((name, func) ∷ ps) = (field h t name ≡ function (c_function func)) × Holds h t ps

  abbrev Distinct : Preload → Type 0
  Distinct [] = Unit {0}
  Distinct ((name, func) ∷ ps) = (absent name (names_of ps) ≡ true) × Distinct ps

  preload_all-other :
      (ps : Preload) (t : ℕ) (h : Heap) (name : List ℕ)
      → absent name (names_of ps) ≡ true
      → field (preload_all ps t h) t name ≡ field h t name
  unfolding preload_all
  preload_all-other [] t h name e = refl
  preload_all-other ((n, func) ∷ ps) t h name e =
      preload_all-other ps t (set_field h t n (function (c_function func))) name
        (absent-tail name n (names_of ps) e)
      ∙ A.set_field_other h t t n name _ (absent-head name n (names_of ps) e)

  preload_all-Holds :
      (ps : Preload) (t : ℕ) (h : Heap) → Distinct ps → Holds (preload_all ps t h) t ps
  unfolding preload_all
  preload_all-Holds [] t h d = tt
  preload_all-Holds ((n, func) ∷ ps) t h d =
      let h₁ = set_field h t n (function (c_function func)) in
      (preload_all-other ps t h₁ n d.0 ∙ A.set_field_at h t n _, preload_all-Holds ps t h₁ d.1)

  preloads-Distinct : Distinct preloads
  unfolding preloads same_text
  preloads-Distinct = (refl, (refl, (refl, (refl, (refl, tt)))))

  -- A new Lua state knows each of the five modules by the function that opens it.
  pub new_lua-Holds :
      (open_libs : Heap → ℕ × Heap) (h : Heap)
      → (t : ℕ) × (after : Heap) × (new_lua open_libs (some h) ≡ some (t, after))
        × Holds after t preloads
  unfolding new_lua
  new_lua-Holds open_libs h =
      let (t, h₁) = open_libs h in
      (t, preload_all preloads t h₁, refl, preload_all-Holds preloads t h₁ preloads-Distinct)

-- The main function of src/qmain.c: `do_string` is luaL_dostring of `require "init"`, and `print` is
-- printf of lua_tolstring of what it leaves. The status is the exit status; the state is not closed.
module _ {S : Type 0} (set_args : List (ℕ × List ℕ) → S → S) (do_string : S → Option Value × S)
    (print : Value → List ℕ) where
  abbrev printed : Option Value → List (List ℕ)
  printed none = []
  printed (some v) = print v ∷ []

  abbrev failed : Option Value → Bool
  failed none = false
  failed (some v) = true

  unfoldable pub quick_run : List (ℕ × List ℕ) → S → Bool × List (List ℕ) × S
  quick_run args s = let (r, s') = do_string (set_args args s) in (failed r, printed r, s')
