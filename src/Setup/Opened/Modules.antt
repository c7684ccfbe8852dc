-- ===== src/Setup/Opened/Modules.antt =====
-- The functions luaopen_rava, luaopen_rava_fs, luaopen_rava_socket, luaopen_rava_system and
-- luaopen_rava_process, on a state in whose registry none of their names stands yet.
use rava.Base.{ℕ, ◌≡◌, refl, ◌∙◌, List, [], ◌∷◌, ◌++◌, codes, same_text}
use rava.Outcome.{ok}
use rava.Lua.{str, table, function, Lua}
use rava.Setup.{TableApi, new_module}
use rava.Setup.Frame.{
  IsPlainField, IsOpen, AnyTable, Keeps-then, set_registry-Keeps, set_plain-Keeps,
}
use rava.Setup.Names.{core_funcs}
use rava.Setup.Opening.{open_fs, open_system, open_socket, open_process, open_rava}
use rava.Setup.Opened.{module-Keeps, module-IsOpen}
use rava.Setup.Opened.Parts.{
  file_classes, socket_classes, process_classes, process_names, all_classes, Unused, Unused-keep,
  core-plain, fs-Opens, system-Opens, socket-Opens,
}
use rava.Setup.Opened.Classes.{process-Opens}

-- The modules of the program.
abbrev pub module_names : List (List ℕ)
module_names =
    codes "rava"
    ∷ codes "rava.fs"
    ∷ codes "rava.socket"
    ∷ codes "rava.system"
    ∷ codes "rava.process"
    ∷ []

module _ (L : Lua) (A : TableApi L) where
  open L use {Heap}
  open A use {c_function, set_field, set_registry}

  abbrev with_decoder : Heap → Heap
  with_decoder h =
      set_registry h (codes "rava:lib:decoder") (function (c_function (codes "ravaL_lib_decoder")))

  abbrev core_module : Heap → ℕ × Heap
  core_module h = new_module L A (with_decoder h) (codes "rava") core_funcs

  opened_in_turn :
      {h₂ h₃ h₄ h₅ : Heap} {fs socket system process : ℕ} (h : Heap)
      → open_fs L A (core_module h).1 ≡ ok (fs, h₂)
      → open_socket L A (set_field h₂ (core_module h).0 (codes "fs") (table fs)) ≡ ok (socket, h₃)
      → open_system L A (set_field h₃ (core_module h).0 (codes "socket") (table socket))
        ≡ ok (system, h₄)
      → open_process L A (set_field h₄ (core_module h).0 (codes "system") (table system))
        ≡ ok (process, h₅)
      → open_rava L A h
        ≡ ok ((core_module h).0, set_field h₅ (core_module h).0 (codes "process") (table process))
  unfolding open_rava
  opened_in_turn h a b c d = rw (a, b, c, d)

  abbrev pub AllOpen : Heap → List (List ℕ) → Type 0
  AllOpen h [] = Unit {0}
  AllOpen h (n ∷ ns) = ((t : ℕ) × IsOpen L A h t n) × AllOpen h ns

  -- `luaopen_rava` succeeds on a state that has none of the program's classes yet, and leaves the
  -- decoder of modules and five modules, each with its name, with the hook that carries it to other
  -- states in its own metatable, and with its entry in the registry: what is set up later overwrites
  -- none of it.
  pub open_rava-AllOpen :
      (h : Heap)
      → Unused L A h all_classes
      → (t : ℕ) × (after : Heap) × (open_rava L A h ≡ ok (t, after))
        × AllOpen after module_names
        × (L.registry after (str (codes "rava:lib:decoder"))
            ≡ function (c_function (codes "ravaL_lib_decoder")))
  unfolding same_text
  open_rava-AllOpen h u =
      let decoder = codes "rava:lib:decoder" in
      let core = codes "rava" in
      let h₀ = set_registry h decoder (function (c_function (codes "ravaL_lib_decoder"))) in
      let k₀ =
        set_registry-Keeps L A h decoder (function (c_function (codes "ravaL_lib_decoder"))) in
      let (t, h₁) = new_module L A h₀ core core_funcs in
      let k₁ = module-Keeps L A h₀ core core_funcs in
      let o₁ = module-IsOpen L A h₀ core core_funcs core-plain in
      let u₁ =
        Unused-keep L A (decoder ∷ core ∷ []) all_classes h h₁
          (Keeps-then L A AnyTable (decoder ∷ []) (core ∷ []) h h₀ h₁ k₀ k₁) refl u in
      let a = fs-Opens L A h₁ (u₁.0, tt) in
      let a' = set_field a.after t (codes "fs") (table a.table_of) in
      let ka =
        Keeps-then L A AnyTable (codes "rava.fs" ∷ file_classes) [] h₁ a.after a' a.keeps
          (set_plain-Keeps L A a.after t (codes "fs") (table a.table_of) refl) in
      let u₂ =
        Unused-keep L A (codes "rava.fs" ∷ file_classes) (socket_classes ++ process_classes) h₁ a'
          ka refl u₁.1 in
      let b = socket-Opens L A a' (u₂.0, (u₂.1.0, (u₂.1.1.0, tt))) in
      let b' = set_field b.after t (codes "socket") (table b.table_of) in
      let kb =
        Keeps-then L A AnyTable (codes "rava.socket" ∷ socket_classes) [] a' b.after b' b.keeps
          (set_plain-Keeps L A b.after t (codes "socket") (table b.table_of) refl) in
      let u₃ =
        Unused-keep L A (codes "rava.socket" ∷ socket_classes) process_classes a' b' kb refl
          u₂.1.1.1 in
      let c = system-Opens L A b' in
      let c' = set_field c.after t (codes "system") (table c.table_of) in
      let kc =
        Keeps-then L A AnyTable (codes "rava.system" ∷ []) [] b' c.after c' c.keeps
          (set_plain-Keeps L A c.after t (codes "system") (table c.table_of) refl) in
      let u₄ = Unused-keep L A (codes "rava.system" ∷ []) process_classes b' c' kc refl u₃ in
      let d = process-Opens L A c' u₄ in
      let d' = set_field d.after t (codes "process") (table d.table_of) in
      let kd' = set_plain-Keeps L A d.after t (codes "process") (table d.table_of) refl in
      let kd =
        Keeps-then L A AnyTable (codes "rava.process" ∷ process_names) [] c' d.after d' d.keeps
          kd' in
      let kcd =
        Keeps-then L A AnyTable (codes "rava.system" ∷ []) (codes "rava.process" ∷ process_names) b'
          c' d' kc kd in
      let kbcd =
        Keeps-then L A AnyTable (codes "rava.socket" ∷ socket_classes)
          (codes "rava.system" ∷ codes "rava.process" ∷ process_names) a' b' d' kb kcd in
      let kall =
        Keeps-then L A AnyTable (codes "rava.fs" ∷ file_classes)
          (codes "rava.socket" ∷ socket_classes
            ++ codes "rava.system" ∷ codes "rava.process" ∷ process_names)
          h₁ a' d' ka kbcd in
      (
        t,
        d',
        opened_in_turn h a.eq b.eq c.eq d.eq,
        (
          (t, kall.stays t core tt refl o₁),
          (
            (
              a.table_of,
              kbcd.stays a.table_of (codes "rava.fs") tt refl (
                  kafter a.after t (codes "fs") a.table_of a.table_of (codes "rava.fs") refl
                    a.opened),
            ),
            (
              (
                b.table_of,
                kcd.stays b.table_of (codes "rava.socket") tt refl (
                    kafter b.after t (codes "socket") b.table_of b.table_of (codes "rava.socket")
                      refl b.opened),
              ),
              (
                (
                  c.table_of,
                  kd.stays c.table_of (codes "rava.system") tt refl (
                      kafter c.after t (codes "system") c.table_of c.table_of (codes "rava.system")
                        refl c.opened),
                ),
                ((d.table_of, kd'.stays d.table_of (codes "rava.process") tt refl d.opened), tt),
              ),
            ),
          ),
        ),
        kall.registry decoder refl ∙ k₁.registry decoder refl ∙ A.set_registry_at h decoder _,
      )
    where
      kafter :
          (h' : Heap) (m : ℕ) (key : List ℕ) (v t : ℕ) (name : List ℕ)
          → IsPlainField key
          → IsOpen L A h' t name
          → IsOpen L A (set_field h' m key (table v)) t name
      kafter h' m key v t name plain o =
          let k = set_plain-Keeps L A h' m key (table v) plain in k.stays t name tt refl o
