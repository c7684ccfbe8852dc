-- ===== src/Setup/Opened/Parts.antt =====
-- src/rava_fs.c, src/rava_socket.c and src/rava_system.c: what opening each module leaves.
use rava.Base.{ℕ, ◌≡◌, refl, ◌∙◌, true, List, [], ◌∷◌, ◌++◌, codes, same_text}
use rava.Outcome.{Outcome, ok}
use rava.Lua.{nil, str, Lua}
use rava.Setup.{TableApi, new_module}
use rava.Setup.Frame.{
  AllAbsent, all_absent, are_plain-ArePlain, all_absent-AllAbsent, ArePlain, IsOpen, Keeps,
  AnyTable, Keeps-then, new-Keeps,
}
use rava.Setup.Names.{
  core_funcs, fs_funcs, file_meths, process_funcs, socket_funcs, stream_meths, pipe_meths,
  udp_meths, tcp_meths, system_funcs,
}
use rava.Setup.Opening.{
  open_fs, open_system, open_socket, stream_names, thread_name, fiber_name, pipe_name,
}
use rava.Setup.Opened.{module-Keeps, module-IsOpen, new_class-made, constructor-Made}

-- The names of the classes that each module makes.
abbrev pub file_classes : List (List ℕ)
file_classes = codes "rava.fs.file" ∷ []

abbrev pub socket_classes : List (List ℕ)
socket_classes = pipe_name ∷ codes "rava.socket.udp" ∷ codes "rava.socket.tcp" ∷ []

abbrev pub process_classes : List (List ℕ)
process_classes =
    codes "rava.process.cond"
    ∷ fiber_name
    ∷ codes "rava.process.idle"
    ∷ codes "rava.process.spawn"
    ∷ thread_name
    ∷ codes "rava.process.timer"
    ∷ []

abbrev pub process_names : List (List ℕ)
process_names = process_classes ++ stream_names

abbrev pub all_classes : List (List ℕ)
all_classes = file_classes ++ (socket_classes ++ process_classes)

fs-plain : ArePlain fs_funcs
unfolding fs_funcs same_text
fs-plain = are_plain-ArePlain fs_funcs refl

pub process-plain : ArePlain process_funcs
unfolding process_funcs same_text
process-plain = are_plain-ArePlain process_funcs refl

socket-plain : ArePlain socket_funcs
unfolding socket_funcs same_text
socket-plain = are_plain-ArePlain socket_funcs refl

system-plain : ArePlain system_funcs
unfolding system_funcs same_text
system-plain = are_plain-ArePlain system_funcs refl

pub core-plain : ArePlain core_funcs
unfolding core_funcs same_text
core-plain = are_plain-ArePlain core_funcs refl

module _ (L : Lua) (A : TableApi L) where
  open L use {Heap}
  open A use {c_function, set_field, set_registry}

  abbrev pub Unused : Heap → List (List ℕ) → Type 0
  Unused h [] = Unit {0}
  Unused h (n ∷ ns) = (L.registry h (str n) ≡ nil) × Unused h ns

  pub Unused-keep :
      (names ns : List (List ℕ)) (h h' : Heap)
      → Keeps L A AnyTable names h h'
      → all_absent ns names ≡ true
      → Unused h ns
      → Unused h' ns
  Unused-keep names ns h h' k e u = each ns (all_absent-AllAbsent ns names e) u
    where
      each : (ns : List (List ℕ)) → AllAbsent ns names → Unused h ns → Unused h' ns
      each [] e u = tt
      each (n ∷ ns) e u = (k.registry n e.0 ∙ u.0, each ns e.1 u.1)

  -- A function that opens the module `name` and enters `names` besides.
  pub record Opens (name : List ℕ) (names : List (List ℕ)) (h : Heap) (r : Outcome (ℕ × Heap))
      : Type 0 where
    pub table_of : ℕ
    pub after : Heap
    pub eq : r ≡ ok (table_of, after)
    pub keeps : Keeps L A AnyTable (name ∷ names) h after
    pub opened : IsOpen L A after table_of name

  pub fs-Opens :
      (h : Heap) → Unused h file_classes → Opens (codes "rava.fs") file_classes h (open_fs L A h)
  unfolding open_fs same_text
  fs-Opens h u =
      let name = codes "rava.fs" in
      let h₁ = (new_module L A h name fs_funcs).1 in
      let k₁ = module-Keeps L A h name fs_funcs in
      let (h₂, eq, k) =
        new_class-made L A h₁ (codes "rava.fs.file") file_meths
          (k₁.registry (codes "rava.fs.file") refl ∙ u.0) in
      let k₂ = new-Keeps L A file_classes h₁ h₂ k in
      record {
        table_of = (new_module L A h name fs_funcs).0;
        after = h₂;
        eq = rw eq refl;
        keeps = Keeps-then L A AnyTable (name ∷ []) file_classes h h₁ h₂ k₁ k₂;
        opened =
            k₂.stays (new_module L A h name fs_funcs).0 name tt refl
              (module-IsOpen L A h name fs_funcs fs-plain);
      }

  pub system-Opens : (h : Heap) → Opens (codes "rava.system") [] h (open_system L A h)
  unfolding open_system
  system-Opens h =
      let name = codes "rava.system" in
      record {
        table_of = (new_module L A h name system_funcs).0;
        after = (new_module L A h name system_funcs).1;
        eq = refl;
        keeps = module-Keeps L A h name system_funcs;
        opened = module-IsOpen L A h name system_funcs system-plain;
      }

  pub socket-Opens :
      (h : Heap)
      → Unused h socket_classes
      → Opens (codes "rava.socket") socket_classes h (open_socket L A h)
  unfolding open_socket same_text
  socket-Opens h u =
      let name = codes "rava.socket" in
      let (t, h₁) = new_module L A h name socket_funcs in
      let k₁ = module-Keeps L A h name socket_funcs in
      let u₁ = Unused-keep (name ∷ []) socket_classes h h₁ k₁ refl u in
      let a =
        constructor-Made L A pipe_name (codes "pipe") (codes "rava_new_pipe") stream_meths
          pipe_meths t h₁ refl u₁.0 in
      let u₂ =
        Unused-keep (pipe_name ∷ []) (codes "rava.socket.udp" ∷ codes "rava.socket.tcp" ∷ []) h₁
          a.after a.keeps refl u₁.1 in
      let b =
        constructor-Made L A (codes "rava.socket.udp") (codes "udp") (codes "rava_new_udp")
          stream_meths udp_meths t a.after refl u₂.0 in
      let u₃ =
        Unused-keep (codes "rava.socket.udp" ∷ []) (codes "rava.socket.tcp" ∷ []) a.after b.after
          b.keeps refl u₂.1 in
      let c =
        constructor-Made L A (codes "rava.socket.tcp") (codes "tcp") (codes "rava_new_tcp")
          stream_meths tcp_meths t b.after refl u₃.0 in
      let k₂ =
        Keeps-then L A AnyTable (pipe_name ∷ [])
          (codes "rava.socket.udp" ∷ codes "rava.socket.tcp" ∷ []) h₁ a.after c.after a.keeps
          (Keeps-then L A AnyTable (codes "rava.socket.udp" ∷ []) (codes "rava.socket.tcp" ∷ [])
            a.after b.after c.after b.keeps c.keeps) in
      record {
        table_of = t;
        after = c.after;
        eq = rw (a.eq, b.eq, c.eq) refl;
        keeps = Keeps-then L A AnyTable (name ∷ []) socket_classes h h₁ c.after k₁ k₂;
        opened = k₂.stays t name tt refl (module-IsOpen L A h name socket_funcs socket-plain);
      }
