-- ===== src/Setup/Opened/Classes.antt =====
-- src/rava_process.c: the module `process` with its classes and standard streams.
use rava.Base.{ℕ, ◌≡◌, refl, ◌∙◌, true, List, [], ◌∷◌, ◌++◌, codes, same_text}
use rava.Outcome.{Outcome, ok, ◌>>=◌}
use rava.Lua.{nil, str, userdata, Lua}
use rava.Setup.{TableApi, new_module}
use rava.Setup.Frame.{
  absent, IsPlainField, Keeps, AnyTable, Keeps-refl, Keeps-then, set_registry-Keeps,
  set_plain-Keeps, object-Keeps, self-Keeps,
}
use rava.Setup.Names.{process_funcs, cond_meths, idle_meths, spawn_meths, thread_meths, timer_meths}
use rava.Setup.Opening.{
  open_constructor, open_fiber, process_init, open_streams, stream_names, open_process, thread_name,
  fiber_name, pipe_name,
}
use rava.Setup.Opened.{module-Keeps, module-IsOpen, Made, constructor-Made, fiber-Made}
use rava.Setup.Opened.Parts.{
  process_classes, process_names, Unused, Unused-keep, Opens, process-plain,
}

module _ (L : Lua) (A : TableApi L) where
  open L use {Heap}
  open A use {c_function, set_field, set_registry}

  record MadeAll (names : List (List ℕ)) (h : Heap) (r : Outcome Heap) : Type 0 where
    after : Heap
    eq : r ≡ ok after
    keeps : Keeps L A AnyTable names h after

  -- One more class.
  Made-next :
      (names : List (List ℕ)) (n : List ℕ) (h : Heap) (r : Outcome Heap) (f : Heap → Outcome Heap)
      → L.registry h (str n) ≡ nil
      → absent n names ≡ true
      → MadeAll names h r
      → ((h' : Heap) → L.registry h' (str n) ≡ nil → Made L A n h' (f h'))
      → MadeAll (names ++ n ∷ []) h (r >>= f)
  Made-next names n h r f unused apart a make =
      let b = make a.after (a.keeps.registry n apart ∙ unused) in
      record {
        after = b.after;
        eq = rw a.eq b.eq;
        keeps = Keeps-then L A AnyTable names (n ∷ []) h a.after b.after a.keeps b.keeps;
      }

  init-Keeps : (h : Heap) → Keeps L A AnyTable [] h (process_init L A h)
  unfolding process_init
  init-Keeps h =
      let m = L.registry h (str thread_name) in
      let h₁ = (A.new_object h m).1 in
      Keeps-then L A AnyTable [] [] h h₁ (process_init L A h) (object-Keeps L A h m)
        (self-Keeps L A h₁ (A.new_object h m).0)

  abbrev ArePlainFields : List (List ℕ) → Type 0
  ArePlainFields [] = Unit {0}
  ArePlainFields (n ∷ ns) = IsPlainField n × ArePlainFields ns

  streams-Keeps :
      (names : List (List ℕ)) (t : ℕ) (h : Heap)
      → ArePlainFields names
      → Keeps L A AnyTable names h (open_streams L A names t h)
  unfolding open_streams
  streams-Keeps [] t h plain = Keeps-refl L A AnyTable h
  streams-Keeps (n ∷ ns) t h plain =
      let m = L.registry h (str pipe_name) in
      let (o, h₁) = A.new_object h m in
      let h₂ = set_registry h₁ n (userdata o) in
      let h₃ = set_field h₂ t n (userdata o) in
      Keeps-then L A AnyTable [] (n ∷ ns) h h₁ (open_streams L A (n ∷ ns) t h)
        (object-Keeps L A h m)
        (Keeps-then L A AnyTable (n ∷ []) ns h₁ h₂ (open_streams L A ns t h₃)
          (set_registry-Keeps L A h₁ n (userdata o))
          (Keeps-then L A AnyTable [] ns h₂ h₃ (open_streams L A ns t h₃)
            (set_plain-Keeps L A h₂ t n (userdata o) plain.0) (streams-Keeps ns t h₃ plain.1)))

  streams-plain : ArePlainFields stream_names
  unfolding same_text
  streams-plain = (refl, (refl, (refl, tt)))

  classes-Made :
      (t : ℕ) (h : Heap)
      → Unused L A h process_classes
      → MadeAll process_classes h (
          open_constructor L A
            (codes "rava.process.cond")
            cond_meths
            []
            (codes "rava_new_cond")
            (codes "cond")
            t
            h
          >>= open_fiber L A t
          >>= open_constructor L A
              (codes "rava.process.idle")
              idle_meths
              []
              (codes "rava_new_idle")
              (codes "idle")
              t
          >>= open_constructor L A
              (codes "rava.process.spawn")
              spawn_meths
              []
              (codes "rava_new_spawn")
              (codes "spawn")
              t
          >>= open_constructor L A thread_name thread_meths []
              (codes "rava_new_thread")
              (codes "thread")
              t
          >>= open_constructor L A
              (codes "rava.process.timer")
              timer_meths
              []
              (codes "rava_new_timer")
              (codes "timer")
              t)
  unfolding same_text
  classes-Made t h (cond, (fiber, (idle, (spawn, (thread, (timer, end)))))) =
      let a =
        constructor-Made L A (codes "rava.process.cond") (codes "cond") (codes "rava_new_cond")
          cond_meths [] t h refl cond in
      let a' : MadeAll (codes "rava.process.cond" ∷ []) h _ = record {
        after = a.after;
        eq = a.eq;
        keeps = a.keeps;
      } in
      let b =
        Made-next (codes "rava.process.cond" ∷ []) fiber_name h _ (open_fiber L A t) fiber refl a'
          (fiber-Made L A t) in
      let c = Made-next _ (codes "rava.process.idle") h _ _ idle refl b λ h'.
        constructor-Made L A (codes "rava.process.idle") (codes "idle") (codes "rava_new_idle")
          idle_meths [] t h' refl in
      let d = Made-next _ (codes "rava.process.spawn") h _ _ spawn refl c λ h'.
        constructor-Made L A (codes "rava.process.spawn") (codes "spawn") (codes "rava_new_spawn")
          spawn_meths [] t h' refl in
      let e = Made-next _ thread_name h _ _ thread refl d λ h'.
        constructor-Made L A thread_name (codes "thread") (codes "rava_new_thread") thread_meths []
          t h' refl in
      Made-next _ (codes "rava.process.timer") h _ _ timer refl e λ h'.
        constructor-Made L A (codes "rava.process.timer") (codes "timer") (codes "rava_new_timer")
          timer_meths [] t h' refl

  pub process-Opens :
      (h : Heap)
      → Unused L A h process_classes
      → Opens L A (codes "rava.process") process_names h (open_process L A h)
  unfolding open_process same_text
  process-Opens h u =
      let name = codes "rava.process" in
      let (t, h₁) = new_module L A h name process_funcs in
      let k₁ = module-Keeps L A h name process_funcs in
      let u₁ = Unused-keep L A (name ∷ []) process_classes h h₁ k₁ refl u in
      let a = classes-Made t h₁ u₁ in
      let h₂ = process_init L A a.after in
      let h₃ = open_streams L A stream_names t h₂ in
      let k₂ = Keeps-then L A AnyTable process_classes stream_names h₁ a.after h₃ a.keeps (
        Keeps-then L A AnyTable [] stream_names a.after h₂ h₃ (init-Keeps a.after)
          (streams-Keeps stream_names t h₂ streams-plain)) in
      record {
        table_of = t;
        after = h₃;
        eq = rw a.eq refl;
        keeps = Keeps-then L A AnyTable (name ∷ []) process_names h h₁ h₃ k₁ k₂;
        opened = k₂.stays t name tt refl (module-IsOpen L A h name process_funcs process-plain);
      }
