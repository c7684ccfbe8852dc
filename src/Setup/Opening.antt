-- ===== src/Setup/Opening.antt =====
-- src/rava.c, `luaopen_rava`, and the functions luaopen_rava_* that it calls: src/rava_fs.c,
-- src/rava_socket.c, src/rava_system.c, src/rava_process.c and the files of their classes.
use rava.Base.{ℕ, List, [], ◌∷◌, codes}
use rava.Outcome.{Outcome, ok, ◌>>=◌}
use rava.Lua.{str, table, function, userdata, Lua}
use rava.Setup.{TableApi, Reg, register, new_module, new_class}
use rava.Setup.Names.{
  core_funcs, fs_funcs, file_meths, process_funcs, cond_meths, fiber_meths, idle_meths, spawn_meths,
  thread_meths, timer_meths, socket_funcs, stream_meths, pipe_meths, udp_meths, tcp_meths,
  system_funcs,
}

-- RAVA_PROCESS_THREAD, RAVA_PROCESS_FIBER and RAVA_SOCKET_PIPE
abbrev pub thread_name : List ℕ
thread_name = codes "rava.process.thread"

abbrev pub fiber_name : List ℕ
fiber_name = codes "rava.process.fiber"

abbrev pub pipe_name : List ℕ
pipe_name = codes "rava.socket.pipe"

abbrev pub stream_names : List (List ℕ)
stream_names = codes "stdin" ∷ codes "stdout" ∷ codes "stderr" ∷ []

module _ (L : Lua) (A : TableApi L) where
  open L use {Heap}
  open A use {c_function, set_field, set_registry, new_object, set_self, coroutine_yield}

  -- luaopen_rava_fs
  unfoldable pub open_fs : Heap → Outcome (ℕ × Heap)
  open_fs h =
      let (t, h₁) = new_module L A h (codes "rava.fs") fs_funcs in
      new_class L A h₁ (codes "rava.fs.file") file_meths >>= λ (m, h₂). ok (t, h₂)

  -- luaopen_rava_system
  unfoldable pub open_system : Heap → Outcome (ℕ × Heap)
  open_system h = ok (new_module L A h (codes "rava.system") system_funcs)

  -- The functions luaopen_rava_process_* and luaopen_rava_socket_* make a class and leave the function
  -- that makes its objects, which becomes a field of the module.
  unfoldable pub open_constructor :
      List ℕ → List Reg → List Reg → List ℕ → List ℕ → ℕ → Heap → Outcome Heap
  open_constructor name meths more new key t h = new_class L A h name meths >>= λ (m, h₁).
      ok (set_field (register L A h₁ m more) t key (function (c_function new)))

  -- luaopen_rava_process_fiber also gives the class the function coroutine.yield.
  unfoldable pub open_fiber : ℕ → Heap → Outcome Heap
  open_fiber t h = new_class L A h fiber_name fiber_meths >>= λ (m, h₁). ok (
      set_field (set_field h₁ m (codes "yield") (coroutine_yield h₁)) t (codes "fiber")
        (function (c_function (codes "rava_new_fiber"))))

  -- luaopen_rava_socket
  unfoldable pub open_socket : Heap → Outcome (ℕ × Heap)
  open_socket h =
      let (t, h₁) = new_module L A h (codes "rava.socket") socket_funcs in
      open_constructor pipe_name stream_meths pipe_meths (codes "rava_new_pipe") (codes "pipe") t h₁
      >>= open_constructor (codes "rava.socket.udp") stream_meths udp_meths (codes "rava_new_udp")
          (codes "udp") t
      >>= open_constructor (codes "rava.socket.tcp") stream_meths tcp_meths (codes "rava_new_tcp")
          (codes "tcp") t
      >>= λ h₂. ok (t, h₂)

  -- rava_process_init: the userdata of the main thread, under the running Lua thread
  unfoldable pub process_init : Heap → Heap
  process_init h = let (s, h₁) = new_object h (L.registry h (str thread_name)) in set_self h₁ s

  -- The loop over stdin, stdout and stderr: an object of the class of pipes, in the registry and in
  -- the module
  unfoldable pub open_streams : List (List ℕ) → ℕ → Heap → Heap
  open_streams [] t h = h
  open_streams (name ∷ names) t h =
      let (o, h₁) = new_object h (L.registry h (str pipe_name)) in
      open_streams names t (set_field (set_registry h₁ name (userdata o)) t name (userdata o))

  -- luaopen_rava_process
  unfoldable pub open_process : Heap → Outcome (ℕ × Heap)
  open_process h =
      let (t, h₁) = new_module L A h (codes "rava.process") process_funcs in
      open_constructor (codes "rava.process.cond") cond_meths [] (codes "rava_new_cond")
        (codes "cond") t h₁
      >>= open_fiber t
      >>= open_constructor (codes "rava.process.idle") idle_meths [] (codes "rava_new_idle")
          (codes "idle") t
      >>= open_constructor (codes "rava.process.spawn") spawn_meths [] (codes "rava_new_spawn")
          (codes "spawn") t
      >>= open_constructor thread_name thread_meths [] (codes "rava_new_thread") (codes "thread") t
      >>= open_constructor (codes "rava.process.timer") timer_meths [] (codes "rava_new_timer")
          (codes "timer") t
      >>= λ h₂. ok (t, open_streams stream_names t (process_init h₂))

  -- luaopen_rava: its module's table
  unfoldable pub open_rava : Heap → Outcome (ℕ × Heap)
  open_rava h =
      let h₀ =
        set_registry h (codes "rava:lib:decoder")
          (function (c_function (codes "ravaL_lib_decoder"))) in
      let (t, h₁) = new_module L A h₀ (codes "rava") core_funcs in
      open_fs h₁ >>= λ (fs, h₂).
      open_socket (set_field h₂ t (codes "fs") (table fs)) >>= λ (socket, h₃).
      open_system (set_field h₃ t (codes "socket") (table socket)) >>= λ (system, h₄).
      open_process (set_field h₄ t (codes "system") (table system)) >>= λ (process, h₅).
      ok (t, set_field h₅ t (codes "process") (table process))
