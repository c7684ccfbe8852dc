-- ===== src/Stream.antt =====
-- src/rava_core_stream.c and src/rava_core_object.c: the objects that wrap a libuv handle, the
-- methods that streams share, and the callbacks that libuv calls.
--
-- An object is a number in a store; the queue `rouse` of the states that wait for it is the waiting
-- queue of the same number in the thread (Scheduler). libuv, deps/libuv, is a git submodule and not
-- part of the repository: its calls are fields of a record that the definitions take. A call of libuv
-- answers 0 (`none`) or an error (`some`). Methods are called by a fiber.
pub mod Methods
pub mod Events
pub mod Pending
use rava.Base.{
  ℕ, ◌+◌, ◌-◌, Bool, true, false, List, [], ◌∷◌, ◌++◌, Option, none, some, length, ltb, ◌==◌,
  if◌then◌else◌,
}
use rava.Outcome.{Outcome, ok, raised, fault, ◌>>=◌, wrong_type}
use rava.Lua.{Value, nil, boolean, str, userdata}
use rava.Scheduler.{
  State, thread, fiber, Fiber, Thread, update, set_fiber, set_cond, stack_of, state_ready,
  cond_signal,
}

pub record Uv : Type 1 where
  pub Handle : Type 0
  pub read_start : Handle → Option ℕ × Handle
  pub read_stop : Handle → Option ℕ × Handle
  pub listen : Handle → ℕ → Option ℕ × Handle
  -- the server's handle and the client's
  pub accept : Handle → Handle → Option ℕ × Handle × Handle
  pub write : Handle → List ℕ → Option ℕ × Handle
  pub shutdown : Handle → Handle
  pub close : Handle → Handle
  pub is_readable : Handle → Bool
  pub is_writable : Handle → Bool
  pub strerror : ℕ → List ℕ
  pub eof : ℕ
  -- lua_pushinteger of a size, and of a status
  pub integer : ℕ → Value
  pub status : Option ℕ → Value

-- rava_object_t: the bits of its flags that the code tests, and `buf`. `base` is the memory at
-- `buf.base`, `none` for a null pointer; `len` is `buf.len`.
pub record Object (H : Type 0) : Type 0 where
  pub owner : Option State
  pub started : Bool
  pub waiting : Bool
  pub closing : Bool
  pub closed : Bool
  pub is_shutdown : Bool
  pub count : ℕ
  pub base : Option (List ℕ)
  pub len : ℕ
  pub handle : H

pub record Net (H : Type 0) : Type 0 where
  pub loop : Thread
  pub objects : ℕ → Object H

-- ravaL_alloc_cb: libuv's buffer, whose state `B` stays what it was, since the result of uv_buf_init is
-- dropped, and the number of bytes that are allocated and lost.
unfoldable pub alloc_cb {ℓ} : {H : Type 0} {B : Type ℓ} → Object H → B → B × ℕ
alloc_cb o buf = (buf, o.len)

-- What the callback of a read gets: a number of bytes, or an error.
pub data Reading : Type 0 where
  bytes : ℕ → Reading
  error : ℕ → Reading

abbrev pub memory : Option (List ℕ) → List ℕ
memory none = []
memory (some xs) = xs

abbrev pub is_none {ℓ} : {A : Type ℓ} → Option A → Bool
is_none none = true
is_none (some a) = false

abbrev pub set_stack : List Value → State → Thread → Thread
set_stack vs thread t = record t { stack = vs }
set_stack vs (fiber i) t = set_fiber i (record (t.fibers i) { stack = vs }) t

-- "read: " and the text of the error
abbrev pub read_error : List ℕ → List ℕ
read_error text = 114 ∷ 101 ∷ 97 ∷ 100 ∷ 58 ∷ 32 ∷ text

-- The userdata at index 2 of a stack, which luaL_checktype asks for.
abbrev pub second : List Value → Option ℕ
second (v ∷ userdata c ∷ vs) = some c
second _ = none

module _ (uv : Uv) where
  abbrev pub set_object : ℕ → Object uv.Handle → Net uv.Handle → Net uv.Handle
  set_object c o n = record n { objects = update n.objects c o }

  abbrev pub set_loop : Thread → Net uv.Handle → Net uv.Handle
  set_loop t n = record n { loop = t }

  abbrev pub signal : ℕ → Net uv.Handle → Net uv.Handle
  signal c n = set_loop ((cond_signal c n.loop).0) n

  -- ravaL_object_init
  unfoldable pub object_init : State → ℕ → Net uv.Handle → Net uv.Handle
  object_init s c n = set_loop (set_cond c [] n.loop) (
      set_object c
        (record {
          owner = some s;
          started = false;
          waiting = false;
          closing = false;
          closed = false;
          is_shutdown = false;
          count = 0;
          base = none;
          len = 0;
          handle = (n.objects c).handle;
        })
        n)

  -- ravaL_object_close_cb
  unfoldable pub object_close_cb : ℕ → Net uv.Handle → Net uv.Handle
  object_close_cb c n =
      signal c (set_object c (record (n.objects c) { closed = true; owner = none }) n)

  -- ravaL_object_close
  unfoldable pub object_close : ℕ → Net uv.Handle → Net uv.Handle
  object_close c n =
      let o = n.objects c in
      if o.closing
      then n
      else set_object c (record o { closing = true; handle = uv.close o.handle }) n

  -- ravaL_stream_start
  unfoldable pub stream_start : ℕ → Net uv.Handle → Option ℕ × Net uv.Handle
  stream_start c n =
      let o = n.objects c in
      let (r, h) = uv.read_start o.handle in
      if o.started then (none, n) else (r, set_object c (record o { started = true; handle = h }) n)

  -- ravaL_stream_stop
  unfoldable pub stream_stop : ℕ → Net uv.Handle → Option ℕ × Net uv.Handle
  stream_stop c n =
      let o = n.objects c in
      let (r, h) = uv.read_stop o.handle in
      if o.started
      then (r, set_object c (record o { started = false; handle = h }) n)
      else (none, n)

  -- ravaL_stream_free: the buffer's memory is given back.
  unfoldable pub release : ℕ → Net uv.Handle → Net uv.Handle
  release c n =
      let o = n.objects c in
      if is_none o.base then n else set_object c (record o { base = none; len = 0 }) n

  unfoldable pub stream_free : ℕ → Net uv.Handle → Net uv.Handle
  unfolding object_close release
  stream_free c n = release c (object_close c n)

  -- ravaL_stream_close
  unfoldable pub stream_close : ℕ → Net uv.Handle → Net uv.Handle
  unfolding object_close release stream_stop
  stream_close c n =
      let stopped = if (n.objects c).started then (stream_stop c n).1 else n in
      release c (object_close c stopped)

  -- _read_cb, with no state that waits
  unfoldable pub read_saved : ℕ → Reading → Option (List ℕ) → Net uv.Handle → Net uv.Handle
  unfolding stream_stop
  read_saved c (bytes k) buf n =
      let m = (stream_stop c n).1 in
      set_object c (record (m.objects c) { base = buf; len = length (memory buf); count = k }) m
  read_saved c (error e) buf n = (stream_stop c n).1

  -- _read_cb, for the state `s` at the head of the queue, which has been removed from it. `buf` is the
  -- memory of libuv's buffer, all buf->len bytes of it, of which the first nread were written: the state
  -- is given all of them, and those behind them are not written.
  unfoldable pub read_handed :
      ℕ → State → Reading → Option (List ℕ) → Net uv.Handle → Outcome (Net uv.Handle)
  unfolding stream_stop object_close
  read_handed c s (bytes k) buf n =
      let m = set_loop (set_stack (uv.integer k ∷ str (memory buf) ∷ []) s n.loop) n in
      let handed = if k == 0 then (stream_stop c m).1 else m in
      if ltb k (length (memory buf)) then fault else ok handed
  read_handed c s (error e) buf n =
      let ended = set_loop (set_stack (nil ∷ []) s n.loop) n in
      let message = boolean false ∷ str (read_error (uv.strerror e)) ∷ [] in
      let failed = set_loop (set_stack message s n.loop) n in
      ok (if e == uv.eof then ended else object_close c ((stream_stop c failed).1))

  unfoldable pub read_for :
      ℕ → List State → Reading → Option (List ℕ) → Net uv.Handle → Outcome (Net uv.Handle)
  unfolding read_saved read_handed
  read_for c [] r buf n = ok (read_saved c r buf n)
  read_for c (s ∷ q) r buf n = read_handed c s r buf (set_loop (set_cond c q n.loop) n) >>= λ m.
      ok (set_loop (state_ready s m.loop) m)

  -- _read_cb
  unfoldable pub read_cb : ℕ → Reading → Option (List ℕ) → Net uv.Handle → Outcome (Net uv.Handle)
  unfolding read_for
  read_cb c r buf n = read_for c (n.loop.conds c) r buf n

  -- _write_cb of a request of state `s`
  unfoldable pub write_cb : State → Option ℕ → Net uv.Handle → Net uv.Handle
  write_cb s status n = set_loop (state_ready s (set_stack (uv.status status ∷ []) s n.loop)) n

  -- _shutdown_cb of a request of state `s`
  unfoldable pub shutdown_cb : ℕ → State → Option ℕ → Net uv.Handle → Net uv.Handle
  shutdown_cb c s status n = signal c (set_loop (set_stack (uv.status status ∷ []) s n.loop) n)

  -- ravaL_connect_cb of a request of state `s`
  unfoldable pub connect_cb : State → Net uv.Handle → Net uv.Handle
  connect_cb s n = set_loop (state_ready s n.loop) n

  -- _listen_cb: the head of the queue gets the connection, which is object `d`
  unfoldable pub accepted : ℕ → State → Option ℕ → Net uv.Handle → Net uv.Handle
  accepted c s none n = n
  accepted c s (some e) n = set_loop (set_stack (nil ∷ str (uv.strerror e) ∷ []) s n.loop) n

  unfoldable pub listen_accept : ℕ → State → ℕ → Net uv.Handle → Net uv.Handle
  unfolding accepted object_init
  listen_accept c s d n =
      let m = object_init s d n in
      let (r, h, g) = uv.accept ((m.objects c).handle) ((m.objects d).handle) in
      let server = set_object c (record (m.objects c) { handle = h }) m in
      let both = set_object d (record (server.objects d) { handle = g }) server in
      let told = accepted c s r both in
      signal c (set_object c (record (told.objects c) { waiting = false }) told)

  unfoldable pub listen_for : ℕ → List State → Net uv.Handle → Outcome (Net uv.Handle)
  unfolding listen_accept
  listen_for c [] n = fault
  listen_for c (s ∷ q) n = elim (second (stack_of s n.loop)) [
    | none ↦ raised wrong_type
    | some d ↦ ok (listen_accept c s d n)
  ]

  -- _listen_cb
  unfoldable pub listen_cb : ℕ → Net uv.Handle → Outcome (Net uv.Handle)
  unfolding listen_for
  listen_cb c n =
      let o = n.objects c in
      if o.waiting
      then listen_for c (n.loop.conds c) n
      else ok (set_object c (record o { count = o.count + 1 }) n)
