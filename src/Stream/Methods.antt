-- ===== src/Stream/Methods.antt =====
-- The methods of streams in src/rava_core_stream.c, called by a fiber `i` on an object `c`.
use rava.Base.{
  ℕ, ◌-◌, Bool, true, false, List, [], ◌∷◌, Option, none, some, length, take, leb, ◌==◌,
  if◌then◌else◌,
}
use rava.Outcome.{Outcome, ok, raised, fault, thrown}
use rava.Lua.{Value, nil, boolean, str, userdata}
use rava.Scheduler.{Thread, fiber, fiber_suspend, stack_of}
use rava.Scheduler.Calls.{cond_wait}
use rava.Stream.{
  Uv, Net, set_object, set_loop, object_close, stream_start, stream_stop, stream_close, set_stack,
}

-- What a method does: it returns values, or the fiber yields.
pub data Answer : Type 0 where
  returns : List Value → Answer
  waits : Answer

-- "attempt to read from a closed stream"
abbrev pub closed_stream : List ℕ
closed_stream =
    97 ∷ 116 ∷ 116 ∷ 101 ∷ 109 ∷ 112 ∷ 116 ∷ 32 ∷ 116 ∷ 111 ∷ 32 ∷ 114 ∷ 101 ∷ 97 ∷ 100 ∷ 32 ∷ 102
    ∷ 114 ∷ 111 ∷ 109 ∷ 32 ∷ 97 ∷ 32 ∷ 99 ∷ 108 ∷ 111 ∷ 115 ∷ 101 ∷ 100 ∷ 32 ∷ 115 ∷ 116 ∷ 114 ∷ 101
    ∷ 97 ∷ 109 ∷ []

module _ (uv : Uv) where
  -- The end of a method that suspends its caller: a fiber that is not ready goes on.
  abbrev pub suspension : Net uv.Handle → Thread × Bool → Net uv.Handle × Answer
  suspension n (t, true) = (set_loop uv t n, waits)
  suspension n (t, false) = (set_loop uv t n, returns [])

  abbrev pub wait_for : ℕ → ℕ → Net uv.Handle → Net uv.Handle × Answer
  wait_for c i n = suspension n (cond_wait c i n.loop)

  -- rava_stream_listen; the backlog is what the caller gives, or 128.
  unfoldable pub listen : ℕ → ℕ → Net uv.Handle → Outcome (Net uv.Handle × Answer)
  listen c backlog n =
      let o = n.objects c in
      elim ((uv.listen o.handle backlog).0) [
        | none ↦
            ok
              (set_object uv c (record o { handle = (uv.listen o.handle backlog).1 }) n, returns [])
        | some e ↦ raised (thrown e)
      ]

  -- rava_stream_accept of a connection, as object `d`
  unfoldable pub accepting : ℕ → Option ℕ → Net uv.Handle → Net uv.Handle × Answer
  accepting d none n = (n, returns (userdata d ∷ []))
  accepting d (some e) n = (n, returns (nil ∷ str (uv.strerror e) ∷ []))

  unfoldable pub accept : ℕ → ℕ → ℕ → Net uv.Handle → Net uv.Handle × Answer
  unfolding accepting
  accept c d i n =
      let o = n.objects c in
      let (r, h, g) = uv.accept o.handle ((n.objects d).handle) in
      let server = set_object uv c (record o { count = o.count - 1; handle = h }) n in
      let both = set_object uv d (record (server.objects d) { handle = g }) server in
      if o.count == 0
      then wait_for c i (set_object uv c (record o { waiting = true }) n)
      else accepting d r both

  -- rava_stream_start: on an error the stream is closed.
  unfoldable pub start : ℕ → Net uv.Handle → Net uv.Handle × Answer
  unfolding stream_start stream_stop object_close
  start c n = elim ((stream_start uv c n).0) [
    | none ↦ ((stream_start uv c n).1, returns (boolean true ∷ []))
    | some e ↦ (object_close uv c ((stream_stop uv c ((stream_start uv c n).1)).1), returns [])
  ]

  -- rava_stream_stop
  unfoldable pub stop : ℕ → Net uv.Handle → Net uv.Handle × Answer
  unfolding stream_stop
  stop c n = elim ((stream_stop uv c n).0) [
    | none ↦ ((stream_stop uv c n).1, returns (boolean true ∷ []))
    | some e ↦ ((stream_stop uv c n).1, returns [])
  ]

  -- rava_stream_read, with a pending buffer: `count` bytes of it are pushed, which must be there.
  unfoldable pub read_pending : ℕ → List ℕ → Net uv.Handle → Outcome (Net uv.Handle × Answer)
  read_pending c buf n =
      let o = n.objects c in
      let rest = record o { base = none; len = 0; count = 0 } in
      if leb o.count (length buf)
      then ok (set_object uv c rest n, returns (uv.integer o.count ∷ str (take o.count buf) ∷ []))
      else fault

  -- rava_stream_read, with none: the length is noted for the allocation, and the fiber waits.
  unfoldable pub read_waiting : ℕ → ℕ → ℕ → Net uv.Handle → Net uv.Handle × Answer
  unfolding stream_start
  read_waiting c len i n =
      let o = n.objects c in
      let noted = set_object uv c (record o { len = len }) n in
      wait_for c i (if o.started then noted else (stream_start uv c noted).1)

  -- rava_stream_read; the length is what the caller gives, or 4096.
  unfoldable pub read : ℕ → ℕ → ℕ → Net uv.Handle → Outcome (Net uv.Handle × Answer)
  unfolding read_pending read_waiting
  read c len i n =
      let o = n.objects c in
      if o.closing
      then ok (n, returns (nil ∷ str closed_stream ∷ []))
      else elim o.base [ none ↦ ok (read_waiting c len i n) | some buf ↦ read_pending c buf n ]

  -- rava_stream_write
  unfoldable pub write : ℕ → List ℕ → ℕ → Net uv.Handle → Net uv.Handle × Answer
  unfolding stream_stop object_close
  write c chunk i n =
      let o = n.objects c in
      let sent = set_object uv c (record o { handle = (uv.write o.handle chunk).1 }) n in
      let own = set_stack (take 1 (stack_of (fiber i) sent.loop)) (fiber i) sent.loop in
      elim ((uv.write o.handle chunk).0) [
        | none ↦ suspension sent (fiber_suspend i own)
        | some e ↦ (object_close uv c ((stream_stop uv c sent).1), returns [])
      ]

  -- rava_stream_shutdown; a second call returns the object.
  unfoldable pub shutdown : ℕ → ℕ → Net uv.Handle → Net uv.Handle × Answer
  shutdown c i n =
      let o = n.objects c in
      if o.is_shutdown
      then (n, returns (userdata c ∷ []))
      else wait_for c i
          (set_object uv c (record o { is_shutdown = true; handle = uv.shutdown o.handle }) n)

  -- rava_stream_readable and rava_stream_writable
  unfoldable pub readable : ℕ → Net uv.Handle → Answer
  readable c n = returns (boolean (uv.is_readable ((n.objects c).handle)) ∷ [])

  unfoldable pub writable : ℕ → Net uv.Handle → Answer
  writable c n = returns (boolean (uv.is_writable ((n.objects c).handle)) ∷ [])

  -- rava_stream_close
  unfoldable pub close : ℕ → ℕ → Net uv.Handle → Net uv.Handle × Answer
  unfolding stream_close
  close c i n = wait_for c i (stream_close uv c n)
