-- ===== src/Stream/Events.antt =====
-- The callbacks of src/rava_core_stream.c and src/rava_core_object.c as events of the loop, and the
-- scheduler's balance across them.
use rava.Base.{
  ℕ, ◌+◌, ◌<◌, ltb, length, ◌≡◌, refl, sym, subst, ◌∙◌, Bool, true, false, List, [], ◌∷◌, Option,
  none, some, ◌==◌, if◌then◌else◌, arith,
}
use rava.Outcome.{Outcome, ok, raised, fault, aborted, stuck, ◌>>=◌, wrong_type}
use rava.Lua.{Value, nil, boolean, str}
use rava.Scheduler.{State, thread, fiber, Thread, set_cond, state_ready, cond_signal, stack_of}
use rava.Scheduler.Balance.{
  state_ready-Balanced, set_cond-Balanced, set_fiber-Balanced, cond_signal-Balanced,
  curr-state_ready, curr-cond_signal,
}
use rava.Scheduler.Loop.{Settled}
use rava.Stream.{
  Uv, Object, Net, Reading, bytes, error, set_stack, second, memory, read_error, set_object,
  set_loop, object_init, object_close_cb, object_close, stream_stop, read_saved, read_handed,
  read_for, read_cb, write_cb, shutdown_cb, connect_cb, accepted, listen_accept, listen_for,
  listen_cb,
}

pub set_stack-Settled :
    (vs : List Value) (s : State) (t : Thread) → Settled t → Settled (set_stack vs s t)
set_stack-Settled vs thread t (c, v) =
    (c, λ i. record { queued = (v i).queued; dead_ready = (v i).dead_ready; runs = (v i).runs })
set_stack-Settled vs (fiber i) t (c, v) = (c, set_fiber-Balanced i _ t refl refl v)

pub state_ready-Settled : (s : State) (t : Thread) → Settled t → Settled (state_ready s t)
state_ready-Settled s t (c, v) = (curr-state_ready s t ∙ c, state_ready-Balanced s t v)

pub cond_signal-Settled : (c : ℕ) (t : Thread) → Settled t → Settled ((cond_signal c t).0)
cond_signal-Settled k t (c, v) = (curr-cond_signal k t ∙ c, cond_signal-Balanced k t v)

module _ (uv : Uv) where
  -- The callbacks that the loop may call between two turns.
  pub data Event : Type 0 where
    arrives : ℕ → Reading → Option (List ℕ) → Event
    written : State → Option ℕ → Event
    shut : ℕ → State → Option ℕ → Event
    connects : State → Event
    requested : ℕ → Event
    closes : ℕ → Event

  unfoldable pub deliver : Event → Net uv.Handle → Outcome (Net uv.Handle)
  unfolding read_cb write_cb shutdown_cb connect_cb listen_cb object_close_cb
  deliver (arrives c r buf) n = read_cb uv c r buf n
  deliver (written s r) n = ok (write_cb uv s r n)
  deliver (shut c s r) n = ok (shutdown_cb uv c s r n)
  deliver (connects s) n = ok (connect_cb uv s n)
  deliver (requested c) n = listen_cb uv c n
  deliver (closes c) n = ok (object_close_cb uv c n)

  loop-stream_stop : (c : ℕ) (n : Net uv.Handle) → (stream_stop uv c n).1.loop ≡ n.loop
  unfolding stream_stop
  loop-stream_stop c n = ground arith

  loop-object_close : (c : ℕ) (n : Net uv.Handle) → (object_close uv c n).loop ≡ n.loop
  unfolding object_close
  loop-object_close c n = ground arith

  loop-read_saved :
      (c : ℕ) (r : Reading) (buf : Option (List ℕ)) (n : Net uv.Handle)
      → (read_saved uv c r buf n).loop ≡ n.loop
  unfolding read_saved
  loop-read_saved c (bytes k) buf n = loop-stream_stop c n
  loop-read_saved c (error e) buf n = loop-stream_stop c n

  -- The callbacks that read what they must not: data in a buffer that was not filled, for a state that
  -- waits, and a connection to an object that is marked as waited for while no state waits.
  abbrev pub Faulty : Event → Net uv.Handle → Type 0
  Faulty (arrives c (bytes k) buf) n = k < length (memory buf)
  Faulty (requested c) n = ((n.objects c).waiting ≡ true) × (n.loop.conds c ≡ [])
  Faulty ev n = ⊥

  -- How a callback may end: in a settled state; with the type error of an acceptor whose second
  -- argument is no userdata; or, if it is a faulty one, in undefined behaviour.
  abbrev pub Delivered : Event → Net uv.Handle → Outcome (Net uv.Handle) → Type 0
  Delivered ev n (ok n') = Settled n'.loop
  Delivered ev n (raised e) = e ≡ wrong_type
  Delivered ev n fault = Faulty ev n
  Delivered ev n aborted = ¬ Unit {0}
  Delivered ev n stuck = ¬ Unit {0}

  Delivered-map :
      (ev : Event) (n : Net uv.Handle) (o : Outcome (Net uv.Handle))
      (f : Net uv.Handle → Net uv.Handle)
      → Delivered ev n o
      → ((m : Net uv.Handle) → Settled m.loop → Settled (f m).loop)
      → Delivered ev n (o >>= λ m. ok (f m))
  Delivered-map ev n (ok m) f d k = k m d
  Delivered-map ev n (raised e) f d k = d
  Delivered-map ev n fault f d k = d
  Delivered-map ev n aborted f d k = d
  Delivered-map ev n stuck f d k = d

  -- What the state gets is on its stack; nothing else of the thread changes.
  read_handed-Delivered :
      (c : ℕ) (s : State) (r : Reading) (buf : Option (List ℕ)) (n n₀ : Net uv.Handle)
      → Settled n.loop
      → Delivered (arrives c r buf) n₀ (read_handed uv c s r buf n)
  unfolding read_handed
  read_handed-Delivered c s (bytes k) buf n n₀ v = short (ltb k (length (memory buf))) refl
    where
      m : Net uv.Handle
      m = set_loop uv (set_stack (uv.integer k ∷ str (memory buf) ∷ []) s n.loop) n

      split : (b : Bool) → Settled (if b then (stream_stop uv c m).1 else m).loop
      split true = subst Settled (sym (loop-stream_stop c m)) (set_stack-Settled _ s n.loop v)
      split false = set_stack-Settled _ s n.loop v

      short :
          (b : Bool)
          → ltb k (length (memory buf)) ≡ b
          → Delivered
              (arrives c (bytes k) buf)
              n₀
              (if b then fault else ok (if k == 0 then (stream_stop uv c m).1 else m))
      short true e = ground (arith, e)
      short false e = split (k == 0)
  read_handed-Delivered c s (error e) buf n n₀ v = split (e == uv.eof)
    where
      message : List Value
      message = boolean false ∷ str (read_error (uv.strerror e)) ∷ []

      failed : Net uv.Handle
      failed = set_loop uv (set_stack message s n.loop) n

      split :
          (b : Bool)
          → Settled
              (if b
                then set_loop uv (set_stack (nil ∷ []) s n.loop) n
                else object_close uv c ((stream_stop uv c failed).1)).loop
      split true = set_stack-Settled (nil ∷ []) s n.loop v
      split false =
          subst Settled
            (sym (loop-object_close c ((stream_stop uv c failed).1) ∙ loop-stream_stop c failed))
            (set_stack-Settled message s n.loop v)

  read_for-Delivered :
      (c : ℕ) (q : List State) (r : Reading) (buf : Option (List ℕ)) (n n₀ : Net uv.Handle)
      → Settled n.loop
      → Delivered (arrives c r buf) n₀ (read_for uv c q r buf n)
  unfolding read_for
  read_for-Delivered c [] r buf n n₀ v = subst Settled (sym (loop-read_saved c r buf n)) v
  read_for-Delivered c (s ∷ q) r buf n n₀ (e, v) =
      Delivered-map (arrives c r buf) n₀ _ _
        (read_handed-Delivered c s r buf (set_loop uv (set_cond c q n.loop) n) n₀
          (e, set_cond-Balanced c q n.loop v))
        (λ m. state_ready-Settled s m.loop)

  accepted-Settled :
      (s : State) (r : Option ℕ) (c : ℕ) (n : Net uv.Handle)
      → Settled n.loop
      → Settled (accepted uv c s r n).loop
  unfolding accepted
  accepted-Settled s none c n v = v
  accepted-Settled s (some e) c n v = set_stack-Settled _ s n.loop v

  listen_accept-Settled :
      (c : ℕ) (s : State) (d : ℕ) (n : Net uv.Handle)
      → Settled n.loop
      → Settled (listen_accept uv c s d n).loop
  unfolding listen_accept object_init
  listen_accept-Settled c s d n (e, v) =
      cond_signal-Settled c _ (accepted-Settled s _ c _ (e, set_cond-Balanced d [] n.loop v))

  listen_for-Delivered :
      (c : ℕ) (q : List State) (n : Net uv.Handle)
      → Settled n.loop
      → (n.objects c).waiting ≡ true
      → n.loop.conds c ≡ q
      → Delivered (requested c) n (listen_for uv c q n)
  unfolding listen_for
  listen_for-Delivered c [] n v w e = (w, e)
  listen_for-Delivered c (s ∷ q) n v w e = split (second (stack_of s n.loop))
    where
      split :
          (o : Option ℕ)
          → Delivered
              (requested c)
              n
              (elim o [ none ↦ raised wrong_type | some d ↦ ok (listen_accept uv c s d n) ])
      split none = refl
      split (some d) = listen_accept-Settled c s d n v

  -- A callback of a stream, delivered while the thread runs and its queue agrees with the flags of the
  -- fibers, ends in one of the ways that `Delivered` names.
  pub deliver-Delivered :
      (ev : Event) (n : Net uv.Handle) → Settled n.loop → Delivered ev n (deliver ev n)
  unfolding deliver listen_cb read_cb write_cb shutdown_cb connect_cb object_close_cb
  deliver-Delivered (arrives c r buf) n v = read_for-Delivered c (n.loop.conds c) r buf n n v
  deliver-Delivered (written s r) n v = state_ready-Settled s _ (set_stack-Settled _ s n.loop v)
  deliver-Delivered (shut c s r) n v = cond_signal-Settled c _ (set_stack-Settled _ s n.loop v)
  deliver-Delivered (connects s) n v = state_ready-Settled s n.loop v
  deliver-Delivered (closes c) n v = cond_signal-Settled c n.loop v
  deliver-Delivered (requested c) n v = split ((n.objects c).waiting) refl
    where
      o : Object uv.Handle
      o = n.objects c

      split :
          (w : Bool)
          → o.waiting ≡ w
          → Delivered (requested c) n (
              if w
              then listen_for uv c (n.loop.conds c) n
              else ok (set_object uv c (record o { count = o.count + 1 }) n))
      split true e = listen_for-Delivered c (n.loop.conds c) n v e refl
      split false e = v
