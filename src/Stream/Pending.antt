-- ===== src/Stream/Pending.antt =====
-- Connections that come before an accept, and closing twice:
-- src/rava_core_stream.c, src/rava_core_object.c.
use rava.Base.{
  ℕ, ◌+◌, ◌≡◌, refl, ap, ◌∙◌, arith, true, false, List, ◌∷◌, Option, none, some, ◌≢◌, ◌==◌,
  if◌then◌else◌, ==_refl,
}
use rava.Outcome.{ok, raised, wrong_type, ◌>>=◌}
use rava.Scheduler.{
  State, thread, fiber, Thread, set_cond, state_ready, fiber_ready, thread_ready, cond_signal,
  cond_signal_head, stack_of,
}
use rava.Stream.{
  Uv, Net, second, set_object, object_init, object_close, accepted, listen_accept, listen_for,
  listen_cb,
}

conds-state_ready : (s : State) (t : Thread) → (state_ready s t).conds ≡ t.conds
unfolding state_ready thread_ready fiber_ready
conds-state_ready thread t = ground arith
conds-state_ready (fiber j) t = ground arith

conds-cond_signal :
    (c : ℕ) (s : State) (q : List State) (t : Thread)
    → t.conds c ≡ s ∷ q
    → (cond_signal c t).0.conds c ≡ q
unfolding cond_signal cond_signal_head
conds-cond_signal c s q t e =
    ap (λ r. (cond_signal_head c r t).0.conds c) e
    ∙ ap (λ f. f c) (conds-state_ready s (set_cond c q t))
    ∙ ground (arith, ==_refl c)

module _ (uv : Uv) where
  object_close-closing :
      (c : ℕ) (n : Net uv.Handle) → (n.objects c).closing ≡ true → object_close uv c n ≡ n
  unfolding object_close
  object_close-closing c n e = rw e

  closing-object_close :
      (c : ℕ) (n : Net uv.Handle) → ((object_close uv c n).objects c).closing ≡ true
  unfolding object_close
  closing-object_close c n = ground (arith, ==_refl c)

  -- Closing an object twice is closing it once: libuv is asked to close the handle at most once.
  object_close-object_close :
      (c : ℕ) (n : Net uv.Handle) → object_close uv c (object_close uv c n) ≡ object_close uv c n
  object_close-object_close c n =
      object_close-closing c (object_close uv c n) (closing-object_close c n)

  listen_cb-accepts :
      (c : ℕ) (s : State) (d : ℕ) (q : List State) (n : Net uv.Handle)
      → (n.objects c).waiting ≡ true
      → n.loop.conds c ≡ s ∷ q
      → second (stack_of s n.loop) ≡ some d
      → listen_cb uv c n ≡ ok (listen_accept uv c s d n)
  unfolding listen_cb listen_for
  listen_cb-accepts c s d q n w e h =
      let o = n.objects c in
      ap
        (λ b.
          if b
          then listen_for uv c (n.loop.conds c) n
          else ok (set_object uv c (record o { count = o.count + 1 }) n))
        w
      ∙ ap (λ r. listen_for uv c r n) e
      ∙ ap (λ o. elim o [ none ↦ raised wrong_type | some d ↦ ok (listen_accept uv c s d n) ]) h

  listen_cb-counts :
      (c : ℕ) (n : Net uv.Handle)
      → (n.objects c).waiting ≡ false
      → listen_cb uv c n
        ≡ ok (set_object uv c (record (n.objects c) { count = (n.objects c).count + 1 }) n)
  unfolding listen_cb
  listen_cb-counts c n w = rw w

  objects-accepted :
      (c : ℕ) (s : State) (r : Option ℕ) (n : Net uv.Handle)
      → ((accepted uv c s r n).objects ≡ n.objects)
        × ((accepted uv c s r n).loop.conds ≡ n.loop.conds)
  unfolding accepted
  objects-accepted c s none n = (refl, refl)
  objects-accepted c thread (some e) n = (refl, refl)
  objects-accepted c (fiber i) (some e) n = (refl, refl)

  -- What is left for the other acceptors when the first one got a connection.
  listen_accept-rest :
      (c : ℕ) (s : State) (d : ℕ) (q : List State) (n : Net uv.Handle)
      → c ≢ d
      → n.loop.conds c ≡ s ∷ q
      → (((listen_accept uv c s d n).objects c).waiting ≡ false)
        × (((listen_accept uv c s d n).objects c).count ≡ (n.objects c).count)
        × ((listen_accept uv c s d n).loop.conds c ≡ q)
  unfolding listen_accept object_init
  listen_accept-rest c s d q n ne e =
      let m = object_init uv s d n in
      let a = uv.accept ((m.objects c).handle) ((m.objects d).handle) in
      let server = set_object uv c (record (m.objects c) { handle = a.1 }) m in
      let both = set_object uv d (record (server.objects d) { handle = a.2 }) server in
      let told = objects-accepted c s a.0 both in
      let other : (c == d) ≡ false = ground arith in
      (
        ground (arith, ==_refl c),
        ground (arith, ==_refl c, ap (λ f. f c) told.0),
        conds-cond_signal c s q _ (ap (λ f. f c) told.1 ∙ ground (arith, e)),
      )

  -- Two states wait to accept from `c`, the first one with object `d` for its connection. After two
  -- connections the second one is still in the queue, in front of those behind it: the first
  -- connection clears the mark that a state waits, so the second is only added to the count, which
  -- `listen_cb` never takes from.
  pub listen_cb-lost :
      (c d : ℕ) (s u : State) (q : List State) (n : Net uv.Handle)
      → c ≢ d
      → (n.objects c).waiting ≡ true
      → n.loop.conds c ≡ s ∷ u ∷ q
      → second (stack_of s n.loop) ≡ some d
      → (m : Net uv.Handle) × ((listen_cb uv c n >>= listen_cb uv c) ≡ ok m)
        × (m.loop.conds c ≡ u ∷ q)
        × ((m.objects c).count ≡ (n.objects c).count + 1)
  listen_cb-lost c d s u q n ne w e h =
      let a = listen_accept uv c s d n in
      let rest = listen_accept-rest c s d (u ∷ q) n ne e in
      let m = set_object uv c (record (a.objects c) { count = (a.objects c).count + 1 }) a in
      (
        m,
        ap (λ r. r >>= listen_cb uv c) (listen_cb-accepts c s d (u ∷ q) n w e h)
            ∙ listen_cb-counts c a rest.0,
        rest.2,
        ground (arith, rest.1, ==_refl c),
      )
