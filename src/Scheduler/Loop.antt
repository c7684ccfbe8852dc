-- ===== src/Scheduler/Loop.antt =====
-- What a turn of the loop does to the balance of the queue and the flags: `ravaL_thread_once` of
-- src/rava_process_thread.c.
use rava.Base.{
  ℕ, ◌≡◌, refl, sym, ap, ◌∙◌, subst, arith, Bool, true, false, not, List, [], ◌∷◌, ◌++◌,
  if◌then◌else◌, ==_refl,
}
use rava.Outcome.{raised, ◌>>=◌, dead_fiber}
use rava.Lua.{Value}
use rava.Scheduler.{
  State, thread, fiber, Fiber, Thread, set_fiber, is_empty, thread_ready, fiber_ready, state_ready,
  fiber_close, push_values,
}
use rava.Scheduler.Calls.{
  Ending, yields, exits, fails, Turn, run_calls, wake_joiners, after_yield, after_exit, after_turn,
  resume_fiber, once_on, thread_once,
}
use rava.Scheduler.Balance.{
  Balanced, occurs, occurs-append, occurs-one, state_ready-Balanced, set_fiber-Balanced,
  push_values-Balanced, curr-state_ready,
}
use rava.Scheduler.Turns.{back, Safe, Safe-bind, Handed, run_calls-Safe}

back-fiber_ready : (j : ℕ) (t : Thread) → fiber_ready j (back t) ≡ back (fiber_ready j t)
unfolding fiber_ready
back-fiber_ready j t = split (t.fibers j).ready (is_empty t.rouse)
  where
    f : Fiber
    f = record (t.fibers j) { ready = true }

    split :
        (b c : Bool)
        → (if b
            then back t
            else (if c
                then record (set_fiber j f (back t)) {
                  rouse = t.rouse ++ j ∷ [];
                  sent = true;
                  held = true;
                }
                else record (set_fiber j f (back t)) { rouse = t.rouse ++ j ∷ [] }))
          ≡ back (
              if b
              then t
              else (if c
                  then record (set_fiber j f t) {
                    rouse = t.rouse ++ j ∷ [];
                    sent = true;
                    held = true;
                  }
                  else record (set_fiber j f t) { rouse = t.rouse ++ j ∷ [] }))
    split true c = refl
    split false true = refl
    split false false = refl

back-thread_ready : (t : Thread) → thread_ready (back t) ≡ back (thread_ready t)
unfolding thread_ready
back-thread_ready t = split t.ready
  where
    split :
        (b : Bool)
        → (if b then back t else record (back t) { ready = true; sent = true })
          ≡ back (if b then t else record t { ready = true; sent = true })
    split true = refl
    split false = refl

back-wake_joiners :
    (q : List State) (vs : List Value) (t : Thread)
    → wake_joiners q vs (back t) ≡ back (wake_joiners q vs t)
unfolding wake_joiners state_ready
back-wake_joiners [] vs t = refl
back-wake_joiners (thread ∷ q) vs t =
    ap (wake_joiners q vs) (back-thread_ready t) ∙ back-wake_joiners q vs (thread_ready t)
back-wake_joiners (fiber j ∷ q) vs t =
    ap (λ u. wake_joiners q vs (push_values vs (fiber j) u)) (back-fiber_ready j t)
    ∙ back-wake_joiners q vs (push_values vs (fiber j) (fiber_ready j t))

wake_joiners-Balanced :
    (q : List State) (vs : List Value) (t : Thread)
    → Balanced t
    → (Balanced (wake_joiners q vs t)) × ((wake_joiners q vs t).curr ≡ t.curr)
unfolding wake_joiners
wake_joiners-Balanced [] vs t v = (v, refl)
wake_joiners-Balanced (thread ∷ q) vs t v =
    let rest =
      wake_joiners-Balanced q vs (state_ready thread t) (state_ready-Balanced thread t v) in
    (rest.0, rest.1 ∙ curr-state_ready thread t)
wake_joiners-Balanced (fiber j ∷ q) vs t v =
    let rest =
      wake_joiners-Balanced q vs (push_values vs (fiber j) (state_ready (fiber j) t))
        (push_values-Balanced vs (fiber j) _ (state_ready-Balanced (fiber j) t v)) in
    (rest.0, rest.1 ∙ curr-state_ready (fiber j) t)

-- The running fiber, once the thread is back: it is ready and out of the queue, so it may be closed,
-- or go to the end of the queue.
fiber_close-Balanced :
    (i : ℕ) (t : Thread) → t.curr ≡ fiber i → Balanced t → Balanced (fiber_close i (back t))
unfolding fiber_close
fiber_close-Balanced i t e v j = let vi = v i in let vj = v j in ground (arith, ==_refl i)

after_yield-Balanced :
    (i : ℕ) (t : Thread) → t.curr ≡ fiber i → Balanced t → Balanced (after_yield i (back t))
unfolding after_yield
after_yield-Balanced i t e v j =
    let vi = v i in
    let vj = v j in ground (arith, ==_refl i, occurs-append j t.rouse (i ∷ []), occurs-one j i)

after_exit-Balanced :
    (i : ℕ) (vs : List Value) (t : Thread)
    → t.curr ≡ fiber i
    → Balanced t
    → Balanced (after_exit i vs (back t))
unfolding after_exit
after_exit-Balanced i vs t e v =
    let emptied = set_fiber i (record (t.fibers i) { rouse = []; stack = vs }) t in
    let woken =
      wake_joiners-Balanced (t.fibers i).rouse vs emptied (set_fiber-Balanced i _ t refl refl v) in
    subst (λ u. Balanced (fiber_close i u)) (sym (back-wake_joiners (t.fibers i).rouse vs emptied))
      (fiber_close-Balanced i (wake_joiners (t.fibers i).rouse vs emptied) (woken.1 ∙ e) woken.0)

-- Between two turns: the thread runs, and the queue agrees with the flags.
abbrev pub Settled : Thread → Type 0
Settled t = (t.curr ≡ thread) × Balanced t

curr-fiber_close : (i : ℕ) (t : Thread) → (fiber_close i t).curr ≡ t.curr
unfolding fiber_close
curr-fiber_close i t = ground arith

curr-after_yield : (i : ℕ) (t : Thread) → (after_yield i t).curr ≡ t.curr
unfolding after_yield
curr-after_yield i t = ground arith

curr-wake_joiners :
    (q : List State) (vs : List Value) (t : Thread) → (wake_joiners q vs t).curr ≡ t.curr
unfolding wake_joiners
curr-wake_joiners [] vs t = refl
curr-wake_joiners (thread ∷ q) vs t =
    curr-wake_joiners q vs (state_ready thread t) ∙ curr-state_ready thread t
curr-wake_joiners (fiber j ∷ q) vs t =
    curr-wake_joiners q vs (push_values vs (fiber j) (state_ready (fiber j) t))
    ∙ curr-state_ready (fiber j) t

curr-after_exit : (i : ℕ) (vs : List Value) (t : Thread) → (after_exit i vs t).curr ≡ t.curr
unfolding after_exit
curr-after_exit i vs t =
    let emptied = set_fiber i (record (t.fibers i) { rouse = []; stack = vs }) t in
    curr-fiber_close i (wake_joiners (t.fibers i).rouse vs emptied)
    ∙ curr-wake_joiners (t.fibers i).rouse vs emptied

after_suspension-Balanced :
    (i : ℕ) (t : Thread)
    → (t.fibers i).ready ≡ false
    → Balanced (back t)
    → Balanced (after_yield i (back t))
unfolding after_yield
after_suspension-Balanced i t r v j = let vj = v j in ground arith

after_turn-Safe :
    (i : ℕ) (b : Bool) (e : Ending) (t : Thread)
    → Handed i (t, b)
    → Safe Settled (after_turn i b e t)
unfolding after_turn
after_turn-Safe i true e t (r, v) = (curr-after_yield i (back t), after_suspension-Balanced i t r v)
after_turn-Safe i false yields t (c, v) =
    (curr-after_yield i (back t), after_yield-Balanced i t c v)
after_turn-Safe i false (exits vs) t (c, v) =
    (curr-after_exit i vs (back t), after_exit-Balanced i vs t c v)
after_turn-Safe i false (fails n) t h = λ p. cc

-- The head of the queue is ready and not dead, so it may run once it is out of the queue.
unfoldable pub started : ℕ → List ℕ → Thread → Thread
started i q t = record (set_fiber i (record (t.fibers i) { start = true }) t) {
  rouse = q;
  curr = fiber i;
}

pub head-alive :
    (i : ℕ) (q : List ℕ) (t : Thread)
    → Settled t
    → t.rouse ≡ i ∷ q
    → ((t.fibers i).dead ≡ false) × Balanced (started i q t)
unfolding occurs started
head-alive i q t (c, v) e = (
  let vi = v i in ground (arith, ==_refl i),
  λ j. let vi = v i in let vj = v j in ground (arith, ==_refl i),
)

resume_fiber-Safe :
    (i : ℕ) (q : List ℕ) (turn : Turn) (t : Thread)
    → Settled t
    → t.rouse ≡ i ∷ q
    → Safe Settled (resume_fiber i turn (record t { rouse = q }))
unfolding resume_fiber started
resume_fiber-Safe i q turn t s e = split (t.fibers i).dead (head-alive i q t s e).0
  where
    split :
        (dead : Bool)
        → dead ≡ false
        → Safe Settled (
            if dead
            then raised dead_fiber
            else (run_calls i turn.calls (started i q t) >>= λ (t', stop).
                after_turn i stop turn.ending t'))
    split true h = absurd cc
    split false h =
        Safe-bind (Handed i) Settled (run_calls i turn.calls (started i q t)) _
          (run_calls-Safe i turn.calls (started i q t) refl (head-alive i q t s e).1)
          (λ (t', stop). after_turn-Safe i stop turn.ending t')

-- What `thread_once` promises: the invariant again, and whether there is more to resume.
abbrev pub Done : Thread × Bool → Type 0
Done (t, more) = Settled t × (more ≡ not (is_empty t.rouse))

once_on-Safe :
    (queue : List ℕ) (turn : Turn) (t : Thread)
    → Settled t
    → t.rouse ≡ queue
    → Safe Done (once_on queue turn t)
unfolding once_on
once_on-Safe [] turn t s e = (s, ap (λ q. not (is_empty q)) (sym e))
once_on-Safe (i ∷ q) turn t s e =
    Safe-bind Settled Done (resume_fiber i turn (record t { rouse = q })) _
      (resume_fiber-Safe i q turn t s e) (λ t' s'. (s', refl))

-- Whatever calls the fiber at the head of the queue makes in its turn, and however the turn ends, if
-- the thread runs and the queue agrees with the flags of the fibers before `thread_once`, then so it
-- is afterwards, and the result tells whether the queue still holds a fiber. The call does not raise
-- "cannot resume a dead fiber" and does not run out of fuel. Two ends
-- have no state: an error of the fiber's own is passed on, and a fiber that joins itself fails an assertion.
pub thread_once-Safe : (turn : Turn) (t : Thread) → Settled t → Safe Done (thread_once turn t)
unfolding thread_once
thread_once-Safe turn t s = once_on-Safe t.rouse turn t s refl
