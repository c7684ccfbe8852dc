-- ===== src/Scheduler/Order.antt =====
-- The order in which `ravaL_thread_once` of src/rava_process_thread.c resumes fibers.
use rava.Base.{
  ℕ, ◌+◌, ◌≡◌, refl, sym, subst, ap, ◌∙◌, arith, Bool, true, false, List, [], ◌∷◌, ◌++◌, append-nil,
  append_assoc, ◌==◌, if◌then◌else◌, ==_refl,
}
use rava.Outcome.{ok, raised, aborted, ◌>>=◌, dead_fiber}
use rava.Lua.{Value}
use rava.Scheduler.{
  State, thread, fiber, Thread, set_fiber, set_cond, is_empty, thread_ready, fiber_ready,
  state_ready, fiber_close, fiber_suspend, push_values, state_xcopy, cond_signal, cond_signal_head,
  cond_broadcast, broadcast_loop,
}
use rava.Scheduler.Calls.{
  Call, ready, join, wait, signal, broadcast, suspend, Ending, yields, exits, fails, Turn,
  fiber_join, cond_wait, run_call, run_calls, wake_joiners, after_yield, after_exit, after_turn,
  resume_fiber, once_on, thread_once,
}
use rava.Scheduler.Balance.{curr-fiber_ready, curr-broadcast_loop, curr-cond_signal}
use rava.Scheduler.Turns.{back, Safe, Safe-bind}
use rava.Scheduler.Loop.{Settled, started, head-alive}

-- The queue is `q`, and what has come behind it.
abbrev pub Extends : List ℕ → Thread → Type 0
Extends q t = (new : List ℕ) × (t.rouse ≡ q ++ new)

fiber_ready-Extends : (j : ℕ) (q : List ℕ) (t : Thread) → Extends q t → Extends q (fiber_ready j t)
unfolding fiber_ready
fiber_ready-Extends j q t (new, e) = split (t.fibers j).ready (is_empty t.rouse)
  where
    behind : t.rouse ++ j ∷ [] ≡ q ++ (new ++ j ∷ [])
    behind = ap (λ r. r ++ j ∷ []) e ∙ append_assoc q new (j ∷ [])

    u : Thread
    u = set_fiber j (record (t.fibers j) { ready = true }) t

    split :
        (b c : Bool)
        → Extends q (
            if b
            then t
            else (if c
                then record u { rouse = t.rouse ++ j ∷ []; sent = true; held = true }
                else record u { rouse = t.rouse ++ j ∷ [] }))
    split true c = (new, e)
    split false true = (new ++ j ∷ [], behind)
    split false false = (new ++ j ∷ [], behind)

rouse-thread_ready : (t : Thread) → (thread_ready t).rouse ≡ t.rouse
unfolding thread_ready
rouse-thread_ready t = ground arith

state_ready-Extends :
    (s : State) (q : List ℕ) (t : Thread) → Extends q t → Extends q (state_ready s t)
unfolding state_ready
state_ready-Extends thread q t (new, e) = (new, rouse-thread_ready t ∙ e)
state_ready-Extends (fiber j) q t x = fiber_ready-Extends j q t x

cond_signal-Extends :
    (c : ℕ) (q : List ℕ) (t : Thread) → Extends q t → Extends q ((cond_signal c t).0)
unfolding cond_signal
cond_signal-Extends c q t x = first (t.conds c)
  where
    first : (w : List State) → Extends q ((cond_signal_head c w t).0)
    first [] = x
    first (s ∷ w) = state_ready-Extends s q (set_cond c w t) x

broadcast_loop-Extends :
    (c : ℕ) (w : List State) (n : ℕ) (q : List ℕ) (t : Thread)
    → Extends q t
    → Extends q ((broadcast_loop c w n t).0)
unfolding broadcast_loop
broadcast_loop-Extends c [] n q t x = x
broadcast_loop-Extends c (s ∷ w) n q t x =
    broadcast_loop-Extends c w (n + 1) q (state_ready s (set_cond c w t))
      (state_ready-Extends s q (set_cond c w t) x)

wake_joiners-Extends :
    (w : List State) (vs : List Value) (q : List ℕ) (t : Thread)
    → Extends q t
    → Extends q (wake_joiners w vs t)
unfolding wake_joiners
wake_joiners-Extends [] vs q t x = x
wake_joiners-Extends (thread ∷ w) vs q t x =
    wake_joiners-Extends w vs q (state_ready thread t) (state_ready-Extends thread q t x)
wake_joiners-Extends (fiber j ∷ w) vs q t x =
    wake_joiners-Extends w vs q (push_values vs (fiber j) (state_ready (fiber j) t))
      (state_ready-Extends (fiber j) q t x)

-- The running fiber is in no queue, so its suspension takes nothing out.
fiber_suspend-keeps :
    (i : ℕ) (t : Thread)
    → t.curr ≡ fiber i
    → ((fiber_suspend i t).0.curr ≡ t.curr) × ((fiber_suspend i t).0.rouse ≡ t.rouse)
unfolding fiber_suspend
fiber_suspend-keeps i t e = (ground (arith, ==_refl i), ground (arith, ==_refl i))

-- What a turn of fiber `i` keeps, whether or not it has been suspended.
abbrev Runs : ℕ → List ℕ → Thread × Bool → Type 0
Runs i q r = (r.0.curr ≡ fiber i) × Extends q r.0

suspend-Runs :
    (i : ℕ) (q : List ℕ) (t : Thread)
    → t.curr ≡ fiber i
    → Extends q t
    → Runs i q (fiber_suspend i t)
suspend-Runs i q t e (new, x) =
    let kept = fiber_suspend-keeps i t e in (kept.0 ∙ e, (new, kept.1 ∙ x))

fiber_join-Runs :
    (j i : ℕ) (q : List ℕ) (t : Thread)
    → t.curr ≡ fiber i
    → Extends q t
    → Safe (Runs i q) (fiber_join j i t)
unfolding fiber_join state_xcopy
fiber_join-Runs j i q t e x = split (j == i) (t.fibers j).dead
  where
    linked : Thread
    linked = set_fiber j (record (t.fibers j) { rouse = (t.fibers j).rouse ++ fiber i ∷ [] }) t

    waits : Runs i q (fiber_suspend i (fiber_ready j linked))
    waits =
        suspend-Runs i q (fiber_ready j linked) (curr-fiber_ready j linked ∙ e)
          (fiber_ready-Extends j q linked x)

    split :
        (self dead : Bool)
        → Safe (Runs i q) (
            if self
            then aborted
            else (if dead
                then ok ((state_xcopy (fiber j) (fiber i) t).1, false)
                else ok (fiber_suspend i (fiber_ready j linked))))
    split true dead = tt
    split false true = (e, x)
    split false false = waits

run_call-Runs :
    (i : ℕ) (c : Call) (q : List ℕ) (t : Thread)
    → t.curr ≡ fiber i
    → Extends q t
    → Safe (Runs i q) (run_call i c t)
unfolding run_call cond_wait cond_broadcast
run_call-Runs i (ready j) q t e x = (curr-fiber_ready j t ∙ e, fiber_ready-Extends j q t x)
run_call-Runs i (join j) q t e x = fiber_join-Runs j i q t e x
run_call-Runs i (wait c) q t e x = suspend-Runs i q (set_cond c _ t) e x
run_call-Runs i (signal c) q t e x = (curr-cond_signal c t ∙ e, cond_signal-Extends c q t x)
run_call-Runs i (broadcast c) q t e x =
    (curr-broadcast_loop c (t.conds c) 0 t ∙ e, broadcast_loop-Extends c (t.conds c) 0 q t x)
run_call-Runs i suspend q t e x = suspend-Runs i q t e x

run_calls-Runs :
    (i : ℕ) (cs : List Call) (q : List ℕ) (t : Thread)
    → t.curr ≡ fiber i
    → Extends q t
    → Safe (Runs i q) (run_calls i cs t)
unfolding run_calls
run_calls-Runs i [] q t e x = (e, x)
run_calls-Runs i (c ∷ cs) q t e x =
    Safe-bind (Runs i q) (Runs i q) (run_call i c t) _ (run_call-Runs i c q t e x)
      (next (run_calls-Runs i cs q))
  where
    next :
        ((u : Thread) → u.curr ≡ fiber i → Extends q u → Safe (Runs i q) (run_calls i cs u))
        → (r : Thread × Bool) → Runs i q r
        → Safe (Runs i q) (if r.1 then ok (r.0, true) else run_calls i cs r.0)
    next rest (t', true) h = h
    next rest (t', false) (e', x') = rest t' e' x'

after_yield-Extends : (i : ℕ) (q : List ℕ) (t : Thread) → Extends q t → Extends q (after_yield i t)
unfolding after_yield
after_yield-Extends i q t (new, e) = split (t.fibers i).ready
  where
    split : (b : Bool) → Extends q (if b then record t { rouse = t.rouse ++ i ∷ [] } else t)
    split true = (new ++ i ∷ [], ap (λ r. r ++ i ∷ []) e ∙ append_assoc q new (i ∷ []))
    split false = (new, e)

rouse-fiber_close : (i : ℕ) (t : Thread) → (fiber_close i t).rouse ≡ t.rouse
unfolding fiber_close
rouse-fiber_close i t = ground arith

after_exit-Extends :
    (i : ℕ) (vs : List Value) (q : List ℕ) (t : Thread)
    → Extends q t
    → Extends q (after_exit i vs t)
unfolding after_exit
after_exit-Extends i vs q t x =
    let emptied = set_fiber i (record (t.fibers i) { rouse = []; stack = vs }) t in
    let (new, e) = wake_joiners-Extends (t.fibers i).rouse vs q emptied x in
    (new, rouse-fiber_close i (wake_joiners (t.fibers i).rouse vs emptied) ∙ e)

after_turn-Extends :
    (i : ℕ) (b : Bool) (ending : Ending) (q : List ℕ) (t : Thread)
    → Extends q t
    → Safe (Extends q) (after_turn i b ending t)
unfolding after_turn
after_turn-Extends i true ending q t x = after_yield-Extends i q (back t) x
after_turn-Extends i false yields q t x = after_yield-Extends i q (back t) x
after_turn-Extends i false (exits vs) q t x = after_exit-Extends i vs q (back t) x
after_turn-Extends i false (fails n) q t x = λ p. cc

resume_fiber-Extends :
    (i : ℕ) (q : List ℕ) (turn : Turn) (t : Thread)
    → (t.fibers i).dead ≡ false
    → Safe (Extends q) (resume_fiber i turn (record t { rouse = q }))
unfolding resume_fiber started
resume_fiber-Extends i q turn t d = split (t.fibers i).dead d
  where
    split :
        (dead : Bool)
        → dead ≡ false
        → Safe (Extends q) (
            if dead
            then raised dead_fiber
            else (run_calls i turn.calls (started i q t) >>= λ (t', stop).
                after_turn i stop turn.ending t'))
    split true h = absurd cc
    split false h =
        Safe-bind (Runs i q) (Extends q) (run_calls i turn.calls (started i q t)) _
          (run_calls-Runs i turn.calls q (started i q t) refl ([], sym (append-nil q)))
          (λ (t', stop) (e, x). after_turn-Extends i stop turn.ending q t' x)

-- The thread runs, and the queue, fiber `i` at its head and `q` behind it, agrees with the flags. Then
-- `thread_once` leaves `q` in front, in its order, and whatever it queues in the turn, `i` included,
-- stands behind it. It ends in such a state, in an error other than "cannot resume a dead fiber", or
-- in a failed assertion.
pub thread_once-order :
    (i : ℕ) (q : List ℕ) (turn : Turn) (t : Thread)
    → Settled t
    → t.rouse ≡ i ∷ q
    → Safe (λ r. Extends q r.0) (thread_once turn t)
unfolding thread_once once_on
thread_once-order i q turn t s e =
    subst (λ w. Safe (λ r. Extends q r.0) (once_on w turn t)) (sym e)
      (Safe-bind (Extends q) (λ r. Extends q r.0) (resume_fiber i turn (record t { rouse = q })) _
        (resume_fiber-Extends i q turn t (head-alive i q t s e).0) (λ t' x. x))
