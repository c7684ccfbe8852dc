-- ===== src/Scheduler/Turns.antt =====
-- The calls that a running fiber makes, and the balance of the queue and the flags.
use rava.Base.{ℕ, ◌≡◌, refl, ◌∙◌, Bool, true, false, List, [], ◌∷◌, ◌++◌, ◌≢◌, ◌==◌, if◌then◌else◌}
use rava.Outcome.{Outcome, ok, raised, fault, aborted, stuck, ◌>>=◌, dead_fiber}
use rava.Scheduler.{
  thread, fiber, Thread, set_fiber, set_cond, fiber_ready, fiber_suspend, state_xcopy,
  cond_broadcast,
}
use rava.Scheduler.Calls.{
  Call, ready, join, wait, signal, broadcast, suspend, fiber_join, cond_wait, run_call, run_calls,
}
use rava.Scheduler.Balance.{
  Balanced, fiber_ready-Balanced, set_cond-Balanced, set_fiber-Balanced, push_values-Balanced,
  cond_signal-Balanced, broadcast_loop-Balanced, curr-fiber_ready, curr-broadcast_loop,
  curr-cond_signal, fiber_suspend-Balanced,
}

-- The state once the thread runs again.
abbrev pub back : Thread → Thread
back t = record t { curr = thread }

-- A call ends in a state with the property, or in an error other than the resumption of a dead fiber.
-- A failed assertion is one of the ends: a fiber may join itself.
abbrev pub Safe {ℓ} : {A : Type ℓ} → (A → Type 0) → Outcome A → Type 0
Safe P (ok a) = P a
Safe P (raised e) = e ≢ dead_fiber
Safe P fault = ¬ Unit {0}
Safe P aborted = Unit {0}
Safe P stuck = ¬ Unit {0}

pub Safe-bind {ℓ κ} :
    {A : Type ℓ} {B : Type κ} (P : A → Type 0) (Q : B → Type 0) (r : Outcome A) (f : A → Outcome B)
    → Safe P r
    → ((a : A) → P a → Safe Q (f a))
    → Safe Q (r >>= f)
Safe-bind P Q (ok a) f p k = k a p
Safe-bind P Q (raised e) f p k = p
Safe-bind P Q fault f p k = p
Safe-bind P Q aborted f p k = p
Safe-bind P Q stuck f p k = p

-- What the calls of fiber `i` leave: it has been suspended, or it still runs.
abbrev pub Handed : ℕ → Thread × Bool → Type 0
Handed i (t, true) = ((t.fibers i).ready ≡ false) × Balanced (back t)
Handed i (t, false) = (t.curr ≡ fiber i) × Balanced t

suspended : (i : ℕ) (t : Thread) → t.curr ≡ fiber i → Balanced t → Handed i (fiber_suspend i t)
suspended i t e v = handed (fiber_suspend i t) (fiber_suspend-Balanced i t e v)
  where
    handed :
        (r : Thread × Bool)
        → (r.1 ≡ true) × ((r.0.fibers i).ready ≡ false) × Balanced (back r.0)
        → Handed i r
    handed (t', true) (h, r, b) = (r, b)
    handed (t', false) (h, r, b) = absurd cc

fiber_join-Safe :
    (j i : ℕ) (t : Thread) → t.curr ≡ fiber i → Balanced t → Safe (Handed i) (fiber_join j i t)
unfolding fiber_join state_xcopy
fiber_join-Safe j i t e v = split (j == i) (t.fibers j).dead
  where
    linked : Thread
    linked = set_fiber j (record (t.fibers j) { rouse = (t.fibers j).rouse ++ fiber i ∷ [] }) t

    waits : Handed i (fiber_suspend i (fiber_ready j linked))
    waits =
        suspended i (fiber_ready j linked) (curr-fiber_ready j linked ∙ e)
          (fiber_ready-Balanced j linked (set_fiber-Balanced j _ t refl refl v))

    split :
        (self dead : Bool)
        → Safe (Handed i) (
            if self
            then aborted
            else (if dead
                then ok ((state_xcopy (fiber j) (fiber i) t).1, false)
                else ok (fiber_suspend i (fiber_ready j linked))))
    split true dead = tt
    split false true = (e, push_values-Balanced _ (fiber i) t v)
    split false false = waits

run_call-Safe :
    (i : ℕ) (c : Call) (t : Thread)
    → t.curr ≡ fiber i
    → Balanced t
    → Safe (Handed i) (run_call i c t)
unfolding run_call cond_wait cond_broadcast
run_call-Safe i (ready j) t e v = (curr-fiber_ready j t ∙ e, fiber_ready-Balanced j t v)
run_call-Safe i (join j) t e v = fiber_join-Safe j i t e v
run_call-Safe i (wait c) t e v = suspended i (set_cond c _ t) e (set_cond-Balanced c _ t v)
run_call-Safe i (signal c) t e v = (curr-cond_signal c t ∙ e, cond_signal-Balanced c t v)
run_call-Safe i (broadcast c) t e v =
    (curr-broadcast_loop c (t.conds c) 0 t ∙ e, broadcast_loop-Balanced c (t.conds c) 0 t v)
run_call-Safe i suspend t e v = suspended i t e v

pub run_calls-Safe :
    (i : ℕ) (cs : List Call) (t : Thread)
    → t.curr ≡ fiber i
    → Balanced t
    → Safe (Handed i) (run_calls i cs t)
unfolding run_calls
run_calls-Safe i [] t e v = (e, v)
run_calls-Safe i (c ∷ cs) t e v =
    Safe-bind (Handed i) (Handed i) (run_call i c t) _ (run_call-Safe i c t e v)
      (next (run_calls-Safe i cs))
  where
    next :
        ((u : Thread) → u.curr ≡ fiber i → Balanced u → Safe (Handed i) (run_calls i cs u))
        → (r : Thread × Bool) → Handed i r
        → Safe (Handed i) (if r.1 then ok (r.0, true) else run_calls i cs r.0)
    next rest (t', true) h = h
    next rest (t', false) (e', v') = rest t' e' v'
