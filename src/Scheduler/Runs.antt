-- ===== src/Scheduler/Runs.antt =====
-- `ravaL_thread_loop` of src/rava_process_thread.c: turn after turn, until no fiber is left in the
-- queue. What the fibers do is given as the list of their turns; a run that needs more is `stuck`.
use rava.Base.{
  ℕ, ◌≡◌, refl, sym, ◌∙◌, arith, Bool, true, false, not, List, [], ◌∷◌, ◌++◌, ◌≢◌, append_assoc,
  append-nil, length, if◌then◌else◌,
}
use rava.Outcome.{Outcome, ok, raised, fault, aborted, stuck, ◌>>=◌, dead_fiber}
use rava.Scheduler.{Thread, is_empty}
use rava.Scheduler.Calls.{Turn, thread_once}
use rava.Scheduler.Balance.{occurs}
use rava.Scheduler.Turns.{Safe, Safe-bind}
use rava.Scheduler.Loop.{Settled, Done, thread_once-Safe}
use rava.Scheduler.Order.{Extends, thread_once-order}

-- The turns that are left over are given back.
unfoldable pub thread_loop : List Turn → Thread → Outcome (Thread × List Turn)
unfolding thread_once
thread_loop [] t = if is_empty t.rouse then ok (t, []) else stuck
thread_loop (turn ∷ turns) t =
    let next = thread_once turn t >>= λ (t', more). elim more [
      | true ↦ thread_loop turns t'
      | false ↦ ok (t', turns)
    ] in
    if is_empty t.rouse then ok (t, turn ∷ turns) else next

-- How the loop may end: settled, with an empty queue; in an error other than the resumption of a dead
-- fiber; in a failed assertion; or with no turn left while fibers are in the queue.
abbrev pub Drained : Outcome (Thread × List Turn) → Type 0
Drained (ok (t, turns)) = Settled t × (t.rouse ≡ [])
Drained (raised e) = e ≢ dead_fiber
Drained fault = ¬ Unit {0}
Drained aborted = Unit {0}
Drained stuck = Unit {0}

empty-nil : (q : List ℕ) → is_empty q ≡ true → q ≡ []
empty-nil [] h = refl
empty-nil (i ∷ q) h = absurd cc

Drained-bind :
    (r : Outcome (Thread × Bool)) (f : Thread × Bool → Outcome (Thread × List Turn))
    → Safe Done r
    → ((a : Thread × Bool) → Done a → Drained (f a))
    → Drained (r >>= f)
Drained-bind (ok a) f p k = k a p
Drained-bind (raised e) f p k = p
Drained-bind fault f p k = p
Drained-bind aborted f p k = p
Drained-bind stuck f p k = absurd (p tt)

pub thread_loop-Drained :
    (turns : List Turn) (t : Thread) → Settled t → Drained (thread_loop turns t)
unfolding thread_loop
thread_loop-Drained [] t s = split (is_empty t.rouse) refl
  where
    split : (b : Bool) → is_empty t.rouse ≡ b → Drained (if b then ok (t, []) else stuck)
    split true e = (s, empty-nil t.rouse e)
    split false e = tt
thread_loop-Drained (turn ∷ turns) t s = split (thread_loop-Drained turns) (is_empty t.rouse) refl
  where
    step : Thread × Bool → Outcome (Thread × List Turn)
    step (t', more) = elim more [ true ↦ thread_loop turns t' | false ↦ ok (t', turns) ]

    after :
        ((u : Thread) → Settled u → Drained (thread_loop turns u))
        → (a : Thread × Bool) → Done a
        → Drained (step a)
    after rest (t', true) (v, m) = rest t' v
    after rest (t', false) (v, m) = (v, empty-nil t'.rouse (flip (is_empty t'.rouse) m))
      where
        flip : (b : Bool) → false ≡ not b → b ≡ true
        flip true h = refl
        flip false h = absurd cc

    split :
        ((u : Thread) → Settled u → Drained (thread_loop turns u))
        → (b : Bool) → is_empty t.rouse ≡ b
        → Drained (if b then ok (t, turn ∷ turns) else (thread_once turn t >>= step))
    split rest true e = (s, empty-nil t.rouse e)
    split rest false e =
        Drained-bind (thread_once turn t) step (thread_once-Safe turn t s) (after rest)

-- With an empty queue no fiber that is alive is ready.
pub idle-unready :
    (t : Thread) (i : ℕ)
    → Settled t
    → t.rouse ≡ []
    → (t.fibers i).dead ≡ false
    → (t.fibers i).ready ≡ false
unfolding occurs
idle-unready t i (c, v) e alive = let vi = v i in ground arith

Safe-both {ℓ} :
    {A : Type ℓ} (P Q : A → Type 0) (r : Outcome A) → Safe P r → Safe Q r → Safe (λ a. P a × Q a) r
Safe-both P Q (ok a) p q = (p, q)
Safe-both P Q (raised e) p q = p
Safe-both P Q fault p q = p
Safe-both P Q aborted p q = p
Safe-both P Q stuck p q = p

Safe-map {ℓ} :
    {A : Type ℓ} (P Q : A → Type 0) (r : Outcome A) → ((a : A) → P a → Q a) → Safe P r → Safe Q r
Safe-map P Q (ok a) f p = f a p
Safe-map P Q (raised e) f p = p
Safe-map P Q fault f p = p
Safe-map P Q aborted f p = p
Safe-map P Q stuck f p = p

-- What stands behind a longer front stands behind a shorter one.
Extends-shorter : (q new : List ℕ) (t : Thread) → Extends (q ++ new) t → Extends q t
Extends-shorter q new t (more, e) = (new ++ more, e ∙ append_assoc q new more)

-- Some turns, one after the other.
unfoldable pub run_turns : List Turn → Thread → Outcome Thread
run_turns [] t = ok t
run_turns (turn ∷ turns) t = thread_once turn t >>= λ (t', more). run_turns turns t'

-- Fiber `i` stands behind the fibers `q` in the queue of a settled thread. When each of those has had
-- its turn, `i` is at the head of the queue, whatever the fibers did, unless one of them ended in an
-- error or a failed assertion.
pub run_turns-fair :
    (q r : List ℕ) (i : ℕ) (turns : List Turn) (t : Thread)
    → Settled t
    → t.rouse ≡ q ++ i ∷ r
    → length turns ≡ length q
    → Safe (λ t'. Settled t' × Extends (i ∷ r) t') (run_turns turns t)
unfolding run_turns
run_turns-fair [] r i [] t s e l = (s, ([], e ∙ sym (append-nil (i ∷ r))))
run_turns-fair [] r i (turn ∷ turns) t s e l = absurd (omega arith)
run_turns-fair (j ∷ q) r i [] t s e l = absurd (omega arith)
run_turns-fair (j ∷ q) r i (turn ∷ turns) t s e l =
    Safe-bind (λ a. Done a × Extends (q ++ i ∷ r) a.0) (λ t'. Settled t' × Extends (i ∷ r) t')
      (thread_once turn t) _
      (Safe-both Done (λ a. Extends (q ++ i ∷ r) a.0) (thread_once turn t)
        (thread_once-Safe turn t s) (thread_once-order j (q ++ i ∷ r) turn t s e))
      (λ (t', more) (done, (new, f)).
        Safe-map (λ u. Settled u × Extends (i ∷ (r ++ new)) u) (λ u. Settled u × Extends (i ∷ r) u)
          (run_turns turns t') (λ u (v, x). (v, Extends-shorter (i ∷ r) new u x))
          (run_turns-fair q (r ++ new) i turns t' done.0 (f ∙ append_assoc q (i ∷ r) new)
            (omega (arith, l))))
