-- ===== src/Scheduler/Balance.antt =====
-- The invariant of the scheduler: a fiber is in the queue once, or not at all, as its flags say.
use rava.Base.{
  ℕ, suc, ◌+◌, ◌≡◌, refl, ◌∙◌, arith, Bool, true, false, not, ◌&&◌, List, [], ◌∷◌, ◌++◌, ==_refl,
  ◌==◌, if◌then◌else◌,
}
use rava.Lua.{Value}
use rava.Scheduler.{
  State, thread, fiber, same_state, Fiber, Thread, set_fiber, set_cond, thread_ready, fiber_ready,
  state_ready, fiber_suspend, push_values, cond_signal, cond_signal_head, broadcast_loop,
}

-- How often a fiber stands in the queue.
unfoldable pub occurs : ℕ → List ℕ → ℕ
occurs i [] = 0
occurs i (j ∷ js) = if i == j then suc (occurs i js) else occurs i js

pub occurs-append : (i : ℕ) (xs ys : List ℕ) → occurs i (xs ++ ys) ≡ occurs i xs + occurs i ys
unfolding occurs
occurs-append i [] ys = omega arith
occurs-append i (x ∷ xs) ys = ground (arith, occurs-append i xs ys)

pub occurs-one : (i j : ℕ) → occurs i (j ∷ []) ≡ (if i == j then 1 else 0)
unfolding occurs
occurs-one i j = ground arith

abbrev pub is_running : ℕ → Thread → Bool
is_running i t = same_state (fiber i) t.curr

-- A fiber waits in the queue exactly if it is ready, not dead, and not the one that runs.
abbrev pub turns_due : Fiber → Bool → ℕ
turns_due f running = if f.ready && (not f.dead && not running) then 1 else 0

pub record BalancedAt (i : ℕ) (t : Thread) : Type 0 where
  pub queued : occurs i t.rouse ≡ turns_due (t.fibers i) (is_running i t)
  pub dead_ready : (t.fibers i).dead ≡ true → (t.fibers i).ready ≡ true
  pub runs : is_running i t ≡ true → ((t.fibers i).ready ≡ true) × ((t.fibers i).dead ≡ false)

abbrev pub Balanced : Thread → Type 0
Balanced t = (i : ℕ) → BalancedAt i t

pub fiber_ready-Balanced : (j : ℕ) (t : Thread) → Balanced t → Balanced (fiber_ready j t)
unfolding fiber_ready
fiber_ready-Balanced j t v i =
    let vi = v i in let vj = v j in ground (arith, occurs-append i t.rouse (j ∷ []), occurs-one i j)

pub state_ready-Balanced : (s : State) (t : Thread) → Balanced t → Balanced (state_ready s t)
unfolding state_ready thread_ready
state_ready-Balanced thread t v i = let vi = v i in ground arith
state_ready-Balanced (fiber j) t v i = fiber_ready-Balanced j t v i

-- The waiting queues are no part of the balance, nor are a fiber's joiners and its stack.
pub set_cond-Balanced :
    (c : ℕ) (q : List State) (t : Thread) → Balanced t → Balanced (set_cond c q t)
set_cond-Balanced c q t v i = record {
  queued = (v i).queued;
  dead_ready = (v i).dead_ready;
  runs = (v i).runs;
}

pub set_fiber-Balanced :
    (j : ℕ) (f : Fiber) (t : Thread)
    → f.ready ≡ (t.fibers j).ready
    → f.dead ≡ (t.fibers j).dead
    → Balanced t
    → Balanced (set_fiber j f t)
set_fiber-Balanced j f t r d v i = let vi = v i in ground arith

pub push_values-Balanced :
    (vs : List Value) (s : State) (t : Thread) → Balanced t → Balanced (push_values vs s t)
push_values-Balanced vs thread t v i = record {
  queued = (v i).queued;
  dead_ready = (v i).dead_ready;
  runs = (v i).runs;
}
push_values-Balanced vs (fiber j) t v i = set_fiber-Balanced j _ t refl refl v i

pub cond_signal-Balanced : (c : ℕ) (t : Thread) → Balanced t → Balanced (cond_signal c t).0
unfolding cond_signal
cond_signal-Balanced c t v = head (t.conds c)
  where
    head : (q : List State) → Balanced (cond_signal_head c q t).0
    head [] = v
    head (s ∷ q) = state_ready-Balanced s _ (set_cond-Balanced c q t v)

pub broadcast_loop-Balanced :
    (c : ℕ) (q : List State) (n : ℕ) (t : Thread) → Balanced t → Balanced (broadcast_loop c q n t).0
unfolding broadcast_loop
broadcast_loop-Balanced c [] n t v = v
broadcast_loop-Balanced c (s ∷ q) n t v =
    broadcast_loop-Balanced c q (n + 1) _ (state_ready-Balanced s _ (set_cond-Balanced c q t v))

-- None of these changes which fiber runs.
pub curr-fiber_ready : (j : ℕ) (t : Thread) → (fiber_ready j t).curr ≡ t.curr
unfolding fiber_ready
curr-fiber_ready j t = ground arith

pub curr-state_ready : (s : State) (t : Thread) → (state_ready s t).curr ≡ t.curr
unfolding state_ready thread_ready
curr-state_ready thread t = ground arith
curr-state_ready (fiber j) t = curr-fiber_ready j t

pub curr-broadcast_loop :
    (c : ℕ) (q : List State) (n : ℕ) (t : Thread) → (broadcast_loop c q n t).0.curr ≡ t.curr
unfolding broadcast_loop
curr-broadcast_loop c [] n t = refl
curr-broadcast_loop c (s ∷ q) n t =
    curr-broadcast_loop c q (n + 1) _ ∙ curr-state_ready s (set_cond c q t)

pub curr-cond_signal : (c : ℕ) (t : Thread) → (cond_signal c t).0.curr ≡ t.curr
unfolding cond_signal
curr-cond_signal c t = head (t.conds c)
  where
    head : (q : List State) → (cond_signal_head c q t).0.curr ≡ t.curr
    head [] = refl
    head (s ∷ q) = curr-state_ready s (set_cond c q t)

-- The running fiber, suspended: once the thread is back, the fiber is out of the queue.
pub fiber_suspend-Balanced :
    (i : ℕ) (t : Thread)
    → t.curr ≡ fiber i
    → Balanced t
    → ((fiber_suspend i t).1 ≡ true)
      × (((fiber_suspend i t).0.fibers i).ready ≡ false)
      × Balanced (record ((fiber_suspend i t).0) { curr = thread })
unfolding fiber_suspend
fiber_suspend-Balanced i t e v =
    let vi = v i in (ground (arith, ==_refl i), ground (arith, ==_refl i), balanced)
  where
    balanced : (j : ℕ) → BalancedAt j (record ((fiber_suspend i t).0) { curr = thread })
    balanced j = let vi = v i in let vj = v j in ground (arith, ==_refl i)
