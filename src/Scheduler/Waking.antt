-- ===== src/Scheduler/Waking.antt =====
-- Whom a broadcast, a signal and the exit of a fiber wake: src/rava_process_cond.c and
-- src/rava_process_thread.c.
use rava.Base.{
  ℕ, ◌+◌, ◌≡◌, refl, sym, ap, ◌∙◌, arith, Bool, true, false, ◌||◌, List, [], ◌∷◌, length, ◌==◌,
  ==_refl, ==_iff, Bool-cases, inl, inr,
}
use rava.Lua.{Value}
use rava.Scheduler.{
  State, thread, fiber, Thread, set_fiber, set_cond, push_values, thread_ready, fiber_ready,
  state_ready, fiber_close, cond_broadcast, broadcast_loop,
}
use rava.Scheduler.Calls.{wake_joiners, after_exit}

-- Is a fiber among the states of a queue?
abbrev pub listed : ℕ → List State → Bool
listed i [] = false
listed i (thread ∷ q) = listed i q
listed i (fiber j ∷ q) = (i == j) || listed i q

pub ready-fiber_ready : (i : ℕ) (t : Thread) → ((fiber_ready i t).fibers i).ready ≡ true
unfolding fiber_ready
ready-fiber_ready i t = ground (arith, ==_refl i)

-- A fiber that is ready stays so.
ready-state_ready :
    (i : ℕ) (s : State) (t : Thread)
    → (t.fibers i).ready ≡ true
    → ((state_ready s t).fibers i).ready ≡ true
unfolding state_ready thread_ready fiber_ready
ready-state_ready i thread t r = ground arith
ready-state_ready i (fiber j) t r = ground arith

ready-push_values :
    (i : ℕ) (vs : List Value) (s : State) (t : Thread)
    → ((push_values vs s t).fibers i).ready ≡ (t.fibers i).ready
ready-push_values i vs thread t = refl
ready-push_values i vs (fiber j) t = ground arith

ready-broadcast_loop :
    (c : ℕ) (q : List State) (n i : ℕ) (t : Thread)
    → (t.fibers i).ready ≡ true
    → ((broadcast_loop c q n t).0.fibers i).ready ≡ true
unfolding broadcast_loop
ready-broadcast_loop c [] n i t r = r
ready-broadcast_loop c (s ∷ q) n i t r =
    ready-broadcast_loop c q (n + 1) i _ (ready-state_ready i s (set_cond c q t) r)

pub conds-state_ready : (s : State) (t : Thread) → (state_ready s t).conds ≡ t.conds
unfolding state_ready thread_ready fiber_ready
conds-state_ready thread t = ground arith
conds-state_ready (fiber j) t = ground arith

broadcast_loop-wakes :
    (c : ℕ) (q : List State) (n i : ℕ) (t : Thread)
    → listed i q ≡ true
    → ((broadcast_loop c q n t).0.fibers i).ready ≡ true
unfolding broadcast_loop state_ready
broadcast_loop-wakes c [] n i t h = absurd cc
broadcast_loop-wakes c (thread ∷ q) n i t h =
    broadcast_loop-wakes c q (n + 1) i (thread_ready (set_cond c q t)) h
broadcast_loop-wakes c (fiber j ∷ q) n i t h = elim (Bool-cases (i == j)) [
  | inl e ↦ ready-broadcast_loop c q (n + 1) i (fiber_ready j (set_cond c q t)) (
      ap (λ k. ((fiber_ready k (set_cond c q t)).fibers i).ready) (sym ((==_iff i j).0 e))
      ∙ ready-fiber_ready i (set_cond c q t))
  | inr e ↦
      broadcast_loop-wakes c q (n + 1) i (fiber_ready j (set_cond c q t))
        (ap (λ b. b || listed i q) (sym e) ∙ h)
]

broadcast_loop-result :
    (c : ℕ) (q : List State) (n : ℕ) (t : Thread) → (broadcast_loop c q n t).1 ≡ n + length q
unfolding broadcast_loop
broadcast_loop-result c [] n t = omega arith
broadcast_loop-result c (s ∷ q) n t =
    broadcast_loop-result c q (n + 1) (state_ready s (set_cond c q t)) ∙ omega arith

broadcast_loop-empties :
    (c : ℕ) (q : List State) (n : ℕ) (t : Thread)
    → t.conds c ≡ q
    → (broadcast_loop c q n t).0.conds c ≡ []
unfolding broadcast_loop
broadcast_loop-empties c [] n t e = e
broadcast_loop-empties c (s ∷ q) n t e =
    broadcast_loop-empties c q (n + 1) (state_ready s (set_cond c q t))
      (ap (λ f. f c) (conds-state_ready s (set_cond c q t)) ∙ ground (arith, ==_refl c))

-- A broadcast leaves no state in the queue of the condition, returns how many it has roused, and
-- makes ready each fiber that was in the queue.
pub cond_broadcast-wakes :
    (c i : ℕ) (t : Thread)
    → listed i (t.conds c) ≡ true
    → ((cond_broadcast c t).0.conds c ≡ [])
      × ((cond_broadcast c t).1 ≡ length (t.conds c))
      × (((cond_broadcast c t).0.fibers i).ready ≡ true)
unfolding cond_broadcast
cond_broadcast-wakes c i t h = (
  broadcast_loop-empties c (t.conds c) 0 t refl,
  broadcast_loop-result c (t.conds c) 0 t ∙ omega arith,
  broadcast_loop-wakes c (t.conds c) 0 i t h,
)

ready-wake_joiners :
    (q : List State) (vs : List Value) (i : ℕ) (t : Thread)
    → (t.fibers i).ready ≡ true
    → ((wake_joiners q vs t).fibers i).ready ≡ true
unfolding wake_joiners
ready-wake_joiners [] vs i t r = r
ready-wake_joiners (thread ∷ q) vs i t r =
    ready-wake_joiners q vs i (state_ready thread t) (ready-state_ready i thread t r)
ready-wake_joiners (fiber j ∷ q) vs i t r =
    ready-wake_joiners q vs i (push_values vs (fiber j) (state_ready (fiber j) t)) (
      ready-push_values i vs (fiber j) (state_ready (fiber j) t)
      ∙ ready-state_ready i (fiber j) t r)

wake_joiners-wakes :
    (q : List State) (vs : List Value) (i : ℕ) (t : Thread)
    → listed i q ≡ true
    → ((wake_joiners q vs t).fibers i).ready ≡ true
unfolding wake_joiners state_ready
wake_joiners-wakes [] vs i t h = absurd cc
wake_joiners-wakes (thread ∷ q) vs i t h = wake_joiners-wakes q vs i (thread_ready t) h
wake_joiners-wakes (fiber j ∷ q) vs i t h =
    let t' = push_values vs (fiber j) (fiber_ready j t) in
    elim (Bool-cases (i == j)) [
      | inl e ↦ ready-wake_joiners q vs i t' (
          ready-push_values i vs (fiber j) (fiber_ready j t)
          ∙ ap (λ k. ((fiber_ready k t).fibers i).ready) (sym ((==_iff i j).0 e))
          ∙ ready-fiber_ready i t)
      | inr e ↦ wake_joiners-wakes q vs i t' (ap (λ b. b || listed i q) (sym e) ∙ h)
    ]

-- Waking joiners changes no fiber's death and no fiber's own joiners.
abbrev SameLife : ℕ → Thread → Thread → Type 0
SameLife i t' t =
    ((t'.fibers i).dead ≡ (t.fibers i).dead) × ((t'.fibers i).rouse ≡ (t.fibers i).rouse)

state_ready-SameLife : (i : ℕ) (s : State) (t : Thread) → SameLife i (state_ready s t) t
unfolding state_ready thread_ready fiber_ready
state_ready-SameLife i thread t = (ground arith, ground arith)
state_ready-SameLife i (fiber j) t = (ground arith, ground arith)

push_values-SameLife :
    (i : ℕ) (vs : List Value) (s : State) (t : Thread) → SameLife i (push_values vs s t) t
push_values-SameLife i vs thread t = (refl, refl)
push_values-SameLife i vs (fiber j) t = (ground arith, ground arith)

wake_joiners-SameLife :
    (q : List State) (vs : List Value) (i : ℕ) (t : Thread) → SameLife i (wake_joiners q vs t) t
unfolding wake_joiners
wake_joiners-SameLife [] vs i t = (refl, refl)
wake_joiners-SameLife (thread ∷ q) vs i t =
    let a = wake_joiners-SameLife q vs i (state_ready thread t) in
    let b = state_ready-SameLife i thread t in (a.0 ∙ b.0, a.1 ∙ b.1)
wake_joiners-SameLife (fiber j ∷ q) vs i t =
    let u = state_ready (fiber j) t in
    let a = wake_joiners-SameLife q vs i (push_values vs (fiber j) u) in
    let b = push_values-SameLife i vs (fiber j) u in
    let c = state_ready-SameLife i (fiber j) t in (a.0 ∙ b.0 ∙ c.0, a.1 ∙ b.1 ∙ c.1)

fiber_close-closes :
    (i : ℕ) (t : Thread)
    → (t.fibers i).dead ≡ false
    → (((fiber_close i t).fibers i).dead ≡ true)
      × (((fiber_close i t).fibers i).registered ≡ false)
      × (((fiber_close i t).fibers i).rouse ≡ (t.fibers i).rouse)
unfolding fiber_close
fiber_close-closes i t d =
    (ground (arith, ==_refl i), ground (arith, ==_refl i), ground (arith, ==_refl i))

ready-fiber_close : (i j : ℕ) (t : Thread) → ((fiber_close i t).fibers j).ready ≡ (t.fibers j).ready
unfolding fiber_close
ready-fiber_close i j t = ground arith

-- The exit of a fiber makes ready each fiber that joined it, and leaves it dead, out of the registry
-- and with no joiners, if it was not dead before.
pub after_exit-wakes :
    (i j : ℕ) (vs : List Value) (t : Thread)
    → (t.fibers i).dead ≡ false
    → listed j (t.fibers i).rouse ≡ true
    → (((after_exit i vs t).fibers i).dead ≡ true)
      × (((after_exit i vs t).fibers i).registered ≡ false)
      × (((after_exit i vs t).fibers i).rouse ≡ [])
      × (((after_exit i vs t).fibers j).ready ≡ true)
unfolding after_exit
after_exit-wakes i j vs t d h =
    let q = (t.fibers i).rouse in
    let emptied = set_fiber i (record (t.fibers i) { rouse = []; stack = vs }) t in
    let life = wake_joiners-SameLife q vs i emptied in
    let alive : ((wake_joiners q vs emptied).fibers i).dead ≡ false =
      life.0 ∙ ground (arith, ==_refl i) in
    let closed = fiber_close-closes i (wake_joiners q vs emptied) alive in
    (
      closed.0,
      closed.1,
      closed.2 ∙ life.1 ∙ ground (arith, ==_refl i),
      ready-fiber_close i j (wake_joiners q vs emptied) ∙ wake_joiners-wakes q vs j emptied h,
    )
