-- ===== src/Handles.antt =====
-- src/rava_process_timer.c and src/rava_process_idle.c: handles that wake every state that waits for
-- them. libuv's calls on a timer or an idle handle are fields of a record; a handle is an object of
-- Stream, and its callback runs between two turns of the scheduler.
use rava.Base.{
  ℕ, ◌+◌, ◌≡◌, refl, ◌∙◌, ap, arith, inl, inr, Bool, true, List, [], ◌∷◌, Option, ◌==◌, Bool-cases,
}
use rava.Lua.{Value}
use rava.Scheduler.{
  State, thread, fiber, Thread, set_cond, state_ready, thread_ready, fiber_ready, thread_enqueue,
  broadcast_loop, cond_broadcast,
}
use rava.Scheduler.Calls.{cond_wait}
use rava.Scheduler.Balance.{set_fiber-Balanced, broadcast_loop-Balanced, curr-broadcast_loop}
use rava.Scheduler.Loop.{Settled}
use rava.Scheduler.Waking.{listed, cond_broadcast-wakes}
use rava.Stream.{Uv, Net, set_stack, set_object, set_loop, object_init, object_close}

-- The calls of libuv on timers and idle handles; a call answers 0 (`none`) or an error.
pub record Ticks (H : Type 0) : Type 0 where
  pub timer_init : H
  pub timer_start : H → ℕ → ℕ → Option ℕ × H
  pub timer_again : H → Option ℕ × H
  pub timer_stop : H → Option ℕ × H
  pub idle_init : H
  pub idle_start : H → Option ℕ × H
  pub idle_stop : H → Option ℕ × H

-- The stacks of the states in a queue are emptied, the head's first.
unfoldable pub clear_stacks : List State → Thread → Thread
clear_stacks [] t = t
clear_stacks (s ∷ q) t = clear_stacks q (set_stack [] s t)

module _ (uv : Uv) (ticks : Ticks uv.Handle) where
  -- rava_new_timer and rava_new_idle, as object `c` of the running state
  unfoldable pub new_timer : State → ℕ → Net uv.Handle → Net uv.Handle
  unfolding object_init
  new_timer s c n =
      object_init uv s c (set_object uv c (record (n.objects c) { handle = ticks.timer_init }) n)

  unfoldable pub new_idle : State → ℕ → Net uv.Handle → Net uv.Handle
  unfolding object_init
  new_idle s c n =
      object_init uv s c (set_object uv c (record (n.objects c) { handle = ticks.idle_init }) n)

  -- _timer_cb
  unfoldable pub timer_cb : ℕ → Net uv.Handle → Net uv.Handle
  unfolding clear_stacks
  timer_cb c n = set_loop uv ((cond_broadcast c (clear_stacks (n.loop.conds c) n.loop)).0) n

  -- _idle_cb
  unfoldable pub idle_cb : ℕ → Net uv.Handle → Net uv.Handle
  idle_cb c n = set_loop uv ((cond_broadcast c n.loop).0) n

  abbrev pub answered : ℕ → Option ℕ × uv.Handle → Net uv.Handle → Net uv.Handle × Value
  answered c (r, h) n = (set_object uv c (record (n.objects c) { handle = h }) n, uv.status r)

  -- rava_timer_start, _again and _stop, rava_idle_start and _stop: the status is what they return.
  unfoldable pub timer_start : ℕ → ℕ → ℕ → Net uv.Handle → Net uv.Handle × Value
  timer_start c timeout repeat n =
      answered c (ticks.timer_start ((n.objects c).handle) timeout repeat) n

  unfoldable pub timer_again : ℕ → Net uv.Handle → Net uv.Handle × Value
  timer_again c n = answered c (ticks.timer_again ((n.objects c).handle)) n

  unfoldable pub timer_stop : ℕ → Net uv.Handle → Net uv.Handle × Value
  timer_stop c n = answered c (ticks.timer_stop ((n.objects c).handle)) n

  unfoldable pub idle_start : ℕ → Net uv.Handle → Net uv.Handle × Value
  idle_start c n = answered c (ticks.idle_start ((n.objects c).handle)) n

  unfoldable pub idle_stop : ℕ → Net uv.Handle → Net uv.Handle × Value
  idle_stop c n = answered c (ticks.idle_stop ((n.objects c).handle)) n

  -- rava_timer_wait and rava_idle_wait by fiber `i`; the Boolean tells whether it yields.
  unfoldable pub handle_wait : ℕ → ℕ → Net uv.Handle → Net uv.Handle × Bool
  handle_wait c i n = (set_loop uv ((cond_wait c i n.loop).0) n, (cond_wait c i n.loop).1)

  -- rava_timer_free and rava_idle_free
  unfoldable pub handle_free : ℕ → Net uv.Handle → Net uv.Handle
  handle_free c n = object_close uv c n

conds-clear_stacks : (q : List State) (t : Thread) → (clear_stacks q t).conds ≡ t.conds
unfolding clear_stacks
conds-clear_stacks [] t = refl
conds-clear_stacks (thread ∷ q) t = conds-clear_stacks q (set_stack [] thread t)
conds-clear_stacks (fiber i ∷ q) t = conds-clear_stacks q (set_stack [] (fiber i) t)

clear_stacks-Settled : (q : List State) (t : Thread) → Settled t → Settled (clear_stacks q t)
unfolding clear_stacks
clear_stacks-Settled [] t v = v
clear_stacks-Settled (thread ∷ q) t (e, v) =
    clear_stacks-Settled q (set_stack [] thread t)
      (e, λ i. record { queued = (v i).queued; dead_ready = (v i).dead_ready; runs = (v i).runs })
clear_stacks-Settled (fiber i ∷ q) t (e, v) =
    clear_stacks-Settled q (set_stack [] (fiber i) t) (e, set_fiber-Balanced i _ t refl refl v)

cond_broadcast-Settled : (c : ℕ) (t : Thread) → Settled t → Settled ((cond_broadcast c t).0)
unfolding cond_broadcast
cond_broadcast-Settled c t (e, v) =
    (curr-broadcast_loop c (t.conds c) 0 t ∙ e, broadcast_loop-Balanced c (t.conds c) 0 t v)

-- A stack that is empty stays empty while stacks are emptied, and each state in the queue has its turn.
empty-clear_stacks :
    (q : List State) (i : ℕ) (t : Thread)
    → (t.fibers i).stack ≡ []
    → ((clear_stacks q t).fibers i).stack ≡ []
unfolding clear_stacks
empty-clear_stacks [] i t e = e
empty-clear_stacks (thread ∷ q) i t e = empty-clear_stacks q i (set_stack [] thread t) e
empty-clear_stacks (fiber j ∷ q) i t e =
    empty-clear_stacks q i (set_stack [] (fiber j) t) (ground (arith, e))

stack-clear_stacks :
    (q : List State) (i : ℕ) (t : Thread)
    → listed i q ≡ true
    → ((clear_stacks q t).fibers i).stack ≡ []
unfolding clear_stacks
stack-clear_stacks [] i t h = absurd cc
stack-clear_stacks (thread ∷ q) i t h = stack-clear_stacks q i (set_stack [] thread t) h
stack-clear_stacks (fiber j ∷ q) i t h = elim (Bool-cases (i == j)) [
  | inl e ↦ empty-clear_stacks q i (set_stack [] (fiber j) t) (ground (arith, e))
  | inr e ↦ stack-clear_stacks q i (set_stack [] (fiber j) t) (ground (arith, e, h))
]

stack-state_ready :
    (s : State) (i : ℕ) (t : Thread) → ((state_ready s t).fibers i).stack ≡ (t.fibers i).stack
unfolding state_ready thread_ready fiber_ready thread_enqueue
stack-state_ready thread i t = ground arith
stack-state_ready (fiber j) i t = ground arith

stack-broadcast_loop :
    (c : ℕ) (q : List State) (roused i : ℕ) (t : Thread)
    → ((broadcast_loop c q roused t).0.fibers i).stack ≡ (t.fibers i).stack
unfolding broadcast_loop
stack-broadcast_loop c [] roused i t = refl
stack-broadcast_loop c (s ∷ q) roused i t =
    stack-broadcast_loop c q (roused + 1) i (state_ready s (set_cond c q t))
    ∙ stack-state_ready s i (set_cond c q t)

-- When a timer fires between two turns, in a state where the queue agrees with the flags of the
-- fibers, it still does; each fiber that waited for the timer is ready, with an empty stack, so that
-- its wait returns nothing; and nobody waits any more.
pub timer_cb-wakes :
    (uv : Uv) (ticks : Ticks uv.Handle) (c i : ℕ) (n : Net uv.Handle)
    → Settled n.loop
    → listed i (n.loop.conds c) ≡ true
    → Settled (timer_cb uv ticks c n).loop
      × (((timer_cb uv ticks c n).loop.fibers i).ready ≡ true)
      × (((timer_cb uv ticks c n).loop.fibers i).stack ≡ [])
      × ((timer_cb uv ticks c n).loop.conds c ≡ [])
unfolding timer_cb cond_broadcast
timer_cb-wakes uv ticks c i n v h =
    let q = n.loop.conds c in
    let t = clear_stacks q n.loop in
    let kept : t.conds c ≡ q = ap (λ f. f c) (conds-clear_stacks q n.loop) in
    let woken = cond_broadcast-wakes c i t (ap (listed i) kept ∙ h) in
    (
      cond_broadcast-Settled c t (clear_stacks-Settled q n.loop v),
      woken.2,
      stack-broadcast_loop c (t.conds c) 0 i t ∙ stack-clear_stacks q i n.loop h,
      woken.0,
    )
