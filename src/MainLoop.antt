-- ===== src/MainLoop.antt =====
-- The main state and the event loop: `ravaL_thread_suspend`, `ravaL_thread_yield` and
-- `ravaL_thread_resume` of src/rava_process_thread.c, over the fibers (Scheduler) and the callbacks
-- (Stream).
--
-- libuv's `uv_run` is not part of the repository. What one round of the loop does is given: the turns
-- that fibers take, the callbacks that `uv_run` then calls, and whether handles are still active.
pub mod Suspend
pub mod Dispatch
use rava.Base.{
  ℕ, zero, ◌⊎◌, inl, inr, ◌-◌, ◌≡◌, ◌≢◌, refl, sym, Bool, true, false, List, [], ◌∷◌, ◌++◌, length,
  take, drop, leb, if◌then◌else◌,
}
use rava.Outcome.{Outcome, ok, raised, fault, aborted, stuck, ◌>>=◌, dead_fiber}
use rava.Scheduler.{State, thread, same_state, Thread, thread_ready, stack_of}
use rava.Scheduler.Calls.{Turn}
use rava.Scheduler.Loop.{Settled}
use rava.Scheduler.Runs.{thread_loop, Drained, thread_loop-Drained}
use rava.Stream.{Uv, Net, set_loop, set_stack}
use rava.Stream.Events.{Event, Delivered, deliver, deliver-Delivered}

-- `narg` of ravaL_thread_resume: LUA_MULTRET, or a number.
pub data Count : Type 0 where
  all : Count
  exactly : ℕ → Count

-- The last `n` values of a stack, and those before them.
abbrev pub top_of {ℓ} : {A : Type ℓ} → ℕ → List A → List A
top_of n vs = drop (length vs - n) vs

abbrev pub below_top {ℓ} : {A : Type ℓ} → ℕ → List A → List A
below_top n vs = take (length vs - n) vs

-- lua_xmove of the last `n` values of state `s` to the main state
abbrev pub move_to_main : ℕ → State → Thread → Thread
move_to_main n s t =
    let moved = top_of n (stack_of s t) in
    let rest = set_stack (below_top n (stack_of s t)) s t in
    set_stack (rest.stack ++ moved) thread rest

abbrev pub resume_count : Count → State → Thread → ℕ
resume_count all s t = length (stack_of s t)
resume_count (exactly n) s t = n

-- ravaL_thread_resume by the state that runs
unfoldable pub thread_resume : Count → Thread → Outcome (Thread × ℕ)
unfolding thread_ready
thread_resume (exactly zero) t = ok (set_stack [] thread (thread_ready t), 0)
thread_resume narg t =
    let u = thread_ready t in
    let n = resume_count narg u.curr u in
    if same_state u.curr thread
    then ok (u, n)
    else if leb n (length (stack_of u.curr u))
    then ok (move_to_main n u.curr u, n)
    else aborted

module _ (uv : Uv) where
  -- One round of the loop of ravaL_thread_suspend
  pub record Round : Type 0 where
    pub turns : List Turn
    pub events : List (Event uv)
    pub active : Bool

  unfoldable pub deliver_all : List (Event uv) → Net uv.Handle → Outcome (Net uv.Handle)
  unfolding deliver
  deliver_all [] n = ok n
  deliver_all (ev ∷ evs) n = deliver uv ev n >>= λ n'. deliver_all evs n'

  -- ravaL_thread_yield: one round of callbacks; the number is what it returns.
  unfoldable pub thread_yield :
      Count → List (Event uv) → Net uv.Handle → Outcome (Net uv.Handle × ℕ)
  unfolding deliver_all
  thread_yield narg evs n = deliver_all evs n >>= λ n'. ok (n', resume_count narg thread n'.loop)

  -- The body of the loop: the fibers first, then the callbacks.
  unfoldable pub round : Round → Net uv.Handle → Outcome (Net uv.Handle)
  unfolding thread_loop deliver_all
  round r n = thread_loop r.turns n.loop >>= λ (t, rest). deliver_all r.events (set_loop uv t n)

  -- `do { ... } while (active)`
  unfoldable pub suspend_loop : List Round → Net uv.Handle → Outcome (Net uv.Handle)
  unfolding round
  suspend_loop [] n = stuck
  suspend_loop (r ∷ rs) n = round r n >>= λ n'. elim n'.loop.ready [
    | true ↦ ok n'
    | false ↦ elim r.active [ true ↦ suspend_loop rs n' | false ↦ ok n' ]
  ]

  abbrev pub set_ready : Bool → Net uv.Handle → Net uv.Handle
  set_ready b n = set_loop uv (record n.loop { ready = b }) n

  -- ravaL_thread_suspend
  unfoldable pub thread_suspend : List Round → Net uv.Handle → Outcome (Net uv.Handle)
  unfolding suspend_loop
  thread_suspend rs n =
      if n.loop.ready
      then (suspend_loop rs (set_ready false n) >>= λ n'. ok (set_ready true n'))
      else ok n
