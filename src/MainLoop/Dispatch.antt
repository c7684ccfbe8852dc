-- ===== src/MainLoop/Dispatch.antt =====
-- src/rava_core_state.c: `ravaL_state_yield`, `ravaL_state_suspend` and `ravaL_state_resume` on a state
-- of either kind, with `ravaL_fiber_yield` and `ravaL_fiber_resume` of src/rava_process_fiber.c.
use rava.Base.{ℕ, Bool, true, false, List, length, if◌then◌else◌}
use rava.Outcome.{Outcome, ok, aborted, ◌>>=◌}
use rava.Scheduler.{
  State, thread, fiber, Thread, fiber_ready, fiber_suspend, state_is_active, stack_of,
}
use rava.Stream.{Uv, Net, set_loop}
use rava.Stream.Events.{Event}
use rava.MainLoop.{Count, exactly, thread_resume, Round, thread_yield, thread_suspend}

-- Where control goes: the call returns a number, the fiber gives its values to lua_yield, or lua_resume
-- enters a fiber.
pub data Control : Type 0 where
  returns : ℕ → Control
  yields : Count → Control
  resumes : ℕ → Count → Control

-- ravaL_state_is_thread
abbrev pub state_is_thread : State → Bool
state_is_thread thread = true
state_is_thread (fiber i) = false

-- ravaL_fiber_yield
unfoldable pub fiber_yield : ℕ → Count → Thread → Thread × Control
fiber_yield i narg t = (fiber_ready i t, yields narg)

-- ravaL_fiber_resume
unfoldable pub fiber_resume : ℕ → Count → Thread → Thread × Control
fiber_resume i narg t = (fiber_ready i t, resumes i narg)

-- ravaL_state_resume
unfoldable pub state_resume : State → Count → Thread → Outcome (Thread × Control)
unfolding fiber_resume
state_resume thread narg t = thread_resume narg t >>= λ (t', n). ok (t', returns n)
state_resume (fiber i) narg t = ok (fiber_resume i narg t)

module _ (uv : Uv) where
  -- ravaL_state_yield, with the callbacks of the round for the main state
  unfoldable pub yield_to :
      State → Count → List (Event uv) → Net uv.Handle → Outcome (Net uv.Handle × Control)
  unfolding fiber_yield
  yield_to thread narg evs n = thread_yield uv narg evs n >>= λ (n', k). ok (n', returns k)
  yield_to (fiber i) narg evs n = let (t, c) = fiber_yield i narg n.loop in ok (set_loop uv t n, c)

  unfoldable pub state_yield :
      State → Count → List (Event uv) → Net uv.Handle → Outcome (Net uv.Handle × Control)
  unfolding yield_to
  state_yield s narg evs n = if state_is_active s n.loop then yield_to s narg evs n else aborted

  -- ravaL_state_suspend, with the rounds of the loop for the main state
  unfoldable pub state_suspend :
      State → List (Round uv) → Net uv.Handle → Outcome (Net uv.Handle × Control)
  state_suspend thread rs n =
      thread_suspend uv rs n >>= λ n'. ok (n', returns (length (stack_of thread n'.loop)))
  state_suspend (fiber i) rs n =
      let (t, stops) = fiber_suspend i n.loop in
      let keep = yields (exactly (length (stack_of (fiber i) n.loop))) in
      ok (set_loop uv t n, (if stops then keep else returns 0))
