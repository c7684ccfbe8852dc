-- ===== src/Scheduler/Calls.antt =====
-- src/rava_process_fiber.c, src/rava_process_cond.c and src/rava_process_thread.c: the calls that a
-- running fiber makes, and `ravaL_thread_once`, which gives a fiber its turn.
--
-- What a fiber does in its turn is the program's own: a turn is the list of calls that it makes, up
-- to the first one that suspends it, and how it ends if none does. Fibers are created between turns.
use rava.Base.{ℕ, Bool, true, false, not, List, [], ◌∷◌, ◌++◌, ◌==◌, if◌then◌else◌}
use rava.Outcome.{Outcome, ok, raised, aborted, ◌>>=◌, dead_fiber, thrown}
use rava.Lua.{Value}
use rava.Scheduler.{
  State, thread, fiber, Thread, set_fiber, set_cond, is_empty, fiber_ready, state_ready,
  fiber_close, fiber_suspend, state_xcopy, push_values, cond_signal, cond_broadcast,
}

-- The methods of fibers and conditions, and a suspension by another call (`ravaL_state_suspend`).
pub data Call : Type 0 where
  ready : ℕ → Call
  join : ℕ → Call
  wait : ℕ → Call
  signal : ℕ → Call
  broadcast : ℕ → Call
  suspend : Call

-- coroutine.yield, a normal exit with the values that are left on the stack, an error.
pub data Ending : Type 0 where
  yields : Ending
  exits : List Value → Ending
  fails : ℕ → Ending

pub record Turn : Type 0 where
  pub calls : List Call
  pub ending : Ending

-- ravaL_cond_wait by fiber `i`; the Boolean tells whether the fiber yields. The code links the one node
-- that the state has for conditions, and a list stands for the queue only while that node is in no
-- queue. A fiber that `ready` or a join woke while it waited still has its node in one: what a second
-- wait then does to the links is not modelled, and the fiber's second place in the list here is not
-- what the code makes.
unfoldable pub cond_wait : ℕ → ℕ → Thread → Thread × Bool
unfolding fiber_suspend
cond_wait c i t = fiber_suspend i (set_cond c (t.conds c ++ fiber i ∷ []) t)

-- rava_fiber_join of fiber `j` by fiber `i`. The joiner has one node for joins; as for conditions, the
-- list of joiners stands for the queue only while that node is in no queue.
unfoldable pub fiber_join : ℕ → ℕ → Thread → Outcome (Thread × Bool)
unfolding state_xcopy fiber_ready fiber_suspend
fiber_join j i t =
    let linked =
      set_fiber j (record (t.fibers j) { rouse = (t.fibers j).rouse ++ fiber i ∷ [] }) t in
    let waiting = fiber_suspend i (fiber_ready j linked) in
    if j == i
    then aborted
    else (if (t.fibers j).dead
        then ok ((state_xcopy (fiber j) (fiber i) t).1, false)
        else ok waiting)

-- One call by fiber `i`; the Boolean tells whether the fiber yields.
unfoldable pub run_call : ℕ → Call → Thread → Outcome (Thread × Bool)
unfolding cond_wait fiber_join
run_call i (ready j) t = ok (fiber_ready j t, false)
run_call i (join j) t = fiber_join j i t
run_call i (wait c) t = ok (cond_wait c i t)
run_call i (signal c) t = ok ((cond_signal c t).0, false)
run_call i (broadcast c) t = ok ((cond_broadcast c t).0, false)
run_call i suspend t = ok (fiber_suspend i t)

unfoldable pub run_calls : ℕ → List Call → Thread → Outcome (Thread × Bool)
unfolding run_call
run_calls i [] t = ok (t, false)
run_calls i (c ∷ cs) t = run_call i c t >>= λ (t', stop).
    (let rest = run_calls i cs t' in if stop then ok (t', true) else rest)

-- The states that join a fiber are made ready and get its results, the first one first.
unfoldable pub wake_joiners : List State → List Value → Thread → Thread
unfolding state_ready
wake_joiners [] results t = t
wake_joiners (thread ∷ q) results t = wake_joiners q results (state_ready thread t)
wake_joiners (fiber j ∷ q) results t =
    wake_joiners q results (push_values results (fiber j) (state_ready (fiber j) t))

-- The case LUA_YIELD.
unfoldable pub after_yield : ℕ → Thread → Thread
after_yield i t = if (t.fibers i).ready then record t { rouse = t.rouse ++ i ∷ [] } else t

-- The case 0: `results` are what the fiber's function returned.
unfoldable pub after_exit : ℕ → List Value → Thread → Thread
unfolding wake_joiners fiber_close
after_exit i results t =
    let f = t.fibers i in
    let emptied = set_fiber i (record f { rouse = []; stack = results }) t in
    fiber_close i (wake_joiners f.rouse results emptied)

-- Back in the thread: `self->curr = self`, and the switch on the status of lua_resume.
unfoldable pub after_turn : ℕ → Bool → Ending → Thread → Outcome Thread
unfolding after_yield after_exit
after_turn i true e t = ok (after_yield i (record t { curr = thread }))
after_turn i false yields t = ok (after_yield i (record t { curr = thread }))
after_turn i false (exits results) t = ok (after_exit i results (record t { curr = thread }))
after_turn i false (fails e) t = raised (thrown e)

-- The fiber at the head of the queue has been taken out, and gets its turn.
unfoldable pub resume_fiber : ℕ → Turn → Thread → Outcome Thread
unfolding run_calls after_turn
resume_fiber i turn t =
    let running = record (set_fiber i (record (t.fibers i) { start = true }) t) {
      curr = fiber i;
    } in
    if (t.fibers i).dead
    then raised dead_fiber
    else (run_calls i turn.calls running >>= λ (t', stop). after_turn i stop turn.ending t')

-- ravaL_thread_once; the Boolean is its result: is there more to resume?
unfoldable pub once_on : List ℕ → Turn → Thread → Outcome (Thread × Bool)
unfolding resume_fiber
once_on [] turn t = ok (t, false)
once_on (i ∷ q) turn t =
    resume_fiber i turn (record t { rouse = q }) >>= λ t'. ok (t', not (is_empty t'.rouse))

unfoldable pub thread_once : Turn → Thread → Outcome (Thread × Bool)
unfolding once_on
thread_once turn t = once_on t.rouse turn t
