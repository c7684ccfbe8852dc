-- ===== src/Process.antt =====
-- src/rava_process.c: `sleep`, `title`, and the start of the main thread; src/rava_core_state.c: which
-- function of fibers and threads a call on a state is.
use rava.Base.{ℕ, true, false, List, [], ◌∷◌, ◌++◌, Option, none, some}
use rava.Outcome.{Outcome, ok, raised, thrown}
use rava.Lua.{Value, str}
use rava.Scheduler.{State, thread, fiber, Fiber, Thread, fiber_suspend, state_ready}
use rava.Stream.{Uv, Net, set_loop}
use rava.Stream.Methods.{Answer, suspension}

-- The thread that `rava_process_init` and `ravaL_thread_create` set up: ready, current, with an empty
-- queue, and an async handle that does not keep the loop alive. There are no fibers yet.
abbrev pub no_fiber : Fiber
no_fiber = record {
  start = false;
  ready = false;
  dead = false;
  registered = false;
  rouse = [];
  stack = [];
}

unfoldable pub thread_init : Thread
thread_init = record {
  ready = true;
  curr = thread;
  rouse = [];
  sent = false;
  held = false;
  stack = [];
  count = 0;
  fibers = λ i. no_fiber;
  conds = λ c. [];
}

module _ (uv : Uv) where
  -- A network with the timers of sleeping states: the delay in milliseconds, and the state.
  pub record Sleeping : Type 0 where
    pub net : Net uv.Handle
    pub timers : List (ℕ × State)

  -- rava_process_sleep by fiber `i`; `millis` is the argument times 1000, as a long.
  unfoldable pub process_sleep : ℕ → ℕ → Sleeping → Sleeping × Answer
  process_sleep millis i s =
      let (n, a) = suspension uv s.net (fiber_suspend i s.net.loop) in
      (record { net = n; timers = s.timers ++ (millis, fiber i) ∷ [] }, a)

  -- _sleep_cb of a timer whose `data` is state `s`
  unfoldable pub sleep_cb : State → Net uv.Handle → Net uv.Handle
  sleep_cb s n = set_loop uv (state_ready s n.loop) n

-- rava_process_title: `set_title` is uv_set_process_title. The check of the argument leaves the other
-- branch without a caller.
unfoldable pub process_title : (List ℕ → Option ℕ) → List ℕ → Outcome Value
process_title set_title title = answer (set_title title)
  where
    answer : Option ℕ → Outcome Value
    answer none = ok (str title)
    answer (some e) = raised (thrown e)
