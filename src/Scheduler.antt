-- ===== src/Scheduler.antt =====
-- The cooperative scheduler: src/rava_core_state.c, src/rava_process_fiber.c,
-- src/rava_process_thread.c and src/rava_process_cond.c, for one thread and its fibers.
--
-- A QUEUE of libuv is the list of the states that are linked into it, the head first;
-- QUEUE_INSERT_TAIL appends, and QUEUE_REMOVE of a state's node takes that state out. A flag word is
-- a record of the bits that the code uses. A stack holds the values above the function, bottom first.
pub mod Calls
pub mod Balance
pub mod Turns
pub mod Loop
pub mod Order
pub mod Runs
pub mod Waking
pub mod Outer
use rava.Base.{
  ℕ, zero, suc, ◌+◌, Bool, true, false, not, ◌&&◌, List, [], ◌∷◌, ◌++◌, Option, none, some, length,
  ◌==◌, if◌then◌else◌, drop,
}
use rava.Outcome.{Outcome, ok, raised, aborted, ◌>>=◌}
use rava.Lua.{Value}

-- A rava_state_t: the thread itself, or one of its fibers.
pub data State : Type 0 where
  thread : State
  fiber : ℕ → State

abbrev pub same_state : State → State → Bool
same_state thread thread = true
same_state (fiber i) (fiber j) = i == j
same_state _ _ = false

-- rava_fiber_t. `rouse` is the queue of the states that join the fiber; `registered` tells whether
-- the registry still maps the coroutine to it.
pub record Fiber : Type 0 where
  pub start : Bool
  pub ready : Bool
  pub dead : Bool
  pub registered : Bool
  pub rouse : List State
  pub stack : List Value

-- rava_thread_t. `rouse` is the queue of fibers to resume, `sent` a wake-up of `async` that the event
-- loop has not seen, `held` tells whether `async` keeps the loop alive. `fibers` is the store of
-- fibers, those numbered below `count` being in use; `conds` holds the waiting queues.
pub record Thread : Type 0 where
  pub ready : Bool
  pub curr : State
  pub rouse : List ℕ
  pub sent : Bool
  pub held : Bool
  pub stack : List Value
  pub count : ℕ
  pub fibers : ℕ → Fiber
  pub conds : ℕ → List State

abbrev pub update {ℓ} : {A : Type ℓ} → (ℕ → A) → ℕ → A → ℕ → A
update f i a j = if i == j then a else f j

abbrev pub set_fiber : ℕ → Fiber → Thread → Thread
set_fiber i f t = record t { fibers = update t.fibers i f }

abbrev pub set_cond : ℕ → List State → Thread → Thread
set_cond c q t = record t { conds = update t.conds c q }

abbrev pub is_empty {ℓ} : {A : Type ℓ} → List A → Bool
is_empty [] = true
is_empty (x ∷ xs) = false

-- ravaL_state_is_active
unfoldable pub state_is_active : State → Thread → Bool
state_is_active s t = same_state s t.curr

-- ravaL_thread_ready
unfoldable pub thread_ready : Thread → Thread
thread_ready t = if t.ready then t else record t { ready = true; sent = true }

-- ravaL_thread_enqueue
unfoldable pub thread_enqueue : ℕ → Thread → Thread
thread_enqueue i t =
    if is_empty t.rouse
    then record t { rouse = t.rouse ++ i ∷ []; sent = true; held = true }
    else record t { rouse = t.rouse ++ i ∷ [] }

-- ravaL_fiber_ready
unfoldable pub fiber_ready : ℕ → Thread → Thread
unfolding thread_enqueue
fiber_ready i t =
    if (t.fibers i).ready
    then t
    else thread_enqueue i (set_fiber i (record (t.fibers i) { ready = true }) t)

-- ravaL_state_ready
unfoldable pub state_ready : State → Thread → Thread
unfolding thread_ready fiber_ready
state_ready thread t = thread_ready t
state_ready (fiber i) t = fiber_ready i t

-- ravaL_fiber_close
unfoldable pub fiber_close : ℕ → Thread → Thread
fiber_close i t =
    if (t.fibers i).dead
    then t
    else set_fiber i (record (t.fibers i) { registered = false; dead = true }) t

unfoldable pub remove : ℕ → List ℕ → List ℕ
remove i [] = []
remove i (j ∷ js) = if i == j then js else j ∷ remove i js

-- ravaL_fiber_suspend; the Boolean tells whether the fiber yields.
unfoldable pub fiber_suspend : ℕ → Thread → Thread × Bool
unfolding state_is_active remove
fiber_suspend i t =
    let t₁ = set_fiber i (record (t.fibers i) { ready = false }) t in
    let t₂ = if state_is_active (fiber i) t then t₁ else record t₁ { rouse = remove i t.rouse } in
    if (t.fibers i).ready then (t₂, true) else (t, false)

-- ravaL_fiber_create, behind the type check of the function: the new fiber's number.
unfoldable pub fiber_create : List Value → Thread → ℕ × Thread
fiber_create stack t = (
  t.count,
  record (set_fiber t.count
      (record {
        start = false;
        ready = false;
        dead = false;
        registered = true;
        rouse = [];
        stack = stack;
      })
      t) { count = t.count + 1 },
)

-- The values of a state's stack, and a push of values onto it.
abbrev pub stack_of : State → Thread → List Value
stack_of thread t = t.stack
stack_of (fiber i) t = (t.fibers i).stack

abbrev pub push_values : List Value → State → Thread → Thread
push_values vs thread t = record t { stack = t.stack ++ vs }
push_values vs (fiber i) t =
    set_fiber i (record (t.fibers i) { stack = (t.fibers i).stack ++ vs }) t

-- ravaL_state_xcopy: copies of all values of `a` go to `b`.
unfoldable pub state_xcopy : State → State → Thread → ℕ × Thread
state_xcopy a b t = (length (stack_of a t), push_values (stack_of a t) b t)

-- ravaL_cond_signal; the Boolean is its result.
unfoldable pub cond_signal_head : ℕ → List State → Thread → Thread × Bool
unfolding state_ready
cond_signal_head c [] t = (t, false)
cond_signal_head c (s ∷ q) t = (state_ready s (set_cond c q t), true)

unfoldable pub cond_signal : ℕ → Thread → Thread × Bool
unfolding cond_signal_head
cond_signal c t = cond_signal_head c (t.conds c) t

-- ravaL_cond_broadcast on the states that wait; the number is its result.
unfoldable pub broadcast_loop : ℕ → List State → ℕ → Thread → Thread × ℕ
unfolding state_ready
broadcast_loop c [] roused t = (t, roused)
broadcast_loop c (s ∷ q) roused t = broadcast_loop c q (roused + 1) (state_ready s (set_cond c q t))

unfoldable pub cond_broadcast : ℕ → Thread → Thread × ℕ
unfolding broadcast_loop
cond_broadcast c t = broadcast_loop c (t.conds c) 0 t
