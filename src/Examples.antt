-- ===== src/Examples.antt =====
-- Concrete runs of the models: a small Lua heap, a thread with three fibers, and a server.
mod Bytes
mod Files
pub mod Fibers
mod States
mod Options
mod Copies
mod Hooks
mod Opened
use rava.Base.{
  ℕ, ◌+◌, ◌^◌, ◌≤◌, ◌≡◌, refl, ◌∙◌, arith, Bool, true, false, List, [], ◌∷◌, ◌++◌, Option, none,
  some, length, take, ◌==◌, same_text, if◌then◌else◌,
}
use rava.Outcome.{Outcome, ok, ◌>>=◌}
use rava.Lua.{Value, Lua}
use rava.Serialize.Format.{
  Item, boolean, table_val, table_ref, number, str, entry, end, print, rounds,
}
use rava.Serialize.Describe.{describe, describe_args, describe_body, describe_pair}
use rava.Serialize.{ref_of, ref_from, encode_value, serialize_encode}
use rava.Serialize.Decode.{decode_value, serialize_decode}
use rava.Serialize.Build.{World, build}
use rava.Serialize.RoundTrip.{
  start, result, message, build_all, print_all, AllSendable, RoundsWithin, serialize_encode-message,
  serialize_decode-message, serialize_decode-serialize_encode,
}
use rava.Serialize.Encodes.{encode_value-print}
use rava.Serialize.Follows.{decode_value-print}
use rava.Serialize.Writer.{enc}
use rava.Serialize.Reader.{at, stop}
use rava.Buffer.{Buf, Cell, null_buf, buf_need, buf_write, buf_write_uleb128, buf_read_uleb128}
use rava.Buffer.Growth.{Holds, need-Holds}
use rava.Buffer.Content.{null-Holds, write-Holds}
use rava.Buffer.Uleb.{uleb128, groups, write_uleb128-Holds}
use rava.Buffer.Reading.{Reads, Ahead, advance, read_uleb128-Ahead}
use rava.Scheduler.{State, fiber, Fiber, Thread, fiber_ready, thread_enqueue, cond_broadcast}
use rava.Scheduler.Calls.{join, signal, wait, Turn, exits, after_exit, thread_once}
use rava.Scheduler.Balance.{Balanced, occurs, fiber_ready-Balanced, curr-fiber_ready}
use rava.Scheduler.Turns.{Safe}
use rava.Scheduler.Loop.{Settled, Done, thread_once-Safe}
use rava.Scheduler.Order.{Extends, thread_once-order}
use rava.Scheduler.Waking.{cond_broadcast-wakes, after_exit-wakes}
use rava.Stream.{Uv, Object, Net, bytes, object_close, read_cb, listen_cb}
use rava.Stream.Methods.{returns, read}
use rava.Stream.Events.{Delivered, requested, deliver, deliver-Delivered}
use rava.Stream.Pending.{listen_cb-lost}
use rava.Handles.{Ticks, timer_cb, timer_cb-wakes}
use rava.Resolve.{
  SockType, dgram, tcp, udp, text_stream, text_dgram, text_tcp, read_socktype, read_protocol,
  read_socktype-crossed,
}

-- A heap numbers its tables from 1 and lists the entries of all tables.
abbrev pub Toy : Type 0
Toy = ℕ × List (ℕ × Value × Value)

abbrev pub same_key : Value → Value → Bool
same_key (Value.number (x ∷ xs)) (Value.number (y ∷ ys)) = x == y
same_key _ _ = false

abbrev pub first_of : ℕ → List (ℕ × Value × Value) → Option (Value × Value)
first_of t [] = none
first_of t ((u, k, v) ∷ es) = if t == u then some (k, v) else first_of t es

abbrev pub after_key : ℕ → Value → List (ℕ × Value × Value) → Option (Value × Value)
after_key t key [] = none
after_key t key ((u, k, v) ∷ es) = if same_key key k then first_of t es else after_key t key es

abbrev pub next_entry : Toy → ℕ → Value → Outcome (Option (Value × Value))
next_entry (n, es) t Value.nil = ok (first_of t es)
next_entry (n, es) t key = ok (after_key t key es)

abbrev pub toy : Lua
toy = record {
  Heap = Toy;
  next = next_entry;
  serializer = λ h v. none;
  call_two = λ h f v. ok (Value.nil, Value.nil, h);
  call_one = λ h f v. ok (Value.nil, h);
  is_lua = λ h g. false;
  nups = λ h g. 0;
  dump = λ h g. [];
  load_buffer = λ h code. none;
  get_upvalue = λ h g k. Value.nil;
  set_upvalue = λ h g k v. h;
  new_table = λ h. (h.0 + 1, (h.0 + 1, h.1));
  set_table = λ h t k v. ok (h.0, h.1 ++ (t, k, v) ∷ []);
  raw_set_i = λ h t k v. h;
  raw_get_i = λ h t k. Value.nil;
  obj_len = λ h t. 0;
  registry = λ h v. Value.nil;
  globals = λ h v. Value.nil;
}

abbrev pub one : List ℕ
one = 0 ∷ 0 ∷ 0 ∷ 0 ∷ 0 ∷ 0 ∷ 240 ∷ 63 ∷ []

-- A table {[1] = "hi"}, sent twice behind `true`.
abbrev pub heap : Toy
heap = (1, (1, Value.number one, Value.str (104 ∷ 105 ∷ [])) ∷ [])

-- Three fibers, none of them ready: fiber 1 joins fiber 0, and both wait for condition 4. The stack
-- of each holds the arguments of a call of `accept`.
abbrev pub asleep : Fiber
asleep = record {
  start = true;
  ready = false;
  dead = false;
  registered = true;
  rouse = fiber 1 ∷ [];
  stack = Value.userdata 4 ∷ Value.userdata 5 ∷ [];
}

abbrev pub idle : Thread
idle = record {
  ready = false;
  curr = State.thread;
  rouse = [];
  sent = false;
  held = false;
  stack = [];
  count = 3;
  fibers = λ i. asleep;
  conds = λ c. if c == 4 then fiber 0 ∷ fiber 1 ∷ [] else [];
}

pub idle-Balanced : Balanced idle
unfolding occurs
idle-Balanced i = record { queued = refl; dead_ready = λ p. cc; runs = λ p. cc }

unfoldable pub busy : Thread
busy = fiber_ready 2 (fiber_ready 0 idle)

pub busy-Settled : Settled busy
unfolding busy fiber_ready
busy-Settled = (
  curr-fiber_ready 2 (fiber_ready 0 idle) ∙ curr-fiber_ready 0 idle,
  fiber_ready-Balanced 2 (fiber_ready 0 idle) (fiber_ready-Balanced 0 idle idle-Balanced),
)

abbrev pub signalling : Turn
signalling = record { calls = signal 4 ∷ wait 7 ∷ join 2 ∷ []; ending = exits [] }

pub busy_queue : busy.rouse ≡ 0 ∷ 2 ∷ []
unfolding busy fiber_ready thread_enqueue
busy_queue = refl

thread_once-order_example : Safe (λ r. Extends (2 ∷ []) r.0) (thread_once signalling busy)
thread_once-order_example = thread_once-order 0 (2 ∷ []) signalling busy busy-Settled busy_queue

cond_broadcast-wakes_example :
    ((cond_broadcast 4 idle).0.conds 4 ≡ [])
    × ((cond_broadcast 4 idle).1 ≡ length (idle.conds 4))
    × (((cond_broadcast 4 idle).0.fibers 1).ready ≡ true)
cond_broadcast-wakes_example = cond_broadcast-wakes 4 1 idle refl

after_exit-wakes_example :
    (((after_exit 0 (Value.boolean true ∷ []) idle).fibers 0).dead ≡ true)
    × (((after_exit 0 (Value.boolean true ∷ []) idle).fibers 0).registered ≡ false)
    × (((after_exit 0 (Value.boolean true ∷ []) idle).fibers 0).rouse ≡ [])
    × (((after_exit 0 (Value.boolean true ∷ []) idle).fibers 1).ready ≡ true)
after_exit-wakes_example = after_exit-wakes 0 1 (Value.boolean true ∷ []) idle refl refl

abbrev pub toy_uv : Uv
toy_uv = record {
  Handle = ℕ;
  read_start = λ h. (none, h + 1);
  read_stop = λ h. (none, h);
  listen = λ h n. (none, h);
  accept = λ h g. (none, h, h);
  write = λ h xs. (none, h);
  shutdown = λ h. h;
  close = λ h. 0;
  is_readable = λ h. true;
  is_writable = λ h. true;
  strerror = λ e. e ∷ [];
  eof = 4095;
  integer = λ n. Value.number (n ∷ []);
  status = λ r. Value.nil;
}

abbrev pub server : Object ℕ
server = record {
  owner = none;
  started = true;
  waiting = true;
  closing = false;
  closed = false;
  is_shutdown = false;
  count = 0;
  base = none;
  len = 4096;
  handle = 9;
}

abbrev pub net : Net ℕ
net = record { loop = idle; objects = λ c. server }

listen_cb-lost_example :
    (m : Net ℕ) × ((listen_cb toy_uv 4 net >>= listen_cb toy_uv 4) ≡ ok m)
    × (m.loop.conds 4 ≡ fiber 1 ∷ [])
    × ((m.objects 4).count ≡ 0 + 1)
listen_cb-lost_example =
    listen_cb-lost toy_uv 4 5 (fiber 0) (fiber 1) [] net (λ p. omega (arith, p)) refl refl refl

abbrev toy_ticks : Ticks ℕ
toy_ticks = record {
  timer_init = 1;
  timer_start = λ h timeout again. (none, h);
  timer_again = λ h. (none, h);
  timer_stop = λ h. (none, h);
  idle_init = 2;
  idle_start = λ h. (none, h);
  idle_stop = λ h. (none, h);
}

timer_cb-wakes_example :
    Settled (timer_cb toy_uv toy_ticks 4 net).loop
    × (((timer_cb toy_uv toy_ticks 4 net).loop.fibers 1).ready ≡ true)
    × (((timer_cb toy_uv toy_ticks 4 net).loop.fibers 1).stack ≡ [])
    × ((timer_cb toy_uv toy_ticks 4 net).loop.conds 4 ≡ [])
timer_cb-wakes_example = timer_cb-wakes toy_uv toy_ticks 4 1 net (refl, idle-Balanced) refl

read_socktype-crossed_example :
    (read_socktype (some text_dgram)
      ≡ ok (if same_text text_dgram text_stream then dgram else SockType.stream))
    × (read_protocol (some text_tcp) ≡ ok (if same_text text_tcp text_tcp then udp else tcp))
read_socktype-crossed_example = read_socktype-crossed text_dgram text_tcp
