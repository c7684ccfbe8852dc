-- ===== src/Examples/Fibers.antt =====
-- Concrete runs of the models of fibers, of the loop, and of the callbacks that make fibers ready.
use rava.Base.{
  ℕ, ◌==◌, ◌≡◌, refl, arith, true, false, List, [], ◌∷◌, none, some, if◌then◌else◌, codes,
}
use rava.Outcome.{ok}
use rava.Lua.{Value}
use rava.Scheduler.Outer.{
  Owner, os_thread, Family, outer_loop, with_fiber, add_fiber, thread_self, IsMade, Grown, empty,
  grow, thread_self-add_fiber,
}
use rava.Scheduler.{fiber, Thread}
use rava.Scheduler.Balance.{Balanced, occurs}
use rava.Scheduler.Turns.{Safe}
use rava.Scheduler.Loop.{Settled}
use rava.Scheduler.Order.{Extends}
use rava.Scheduler.Runs.{run_turns, run_turns-fair}
use rava.MainLoop.{Round}
use rava.Stream.{Net}
use rava.Stream.Events.{connects}
use rava.Spawn.{exit_cb}
use rava.Spawn.Exit.{exit_cb-wakes}
use rava.Sockets.{Sockets, Address, inet, tcp_connect}
use rava.Sockets.Requests.{Connecting, tcp_connect-connect_cb}
use rava.Resolve.Requests.{ipv4, Resolved, getaddrinfo_cb, getaddrinfo_cb-Resolved}
use rava.Examples.{
  asleep, idle, idle-Balanced, busy, busy-Settled, busy_queue, signalling, toy_uv, net,
}

-- Fiber 1 runs, and nobody is in the queue.
abbrev pub running : Thread
running = record idle {
  curr = fiber 1;
  fibers = λ i. if i == 1 then record asleep { ready = true } else asleep;
}

pub running-Balanced : Balanced running
unfolding occurs
running-Balanced i = ground arith

run_turns-fair_example :
    Safe (λ t. Settled t × Extends (2 ∷ []) t) (run_turns (signalling ∷ []) busy)
run_turns-fair_example =
    run_turns-fair (0 ∷ []) [] 2 (signalling ∷ []) busy busy-Settled busy_queue refl

abbrev rounds : List (Round toy_uv)
rounds =
    record {
      turns = signalling ∷ signalling ∷ [];
      events = connects (fiber 1) ∷ [];
      active = false;
    }
    ∷ []

abbrev waiting_net : Net ℕ
waiting_net = record net { loop = record idle { ready = true } }

abbrev ready_idle : Settled (record idle { ready = true })
ready_idle = (
  refl,
  λ i.
      let v = idle-Balanced i in
      record { queued = v.queued; dead_ready = v.dead_ready; runs = v.runs },
)

exit_cb-wakes_example :
    Settled (exit_cb 4 (fiber 2) Value.nil Value.nil idle)
    × (((exit_cb 4 (fiber 2) Value.nil Value.nil idle).fibers 0).ready ≡ true)
    × ((exit_cb 4 (fiber 2) Value.nil Value.nil idle).conds 4 ≡ fiber 1 ∷ [])
exit_cb-wakes_example =
    exit_cb-wakes 4 0 (fiber 1 ∷ []) (fiber 2) Value.nil Value.nil idle (refl, idle-Balanced) refl

abbrev toy_address : Address
toy_address = record { family = inet; text = codes "::1"; port = 80 }

abbrev toy_sockets : Sockets ℕ
toy_sockets = record {
  tcp_init = 1;
  tcp_bind = λ h host port. (none, h);
  tcp_connect = λ h host port. (none, 6);
  tcp_nodelay = λ h b. (none, h);
  tcp_keepalive = λ h b d. (none, h);
  tcp_getsockname = λ h. (none, toy_address);
  tcp_getpeername = λ h. (none, toy_address);
  udp_init = 2;
  udp_bind = λ h host port. (none, h);
  udp_send = λ h host port m. (none, 7);
  udp_recv_start = λ h. h;
  udp_set_membership = λ h m i b. (none, h);
  pipe_init = λ b. 3;
  pipe_open = λ h n. h;
  pipe_bind = λ h p. (none, h);
  pipe_connect = λ h p. h;
}

abbrev running_net : Net ℕ
running_net = record net { loop = running }

tcp_connect-connect_cb_example :
    Connecting toy_uv toy_sockets 1 running_net none
      (tcp_connect toy_uv toy_sockets 4 (codes "h") 80 1 running_net)
tcp_connect-connect_cb_example =
    tcp_connect-connect_cb toy_uv toy_sockets 4 (codes "h") 80 1 running_net refl running-Balanced

getaddrinfo_cb-Resolved_example :
    Resolved toy_uv
      (some (ipv4 (codes "h") 80))
      1
      (getaddrinfo_cb toy_uv (some (ipv4 (codes "h") 80)) (fiber 1) net)
getaddrinfo_cb-Resolved_example =
    getaddrinfo_cb-Resolved toy_uv (some (ipv4 (codes "h") 80)) 1 net (refl, idle-Balanced)

-- Thread 3 makes fiber 0, which makes fiber 1.
abbrev two_fibers : Family
two_fibers = with_fiber 3 (with_fiber 3 (record { count = 0; outer = λ i. os_thread 0 }))

two_fibers-Grown : Grown two_fibers
unfolding outer_loop
two_fibers-Grown =
    grow 2 3 (Owner.fiber 0) (with_fiber 3 (record { count = 0; outer = λ i. os_thread 0 }))
      (grow 2 3 (os_thread 3) (record { count = 0; outer = λ i. os_thread 0 })
        (empty (λ i. os_thread 0)) tt refl)
      (omega arith) refl

thread_self-add_fiber_example :
    (t : ℕ) × (g : Family) × (thread_self 2 (Owner.fiber 1) two_fibers ≡ ok t)
    × (add_fiber 2 (Owner.fiber 1) two_fibers ≡ ok g)
    × (thread_self 2 (Owner.fiber 2) g ≡ ok t)
    × ((r : Owner) → IsMade two_fibers r → thread_self 2 r g ≡ thread_self 2 r two_fibers)
    × Grown g
thread_self-add_fiber_example =
    thread_self-add_fiber 0 two_fibers (Owner.fiber 1) two_fibers-Grown (omega arith)
