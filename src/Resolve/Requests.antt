-- ===== src/Resolve/Requests.antt =====
-- rava_dns_resolve and `_getaddrinfo_cb` of src/rava_socket.c: the request, and what its caller gets.
--
-- libuv's uv_getaddrinfo and its texts of addresses are given. On an error libuv hands the callback a
-- null pointer for the list of addresses.
use rava.Base.{
  ==_refl, arith, if◌then◌else◌, ℕ, ◌≡◌, ap, ◌∙◌, true, List, [], ◌∷◌, Option, none, some,
}
use rava.Outcome.{Outcome, ok, raised, fault, ◌>>=◌, thrown}
use rava.Lua.{str}
use rava.Scheduler.{fiber_ready, thread_enqueue, State, fiber, Thread, fiber_suspend, state_ready}
use rava.Scheduler.Waking.{ready-fiber_ready}
use rava.Scheduler.Loop.{Settled}
use rava.Stream.{Uv, Net, set_loop, set_stack}
use rava.Stream.Methods.{Answer, suspension}
use rava.Stream.Events.{state_ready-Settled, set_stack-Settled}
use rava.Resolve.{Hints, Options, resolve_hints}

-- The first address of the list: its family, its text, and its port as it is stored, in network order.
pub data Found : Type 0 where
  ipv4 : List ℕ → ℕ → Found
  ipv6 : List ℕ → ℕ → Found
  other : Found

stack-fiber_ready : (j : ℕ) (t : Thread) → ((fiber_ready j t).fibers j).stack ≡ (t.fibers j).stack
unfolding fiber_ready thread_enqueue
stack-fiber_ready j t = ground (arith, ==_refl j)

module _ (uv : Uv) where
  -- _getaddrinfo_cb of a request of state `s`; `none` is a null pointer, and with a family that is
  -- neither of the two `host` is not written.
  unfoldable pub hand_over : List ℕ → ℕ → State → Net uv.Handle → Net uv.Handle
  hand_over host port s n =
      let told = set_stack (str host ∷ uv.integer port ∷ []) s n.loop in
      set_loop uv (state_ready s told) n

  unfoldable pub getaddrinfo_cb : Option Found → State → Net uv.Handle → Outcome (Net uv.Handle)
  unfolding hand_over
  getaddrinfo_cb none s n = fault
  getaddrinfo_cb (some (ipv4 host port)) s n = ok (hand_over host port s n)
  getaddrinfo_cb (some (ipv6 host port)) s n = ok (hand_over host port s n)
  getaddrinfo_cb (some other) s n = fault

  -- rava_dns_resolve by fiber `i`; `request` is uv_getaddrinfo on the node, the service and the hints.
  unfoldable pub dns_resolve :
      (Option (List ℕ) → Option (List ℕ) → Hints → Option ℕ)
      → Option (List ℕ)
      → Option (List ℕ)
      → Options
      → ℕ
      → Net uv.Handle
      → Outcome (Net uv.Handle × Answer)
  dns_resolve request node service o i n = resolve_hints node service o >>= λ hints.
      elim (request node service hints) [
        | none ↦ ok (suspension uv n (fiber_suspend i n.loop))
        | some e ↦ raised (thrown e)
      ]

  -- The fiber has the host and the port on its stack and is ready; the queue agrees with the flags.
  abbrev pub Told : List ℕ → ℕ → ℕ → Net uv.Handle → Type 0
  Told host port i m =
      Settled m.loop
      × ((m.loop.fibers i).ready ≡ true)
      × ((m.loop.fibers i).stack ≡ str host ∷ uv.integer port ∷ [])

  abbrev pub Resolved : Option Found → ℕ → Outcome (Net uv.Handle) → Type 0
  Resolved (some (ipv4 host port)) i (ok m) = Told host port i m
  Resolved (some (ipv6 host port)) i (ok m) = Told host port i m
  Resolved (some other) i fault = Unit {0}
  Resolved none i fault = Unit {0}
  Resolved a i r = ¬ Unit {0}

  hand_over-Told :
      (host : List ℕ) (port i : ℕ) (n : Net uv.Handle)
      → Settled n.loop
      → Told host port i (hand_over host port (fiber i) n)
  unfolding hand_over state_ready fiber_ready
  hand_over-Told host port i n v =
      let vs = str host ∷ uv.integer port ∷ [] in
      (
        state_ready-Settled (fiber i) (set_stack vs (fiber i) n.loop)
            (set_stack-Settled vs (fiber i) n.loop v),
        ready-fiber_ready i (set_stack vs (fiber i) n.loop),
        stack-fiber_ready i (set_stack vs (fiber i) n.loop)
            ∙ ap
                (λ b.
                  (if b then record (n.loop.fibers i) { stack = vs } else n.loop.fibers i).stack)
                (==_refl i),
      )

  -- The answer of the resolver between two turns, for a request of fiber `i`. With an IPv4 or an IPv6
  -- address the fiber gets the host and the port, as it is stored, and is ready; the queue of fibers agrees with
  -- their flags as before. A resolution that failed, or an address of another family, is a fault.
  pub getaddrinfo_cb-Resolved :
      (a : Option Found) (i : ℕ) (n : Net uv.Handle)
      → Settled n.loop
      → Resolved a i (getaddrinfo_cb a (fiber i) n)
  unfolding getaddrinfo_cb
  getaddrinfo_cb-Resolved none i n v = tt
  getaddrinfo_cb-Resolved (some (ipv4 host port)) i n v = hand_over-Told host port i n v
  getaddrinfo_cb-Resolved (some (ipv6 host port)) i n v = hand_over-Told host port i n v
  getaddrinfo_cb-Resolved (some other) i n v = tt
