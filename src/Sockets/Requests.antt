-- ===== src/Sockets/Requests.antt =====
-- src/rava_socket_tcp.c and src/rava_socket_udp.c: a call that suspends its fiber, and the callback of
-- its request.
use rava.Base.{
  ℕ, ◌≡◌, refl, sym, ap, ◌∙◌, subst, Bool, true, false, [], ◌∷◌, Option, none, some, take,
}
use rava.Outcome.{Outcome, ok, raised, thrown}
use rava.Lua.{nil, str}
use rava.Scheduler.{fiber, Thread, fiber_suspend, state_ready, stack_of}
use rava.Scheduler.Balance.{Balanced, fiber_suspend-Balanced, set_fiber-Balanced}
use rava.Scheduler.Turns.{back}
use rava.Scheduler.Loop.{Settled}
use rava.Scheduler.Waking.{ready-fiber_ready}
use rava.Stream.{Uv, Net, set_loop, set_stack, connect_cb}
use rava.Stream.Methods.{Answer, returns, waits, suspension}
use rava.Stream.Events.{state_ready-Settled}
use rava.Sockets.{Text, Sockets, set_handle, tcp_connect, udp_send, send_cb}

module _ (uv : Uv) where
  -- The fiber waits, and the scheduler goes on with a queue that agrees with the flags of the fibers;
  -- once `callback` has run the fiber is ready again, and the queue agrees with the flags still.
  abbrev pub Resumed : ℕ → (Net uv.Handle → Net uv.Handle) → Net uv.Handle × Answer → Type 0
  Resumed i callback (m, a) =
      let idle = set_loop uv (back m.loop) m in
      (a ≡ waits)
      × ((m.loop.fibers i).ready ≡ false)
      × Settled idle.loop
      × Settled (callback idle).loop
      × (((callback idle).loop.fibers i).ready ≡ true)

  suspension-Resumed :
      (i : ℕ) (t : Thread) (n : Net uv.Handle) (callback : Net uv.Handle → Net uv.Handle)
      → t.curr ≡ fiber i
      → Balanced t
      → ((m : Net uv.Handle) → (callback m).loop ≡ state_ready (fiber i) m.loop)
      → Resumed i callback (suspension uv n (fiber_suspend i t))
  suspension-Resumed i t n callback c v same =
      from (fiber_suspend i t) (fiber_suspend-Balanced i t c v)
    where
      from :
          (r : Thread × Bool)
          → (r.1 ≡ true) × ((r.0.fibers i).ready ≡ false) × Balanced (back r.0)
          → Resumed i callback (suspension uv n r)
      from (u, true) (h, unready, b) =
          let idle = set_loop uv (back u) n in
          (
            refl,
            unready,
            (refl, b),
            subst Settled (sym (same idle)) (state_ready-Settled (fiber i) (back u) (refl, b)),
            ap (λ w. (w.fibers i).ready) (same idle)
                ∙ unfold state_ready in ready-fiber_ready i (back u),
          )
      from (u, false) (h, unready, b) = absurd cc

  module _ (net : Sockets uv.Handle) where
    -- What a connect does, by what libuv answers
    abbrev pub Connecting : ℕ → Net uv.Handle → Option ℕ → Net uv.Handle × Answer → Type 0
    Connecting i n none r = Resumed i (connect_cb uv (fiber i)) r
    Connecting i n (some e) (m, a) =
        (a ≡ returns (nil ∷ str (uv.strerror e) ∷ [])) × (m.loop ≡ set_stack [] (fiber i) n.loop)

    -- A connect by the running fiber. If libuv takes the request, the fiber waits, and the callback of
    -- the request makes it ready again; the queue of fibers agrees with their flags before and after.
    -- If libuv refuses it, the caller goes on at once with nil and the text of the error, and nothing of
    -- the scheduler changes but its own stack.
    pub tcp_connect-connect_cb :
        (c : ℕ) (host : Text) (port i : ℕ) (n : Net uv.Handle)
        → n.loop.curr ≡ fiber i
        → Balanced n.loop
        → Connecting i n
            ((net.tcp_connect ((n.objects c).handle) host port).0)
            (tcp_connect uv net c host port i n)
    unfolding tcp_connect connect_cb
    tcp_connect-connect_cb c host port i n e v =
        split (net.tcp_connect ((n.objects c).handle) host port)
      where
        own : Thread
        own = set_stack (take 2 (stack_of (fiber i) n.loop)) (fiber i) n.loop

        split :
            (r : Option ℕ × uv.Handle)
            → Connecting i n (r.0) (elim (r.0) [
              | none ↦ suspension uv (set_handle uv net c (r.1) n) (fiber_suspend i own)
              | some e ↦ (
                set_loop uv (set_stack [] (fiber i) n.loop) (set_handle uv net c (r.1) n),
                returns (nil ∷ str (uv.strerror e) ∷ []),
              )
            ])
        split (none, h) =
            suspension-Resumed i own (set_handle uv net c h n) (connect_cb uv (fiber i)) e
              (set_fiber-Balanced i _ n.loop refl refl v) (λ m. refl)
        split (some x, h) = (refl, refl)

    abbrev pub Sending : ℕ → Option ℕ → Outcome (Net uv.Handle × Answer) → Type 0
    Sending i none (ok r) = Resumed i (send_cb uv net (fiber i)) r
    Sending i (some e) (raised x) = x ≡ thrown e
    Sending i s r = ¬ Unit {0}

    -- A datagram sent by the running fiber: the fiber waits, and the callback of the request makes it
    -- ready again, the queue of fibers agreeing with their flags before and after; a refused request
    -- raises libuv's error.
    udp_send-send_cb :
        (c : ℕ) (host : Text) (port : ℕ) (mesg : Text) (i : ℕ) (n : Net uv.Handle)
        → n.loop.curr ≡ fiber i
        → Balanced n.loop
        → Sending i
            ((net.udp_send ((n.objects c).handle) host port mesg).0)
            (udp_send uv net c host port mesg i n)
    unfolding udp_send send_cb
    udp_send-send_cb c host port mesg i n e v =
        split (net.udp_send ((n.objects c).handle) host port mesg)
      where
        split :
            (r : Option ℕ × uv.Handle)
            → Sending i (r.0) (elim (r.0) [
              | none ↦ ok (suspension uv (set_handle uv net c (r.1) n) (fiber_suspend i n.loop))
              | some e ↦ raised (thrown e)
            ])
        split (none, h) =
            suspension-Resumed i n.loop (set_handle uv net c h n) (send_cb uv net (fiber i)) e v
              (λ m. refl)
        split (some x, h) = refl
