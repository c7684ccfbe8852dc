-- ===== src/Sockets.antt =====
-- src/rava_socket_tcp.c, src/rava_socket_udp.c and src/rava_socket_pipe.c: what the three kinds of
-- sockets add to streams. libuv's calls and its conversions of addresses are given. Methods are called
-- by a fiber `i` on an object `c`, with the host, the path and the port that the checks of LuaJIT's
-- auxiliary library return.
pub mod Requests
use rava.Base.{
  ℕ, ◌+◌, ◌*◌, ◌%◌, ◌/◌, ◌^◌, Bool, true, false, List, [], ◌∷◌, Option, none, some, take,
  if◌then◌else◌,
}
use rava.Outcome.{Outcome, ok, raised, fault, ◌>>=◌, wrong_type, thrown}
use rava.Lua.{Value, nil, boolean, str, userdata}
use rava.Scheduler.{State, fiber, Thread, fiber_suspend, state_ready, stack_of, cond_signal}
use rava.Stream.{Uv, Net, set_object, set_loop, set_stack, object_init, object_close, memory}
use rava.Stream.Methods.{Answer, returns, waits, suspension, wait_for}

abbrev pub Text : Type 0
Text = List ℕ

-- sa_family of an address
pub data Family : Type 0 where
  inet : Family
  inet6 : Family
  unspec : Family

-- sockaddr_storage: the text that uv_inet_ntop makes of the address, and the port as it is stored, in
-- network order.
pub record Address : Type 0 where
  pub family : Family
  pub text : Text
  pub port : ℕ

-- ntohs on a machine whose low byte comes first
abbrev pub ntohs : ℕ → ℕ
ntohs p = p % 256 * 256 + p / 256 % 256

-- The table that getsockname and getpeername return
pub record Name : Type 0 where
  pub port : ℕ
  pub family : Family
  pub address : Text

pub record Sockets (H : Type 0) : Type 0 where
  pub tcp_init : H
  pub tcp_bind : H → Text → ℕ → Option ℕ × H
  pub tcp_connect : H → Text → ℕ → Option ℕ × H
  pub tcp_nodelay : H → Bool → Option ℕ × H
  pub tcp_keepalive : H → Bool → ℕ → Option ℕ × H
  -- an error, or an address
  pub tcp_getsockname : H → Option ℕ × Address
  pub tcp_getpeername : H → Option ℕ × Address
  pub udp_init : H
  pub udp_bind : H → Text → ℕ → Option ℕ × H
  pub udp_send : H → Text → ℕ → Text → Option ℕ × H
  pub udp_recv_start : H → H
  -- leave, or else join
  pub udp_set_membership : H → Text → Text → Bool → Option ℕ × H
  pub pipe_init : Bool → H
  pub pipe_open : H → ℕ → H
  pub pipe_bind : H → Text → Option ℕ × H
  pub pipe_connect : H → Text → H

-- What both functions read from an address. With a family other than these, `ip` is not written.
unfoldable pub read_name : Address → Outcome Name
read_name a = by_family a.family
  where
    by_family : Family → Outcome Name
    by_family inet = ok (record { port = ntohs a.port; family = inet; address = a.text })
    by_family inet6 = ok (record { port = ntohs a.port; family = inet6; address = a.text })
    by_family unspec = fault

unfoldable pub name_of : Option ℕ × Address → Outcome Name
unfolding read_name
name_of (none, a) = read_name a
name_of (some e, a) = raised (thrown e)

module _ (uv : Uv) (net : Sockets uv.Handle) where
  abbrev pub set_handle : ℕ → uv.Handle → Net uv.Handle → Net uv.Handle
  set_handle c h n = set_object uv c (record (n.objects c) { handle = h }) n

  -- A call whose status is the result, and one whose error is raised.
  abbrev pub with_status : ℕ → Net uv.Handle → Option ℕ × uv.Handle → Net uv.Handle × Answer
  with_status c n (r, h) = (set_handle c h n, returns (uv.status r ∷ []))

  abbrev pub or_error : ℕ → Net uv.Handle → Option ℕ × uv.Handle → Outcome (Net uv.Handle × Answer)
  or_error c n (none, h) = ok (set_handle c h n, returns [])
  or_error c n (some e, h) = raised (thrown e)

  -- rava_new_tcp, rava_new_udp
  unfoldable pub new_tcp : State → ℕ → Net uv.Handle → Net uv.Handle
  unfolding object_init
  new_tcp s c n = set_handle c net.tcp_init (object_init uv s c n)

  unfoldable pub new_udp : State → ℕ → Net uv.Handle → Net uv.Handle
  unfolding object_init
  new_udp s c n = set_handle c net.udp_init (object_init uv s c n)

  -- rava_tcp_bind
  unfoldable pub tcp_bind : ℕ → Text → ℕ → Net uv.Handle → Net uv.Handle × Answer
  tcp_bind c host port n = with_status c n (net.tcp_bind ((n.objects c).handle) host port)

  -- rava_tcp_connect
  unfoldable pub tcp_connect : ℕ → Text → ℕ → ℕ → Net uv.Handle → Net uv.Handle × Answer
  tcp_connect c host port i n =
      let (r, h) = net.tcp_connect ((n.objects c).handle) host port in
      let sent = set_handle c h n in
      let own = set_stack (take 2 (stack_of (fiber i) n.loop)) (fiber i) n.loop in
      elim r [
        | none ↦ suspension uv sent (fiber_suspend i own)
        | some e ↦ (
          set_loop uv (set_stack [] (fiber i) n.loop) sent,
          returns (nil ∷ str (uv.strerror e) ∷ []),
        )
      ]

  -- rava_tcp_nodelay
  unfoldable pub tcp_nodelay : ℕ → Value → Net uv.Handle → Outcome (Net uv.Handle × Answer)
  tcp_nodelay c (boolean enable) n =
      ok (with_status c n (net.tcp_nodelay ((n.objects c).handle) enable))
  tcp_nodelay c v n = raised wrong_type

  -- rava_tcp_keepalive; `delay` is luaL_checkint of the third argument, which is read if it is needed.
  unfoldable pub tcp_keepalive :
      ℕ → Value → Outcome ℕ → Net uv.Handle → Outcome (Net uv.Handle × Answer)
  tcp_keepalive c (boolean true) delay n =
      delay >>= λ d. ok (with_status c n (net.tcp_keepalive ((n.objects c).handle) true d))
  tcp_keepalive c (boolean false) delay n =
      ok (with_status c n (net.tcp_keepalive ((n.objects c).handle) false 0))
  tcp_keepalive c v delay n = raised wrong_type

  -- rava_tcp_getsockname, rava_tcp_getpeername
  unfoldable pub tcp_getsockname : ℕ → Net uv.Handle → Outcome Name
  unfolding name_of
  tcp_getsockname c n = name_of (net.tcp_getsockname ((n.objects c).handle))

  unfoldable pub tcp_getpeername : ℕ → Net uv.Handle → Outcome Name
  unfolding name_of
  tcp_getpeername c n = name_of (net.tcp_getpeername ((n.objects c).handle))

  -- rava_udp_bind
  unfoldable pub udp_bind : ℕ → Text → ℕ → Net uv.Handle → Outcome (Net uv.Handle × Answer)
  udp_bind c host port n = or_error c n (net.udp_bind ((n.objects c).handle) host port)

  -- rava_udp_send, and _send_cb of a request of state `s`
  unfoldable pub udp_send :
      ℕ → Text → ℕ → Text → ℕ → Net uv.Handle → Outcome (Net uv.Handle × Answer)
  udp_send c host port mesg i n =
      let (r, h) = net.udp_send ((n.objects c).handle) host port mesg in
      elim r [
        | none ↦ ok (suspension uv (set_handle c h n) (fiber_suspend i n.loop))
        | some e ↦ raised (thrown e)
      ]

  unfoldable pub send_cb : State → Net uv.Handle → Net uv.Handle
  send_cb s n = set_loop uv (state_ready s n.loop) n

  -- A local variable of C: `none` until it is written, and a fault to read before.
  abbrev pub read_local {ℓ} : {A : Type ℓ} → Option A → Outcome A
  read_local none = fault
  read_local (some a) = ok a

  -- The host and port of a datagram. In the two branches for an IP address `addr` is declared again and
  -- initialised with itself, which writes nothing; in neither branch `host` is not written.
  unfoldable pub sender_of : Family → Option Address → Option Text → Outcome (Text × ℕ)
  sender_of inet addr host = read_local addr >>= λ a. ok (a.text, a.port)
  sender_of inet6 addr host = read_local addr >>= λ a. ok (a.text, a.port)
  sender_of unspec addr host = read_local host >>= λ h. ok (h, 0)

  -- _recv_cb: the loop over the states that wait, each given the message and the sender.
  unfoldable pub recv_each : List State → Family → Option Text → Thread → Outcome Thread
  unfolding sender_of
  recv_each [] family buf t = ok t
  recv_each (s ∷ q) family buf t = do
    let u = set_stack (str (memory buf) ∷ []) s t
    (host, port) ← sender_of family none none
    recv_each q family buf (set_stack (str (memory buf) ∷ str host ∷ uv.integer port ∷ []) s u)

  unfoldable pub recv_cb : ℕ → Family → Option Text → Net uv.Handle → Outcome (Net uv.Handle)
  unfolding recv_each
  recv_cb c family buf n =
      recv_each (n.loop.conds c) family buf n.loop >>= λ t. ok (set_loop uv ((cond_signal c t).0) n)

  -- rava_udp_recv
  unfoldable pub udp_recv : ℕ → ℕ → Net uv.Handle → Net uv.Handle × Answer
  udp_recv c i n =
      let o = n.objects c in
      let reading = record o { started = true; handle = net.udp_recv_start o.handle } in
      wait_for uv c i (if o.started then n else set_object uv c reading n)

  -- rava_udp_membership; the option is "join" or "leave".
  unfoldable pub udp_membership :
      ℕ → Text → Text → Bool → Net uv.Handle → Outcome (Net uv.Handle × Answer)
  udp_membership c maddr iaddr leave n =
      or_error c n (net.udp_set_membership ((n.objects c).handle) maddr iaddr leave)

  -- rava_udp_free
  unfoldable pub udp_free : ℕ → Net uv.Handle → Net uv.Handle
  udp_free c n = object_close uv c n

  -- rava_new_pipe, on its second argument (nil where there is none). The object is not initialised.
  unfoldable pub new_pipe : ℕ → Value → Net uv.Handle → Outcome (Net uv.Handle)
  new_pipe c nil n = ok (set_handle c (net.pipe_init false) n)
  new_pipe c (boolean ipc) n = ok (set_handle c (net.pipe_init ipc) n)
  new_pipe c v n = raised wrong_type

  -- rava_pipe_open on a file number
  unfoldable pub pipe_open : ℕ → ℕ → Net uv.Handle → Net uv.Handle
  pipe_open c fh n = set_handle c (net.pipe_open ((n.objects c).handle) fh) n

  -- rava_pipe_bind
  unfoldable pub pipe_bind : ℕ → Text → Net uv.Handle → Outcome (Net uv.Handle × Answer)
  pipe_bind c path n = or_error c n (net.pipe_bind ((n.objects c).handle) path)

  -- rava_pipe_connect: the caller goes on.
  unfoldable pub pipe_connect : ℕ → Text → Net uv.Handle → Net uv.Handle
  pipe_connect c path n = set_handle c (net.pipe_connect ((n.objects c).handle) path) n
