-- ===== src/Resolve.antt =====
-- rava_dns_resolve of src/rava_socket.c: the hints that it hands to getaddrinfo.
--
-- A string is the list of its bytes. The constants of <netdb.h> are constructors; what getaddrinfo
-- does with the hints is libuv's.
pub mod Requests
use rava.Base.{
  ℕ, ◌≡◌, refl, arith, Bool, true, false, not, ◌&&◌, List, [], ◌∷◌, Option, none, some, ◌==◌,
  ==_iff, if◌then◌else◌, codes, same_text, same_text-eq,
}
use rava.Outcome.{Outcome, ok, raised, fault, ◌>>=◌, thrown}

pub data Family : Type 0 where
  inet : Family
  inet6 : Family

pub data SockType : Type 0 where
  stream : SockType
  dgram : SockType

pub data Protocol : Type 0 where
  tcp : Protocol
  udp : Protocol

-- struct addrinfo, the fields that are set
pub record Hints : Type 0 where
  pub family : Family
  pub socktype : SockType
  pub protocol : Protocol

-- A field of the third argument: nil (or there is no table), a string or number as its text, or another
-- value, for which lua_tostring answers NULL.
pub data FieldText : Type 0 where
  absent : FieldText
  text : List ℕ → FieldText
  textless : FieldText

pub record Options : Type 0 where
  pub family_name : FieldText
  pub socktype_name : FieldText
  pub protocol_name : FieldText

-- What `strcmp` gets, if it is called; it reads through its pointer.
unfoldable pub field_text : FieldText → Outcome (Option (List ℕ))
field_text absent = ok none
field_text (text s) = ok (some s)
field_text textless = fault

abbrev pub text_inet : List ℕ
text_inet = codes "INET"

abbrev pub text_inet6 : List ℕ
text_inet6 = codes "INET6"

abbrev pub text_stream : List ℕ
text_stream = codes "STREAM"

abbrev pub text_dgram : List ℕ
text_dgram = codes "DGRAM"

abbrev pub text_tcp : List ℕ
text_tcp = codes "TCP"

abbrev pub text_udp : List ℕ
text_udp = codes "UDP"

-- `unsupported family` and its like
abbrev pub unsupported : ℕ
unsupported = 1

unfoldable pub read_family : Option (List ℕ) → Outcome Family
read_family none = ok inet
read_family (some s) =
    if same_text s text_inet
    then ok inet
    else (if not (same_text s text_inet6) then ok inet6 else raised (thrown unsupported))

-- Each `strcmp` stands without `== 0`, as in the source.
unfoldable pub read_socktype : Option (List ℕ) → Outcome SockType
read_socktype none = ok stream
read_socktype (some s) =
    if not (same_text s text_stream)
    then ok stream
    else (if not (same_text s text_dgram) then ok dgram else raised (thrown unsupported))

unfoldable pub read_protocol : Option (List ℕ) → Outcome Protocol
read_protocol none = ok tcp
read_protocol (some s) =
    if not (same_text s text_tcp)
    then ok tcp
    else (if not (same_text s text_udp) then ok udp else raised (thrown unsupported))

-- The hints for a call with neither, one or both of a node and a service.
unfoldable pub resolve_hints : Option (List ℕ) → Option (List ℕ) → Options → Outcome Hints
unfolding field_text read_family read_socktype read_protocol
resolve_hints none none o = raised (thrown 0)
resolve_hints name service o = do
  family_name ← field_text o.family_name
  f ← read_family family_name
  socktype_name ← field_text o.socktype_name
  s ← read_socktype socktype_name
  protocol_name ← field_text o.protocol_name
  p ← read_protocol protocol_name
  ok (record { family = f; socktype = s; protocol = p })

crossed_socktype :
    (s : List ℕ) (b : Bool)
    → same_text s text_stream ≡ b
    → read_socktype (some s) ≡ ok (if b then dgram else stream)
unfolding read_socktype same_text
crossed_socktype s true e = rw (same_text-eq s text_stream e)
crossed_socktype s false e = rw e

crossed_protocol :
    (s : List ℕ) (b : Bool)
    → same_text s text_tcp ≡ b
    → read_protocol (some s) ≡ ok (if b then udp else tcp)
unfolding read_protocol same_text
crossed_protocol s true e = rw (same_text-eq s text_tcp e)
crossed_protocol s false e = rw e

-- The kind of socket and the protocol that a caller names come out crossed, and no name is refused:
-- "STREAM" gives a datagram socket and every other string a stream socket, "TCP" gives UDP and every
-- other string TCP.
pub read_socktype-crossed :
    (s r : List ℕ)
    → (read_socktype (some s) ≡ ok (if same_text s text_stream then dgram else stream))
      × (read_protocol (some r) ≡ ok (if same_text r text_tcp then udp else tcp))
read_socktype-crossed s r = (
  crossed_socktype s (same_text s text_stream) refl,
  crossed_protocol r (same_text r text_tcp) refl,
)
