-- ===== src/Socket/Receiving.antt =====
-- What the receivers of src/socket.cpp make of the packets that arrive.
use sleep_manager.Base.{
  ℕ, zero, suc, ◌≤◌, ◌≡◌, ◌∙◌, refl, ap, Bool, true, false, List, [], ◌∷◌, ◌++◌, map, none, some,
  Bytes, length, take, All, arith,
}
use sleep_manager.Exception.{std_bad_optional_access}
use sleep_manager.Address.{Junk}
use sleep_manager.Packet.{Packet, PacketBody, BodyType, new_packet, discovery, serialize}
use sleep_manager.Packet.Serializer.{empty_serializer, finish}
use sleep_manager.Packet.RoundTrip.{
  IsSendable, header_after, body_after, is_discovery, deserialize-serialize,
}
use sleep_manager.Socket.Udp.{
  returns, raises, blocks, no_faults, UdpReceiverSocket, receive_packet, try_receive_packet,
  receive_bytes, try_receive_bytes, str_buf_size,
}
use sleep_manager.Socket.Server.{receive_loop, server_receive, server_try_receive}

abbrev pub text : Packet → Bytes
text p = finish (serialize p empty_serializer)

-- A sendable packet whose text fits the buffer.
pub record IsShort (p : Packet) : Type 0 where
  pub sendable : IsSendable p.header
  pub fits : length (text p) ≤ str_buf_size

-- What arrives of a packet `p` in a packet `q`.
abbrev pub packet_after : Packet → Packet → Packet
packet_after p q = record {
  header = header_after p.header;
  body = body_after p.body.body_type q.body;
}

take_all : (n : ℕ) (s : Bytes) → length s ≤ n → take n s ≡ s
take_all zero [] h = refl
take_all zero (c ∷ s) h = absurd (omega arith)
take_all (suc n) [] h = refl
take_all (suc n) (c ∷ s) h = ap (◌∷◌ c) (take_all n s (omega arith))

pub receive_packet-text :
    (junk : Junk) (p q : Packet) (b : Bool) (rest : List Bytes)
    → IsShort p
    → receive_packet no_faults junk q (record { nonblocking = b; inbox = text p ∷ rest })
      ≡ returns (
        packet_after p q,
        is_discovery p.body.body_type,
        record { nonblocking = b; inbox = rest },
      )
unfolding receive_packet
receive_packet-text junk p q b rest s =
    let (d, e) = deserialize-serialize junk p q s.sendable in
    rw (take_all str_buf_size (text p) s.fits, e)

pub try_receive_packet-text :
    (junk : Junk) (p q : Packet) (b : Bool) (rest : List Bytes)
    → IsShort p
    → try_receive_packet no_faults junk q (record { nonblocking = b; inbox = text p ∷ rest })
      ≡ returns (
        packet_after p q,
        some (is_discovery p.body.body_type),
        record { nonblocking = b; inbox = rest },
      )
unfolding try_receive_packet
try_receive_packet-text junk p q b rest s =
    let (d, e) = deserialize-serialize junk p q s.sendable in
    rw (take_all str_buf_size (text p) s.fits, e)

-- Packets that the receive loop passes over.
abbrev pub IsOther : Packet → Type 0
IsOther p = IsShort p × (is_discovery p.body.body_type ≡ false)

body_other : (t : BodyType) (b : PacketBody) → is_discovery t ≡ false → body_after t b ≡ b
body_other t b h = ground arith

receive_loop_skips :
    (junk : Junk) (ps : List Packet) (p q : Packet) (b : Bool) (rest : List Bytes)
    → All IsOther ps
    → IsShort p
    → p.body.body_type ≡ discovery
    → receive_loop no_faults junk q b (map text ps ++ text p ∷ rest)
      ≡ returns (packet_after p q, record { nonblocking = b; inbox = rest })
unfolding receive_loop
receive_loop_skips junk [] p q b rest _ s t = rw (receive_packet-text junk p q b rest s, t)
receive_loop_skips junk (x ∷ ps) p q b rest ((sx, other), others) s t =
    rw (receive_packet-text junk x q b (map text ps ++ text p ∷ rest) sx, other)
      (receive_loop_skips junk ps p (packet_after x q) b rest others s t
        ∙ rw (body_other x.body.body_type q.body other))

-- Where no system call fails, the server's receive passes over every packet whose type is not
-- DISCOVERY and returns with the first one whose type is; it takes these packets out of the inbox
-- and leaves the others. The packets are sendable and fit the buffer.
pub server_receive_skips :
    (junk : Junk) (ps : List Packet) (p : Packet) (b : Bool) (rest : List Bytes)
    → All IsOther ps
    → IsShort p
    → p.body.body_type ≡ discovery
    → server_receive no_faults junk
        (record { nonblocking = b; inbox = map text ps ++ text p ∷ rest })
      ≡ returns (packet_after p new_packet, record { nonblocking = b; inbox = rest })
unfolding server_receive
server_receive_skips junk ps p b rest = receive_loop_skips junk ps p new_packet b rest

pub server_try_receive-text :
    (junk : Junk) (p : Packet) (b : Bool) (rest : List Bytes)
    → IsShort p
    → server_try_receive no_faults junk (record { nonblocking = b; inbox = text p ∷ rest })
      ≡ returns (some (packet_after p new_packet), record { nonblocking = b; inbox = rest })
unfolding server_try_receive
server_try_receive-text junk p b rest s = rw (try_receive_packet-text junk p new_packet b rest s)

pub server_try_receive-empty :
    (junk : Junk) (b : Bool)
    → server_try_receive no_faults junk (record { nonblocking = b; inbox = [] })
      ≡ returns (none, record { nonblocking = true; inbox = [] })
unfolding server_try_receive try_receive_packet try_receive_bytes
server_try_receive-empty junk b = refl

-- Where no system call fails, the server's try_receive answers any sendable packet that fits the
-- buffer with a request, also one whose type is not recognised; on an empty inbox it answers none.
-- In the second case the socket stays non-blocking, and a following receive on the empty inbox does
-- not block: it raises bad_optional_access.
pub server_try_receive_lem :
    (junk : Junk) (p : Packet) (b : Bool) (rest : List Bytes)
    → IsShort p
    → let stuck : UdpReceiverSocket = record { nonblocking = true; inbox = [] } in
      (server_try_receive no_faults junk (record { nonblocking = b; inbox = text p ∷ rest })
        ≡ returns (some (packet_after p new_packet), record { nonblocking = b; inbox = rest }))
      × (server_try_receive no_faults junk (record { nonblocking = b; inbox = [] })
          ≡ returns (none, stuck))
      × (server_receive no_faults junk stuck ≡ raises std_bad_optional_access)
      × (server_receive no_faults junk (record { nonblocking = false; inbox = [] }) ≡ blocks)
unfolding server_try_receive server_receive try_receive_packet receive_packet try_receive_bytes
    receive_bytes
server_try_receive_lem junk p b rest s = (server_try_receive-text junk p b rest s, refl, refl, refl)
