-- ===== src/Discovery/Fuel.antt =====
-- The fuel of the loop of src/discovery.cpp is enough.
use sleep_manager.Base.{
  ℕ, zero, suc, ◌<◌, ◌≡◌, ◌≢◌, ◌∙◌, refl, ap, sym, Bool, List, [], ◌∷◌, ◌++◌, Bytes, length, arith,
  Bool-cases, inl, inr,
}
use sleep_manager.Address.{Junk}
use sleep_manager.Packet.{Packet, new_packet, deserialize}
use sleep_manager.Packet.Deserializer.{deserializer}
use sleep_manager.Socket.{Env}
use sleep_manager.Socket.Udp.{
  Outcome, returns, raises, blocks, >>=-returns, lift, Faults, UdpReceiverSocket, receive_packet,
  receive_bytes, receive_with_block_type, str_buf_size,
}
use sleep_manager.Socket.Server.{receive_loop, server_receive}
use sleep_manager.Discovery.{out_of_fuel, discovery_loop, after_open, discovery_main}

receive_bytes-rest :
    (faults : Faults) (n : ℕ) (b : Bool) (m : Bytes) (inbox : List Bytes) (read : Bytes)
    (r : UdpReceiverSocket)
    → receive_bytes faults n (record { nonblocking = b; inbox = m ∷ inbox }) ≡ returns (read, r)
    → r.inbox ≡ inbox
unfolding receive_bytes receive_with_block_type
receive_bytes-rest faults n b m inbox read r e = ground arith

receive_bytes-none :
    (faults : Faults) (n : ℕ) (b : Bool) (read : Bytes) (r : UdpReceiverSocket)
    → receive_bytes faults n (record { nonblocking = b; inbox = [] }) ≢ returns (read, r)
unfolding receive_bytes receive_with_block_type
receive_bytes-none faults n b read r e = ground arith

receive_packet-rest :
    (faults : Faults) (junk : Junk) (q : Packet) (b : Bool) (m : Bytes) (inbox : List Bytes)
    (p : Packet) (recognised : Bool) (r : UdpReceiverSocket)
    → receive_packet faults junk q (record { nonblocking = b; inbox = m ∷ inbox })
      ≡ returns (p, recognised, r)
    → r.inbox ≡ inbox
unfolding receive_packet
receive_packet-rest faults junk q b m inbox p recognised r e =
    let ((message, r'), first, e') =
      >>=-returns
        (receive_bytes faults str_buf_size (record { nonblocking = b; inbox = m ∷ inbox })) _ e in
    let ((p', seen, _), _, e'') =
      >>=-returns (lift (deserialize junk q (deserializer message))) _ e' in
    let same : r' ≡ r = cc in
    ap (λ (x : UdpReceiverSocket). x.inbox) (sym same)
    ∙ receive_bytes-rest faults str_buf_size b m inbox message r' first

receive_packet-none :
    (faults : Faults) (junk : Junk) (q : Packet) (b : Bool) (p : Packet) (recognised : Bool)
    (r : UdpReceiverSocket)
    → receive_packet faults junk q (record { nonblocking = b; inbox = [] })
      ≢ returns (p, recognised, r)
unfolding receive_packet
receive_packet-none faults junk q b p recognised r e =
    let ((message, r'), first, e') =
      >>=-returns (receive_bytes faults str_buf_size (record { nonblocking = b; inbox = [] })) _
        e in
    receive_bytes-none faults str_buf_size b message r' first

-- A receive that returns has taken a datagram.
receive_loop-takes :
    (faults : Faults) (junk : Junk) (q : Packet) (b : Bool) (inbox : List Bytes) (p : Packet)
    (r : UdpReceiverSocket)
    → receive_loop faults junk q b inbox ≡ returns (p, r)
    → length r.inbox < length inbox
unfolding receive_loop
receive_loop-takes faults junk q b [] p r e =
    let ((p', recognised, r'), first, _) =
      >>=-returns (receive_packet faults junk q (record { nonblocking = b; inbox = [] })) _ e in
    absurd (receive_packet-none faults junk q b p' recognised r' first)
receive_loop-takes faults junk q b (m ∷ inbox) p r e =
    let ((p', recognised, r'), first, e') =
      >>=-returns (receive_packet faults junk q (record { nonblocking = b; inbox = m ∷ inbox })) _
        e in
    let rest = receive_packet-rest faults junk q b m inbox p' recognised r' first in
    elim (Bool-cases recognised) [
      | inl t ↦
          let same : r' ≡ r = ground (arith, e', t) in
          omega (arith, ap length rest, ap (λ (x : UdpReceiverSocket). length x.inbox) same)
      | inr f ↦
          let more : receive_loop faults junk p' r'.nonblocking inbox ≡ returns (p, r) =
            rw f at e' in
          omega (arith, receive_loop-takes faults junk p' r'.nonblocking inbox p r more)
    ]

server_receive-takes :
    (faults : Faults) (junk : Junk) (r r' : UdpReceiverSocket) (p : Packet)
    → server_receive faults junk r ≡ returns (p, r')
    → length r'.inbox < length r.inbox
unfolding server_receive
server_receive-takes faults junk r r' p e =
    receive_loop-takes faults junk new_packet r.nonblocking r.inbox p r' e

module _ (faults : Faults) (junk : Junk) where
  -- A round, by what it comes to.
  round-ne-out_of_fuel :
      (fuel : ℕ) (r : UdpReceiverSocket) (started : List Packet)
      → ((r' : UdpReceiverSocket) (more : List Packet)
          → length r'.inbox < length r.inbox
          → discovery_loop fuel faults junk r' more ≢ out_of_fuel)
      → (o : Outcome (Packet × UdpReceiverSocket)) → server_receive faults junk r ≡ o
      → discovery_loop (suc fuel) faults junk r started ≢ out_of_fuel
  unfolding discovery_loop
  round-ne-out_of_fuel fuel r started later blocks e = rw (discovery_loop, e) (λ h. cc)
  round-ne-out_of_fuel fuel r started later (raises thrown) e = rw (discovery_loop, e) (λ h. cc)
  round-ne-out_of_fuel fuel r started later (returns (p, r')) e =
      rw (discovery_loop, e)
        (later r' (started ++ p ∷ []) (server_receive-takes faults junk r r' p e))

  loop-ne-out_of_fuel :
      (fuel : ℕ) (r : UdpReceiverSocket) (started : List Packet)
      → length r.inbox < fuel
      → discovery_loop fuel faults junk r started ≢ out_of_fuel
  loop-ne-out_of_fuel zero r started h = absurd (omega (arith, h))
  loop-ne-out_of_fuel (suc fuel) r started h =
      round-ne-out_of_fuel fuel r started
        (λ r' more less. loop-ne-out_of_fuel fuel r' more (omega (arith, h, less)))
        (server_receive faults junk r) refl

  open-ne-out_of_fuel : (o : Outcome UdpReceiverSocket) → after_open faults junk o ≢ out_of_fuel
  unfolding after_open
  open-ne-out_of_fuel (returns r) = loop-ne-out_of_fuel (suc (length r.inbox)) r [] (omega arith)
  open-ne-out_of_fuel (raises thrown) = λ h. cc
  open-ne-out_of_fuel blocks = λ h. cc

  -- Whatever bytes arrive and whichever system calls fail, the fuel of the discovery loop is enough:
  -- it comes to the end of its datagrams and waits, or an exception ends it.
  pub discovery_main-ends :
      (env : Env) (inbox : List Bytes) → discovery_main env faults junk inbox ≢ out_of_fuel
  unfolding discovery_main
  discovery_main-ends env inbox = open-ne-out_of_fuel _
