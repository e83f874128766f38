-- ===== src/Discovery/Serving.antt =====
-- What the loop of src/discovery.cpp does with the datagrams that arrive, and its threads with the
-- requests.
use mathlib.Core.List.{Perm, Mem}
use mathlib.Core.List.Perm
use sleep_manager.Base.{
  ℕ, zero, suc, ◌<◌, ◌≡◌, ◌∙◌, refl, ap, false, List, [], ◌∷◌, ◌++◌, map, Bytes, All, length,
  append-nil, append_assoc, take, ◌≢◌, Option, none, some, arith, inl, inr,
}
use sleep_manager.Exception.{Exception, ok, throws}
use sleep_manager.Address.{Junk, NodeAddresses}
use sleep_manager.Packet.{Packet, new_packet, deserialize}
use sleep_manager.Packet.Deserializer.{deserializer}
use sleep_manager.Management.{ManagementService, get_by_hostname}
use sleep_manager.Socket.{Env, World, Datagram}
use sleep_manager.Socket.Udp.{
  Outcome, raises, blocks, no_faults, UdpReceiverSocket, receiver_socket, receiver_broadcast,
  receive_packet, receive_bytes, str_buf_size,
}
use sleep_manager.Socket.Server.{receive_loop, server_receive}
use sleep_manager.Socket.Receiving.{
  text, IsShort, IsOther, packet_after, server_receive_skips, receive_packet-text,
}
use sleep_manager.Socket.Retries.{IsWorking}
use sleep_manager.Discovery.{
  handle_requests, Served, awaits, terminates, discovery_loop, after_open, discovery_main,
}
use sleep_manager.Discovery.Registration.{answer}
use sleep_manager.Discovery.Requests.{
  requests, split, requests-others, requests-none, requests-discovery, length-split, map-split,
  length-texts,
}
use sleep_manager.Discovery.Answering.{
  IsUnicast, HasHost-of_mem, handle_requests_sends, handle_requests_registers,
}

-- How the receives end behind the packets: they wait, or an exception ends them.
abbrev ending : Option Exception → Outcome (Packet × UdpReceiverSocket)
ending none = blocks
ending (some e) = raises e

abbrev ended : Option Exception → List Packet → Served
ended none started = awaits started
ended (some e) started = terminates started e

-- A datagram that no packet can be read from.
abbrev pub IsMalformed : Junk → Exception → Bytes → Type 0
IsMalformed junk e m =
    (q : Packet) → deserialize junk q (deserializer (take str_buf_size m)) ≡ throws e

malformed-ends :
    (junk : Junk) (e : Exception) (m : Bytes) (rest : List Bytes) (q : Packet)
    → IsMalformed junk e m
    → receive_loop no_faults junk q false (m ∷ rest) ≡ raises e
unfolding receive_loop receive_packet receive_bytes
malformed-ends junk e m rest q h = rw (h q)

nothing-ends : (junk : Junk) (q : Packet) → receive_loop no_faults junk q false [] ≡ blocks
unfolding receive_loop receive_packet receive_bytes
nothing-ends junk q = refl

module _ (junk : Junk) (tail : List Bytes) (end : Option Exception)
    (ends : (q : Packet) → receive_loop no_faults junk q false tail ≡ ending end) where
  receive_loop-others :
      (ps : List Packet) (q : Packet)
      → All IsOther ps
      → receive_loop no_faults junk q false (map text ps ++ tail) ≡ ending end
  unfolding receive_loop
  receive_loop-others [] q _ = ends q
  receive_loop-others (p ∷ ps) q ((short, other), others) =
      rw (receive_packet-text junk p q false (map text ps ++ tail) short, other)
        (receive_loop-others ps (packet_after p q) others)

  loop-others :
      (fuel : ℕ) (ps started : List Packet) (o : Option Exception)
      → end ≡ o
      → All IsOther ps
      → discovery_loop
          (suc fuel)
          no_faults
          junk
          (record { nonblocking = false; inbox = map text ps ++ tail })
          started
        ≡ ended o started
  unfolding discovery_loop server_receive
  loop-others fuel ps started none e others =
      rw (discovery_loop, receive_loop-others ps new_packet others, e)
  loop-others fuel ps started (some thrown) e others =
      rw (discovery_loop, receive_loop-others ps new_packet others, e)

  loop-requests :
      (fuel : ℕ) (ps started : List Packet)
      → length ps < fuel
      → All IsShort ps
      → discovery_loop fuel no_faults junk
          (record { nonblocking = false; inbox = map text ps ++ tail })
          started
        ≡ ended end (started ++ requests ps)
  unfolding discovery_loop
  loop-requests zero ps started h shorts = absurd (omega (arith, h))
  loop-requests (suc fuel) ps started h shorts = elim (split ps shorts) [
    | inl others ↦
        rw (requests-none ps others, append-nil started)
          (loop-others fuel ps started end refl others)
    | inr (xs, p, rest, e, others, short, d, sr) ↦
        let received = packet_after p new_packet in
        let less : length rest < fuel = omega (arith, h, ap length e, length-split xs p rest) in
        rw
          (
            discovery_loop,
            e,
            map-split xs p rest tail,
            server_receive_skips junk xs p false (map text rest ++ tail) others short d,
            requests-others xs (p ∷ rest) others,
            requests-discovery p rest d,
          )
          (loop-requests fuel rest (started ++ received ∷ []) less sr
            ∙ ap (ended end) (append_assoc started (received ∷ []) (requests rest)))
  ]

module _ (env : Env) (host : NodeAddresses) (junk : Junk) (k : IsWorking env)
    (loaded : env.load_host ≡ ok host) where
  discovery_main-loop :
      (inbox : List Bytes)
      → discovery_main env no_faults junk inbox
        ≡ discovery_loop
            (suc (length inbox))
            no_faults
            junk
            (record { nonblocking = false; inbox = inbox })
            []
  unfolding discovery_main receiver_socket receiver_broadcast after_open
  discovery_main-loop inbox = rw (k.socket_works, k.setsockopt_works)

  -- The discovery thread finds every request that reaches it: where the system calls succeed and the
  -- datagrams are packets, sendable and within the buffer, it starts one thread for each of those of the
  -- type DISCOVERY, in the order of their arrival, ignores the others, and waits again. But a datagram
  -- behind them that is no packet ends it with an exception that nothing catches. And in whatever order
  -- `rs` the threads of these requests come, each of them whole and no sender's IP address the broadcast
  -- address, they answer each request once and send nothing else, and then the lookup by each sender's
  -- hostname finds a station.
  pub discovery_main_lem :
      (ps rs : List Packet) (m : Bytes) (e : Exception) (rest : List Bytes) (s : ManagementService)
      (w : World)
      → All IsShort ps
      → IsMalformed junk e m
      → Perm rs (requests ps)
      → All IsUnicast rs
      → let (u, answered) = handle_requests env rs s w in
        (discovery_main env no_faults junk (map text ps) ≡ awaits (requests ps))
        × (discovery_main env no_faults junk (map text ps ++ m ∷ rest) ≡ terminates (requests ps) e)
        × ((answers : List Datagram) × Perm answers (map (answer env host) (requests ps))
            × (answered ≡ ok (record w { sent = w.sent ++ answers })))
        × ((r : Packet)
            → Mem r (requests ps)
            → get_by_hostname r.header.sender_addresses.hostname u ≢ none)
  unfolding get_by_hostname
  discovery_main_lem ps rs m e rest s w shorts malformed order unicast = (
    rw (← (append-nil (map text ps))) (
        discovery_main-loop (map text ps ++ [])
        ∙ loop-requests junk [] none (nothing-ends junk) (suc (length (map text ps ++ []))) ps []
            (omega (arith, length-texts ps [])) shorts),
    discovery_main-loop (map text ps ++ m ∷ rest)
        ∙ loop-requests junk (m ∷ rest) (some e) (λ q. malformed-ends junk e m rest q malformed)
            (suc (length (map text ps ++ m ∷ rest))) ps []
            (omega (arith, length-texts ps (m ∷ rest))) shorts,
    (
      map (answer env host) rs,
      Perm.map (answer env host) order,
      handle_requests_sends env host k loaded rs s w unicast,
    ),
    λ r asked.
        HasHost-of_mem (handle_requests env rs s w).0 r rs
          (handle_requests_registers env host k loaded rs s w unicast)
          ((Perm.mem_iff order).1 asked),
  )
