-- ===== src/Socket/Server.antt =====
-- The class ServerSocket of src/socket.cpp.
use sleep_manager.Base.{
  ℕ, Bool, true, false, List, [], ◌∷◌, Option, none, some, Bytes, codes, length, ◌==◌,
  if◌then◌else◌,
}
use sleep_manager.Exception.{Result, ok, throws, ◌>>=◌ as bind, invalid_packet}
use sleep_manager.Address.{Junk}
use sleep_manager.Packet.{Packet, PacketHeader, PacketBody, new_packet, response, wol, new_body}
use sleep_manager.Socket.{Env, World, sender_socket, send_packet, timestamp_of, next_seqn}
use sleep_manager.Socket.Udp.{
  Outcome, returns, ◌>>=◌, lift, Faults, UdpReceiverSocket, receiver_socket, receiver_broadcast,
  receive_packet, try_receive_packet, receive_bytes,
}

-- The constructor of a ServerSocket, and its `enable_broadcast`.
abbrev pub server_socket : Env → Faults → List Bytes → Outcome UdpReceiverSocket
server_socket env faults inbox = receiver_socket env faults inbox

abbrev pub server_broadcast : Env → UdpReceiverSocket → Outcome UdpReceiverSocket
server_broadcast env r = receiver_broadcast env r

-- The loop of `receive`, over the datagrams of the inbox: each pass takes one, and the pass on the
-- empty inbox ends the loop one way or another.
unfoldable pub receive_loop :
    Faults → Junk → Packet → Bool → List Bytes → Outcome (Packet × UdpReceiverSocket)
receive_loop faults junk packet nonblocking [] = do
  (p, recognised, r) ←
      receive_packet faults junk packet (record { nonblocking = nonblocking; inbox = [] })
  returns (p, r)
receive_loop faults junk packet nonblocking (message ∷ inbox) = do
  (p, recognised, r) ←
      receive_packet faults junk packet
        (record { nonblocking = nonblocking; inbox = message ∷ inbox })
  elim recognised [ true ↦ returns (p, r) | false ↦ receive_loop faults junk p r.nonblocking inbox ]

-- `receive`: the received packet of the request.
unfoldable pub server_receive :
    Faults → Junk → UdpReceiverSocket → Outcome (Packet × UdpReceiverSocket)
unfolding receive_loop
server_receive faults junk r = receive_loop faults junk new_packet r.nonblocking r.inbox

-- `if (this->udp.try_receive(packet))` asks whether there was a packet, not whether it was
-- recognised.
request_of : Packet → Option Bool → Option Packet
request_of packet none = none
request_of packet (some recognised) = some packet

unfoldable pub server_try_receive :
    Faults → Junk → UdpReceiverSocket → Outcome (Option Packet × UdpReceiverSocket)
unfolding request_of
server_try_receive faults junk r = do
  (p, read, r') ← try_receive_packet faults junk new_packet r
  returns (request_of p read, r')

-- A header with the host's addresses and the current time.
abbrev stamped : Env → PacketHeader → Result PacketHeader
stamped env h =
    bind env.load_host λ a.
      ok (record h { direction = response; sender_addresses = a; timestamp = timestamp_of env })

-- `Request::respond(PacketBody, uint16_t)`.
unfoldable respond_with : Env → PacketBody → ℕ → Packet → World → Result World
respond_with env body port received w = bind (stamped env received.header) λ h.
    bind (sender_socket env) λ socket.
      send_packet env socket (record { header = h; body = body })
        received.header.sender_addresses.ip port w

-- `Request::respond(uint16_t)`.
unfoldable pub respond : Env → ℕ → Packet → World → Result World
unfolding respond_with
respond env port received w = respond_with env received.body port received w

abbrev pub magic_size : ℕ
magic_size = 102

-- `handle_wol`, after the datagram was read.
unfoldable pub answer_wol : Env → Bytes → ℕ → Bytes → World → Result World
answer_wol env ip port message w =
    if length message == magic_size
    then (bind (stamped env (record (new_packet.header) { seqn = w.global_seqn })) λ h.
        bind (sender_socket env) λ socket.
          send_packet env socket
            (record { header = h; body = record (new_body) { body_type = wol } }) ip port
            (next_seqn w))
    else throws (invalid_packet (codes "WOL packet must have length 6 * 17"))

unfoldable pub handle_wol :
    Env → Faults → Bytes → ℕ → UdpReceiverSocket → World → Outcome (World × UdpReceiverSocket)
handle_wol env faults ip port r w = do
  (message, r') ← receive_bytes faults magic_size r
  w' ← lift (answer_wol env ip port message w)
  returns (w', r')
