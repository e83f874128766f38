-- ===== src/Socket/Client.antt =====
-- The class ClientSocket of src/socket.cpp.
--
-- The retry loops receive over a list of arrivals: the datagrams that reach the socket before each
-- attempt. The sleep between two attempts has no other effect.
use sleep_manager.Base.{
  ℕ, zero, suc, Bool, true, false, List, [], ◌∷◌, ◌++◌, Option, some, Bytes, bytes_eq,
  if◌then◌else◌,
}
use sleep_manager.Exception.{Result, ok, ◌>>=◌ as bind}
use sleep_manager.Address.{Junk}
use sleep_manager.Packet.{Packet, new_packet, PacketBody, request, serialize}
use sleep_manager.Packet.Serializer.{empty_serializer, finish}
use sleep_manager.Socket.{
  Env, World, UdpSenderSocket, sender_socket, enable_broadcast, send_string, timestamp_of,
  next_seqn, broadcast_ip,
}
use sleep_manager.Socket.Udp.{
  Outcome, returns, blocks, ◌>>=◌, lift, Faults, UdpReceiverSocket, receiver_socket,
  try_receive_packet,
}

pub record Request : Type 0 where
  pub sent_packet : Bytes
  pub dest_ip_address : Bytes
  pub dest_port : ℕ

-- `ClientSocket::enable_broadcast`.
abbrev pub client_broadcast : Env → Bool → UdpSenderSocket → Result UdpSenderSocket
client_broadcast env enable udp = enable_broadcast env enable udp

-- Broadcast is enabled for the broadcast address.
unfoldable pub prepare_socket : Env → Bytes → UdpSenderSocket → Result UdpSenderSocket
prepare_socket env ip socket =
    if bytes_eq ip broadcast_ip then enable_broadcast env true socket else ok socket

-- `Request::send`, on a new socket.
unfoldable pub send_request : Env → Request → World → Result World
send_request env q w = bind (sender_socket env) λ fresh.
    bind (prepare_socket env q.dest_ip_address fresh)
      λ socket. send_string env socket q.sent_packet q.dest_ip_address q.dest_port w

-- The packet that `request` makes.
unfoldable pub request_packet : Env → PacketBody → World → Result Packet
request_packet env body w = bind env.load_host λ a. ok (record {
  header = record {
    seqn = w.global_seqn;
    timestamp = timestamp_of env;
    sender_addresses = a;
    direction = request;
  };
  body = body;
})

unfoldable pub client_request : Env → PacketBody → Bytes → ℕ → World → Result (Request × World)
client_request env body ip port w = bind (request_packet env body w) λ packet.
    let q : Request = record {
      sent_packet = finish (serialize packet empty_serializer);
      dest_ip_address = ip;
      dest_port = port;
    } in
    bind (send_request env q (next_seqn w)) λ w'. ok (q, w')

abbrev pub arrive : List Bytes → UdpReceiverSocket → UdpReceiverSocket
arrive messages r = record r { inbox = r.inbox ++ messages }

-- `read.has_value() && read.value()`.
abbrev pub is_recognised : Option Bool → Bool
is_recognised (some true) = true
is_recognised _ = false

-- `receive_bounded`: the packet, and the state of the world. The bound falls with each attempt
-- that fails, and the packet is returned in every case.
unfoldable pub receive_bounded :
    Env
    → Faults
    → Junk
    → Request
    → ℕ
    → Packet
    → UdpReceiverSocket
    → List (List Bytes)
    → World
    → Outcome (Option Packet × World)
receive_bounded env faults junk q zero packet r arrivals w = returns (some packet, w)
receive_bounded env faults junk q (suc bound) packet r [] w = do
  (p, read, r') ← try_receive_packet faults junk packet r
  elim (is_recognised read) [
    | true ↦ returns (some p, w)
    | false ↦ lift (send_request env q w) >>= receive_bounded env faults junk q bound p r' []
  ]
receive_bounded env faults junk q (suc bound) packet r (messages ∷ arrivals) w = do
  (p, read, r') ← try_receive_packet faults junk packet (arrive messages r)
  elim (is_recognised read) [
    | true ↦ returns (some p, w)
    | false ↦ lift (send_request env q w) >>= receive_bounded env faults junk q bound p r' arrivals
  ]

-- `receive_response`: as long as no packet is recognised the request is sent again. It blocks if the
-- arrivals come to an end before.
unfoldable pub receive_response :
    Env
    → Faults
    → Junk
    → Request
    → Packet
    → UdpReceiverSocket
    → List (List Bytes)
    → World
    → Outcome (Packet × World)
receive_response env faults junk q packet r [] w = blocks
receive_response env faults junk q packet r (messages ∷ arrivals) w = do
  (p, read, r') ← try_receive_packet faults junk packet (arrive messages r)
  elim (is_recognised read) [
    | true ↦ returns (p, w)
    | false ↦ lift (send_request env q w) >>= receive_response env faults junk q p r' arrivals
  ]

-- `Request::receive_bounded` and `Request::receive_response`: a new socket, and the loop on it.
unfoldable pub open_bounded :
    Env → Faults → Junk → Request → ℕ → List (List Bytes) → World → Outcome (Option Packet × World)
unfolding receiver_socket receive_bounded
open_bounded env faults junk q retry_bound arrivals w = do
  r ← receiver_socket env faults []
  receive_bounded env faults junk q retry_bound new_packet r arrivals w

unfoldable pub open_response :
    Env → Faults → Junk → Request → List (List Bytes) → World → Outcome (Packet × World)
unfolding receiver_socket receive_response
open_response env faults junk q arrivals w = do
  r ← receiver_socket env faults []
  receive_response env faults junk q new_packet r arrivals w
