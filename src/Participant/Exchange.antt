-- ===== src/Participant/Exchange.antt =====
-- How a participant of src/participant.cpp connects to the manager.
use sleep_manager.Base.{
  ℕ, suc, ◌≡◌, ap, Bool, true, false, List, [], ◌∷◌, ◌++◌, append_assoc, Bytes, replicate,
}
use sleep_manager.Exception.{ok}
use sleep_manager.Address.{Junk, NodeAddresses}
use sleep_manager.Packet.{Packet, PacketBody, new_packet, request, discovery}
use sleep_manager.Socket.{
  Env, World, Datagram, UdpSenderSocket, enable_broadcast, broadcast_ip, discovery_manager_port,
  timestamp_of, next_seqn,
}
use sleep_manager.Socket.Udp.{returns, no_faults}
use sleep_manager.Socket.Client.{Request, client_request, request_packet}
use sleep_manager.Socket.Receiving.{text, IsShort, packet_after}
use sleep_manager.Socket.Retries.{
  IsWorking, datagram_of, after_sends, send_request-IsWorking, receive_response_lem,
  open_response-IsWorking,
}
use sleep_manager.Participant.{connect_to_manager, discovery_body}

-- The packet of a request with a body, and the request.
abbrev pub query_packet : Env → NodeAddresses → World → PacketBody → Packet
query_packet env host w body = record {
  header = record {
    seqn = w.global_seqn;
    timestamp = timestamp_of env;
    sender_addresses = host;
    direction = request;
  };
  body = body;
}

abbrev pub query : Env → NodeAddresses → World → PacketBody → Bytes → ℕ → Request
query env host w body ip port = record {
  sent_packet = text (query_packet env host w body);
  dest_ip_address = ip;
  dest_port = port;
}

request_packet-host :
    (env : Env) (host : NodeAddresses) (body : PacketBody) (w : World)
    → env.load_host ≡ ok host
    → request_packet env body w ≡ ok (query_packet env host w body)
unfolding request_packet
request_packet-host env host body w e = rw e

enable_broadcast-IsWorking :
    (env : Env) (enable : Bool) (socket : UdpSenderSocket)
    → IsWorking env
    → enable_broadcast env enable socket ≡ ok (record { broadcast_enabled = enable })
unfolding enable_broadcast
enable_broadcast-IsWorking env enable socket k = rw k.setsockopt_works

pub client_request-IsWorking :
    (env : Env) (host : NodeAddresses) (body : PacketBody) (ip : Bytes) (port : ℕ) (w : World)
    → IsWorking env
    → env.load_host ≡ ok host
    → let q = query env host w body ip port in
      client_request env body ip port w ≡ ok (q, after_sends 1 q (next_seqn w))
unfolding client_request
client_request-IsWorking env host body ip port w k e = rw (
  request_packet-host env host body w e,
  send_request-IsWorking env (query env host w body ip port) (next_seqn w) k,
)

after_sends_again :
    (n : ℕ) (q : Request) (w : World)
    → after_sends n q (after_sends 1 q w) ≡ after_sends (suc n) q w
after_sends_again n q w =
    ap (λ (s : List Datagram). record w { sent = s })
      (append_assoc w.sent (datagram_of q ∷ []) (replicate n (datagram_of q)))

-- Where the system calls succeed, a participant connects with the first DISCOVERY packet that comes:
-- after `n` attempts that find nothing and the packet `p`, sendable and within the buffer, it has the addresses of `p`'s sender, as
-- far as they come over, and it has sent its broadcast `n + 1` times.
pub connect_to_manager_lem :
    (env : Env) (junk : Junk) (host : NodeAddresses) (client : UdpSenderSocket) (n : ℕ) (p : Packet)
    (rest : List (List Bytes)) (w : World)
    → IsWorking env
    → env.load_host ≡ ok host
    → IsShort p
    → p.body.body_type ≡ discovery
    → let q = query env host w discovery_body broadcast_ip discovery_manager_port in
      connect_to_manager env no_faults junk client (replicate n [] ++ (text p ∷ []) ∷ rest) w
      ≡ returns
          ((packet_after p new_packet).header.sender_addresses, after_sends (suc n) q (next_seqn w))
unfolding connect_to_manager
connect_to_manager_lem env junk host client n p rest w k e s t =
    let q = query env host w discovery_body broadcast_ip discovery_manager_port in
    rw
      (
        enable_broadcast-IsWorking env true client k,
        client_request-IsWorking env host discovery_body broadcast_ip discovery_manager_port w k e,
        open_response-IsWorking env junk q (replicate n [] ++ (text p ∷ []) ∷ rest)
            (after_sends 1 q (next_seqn w)) k,
        receive_response_lem env junk q n p new_packet false rest (after_sends 1 q (next_seqn w)) k
            s t,
        enable_broadcast-IsWorking env false (record { broadcast_enabled = true }) k,
      )
      (ap (λ (v : World). returns ((packet_after p new_packet).header.sender_addresses, v))
        (after_sends_again n q (next_seqn w)))
