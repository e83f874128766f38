-- ===== src/Participant/Ending.antt =====
-- How the participant of src/participant.cpp disconnects from the manager.
use sleep_manager.Base.{
  ℕ, suc, ◌≡◌, refl, Bool, true, false, List, [], ◌∷◌, ◌++◌, map, Option, none, some, Bytes, All,
  replicate,
}
use sleep_manager.Exception.{ok}
use sleep_manager.Address.{Junk, NodeAddresses}
use sleep_manager.Packet.{Packet, new_packet, discovery}
use sleep_manager.Socket.{
  Env, World, UdpSenderSocket, broadcast_ip, discovery_manager_port, exit_port, next_seqn,
}
use sleep_manager.Socket.Udp.{blocks, no_faults}
use sleep_manager.Socket.Client.{Request, receive_response}
use sleep_manager.Socket.Receiving.{text, IsShort, IsOther, packet_after, try_receive_packet-text}
use sleep_manager.Socket.Retries.{
  IsWorking, after_sends, send_request-IsWorking, try_receive_packet-empty, open_response-IsWorking,
}
use sleep_manager.Participant.{
  disconnect_to_manager, interrupt, message_loop, participant_main, discovery_body, exit_body,
}
use sleep_manager.Interface.{ParticipantMsg}
use sleep_manager.Participant.Exchange.{query, client_request-IsWorking, connect_to_manager_lem}

-- What reaches the socket before an attempt: nothing, or a packet.
abbrev pub batch : Option Packet → List Bytes
batch none = []
batch (some p) = text p ∷ []

abbrev IsOtherOrNone : Option Packet → Type 0
IsOtherOrNone none = Unit
IsOtherOrNone (some p) = IsOther p

receive_response-others :
    (env : Env) (junk : Junk) (q : Request) (ps : List (Option Packet)) (packet : Packet) (b : Bool)
    (w : World)
    → IsWorking env
    → All IsOtherOrNone ps
    → receive_response env no_faults junk q packet
        (record { nonblocking = b; inbox = [] })
        (map batch ps)
        w
      ≡ blocks
unfolding receive_response
receive_response-others env junk q [] packet b w k _ = refl
receive_response-others env junk q (none ∷ ps) packet b w k (_, h) =
    rw (try_receive_packet-empty junk packet b, send_request-IsWorking env q w k)
      (receive_response-others env junk q ps packet true (after_sends 1 q w) k h)
receive_response-others env junk q (some p ∷ ps) packet b w k ((s, o), h) =
    rw (try_receive_packet-text junk p packet b [] s, o, send_request-IsWorking env q w k)
      (receive_response-others env junk q ps (packet_after p packet) b (after_sends 1 q w) k h)

disconnect_to_manager-others :
    (env : Env) (junk : Junk) (host : NodeAddresses) (manager_ip : Bytes)
    (ps : List (Option Packet)) (w : World)
    → IsWorking env
    → env.load_host ≡ ok host
    → All IsOtherOrNone ps
    → disconnect_to_manager env no_faults junk manager_ip (map batch ps) w ≡ blocks
unfolding disconnect_to_manager
disconnect_to_manager-others env junk host manager_ip ps w k e h =
    let q = query env host w exit_body manager_ip exit_port in
    rw (
      client_request-IsWorking env host exit_body manager_ip exit_port w k e,
      open_response-IsWorking env junk q (map batch ps) (after_sends 1 q (next_seqn w)) k,
      receive_response-others env junk q ps new_packet false (after_sends 1 q (next_seqn w)) k h,
    )

interrupt-others :
    (env : Env) (junk : Junk) (host : NodeAddresses) (manager_ip : Bytes)
    (ps : List (Option Packet)) (w : World)
    → IsWorking env
    → env.load_host ≡ ok host
    → All IsOtherOrNone ps
    → interrupt env no_faults junk manager_ip (map batch ps) w ≡ blocks
unfolding interrupt
interrupt-others env junk host manager_ip ps w k e h =
    rw (disconnect_to_manager-others env junk host manager_ip ps w k e h)

participant-others :
    (env : Env) (junk : Junk) (host : NodeAddresses) (manager_ip : Bytes)
    (ps : List (Option Packet)) (w : World)
    → IsWorking env
    → env.load_host ≡ ok host
    → All IsOtherOrNone ps
    → (ended : Bool)
    → elim ended [
      | true ↦ disconnect_to_manager env no_faults junk manager_ip (map batch ps) w
      | false ↦ blocks
    ]
      ≡ blocks
participant-others env junk host manager_ip ps w k e h true =
    disconnect_to_manager-others env junk host manager_ip ps w k e h
participant-others env junk host manager_ip ps w k e h false = refl

-- A participant that exits waits for ever: where the system calls succeed, it connects after `n`
-- attempts that find nothing and the DISCOVERY packet `p`, sendable and within the buffer, and whatever
-- `answers` its message loop receives then, an `exit` included, `participant_main` does not return; nor
-- does the handler of SIGINT, whatever address of the manager it has. For this, nothing but sendable
-- packets that fit the buffer arrives at the wait for the answer of the EXIT request, one at most
-- before each attempt, and none of them is of the type DISCOVERY.
pub participant_main_blocks :
    (env : Env) (junk : Junk) (host : NodeAddresses) (client : UdpSenderSocket) (n : ℕ) (p : Packet)
    (rest : List (List Bytes)) (answers : List (Option ParticipantMsg)) (manager_ip : Bytes)
    (ps : List (Option Packet)) (w : World)
    → IsWorking env
    → env.load_host ≡ ok host
    → IsShort p
    → p.body.body_type ≡ discovery
    → All IsOtherOrNone ps
    → (participant_main env no_faults junk client
          (replicate n [] ++ (text p ∷ []) ∷ rest)
          answers
          (map batch ps)
          w
        ≡ blocks)
      × (interrupt env no_faults junk manager_ip (map batch ps) w ≡ blocks)
unfolding participant_main
participant_main_blocks env junk host client n p rest answers manager_ip ps w k e s t h =
    let q = query env host w discovery_body broadcast_ip discovery_manager_port in
    let connected = after_sends (suc n) q (next_seqn w) in
    let manager = (packet_after p new_packet).header.sender_addresses in
    (
      rw (connect_to_manager_lem env junk host client n p rest w k e s t)
          (participant-others env junk host manager.ip ps connected k e h (message_loop answers)),
      interrupt-others env junk host manager_ip ps w k e h,
    )
