-- ===== src/Participant.antt =====
-- The participant's side, src/participant.cpp: the exchange with the manager and the message loop.
--
-- The sockets on which an answer is awaited are new ones, and `arrivals` has what reaches them. The
-- handler of SIGINT is `disconnect_to_manager` and the end of the process.
pub mod Exchange
pub mod Ending
pub mod Listening
mod Tests
use sleep_manager.Base.{ℕ, Bool, true, false, List, [], ◌∷◌, Option, none, some, Bytes}
use sleep_manager.Address.{Junk, NodeAddresses}
use sleep_manager.Packet.{Packet, PacketBody, new_body, new_packet, discovery, exit}
use sleep_manager.Socket.{
  Env, World, UdpSenderSocket, broadcast_ip, discovery_manager_port, exit_port,
  wol_participant_port,
}
use sleep_manager.Socket.Udp.{
  Outcome, returns, raises, blocks, ◌>>=◌, lift, Faults, UdpReceiverSocket,
}
use sleep_manager.Socket.Server.{handle_wol, server_socket, server_broadcast}
use sleep_manager.Socket.Client.{Request, client_request, client_broadcast, open_response}
use sleep_manager.Interface.{ParticipantMsg, participant_wakeup, participant_exit}

abbrev pub discovery_body : PacketBody
discovery_body = record (new_body) { body_type = discovery }

abbrev pub exit_body : PacketBody
exit_body = record (new_body) { body_type = exit }

unfoldable pub connect_to_manager :
    Env
    → Faults
    → Junk
    → UdpSenderSocket
    → List (List Bytes)
    → World
    → Outcome (NodeAddresses × World)
connect_to_manager env faults junk client arrivals w = do
  client' ← lift (client_broadcast env true client)
  (q, w') ← lift (client_request env discovery_body broadcast_ip discovery_manager_port w)
  (answer, w'') ← open_response env faults junk q arrivals w'
  client'' ← lift (client_broadcast env false client')
  returns (answer.header.sender_addresses, w'')

unfoldable pub disconnect_to_manager :
    Env → Faults → Junk → Bytes → List (List Bytes) → World → Outcome World
disconnect_to_manager env faults junk manager_ip arrivals w = do
  (q, w') ← lift (client_request env exit_body manager_ip exit_port w)
  (answer, w'') ← open_response env faults junk q arrivals w'
  returns w''

-- `sigint_handler`, with the manager's address as the global variable has it: the exit code.
unfoldable pub interrupt :
    Env → Faults → Junk → Bytes → List (List Bytes) → World → Outcome (ℕ × World)
unfolding disconnect_to_manager
interrupt env faults junk manager_ip arrivals w = do
  w' ← disconnect_to_manager env faults junk manager_ip arrivals w
  returns (130, w')

-- The message loop of `participant_main`, over what `receive` answers: whether it has ended. The
-- switch has no case for a wakeup.
unfoldable pub message_loop : List (Option ParticipantMsg) → Bool
message_loop [] = false
message_loop (none ∷ answers) = true
message_loop (some participant_exit ∷ answers) = true
message_loop (some participant_wakeup ∷ answers) = message_loop answers

-- The loop of `listen_wol`, over the datagrams that arrive: it ends only with an exception.
unfoldable pub wol_loop : Env → Faults → Bool → List Bytes → World → Outcome World
wol_loop env faults nonblocking [] w = do
  (w', r) ←
      handle_wol env faults broadcast_ip wol_participant_port
        (record { nonblocking = nonblocking; inbox = [] }) w
  returns w'
wol_loop env faults nonblocking (message ∷ inbox) w = do
  (w', r) ←
      handle_wol env faults broadcast_ip wol_participant_port
        (record { nonblocking = nonblocking; inbox = message ∷ inbox }) w
  wol_loop env faults r.nonblocking inbox w'

unfoldable pub listen_wol : Env → Faults → List Bytes → World → Outcome World
unfolding wol_loop
listen_wol env faults inbox w = do
  r ← server_socket env faults inbox
  r' ← server_broadcast env r
  wol_loop env faults r'.nonblocking r'.inbox w

-- `participant_main`, behind the start of its threads: the participant connects, and it disconnects
-- if the message loop ends.
unfoldable pub participant_main :
    Env
    → Faults
    → Junk
    → UdpSenderSocket
    → List (List Bytes)
    → List (Option ParticipantMsg)
    → List (List Bytes)
    → World
    → Outcome World
unfolding connect_to_manager disconnect_to_manager message_loop
participant_main env faults junk client arrivals answers later w = do
  (manager, w') ← connect_to_manager env faults junk client arrivals w
  elim (message_loop answers) [
    | true ↦ disconnect_to_manager env faults junk manager.ip later w'
    | false ↦ blocks
  ]
