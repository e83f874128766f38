-- ===== src/Discovery.antt =====
-- The manager's answer to a participant that looks for it, src/discovery.cpp.
--
-- The loop starts a thread for each request and detaches it, so that no order of the threads is given:
-- `discovery_loop` comes to the requests whose threads it has started, and `handle_requests` is those
-- threads in some order, each as one step; smaller steps are in System/Threads. The table is changed
-- before the answer is sent, also where the sending throws.
pub mod Registration
pub mod Requests
pub mod Answering
pub mod Serving
pub mod Fuel
mod Tests
use sleep_manager.Base.{ℕ, zero, suc, Bool, true, false, List, [], ◌∷◌, ◌++◌, Bytes, length}
use sleep_manager.Exception.{Exception, Result, ok, throws}
use sleep_manager.Address.{Junk}
use sleep_manager.WorkStation.{awaken}
use sleep_manager.Packet.{Packet}
use sleep_manager.Management.{ManagementService, new_station, insert}
use sleep_manager.Socket.{Env, World, discovery_participant_port}
use sleep_manager.Socket.Udp.{Outcome, returns, raises, blocks, ◌>>=◌, Faults, UdpReceiverSocket}
use sleep_manager.Socket.Server.{server_receive, respond, server_socket, server_broadcast}

-- The table with a station for the sender of the packet.
unfoldable pub register : Packet → ManagementService → ManagementService
register received s =
    let (s', p) = new_station received.header.sender_addresses awaken s in (insert p s').0

unfoldable pub discovery_response :
    Env → Packet → ManagementService → World → ManagementService × Result World
unfolding register
discovery_response env received s w =
    (register received s, respond env discovery_participant_port received w)

-- One round of the loop in `discovery_main`, with the thread that it starts.
unfoldable pub discovery_round :
    Env
    → Faults
    → Junk
    → UdpReceiverSocket
    → ManagementService
    → World
    → Outcome ((ManagementService × Result World) × UdpReceiverSocket)
unfolding discovery_response
discovery_round env faults junk r s w = do
  (received, r') ← server_receive faults junk r
  returns (discovery_response env received s w, r')

-- The threads of the requests, in the order of the list. An exception that leaves one ends the process.
unfoldable pub handle_requests :
    Env → List Packet → ManagementService → World → ManagementService × Result World
unfolding discovery_response
handle_requests env [] s w = (s, ok w)
handle_requests env (received ∷ later) s w =
    let (s', answered) = discovery_response env received s w in
    elim answered [ throws e ↦ (s', throws e) | ok w' ↦ handle_requests env later s' w' ]

-- What the loop comes to, with the requests whose threads it has started, in the order of arrival: it
-- waits for a datagram, or an exception leaves it, and nothing catches it.
pub data Served : Type 0 where
  awaits : List Packet → Served
  terminates : List Packet → Exception → Served
  out_of_fuel : Served

unfoldable pub discovery_loop : ℕ → Faults → Junk → UdpReceiverSocket → List Packet → Served
discovery_loop zero faults junk r started = out_of_fuel
discovery_loop (suc fuel) faults junk r started = elim (server_receive faults junk r) [
  | blocks ↦ awaits started
  | raises e ↦ terminates started e
  | returns (received, r') ↦ discovery_loop fuel faults junk r' (started ++ received ∷ [])
]

after_open : Faults → Junk → Outcome UdpReceiverSocket → Served
unfolding discovery_loop
after_open faults junk (returns r) = discovery_loop (suc (length r.inbox)) faults junk r []
after_open faults junk (raises e) = terminates [] e
after_open faults junk blocks = awaits []

-- `discovery_main`, over the datagrams that arrive. Each receive that returns takes one at least, so
-- one round more than there are datagrams is enough.
unfoldable pub discovery_main : Env → Faults → Junk → List Bytes → Served
unfolding after_open
discovery_main env faults junk inbox =
    after_open faults junk (server_socket env faults inbox >>= λ r. server_broadcast env r)
