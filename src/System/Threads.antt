-- ===== src/System/Threads.antt =====
-- The manager of src/manager.cpp with its threads taken apart: the discovery thread of
-- src/discovery.cpp and the thread of each request, the monitoring thread of src/monitoring.cpp, and
-- the two threads of src/interface.cpp.
--
-- A step is one access to what the threads share: a call of the table, the lookup or the write of a
-- status report or a wakeup, the call of one handler, one message, one row of a rendering. The
-- call of a handler may come late, also where the code holds the lock of the table until then, and
-- several reports and lines may be under way, so there are more runs here than the program has. What
-- ends the process is no step: an exception that leaves a thread, and a null pointer that a round of the
-- monitoring or a rendering goes through. So a rendering that stands before a null pointer has no
-- further step. Nor is the first part of a round of the monitoring, which only sends, a step.
pub mod Screen
pub mod Writes
pub mod Rendering
pub mod Moves
pub mod Shown
pub mod Messages
pub mod Progress
pub mod Settled
mod Tests
use sleep_manager.Base.{
  ℕ, ◌≡◌, ◌≢◌, false, List, [], ◌∷◌, ◌++◌, Option, none, some, Bytes, length, drop, codes, bytes_eq,
  if◌then◌else◌,
}
use sleep_manager.Exception.{ok}
use sleep_manager.Address.{Junk}
use sleep_manager.WorkStation.{WorkStation, Status, disconnected, awaken}
use sleep_manager.Packet.{Packet}
use sleep_manager.Channel.{Mpsc, message, receive_pass}
use sleep_manager.Management.{
  ManagementService, ManagementEvent, new_service, new_station, insert, get_by_hostname,
  get_by_mac_address, remove_by_mac_address, participant_list,
}
use sleep_manager.Management.Threads.{Pending, updating, waking, advance, found}
use sleep_manager.Text.Stream.{is_nil}
use sleep_manager.Socket.{Env, World, discovery_participant_port}
use sleep_manager.Socket.Udp.{returns, Faults, UdpReceiverSocket}
use sleep_manager.Socket.Server.{server_receive, server_try_receive, respond}
use sleep_manager.Socket.Client.{Request, open_bounded}
use sleep_manager.Monitoring.{status_from, max_retries}
use sleep_manager.Interface.{ManagerIfaceMsg, manager_iface_refresh, split_line}
use sleep_manager.Interface.Session.{Session, on_event, input_ends, start_session}

-- What the thread of a request has left to do in `discovery_response`.
pub data Handler : Type 0 where
  making : Packet → Handler
  inserting : Packet → ℕ → Handler
  responding : Packet → Handler

-- Where the thread of the interface stands: it waits for a message, is about to read the list of the
-- participants, or renders them, with the pointers that are left and the rows so far.
pub data Drawing : Type 0 where
  idle : Drawing
  fetching : Drawing
  drawing : List (Option ℕ) → List WorkStation → Drawing

-- `notices` are the calls of handlers that are not made yet.
pub record Process : Type 0 where
  pub session : Session
  pub notices : List (ℕ × ManagementEvent)
  pub drawing : Drawing
  pub pending : List Pending
  pub handlers : List Handler
  pub discovery : UdpReceiverSocket
  pub exits : UdpReceiverSocket
  pub world : World

-- The table becomes `t`; the handlers that this calls are still to be called.
unfoldable pub table_moves : ManagementService → Process → Process
table_moves t x = record x {
  session = record (x.session) { table = t };
  notices = x.notices ++ drop (length x.session.table.calls) t.calls;
}

-- The station that a line wakes up: the lookup of `wakeup`.
unfoldable pub looks_up : Bytes → ManagementService → Option ℕ
looks_up line s =
    let (command, argument) = split_line line in
    if bytes_eq command (codes "WAKEUP")
    then (if is_nil argument then none else get_by_hostname argument s)
    else none

-- The station for the sender of a request.
abbrev pub made : Packet → ManagementService → ManagementService × ℕ
made received s = new_station received.header.sender_addresses awaken s

pub data Step (h : ℕ) (env : Env) (faults : Faults) (junk : Junk) : Process → Process → Type 0 where
  arrives :
      (x : Process) (discovery exits : List Bytes)
      → Step h env faults junk x (record x {
        discovery = record (x.discovery) { inbox = x.discovery.inbox ++ discovery };
        exits = record (x.exits) { inbox = x.exits.inbox ++ exits };
      })
  receives :
      (x : Process) (received : Packet) (r : UdpReceiverSocket)
      → server_receive faults junk x.discovery ≡ returns (received, r)
      → Step h env faults junk x
          (record x { discovery = r; handlers = making received ∷ x.handlers })
  makes :
      (x : Process) (us vs : List Handler) (received : Packet)
      → x.handlers ≡ us ++ making received ∷ vs
      → Step h env faults junk x (record (table_moves (made received x.session.table).0 x) {
        handlers = us ++ inserting received (made received x.session.table).1 ∷ vs;
      })
  inserts :
      (x : Process) (us vs : List Handler) (received : Packet) (p : ℕ)
      → x.handlers ≡ us ++ inserting received p ∷ vs
      → Step h env faults junk x (record (table_moves (insert p x.session.table).0 x) {
        handlers = us ++ responding received ∷ vs;
      })
  responds :
      (x : Process) (us vs : List Handler) (received : Packet) (w : World)
      → x.handlers ≡ us ++ responding received ∷ vs
      → respond env discovery_participant_port received x.world ≡ ok w
      → Step h env faults junk x (record x { handlers = us ++ vs; world = w })
  reports :
      (x : Process) (junk_status : Status) (mac : Bytes) (q : Request)
      (arrivals : List (List Bytes)) (answer : Option Packet) (w : World)
      → junk_status ≢ disconnected
      → open_bounded env faults junk q max_retries arrivals x.world ≡ returns (answer, w)
      → Step h env faults junk x (record x {
        pending =
            found
              (get_by_mac_address mac x.session.table)
              (λ p. updating p (status_from junk_status answer))
            ++ x.pending;
        world = w;
      })
  commands :
      (x : Process) (line : Bytes)
      → Step h env faults junk x
          (record x { pending = found (looks_up line x.session.table) waking ++ x.pending })
  moves :
      (x : Process) (us vs : List Pending) (t : Pending)
      → x.pending ≡ us ++ t ∷ vs
      → Step h env faults junk x (record (table_moves (advance t x.session.table).0 x) {
        pending = us ++ ((advance t x.session.table).1 ++ vs);
      })
  leaves :
      (x : Process) (packet : Packet) (r : UdpReceiverSocket)
      → server_try_receive faults junk x.exits ≡ returns (some packet, r)
      → Step h env faults junk x
          (record (table_moves
            (remove_by_mac_address packet.header.sender_addresses.mac x.session.table).0
            x) { exits = r })
  nobody_leaves :
      (x : Process) (r : UdpReceiverSocket)
      → server_try_receive faults junk x.exits ≡ returns (none, r)
      → Step h env faults junk x (record x { exits = r })
  tells :
      (x : Process) (us vs : List (ℕ × ManagementEvent)) (j : ℕ) (e : ManagementEvent)
      → x.notices ≡ us ++ (j, e) ∷ vs
      → Step h env faults junk x (record x {
        session = record (x.session) { channel = on_event h j x.session.channel };
        notices = us ++ vs;
      })
  input_is_over :
      (x : Process)
      → x.session.input_over ≡ false
      → Step h env faults junk x (record x { session = input_ends x.session })
  takes :
      (x : Process) (c : Mpsc ManagerIfaceMsg)
      → x.drawing ≡ idle
      → receive_pass x.session.channel ≡ (c, message manager_iface_refresh)
      → Step h env faults junk x
          (record x { session = record (x.session) { channel = c }; drawing = fetching })
  fetches :
      (x : Process)
      → x.drawing ≡ fetching
      → Step h env faults junk x
          (record x { drawing = drawing (participant_list x.session.table) [] })
  draws :
      (x : Process) (p : ℕ) (ps : List (Option ℕ)) (rows : List WorkStation)
      → x.drawing ≡ drawing (some p ∷ ps) rows
      → Step h env faults junk x
          (record x { drawing = drawing ps (rows ++ x.session.table.cell p ∷ []) })
  shows :
      (x : Process) (rows : List WorkStation)
      → x.drawing ≡ drawing [] rows
      → Step h env faults junk x
          (record x { session = record (x.session) { screen = rows }; drawing = idle })

pub data Reach (h : ℕ) (env : Env) (faults : Faults) (junk : Junk) (x : Process)
    : Process → Type 0 where
  here : Reach h env faults junk x x
  next :
      {y z : Process}
      → Reach h env faults junk x y
      → Step h env faults junk y z
      → Reach h env faults junk x z

-- The manager before its first rendering, with sockets on which nothing has arrived.
unfoldable pub start_process : ℕ → ℕ → (ℕ → WorkStation) → World → Process
unfolding start_session
start_process h first cell w = record {
  session = start_session h (new_service first cell);
  notices = [];
  drawing = fetching;
  pending = [];
  handlers = [];
  discovery = record { nonblocking = false; inbox = [] };
  exits = record { nonblocking = false; inbox = [] };
  world = w;
}
