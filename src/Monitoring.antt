-- ===== src/Monitoring.antt =====
-- The loop that watches the participants, src/monitoring.cpp.
--
-- A round has three parts: status requests to all participants, status reports from the answers, and
-- the removal of the participants that exit. `sleep_status` is never assigned where an answer is
-- there, so its value there is an unknown status, `junk_status`.
pub mod Round
pub mod Exits
mod Tests
use sleep_manager.Base.{
  ℕ, zero, suc, Bool, true, false, List, [], ◌∷◌, ◌++◌, Option, none, some, Bytes,
}
use sleep_manager.Exception.{Result, ok, throws}
use sleep_manager.Address.{Junk}
use sleep_manager.WorkStation.{Status, asleep}
use sleep_manager.Packet.{Packet, PacketBody, new_body, sleep_status_type}
use sleep_manager.Management.{
  ManagementService, participant_list, update_sleep_status, remove_by_mac_address,
}
use sleep_manager.Socket.{Env, World, sleep_status_port}
use sleep_manager.Socket.Udp.{
  Outcome, returns, raises, blocks, ◌>>=◌, lift, Faults, UdpReceiverSocket,
}
use sleep_manager.Socket.Server.{server_try_receive}
use sleep_manager.Socket.Client.{Request, client_request, open_bounded}

-- `dereferences_null` is the undefined behaviour of `participant->addresses()` at a null pointer.
pub data Polled {ℓ} (A : Type ℓ) : Type ℓ where
  polled : A → Polled A
  dereferences_null : Polled A
  throws_out : Polled A
  blocks_for_ever : Polled A

abbrev status_body : PacketBody
status_body = record (new_body) { body_type = sleep_status_type }

poll_rest :
    (Bytes × Request)
    → Polled (List (Bytes × Request) × World)
    → Polled (List (Bytes × Request) × World)
poll_rest entry (polled (requests, w)) = polled (entry ∷ requests, w)
poll_rest entry dereferences_null = dereferences_null
poll_rest entry throws_out = throws_out
poll_rest entry blocks_for_ever = blocks_for_ever

-- The first loop, over the participants that are left: the requests with their MAC addresses.
unfoldable pub poll :
    Env → ManagementService → List (Option ℕ) → World → Polled (List (Bytes × Request) × World)
unfolding poll_rest
poll env s [] w = polled ([], w)
poll env s (none ∷ ps) w = dereferences_null
poll env s (some p ∷ ps) w =
    let a = (s.cell p).addresses in
    elim (client_request env status_body a.ip sleep_status_port w) [
      | throws e ↦ throws_out
      | ok (q, w') ↦ poll_rest (a.mac, q) (poll env s ps w')
    ]

abbrev pub max_retries : ℕ
max_retries = 3

-- `if (maybe_packet.has_value()) { } else { sleep_status = ASLEEP; }`.
abbrev pub status_from : Status → Option Packet → Status
status_from junk_status (some packet) = junk_status
status_from junk_status none = asleep

-- One pass of the second loop, for a request and the arrivals on its socket.
unfoldable pub report :
    Env
    → Faults
    → Junk
    → Status
    → (Bytes × Request)
    → List (List Bytes)
    → ManagementService
    → World
    → Outcome (ManagementService × World)
report env faults junk junk_status (mac, q) arrivals s w = do
  (maybe_packet, w') ← open_bounded env faults junk q max_retries arrivals w
  returns ((update_sleep_status mac (status_from junk_status maybe_packet) s).0, w')

-- The third loop, over the datagrams of the inbox: it ends when there is none left.
unfoldable pub exits :
    Faults
    → Junk
    → Bool
    → List Bytes
    → ManagementService
    → Outcome (ManagementService × UdpReceiverSocket)
exits faults junk nonblocking [] s = do
  (request, r) ← server_try_receive faults junk (record { nonblocking = nonblocking; inbox = [] })
  returns (s, r)
exits faults junk nonblocking (message ∷ inbox) s = do
  (request, r) ←
      server_try_receive faults junk (record { nonblocking = nonblocking; inbox = message ∷ inbox })
  elim request [
    | none ↦ returns (s, r)
    | some packet ↦
        exits faults junk r.nonblocking inbox
          (remove_by_mac_address packet.header.sender_addresses.mac s).0
  ]

-- The first part of a round.
unfoldable pub poll_participants :
    Env → ManagementService → World → Polled (List (Bytes × Request) × World)
poll_participants env s w = poll env s (participant_list s) w

-- What has arrived for the request at hand, and for the requests behind it.
abbrev head_of : List (List (List Bytes)) → List (List Bytes)
head_of [] = []
head_of (arrivals ∷ more) = arrivals

abbrev tail_of : List (List (List Bytes)) → List (List (List Bytes))
tail_of [] = []
tail_of (arrivals ∷ more) = more

-- The second part of a round.
unfoldable pub reports :
    Env
    → Faults
    → Junk
    → Status
    → List (Bytes × Request)
    → List (List (List Bytes))
    → ManagementService
    → World
    → Outcome (ManagementService × World)
unfolding report
reports env faults junk junk_status [] arrivals s w = returns (s, w)
reports env faults junk junk_status (q ∷ qs) arrivals s w = do
  (s', w') ← report env faults junk junk_status q (head_of arrivals) s w
  reports env faults junk junk_status qs (tail_of arrivals) s' w'

behind_poll : {A : Type 0} → Outcome A → Polled A
behind_poll (returns a) = polled a
behind_poll (raises e) = throws_out
behind_poll blocks = blocks_for_ever

rest_of_round :
    Env
    → Faults
    → Junk
    → Status
    → List (List (List Bytes))
    → UdpReceiverSocket
    → ManagementService
    → List (Bytes × Request)
    → World
    → Outcome (ManagementService × World × UdpReceiverSocket)
unfolding reports exits
rest_of_round env faults junk junk_status arrivals r s requests w = do
  (s', w') ← reports env faults junk junk_status requests arrivals s w
  (s'', r') ← exits faults junk r.nonblocking r.inbox s'
  returns (s'', w', r')

-- A round of the loop in `monitoring_main`, on the socket for the exits, `r`.
unfoldable pub monitoring_round :
    Env
    → Faults
    → Junk
    → Status
    → List (List (List Bytes))
    → UdpReceiverSocket
    → ManagementService
    → World
    → Polled (ManagementService × World × UdpReceiverSocket)
unfolding poll_participants behind_poll rest_of_round
monitoring_round env faults junk junk_status arrivals r s w = elim (poll_participants env s w) [
  | polled (requests, w') ↦
      behind_poll (rest_of_round env faults junk junk_status arrivals r s requests w')
  | dereferences_null ↦ dereferences_null
  | throws_out ↦ throws_out
  | blocks_for_ever ↦ blocks_for_ever
]
