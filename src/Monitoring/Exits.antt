-- ===== src/Monitoring/Exits.antt =====
-- The removal of participants that exit, src/monitoring.cpp.
use sleep_manager.Base.{◌≡◌, ◌≢◌, ◌⊎◌, inl, inr, refl, Bool, true, List, [], ◌∷◌, map, All, Bytes}
use sleep_manager.Base.Map.{find}
use sleep_manager.WorkStation.{Status}
use sleep_manager.Socket.{Env, World}
use sleep_manager.Monitoring.Round.{poll_participants_lem}
use sleep_manager.Address.{Junk}
use sleep_manager.Packet.{Packet}
use sleep_manager.Management.{ManagementService, remove_by_mac_address}
use sleep_manager.Socket.Udp.{returns, no_faults}
use sleep_manager.Socket.Receiving.{
  text, IsShort, server_try_receive-text, server_try_receive-empty,
}
use sleep_manager.Monitoring.{
  exits, polled, dereferences_null, monitoring_round, rest_of_round, behind_poll, reports,
}

-- The senders of the packets taken out one after the other.
abbrev without_senders : List Packet → ManagementService → ManagementService
without_senders [] s = s
without_senders (p ∷ ps) s =
    without_senders ps (remove_by_mac_address p.header.sender_addresses.mac s).0

-- Where no system call fails, the exit loop takes the sender of every packet in the inbox out of the
-- table, in the order of arrival and whatever the type of the packet, and then ends with an empty
-- inbox. The packets are sendable and fit the buffer.
pub exits_lem :
    (junk : Junk) (ps : List Packet) (b : Bool) (s : ManagementService)
    → All IsShort ps
    → (c : Bool) × (exits no_faults junk b (map text ps) s
        ≡ returns (without_senders ps s, record { nonblocking = c; inbox = [] }))
unfolding exits
exits_lem junk [] b s _ = (true, rw (server_try_receive-empty junk b))
exits_lem junk (p ∷ ps) b s (short, shorts) =
    let (c, e) =
      exits_lem junk ps b (remove_by_mac_address p.header.sender_addresses.mac s).0 shorts in
    (c, rw (server_try_receive-text junk p b (map text ps) short) e)

nothing_listed :
    (a : Bytes) (s : ManagementService)
    → s.mac_address_index ≡ []
    → (remove_by_mac_address a s).0 ≡ s
unfolding remove_by_mac_address find
nothing_listed a s e = rw e

without_senders-empty :
    (ps : List Packet) (s : ManagementService) → s.mac_address_index ≡ [] → without_senders ps s ≡ s
without_senders-empty [] s e = refl
without_senders-empty (p ∷ ps) s e =
    rw (nothing_listed p.header.sender_addresses.mac s e) (without_senders-empty ps s e)

-- A round of the monitoring with packets on its exit socket, sendable and within the buffer, where
-- no receiving call fails: it changes no table. If a station is listed by its MAC address, the round
-- goes through a null pointer before it sends, reports or removes anything. If none is listed, it
-- sends nothing, empties its inbox, and has no station to remove.
pub monitoring_round_lem :
    (env : Env) (junk : Junk) (junk_status : Status) (arrivals : List (List (List Bytes)))
    (ps : List Packet) (b : Bool) (s : ManagementService) (w : World)
    → All IsShort ps
    → let round =
        monitoring_round env no_faults junk junk_status arrivals
          (record { nonblocking = b; inbox = map text ps })
          s
          w in
      ((s.mac_address_index ≢ []) × (round ≡ dereferences_null))
      ⊎ ((s.mac_address_index ≡ [])
          × ((c : Bool) × (round ≡ polled (s, w, record { nonblocking = c; inbox = [] }))))
unfolding monitoring_round rest_of_round behind_poll reports
monitoring_round_lem env junk junk_status arrivals ps b s w shorts =
    elim (poll_participants_lem env s w) [
      | inr (listed, e) ↦ inl (listed, rw (monitoring_round, e))
      | inl (none_listed, e) ↦
          let (c, gone) = exits_lem junk ps b s shorts in
          inr (
            none_listed,
            (c, rw (monitoring_round, e, gone, without_senders-empty ps s none_listed)),
          )
    ]
