-- ===== src/Monitoring/Round.antt =====
-- The status requests and the status reports of src/monitoring.cpp.
use sleep_manager.Base.{
  ℕ, ◌≡◌, ◌≢◌, refl, List, [], ◌∷◌, Option, none, some, Bytes, length, ◌⊎◌, inl, inr, replicate,
  map, ◌++◌,
}
use sleep_manager.Base.Map.{Map, values}
use sleep_manager.Exception.{Exception}
use sleep_manager.Address.{Junk}
use sleep_manager.WorkStation.{Status}
use sleep_manager.Packet.{Packet}
use sleep_manager.Management.{ManagementService, participant_list, update_sleep_status}
use sleep_manager.Socket.{Env, World}
use sleep_manager.Socket.Udp.{Outcome, returns, raises, blocks, ◌>>=◌, Faults}
use sleep_manager.Socket.Client.{Request}
use sleep_manager.Socket.Retries.{Bounded, open_bounded-Bounded}
use sleep_manager.Monitoring.{
  polled, dereferences_null, poll, poll_participants, report, status_from, max_retries,
}

poll_listed :
    (env : Env) (s : ManagementService) (w : World) (m : Map ℕ)
    → ((m ≡ [])
        × (poll env s (replicate (length m) none ++ map some (values m)) w ≡ polled ([], w)))
      ⊎ ((m ≢ [])
          × (poll env s (replicate (length m) none ++ map some (values m)) w ≡ dereferences_null))
unfolding poll values
poll_listed env s w [] = inl (refl, refl)
poll_listed env s w (e ∷ m) = inr ((λ e. cc), refl)

-- A round reads through a null pointer as soon as one station is registered; with no station
-- registered it makes no request and sends nothing.
pub poll_participants_lem :
    (env : Env) (s : ManagementService) (w : World)
    → ((s.mac_address_index ≡ []) × (poll_participants env s w ≡ polled ([], w)))
      ⊎ ((s.mac_address_index ≢ []) × (poll_participants env s w ≡ dereferences_null))
unfolding poll_participants participant_list
poll_participants_lem env s w = poll_listed env s w s.mac_address_index

-- What `report` comes to when the receive did.
reported :
    (mac : Bytes) (junk_status : Status) (s : ManagementService) (n : ℕ) (w : World)
    (o : Outcome (Option Packet × World))
    → Bounded n w o
    → let r : Outcome (ManagementService × World) =
        o >>= λ a. returns ((update_sleep_status mac (status_from junk_status a.0) s).0, a.1) in
      ((e : Exception) × (r ≡ raises e))
      ⊎ ((w' : World) × (r ≡ returns ((update_sleep_status mac junk_status s).0, w')))
reported mac junk_status s n w (returns (none, w')) (h, _) = absurd (h refl)
reported mac junk_status s n w (returns (some p, w')) _ = inr (w', refl)
reported mac junk_status s n w (raises e) _ = inl (e, refl)
reported mac junk_status s n w blocks h = absurd h

-- A report does not depend on an answer: whatever arrives, also nothing, it ends with an exception or
-- reports the uninitialised status to the table, and never ASLEEP for want of an answer.
pub report_lem :
    (env : Env) (faults : Faults) (junk : Junk) (junk_status : Status) (mac : Bytes) (q : Request)
    (arrivals : List (List Bytes)) (s : ManagementService) (w : World)
    → ((e : Exception) × (report env faults junk junk_status (mac, q) arrivals s w ≡ raises e))
      ⊎ ((w' : World) × (report env faults junk junk_status (mac, q) arrivals s w
            ≡ returns ((update_sleep_status mac junk_status s).0, w')))
unfolding report
report_lem env faults junk junk_status mac q arrivals s w =
    reported mac junk_status s max_retries w _
      (open_bounded-Bounded env faults junk q max_retries arrivals w)
