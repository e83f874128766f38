-- ===== src/Management/Tests.antt =====
-- Tests of the table of work stations, and the theorems at concrete inputs.
use sleep_manager.Base.{
  ℕ, ◌≡◌, ◌≢◌, refl, true, false, List, [], ◌∷◌, ◌++◌, Bytes, codes, none, some, ◌⊎◌, arith, length,
  bytes_eq, bytes_lt,
}
use sleep_manager.Base.Map.{find, values, place, insert as map_insert}
use sleep_manager.Address.{NodeAddresses}
use sleep_manager.WorkStation.{WorkStation, disconnected, asleep, awaken, status_eq}
use sleep_manager.Management.{
  ManagementService, new_service, new_station, register_event_handler, insert,
  remove_by_mac_address, remove_by_ip_address, remove_by_hostname, get_by_mac_address,
  get_by_ip_address, get_by_hostname, update_sleep_status, wakeup, participant_list,
}
use sleep_manager.Management.Table.{
  Call, creates, registers, inserts, removes_ip, updates, wakes, step, run,
}
use sleep_manager.Management.Invariant.{IsValid, new_service-IsValid}
use sleep_manager.Management.Removal.{remove_by_address-hostname, remove_by_hostname_lem}
use sleep_manager.Management.History.{AllProper, run-IsValid}
use sleep_manager.Management.Agreement.{AllFresh}
use sleep_manager.Management.Events.{told, station_of, step-calls}
use sleep_manager.Management.Locks.{
  locked_status, locked_read, locked_insert, locked_update_sleep_status, locked_wakeup,
  locked_remove_by_mac_address, locked_remove_by_ip_address, locked_remove_by_hostname, undefined,
}
use sleep_manager.Management.Locks.Unheld.{unheld, Balanced, locked_lem}

abbrev desk_addresses : NodeAddresses
desk_addresses = record { mac = 1 ∷ []; ip = 9 ∷ []; hostname = codes "desk" }

abbrev blank : ℕ → WorkStation
blank _ = record { addresses = desk_addresses; status = awaken }

abbrev start : ManagementService
start = new_service 0 blank

-- A station is made, inserted, falls asleep and is woken.
abbrev history : List Call
history =
    registers 5
    ∷ creates desk_addresses awaken
    ∷ inserts 0
    ∷ updates (1 ∷ []) asleep
    ∷ wakes (codes "desk")
    ∷ []

history_proper : AllProper start history
unfolding new_service step register_event_handler new_station
history_proper = (tt, (tt, (omega arith, ((λ e. cc), (tt, tt)))))

history-IsValid : IsValid (run start history)
history-IsValid = run-IsValid start history history_proper (new_service-IsValid 0 blank)

abbrev used : ManagementService
used = run start history

-- One station, one null pointer before it, three events.
used_test :
    (participant_list used ≡ none ∷ some 0 ∷ [])
    × ((used.cell 0).status ≡ awaken)
    × (length used.calls ≡ 3)
    × (get_by_mac_address (1 ∷ []) used ≡ some 0)
unfolding participant_list values get_by_mac_address run step new_service register_event_handler
    new_station insert update_sleep_status wakeup status_eq find map_insert place bytes_eq bytes_lt
used_test = (refl, refl, refl, refl)

remove_by_address-hostname_example :
    (get_by_mac_address (1 ∷ []) used ≡ some 0
      → remove_by_mac_address (1 ∷ []) used
        ≡ remove_by_hostname (used.cell 0).addresses.hostname used)
    × (get_by_ip_address (1 ∷ []) used ≡ some 0
        → remove_by_ip_address (1 ∷ []) used
          ≡ remove_by_hostname (used.cell 0).addresses.hostname used)
remove_by_address-hostname_example = remove_by_address-hostname used (1 ∷ []) 0 history-IsValid

remove_by_hostname_lem_example :
    let (t, removed) = remove_by_hostname (codes "desk") used in
    ((get_by_hostname (codes "desk") used ≡ none) × (removed ≡ false) × (t ≡ used))
    ⊎ ((p : ℕ) × (get_by_hostname (codes "desk") used ≡ some p)
        × (removed ≡ true)
        × ((t.cell p).status ≡ disconnected)
        × (get_by_hostname (codes "desk") t ≡ none)
        × (get_by_mac_address (used.cell p).addresses.mac t ≡ none)
        × (get_by_ip_address (used.cell p).addresses.ip t ≡ none)
        × ((k : Bytes) → k ≢ codes "desk" → get_by_hostname k t ≡ get_by_hostname k used))
remove_by_hostname_lem_example = remove_by_hostname_lem used (codes "desk") history-IsValid

history_fresh : AllFresh start history
unfolding new_service step register_event_handler new_station find
history_fresh =
    ((tt, tt), ((tt, tt), ((omega arith, (refl, refl)), (((λ e. cc), tt), ((tt, tt), tt)))))

used_mac : get_by_mac_address (1 ∷ []) used ≡ some 0
unfolding get_by_mac_address run step new_service register_event_handler new_station insert
    update_sleep_status wakeup status_eq find map_insert place bytes_eq bytes_lt
used_mac = refl

-- A second card of the same MAC address, under another name.
abbrev twin : ManagementService
twin = (new_station (record { mac = 1 ∷ []; ip = 8 ∷ []; hostname = codes "twin" }) awaken used).0

step-calls_example :
    (step used (removes_ip (9 ∷ []))).0.calls
    ≡ used.calls
      ++ told
          (removes_ip (9 ∷ []))
          used.event_handlers
          (step used (removes_ip (9 ∷ []))).1
          (station_of used (removes_ip (9 ∷ [])))
step-calls_example = step-calls used (removes_ip (9 ∷ []))

locked_lem_example :
    (locked_status 0 used (λ l. unheld) ≡ undefined)
    × (locked_read participant_list used (λ l. unheld) ≡ undefined)
    × (locked_insert 0 used (λ l. unheld) ≡ undefined)
    × (locked_update_sleep_status (1 ∷ []) asleep used (λ l. unheld) ≡ undefined)
    × (locked_wakeup (1 ∷ []) used (λ l. unheld) ≡ undefined)
    × Balanced
        (locked_remove_by_mac_address (1 ∷ []) used (λ l. unheld))
        (remove_by_mac_address (1 ∷ []) used)
    × Balanced
        (locked_remove_by_ip_address (1 ∷ []) used (λ l. unheld))
        (remove_by_ip_address (1 ∷ []) used)
    × Balanced
        (locked_remove_by_hostname (1 ∷ []) used (λ l. unheld))
        (remove_by_hostname (1 ∷ []) used)
locked_lem_example = locked_lem participant_list 0 (1 ∷ []) asleep used (λ l. unheld) (λ l. refl)
