-- ===== src/Management/Threads/Tests.antt =====
-- Interleavings of threads at a concrete table.
use sleep_manager.Base.{◌≡◌, refl, [], ◌∷◌, ◌++◌, none, arith, bytes_eq}
use sleep_manager.Base.Map.{find, place, insert as map_insert}
use sleep_manager.WorkStation.{asleep, awaken, status_eq}
use sleep_manager.Management.{
  ManagementService, new_service, new_station, insert, insert_hostname, insert_addresses,
  dispatch_event, get_by_mac_address, get_by_ip_address, get_by_hostname, remove_by_mac_address,
  removal, changed_status,
}
use sleep_manager.Management.Table.{creates, inserts, step}
use sleep_manager.Management.Threads.{waking, advance, calls, Reach, here, next}
use sleep_manager.Management.Threads.Interleaved.{Reach-IsValid}
use sleep_manager.Management.Threads.Late.{late, late_lem, told_by}
use sleep_manager.Samples.{desk, empty_table}

abbrev made : ManagementService
made = (step empty_table (creates desk awaken)).0

abbrev used : ManagementService
used = (step made (inserts 0)).0

used-Reach :
    Reach (record { table = empty_table; pending = [] }) (record { table = used; pending = [] })
unfolding step new_station new_service
used-Reach =
    next (next here (calls empty_table [] (creates desk awaken) refl tt))
      (calls made [] (inserts 0) refl (omega arith))

late_lem_example :
    let t = (remove_by_mac_address (1 ∷ []) used).0 in
    let u = late 0 asleep t in
    let k = (used.cell 0).addresses in
    Reach (record { table = used; pending = [] }) (record { table = u; pending = [] })
    × (get_by_hostname k.hostname u ≡ none)
    × (get_by_mac_address k.mac u ≡ none)
    × (get_by_ip_address k.ip u ≡ none)
    × ((u.cell 0).status ≡ asleep)
    × (u.calls ≡ used.calls ++ (told_by used removal 0 ++ told_by used changed_status 0))
    × (advance (waking 0) t ≡ (t, []))
unfolding get_by_mac_address step new_station insert insert_hostname insert_addresses map_insert
    place find dispatch_event status_eq bytes_eq new_service
late_lem_example = late_lem used (1 ∷ []) asleep 0 (Reach-IsValid 0 _ used-Reach) (λ e. cc) refl
