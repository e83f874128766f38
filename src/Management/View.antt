-- ===== src/Management/View.antt =====
-- What the participant list of src/management.cpp lets a reader see, and which calls change it.
use sleep_manager.Base.{
  ℕ, ◌≡◌, refl, ap, false, ◌++◌, map, Option, none, some, length, replicate, arith, inl, inr,
}
use sleep_manager.Base.Map.{Map, insert as map_insert, values}
use sleep_manager.WorkStation.{WorkStation}
use sleep_manager.Management.{
  ManagementService, new_station, register_event_handler, insert, participant_list,
}
use sleep_manager.Management.Table.{
  Call, creates, registers, inserts, removes_mac, removes_ip, removes_hostname, updates, wakes,
  step,
}
use sleep_manager.Management.Statuses.{update_sleep_status_lem, wakeup_lem}
use sleep_manager.Management.Invariant.{IsValid}
use sleep_manager.Management.Removal.{
  remove_by_mac_address_cases, remove_by_ip_address_cases, remove_by_hostname_cases,
}

abbrev pub read : (ℕ → WorkStation) → Option ℕ → Option WorkStation
read cell none = none
read cell (some p) = some (cell p)

pub insert_refused :
    (p : ℕ) (s : ManagementService)
    → (insert p s).1 ≡ false
    → ((insert p s).0.mac_address_index ≡ s.mac_address_index) × ((insert p s).0.cell ≡ s.cell)
unfolding insert map_insert
insert_refused p s e = ground arith

-- A call that returns false leaves the MAC index as it is.
mac_address_index-step :
    (s : ManagementService) (c : Call)
    → IsValid s
    → (step s c).1 ≡ false
    → (step s c).0.mac_address_index ≡ s.mac_address_index
unfolding step register_event_handler new_station
mac_address_index-step s (creates a status) v e = refl
mac_address_index-step s (registers handler) v e = refl
mac_address_index-step s (inserts p) v e = (insert_refused p s e).0
mac_address_index-step s (removes_mac a) v e = elim (remove_by_mac_address_cases a s v) [
  | inl (_, r) ↦ rw r
  | inr (p, _, r) ↦ absurd (cc)
]
mac_address_index-step s (removes_ip a) v e = elim (remove_by_ip_address_cases a s v) [
  | inl (_, r) ↦ rw r
  | inr (p, _, r) ↦ absurd (cc)
]
mac_address_index-step s (removes_hostname k) v e = elim (remove_by_hostname_cases k s v) [
  | inl (_, r) ↦ rw r
  | inr (p, _, r) ↦ absurd (cc)
]
mac_address_index-step s (updates a status) v e = elim (update_sleep_status_lem a status s) [
  | inl (p, _, _, updated, _) ↦ absurd (cc)
  | inr (_, _, same) ↦ rw same
]
mac_address_index-step s (wakes k) v e = elim (wakeup_lem k s) [
  | inl (p, _, _, wokeup, _) ↦ absurd (cc)
  | inr (_, _, same) ↦ rw same
]

-- Nor does it change the list of the participants.
pub participant_list-step :
    (s : ManagementService) (c : Call)
    → IsValid s
    → (step s c).1 ≡ false
    → participant_list (step s c).0 ≡ participant_list s
unfolding participant_list
participant_list-step s c v e =
    ap (λ (i : Map ℕ). replicate (length i) none ++ map some (values i))
      (mac_address_index-step s c v e)
