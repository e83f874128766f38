-- ===== src/Management/Handlers.antt =====
-- The event handlers of src/management.cpp, and the stations that they are told of.
use sleep_manager.Base.{ℕ, ◌≡◌, refl, true, [], ◌∷◌, ◌++◌, some, ◌⊎◌, inl, inr}
use sleep_manager.WorkStation.{Status, awaken}
use sleep_manager.Management.{
  ManagementService, register_event_handler, new_station, get_by_mac_address, get_by_hostname,
  change_status,
}
use sleep_manager.Management.Table.{
  Call, creates, registers, inserts, removes_mac, removes_ip, removes_hostname, updates, wakes,
  step,
}
use sleep_manager.Management.Invariant.{IsValid, insert_cases, inserted}
use sleep_manager.Management.Removal.{
  without, remove_by_mac_address_cases, remove_by_ip_address_cases, remove_by_hostname_cases,
}
use sleep_manager.Management.Statuses.{
  update_sleep_status_lem, wakeup_lem, update_sleep_status_cases, wakeup_cases,
}
use sleep_manager.Management.Events.{station_of}

-- A call that returns true is about a station.
pub station_found :
    (s : ManagementService) (c : Call)
    → IsValid s
    → (step s c).1 ≡ true
    → (p : ℕ) × (station_of s c ≡ some p)
unfolding step get_by_mac_address get_by_hostname
station_found s (creates a status) v e = cc
station_found s (registers handler) v e = cc
station_found s (inserts p) v e = (p, refl)
station_found s (removes_mac a) v e = elim (remove_by_mac_address_cases a s v) [
  | inl (_, refused) ↦ absurd (cc)
  | inr (p, found, _) ↦ (p, found)
]
station_found s (removes_ip a) v e = elim (remove_by_ip_address_cases a s v) [
  | inl (_, refused) ↦ absurd (cc)
  | inr (p, found, _) ↦ (p, found)
]
station_found s (removes_hostname k) v e = elim (remove_by_hostname_cases k s v) [
  | inl (_, refused) ↦ absurd (cc)
  | inr (p, found, _) ↦ (p, found)
]
station_found s (updates a status) v e = elim (update_sleep_status_lem a status s) [
  | inl (p, found, _, _, _) ↦ (p, found)
  | inr (_, refused, _) ↦ absurd (cc)
]
station_found s (wakes k) v e = elim (wakeup_lem k s) [
  | inl (p, found, _, _, _) ↦ (p, found)
  | inr (_, refused, _) ↦ absurd (cc)
]

-- The handlers of `t` are those of `s`.
abbrev SameHandlers : ManagementService → ManagementService → Type 0
SameHandlers s t = t.event_handlers ≡ s.event_handlers

without-SameHandlers : (p : ℕ) (s : ManagementService) → SameHandlers s (without p s)
unfolding without
without-SameHandlers p s = refl

inserted-SameHandlers : (p : ℕ) (s : ManagementService) → SameHandlers s (inserted p s)
unfolding inserted
inserted-SameHandlers p s = refl

change_status-SameHandlers :
    (p : ℕ) (status : Status) (s : ManagementService) → SameHandlers s (change_status p status s)
unfolding change_status
change_status-SameHandlers p status s = refl

-- No call takes a handler away, and one adds one at the end.
pub event_handlers-step :
    (s : ManagementService) (c : Call)
    → IsValid s
    → ((step s c).0.event_handlers ≡ s.event_handlers)
      ⊎ ((j : ℕ) × ((step s c).0.event_handlers ≡ s.event_handlers ++ j ∷ []))
unfolding step new_station register_event_handler
event_handlers-step s (creates a status) v = inl refl
event_handlers-step s (registers handler) v = inr (handler, refl)
event_handlers-step s (inserts p) v =
    inl (insert_cases (SameHandlers s) p s refl λ on fresh. inserted-SameHandlers p s)
event_handlers-step s (removes_mac a) v = elim (remove_by_mac_address_cases a s v) [
  | inl (_, r) ↦ inl (rw r)
  | inr (p, _, r) ↦ inl (rw r (without-SameHandlers p s))
]
event_handlers-step s (removes_ip a) v = elim (remove_by_ip_address_cases a s v) [
  | inl (_, r) ↦ inl (rw r)
  | inr (p, _, r) ↦ inl (rw r (without-SameHandlers p s))
]
event_handlers-step s (removes_hostname k) v = elim (remove_by_hostname_cases k s v) [
  | inl (_, r) ↦ inl (rw r)
  | inr (p, _, r) ↦ inl (rw r (without-SameHandlers p s))
]
event_handlers-step s (updates a status) v = inl (
    update_sleep_status_cases (SameHandlers s) a status s refl
      λ p. change_status-SameHandlers p status s)
event_handlers-step s (wakes k) v =
    inl (wakeup_cases (SameHandlers s) k s refl λ p. change_status-SameHandlers p awaken s)
