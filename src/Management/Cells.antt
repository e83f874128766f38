-- ===== src/Management/Cells.antt =====
-- The stations of the heap in src/management.cpp: no call unmakes one.
use sleep_manager.Base.{ℕ, ◌≤◌, arith, inl, inr}
use sleep_manager.WorkStation.{Status, awaken}
use sleep_manager.Management.{ManagementService, new_station, register_event_handler, change_status}
use sleep_manager.Management.Table.{
  Call, creates, registers, inserts, removes_mac, removes_ip, removes_hostname, updates, wakes,
  step,
}
use sleep_manager.Management.Invariant.{IsValid, insert_cases, inserted}
use sleep_manager.Management.Removal.{
  without, remove_by_mac_address_cases, remove_by_ip_address_cases, remove_by_hostname_cases,
}
use sleep_manager.Management.Statuses.{update_sleep_status_cases, wakeup_cases}

abbrev Grows : ManagementService → ManagementService → Type 0
Grows s t = s.next ≤ t.next

without-Grows : (p : ℕ) (s : ManagementService) → Grows s (without p s)
unfolding without
without-Grows p s = omega arith

inserted-Grows : (p : ℕ) (s : ManagementService) → Grows s (inserted p s)
unfolding inserted
inserted-Grows p s = omega arith

change_status-Grows :
    (p : ℕ) (status : Status) (s : ManagementService) → Grows s (change_status p status s)
unfolding change_status
change_status-Grows p status s = omega arith

pub next-step : (s : ManagementService) (c : Call) → IsValid s → s.next ≤ (step s c).0.next
unfolding step register_event_handler new_station
next-step s (creates a status) v = omega arith
next-step s (registers handler) v = omega arith
next-step s (inserts p) v = insert_cases (Grows s) p s (omega arith) λ on fresh. inserted-Grows p s
next-step s (removes_mac a) v = elim (remove_by_mac_address_cases a s v) [
  | inl (_, r) ↦ rw r (omega arith)
  | inr (p, _, r) ↦ rw r (without-Grows p s)
]
next-step s (removes_ip a) v = elim (remove_by_ip_address_cases a s v) [
  | inl (_, r) ↦ rw r (omega arith)
  | inr (p, _, r) ↦ rw r (without-Grows p s)
]
next-step s (removes_hostname k) v = elim (remove_by_hostname_cases k s v) [
  | inl (_, r) ↦ rw r (omega arith)
  | inr (p, _, r) ↦ rw r (without-Grows p s)
]
next-step s (updates a status) v =
    update_sleep_status_cases (Grows s) a status s (omega arith) λ p. change_status-Grows p status s
next-step s (wakes k) v =
    wakeup_cases (Grows s) k s (omega arith) λ p. change_status-Grows p awaken s
