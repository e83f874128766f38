-- ===== src/Management/Events.antt =====
-- The events of src/management.cpp against the results of the calls.
use sleep_manager.Base.{
  ℕ, ◌≡◌, sym, Bool, true, false, List, [], ◌++◌, map, append-nil, Option, none, some, arith,
  Option-cases, inl, inr,
}
use sleep_manager.Base.Map.{find}
use sleep_manager.Management.{
  ManagementService, ManagementEvent, EventType, insertion, removal, changed_status, event_of,
  new_station, register_event_handler, insert, remove_by_mac_address, remove_by_ip_address,
  remove_by_hostname, update_sleep_status, wakeup,
}
use sleep_manager.Management.Table.{
  Call, creates, registers, inserts, removes_mac, removes_ip, removes_hostname, updates, wakes,
  step,
}

-- The type of the event that a call can cause.
abbrev type_of : Call → EventType
type_of (inserts p) = insertion
type_of (updates a status) = changed_status
type_of (wakes h) = changed_status
type_of _ = removal

-- The station that a call is about, if there is one.
abbrev pub station_of : ManagementService → Call → Option ℕ
station_of s (inserts p) = some p
station_of s (removes_mac a) = find a s.mac_address_index
station_of s (removes_ip a) = find a s.ip_address_index
station_of s (removes_hostname h) = find h s.hostname_index
station_of s (updates a status) = find a s.mac_address_index
station_of s (wakes h) = find h s.hostname_index
station_of s _ = none

-- The calls of the handlers that a call with this result makes.
abbrev pub told : Call → List ℕ → Bool → Option ℕ → List (ℕ × ManagementEvent)
told c handlers true (some p) = map (λ h. (h, event_of (type_of c) p)) handlers
told c handlers true none = []
told c handlers false p = []

-- Every handler is called exactly once, in the order of registration, by each call that returns
-- true, and none by a call that returns false. The event has the type that belongs to the call and
-- the station that the call names or finds, and its old and new status are never written.
pub step-calls :
    (s : ManagementService) (c : Call)
    → (step s c).0.calls ≡ s.calls ++ told c s.event_handlers (step s c).1 (station_of s c)
unfolding step insert remove_by_mac_address remove_by_ip_address remove_by_hostname
    update_sleep_status wakeup new_station register_event_handler
step-calls s (creates a status) = sym (append-nil s.calls)
step-calls s (registers handler) = sym (append-nil s.calls)
step-calls s (inserts p) = ground (arith, append-nil s.calls)
step-calls s (removes_mac a) = elim (Option-cases (find a s.mac_address_index)) [
  | inl e ↦ rw (e, remove_by_mac_address) (sym (append-nil s.calls))
  | inr (p, e) ↦ rw (e, remove_by_mac_address)
]
step-calls s (removes_ip a) = elim (Option-cases (find a s.ip_address_index)) [
  | inl e ↦ rw (e, remove_by_ip_address) (sym (append-nil s.calls))
  | inr (p, e) ↦ rw (e, remove_by_ip_address)
]
step-calls s (removes_hostname h) = elim (Option-cases (find h s.hostname_index)) [
  | inl e ↦ rw (e, remove_by_hostname) (sym (append-nil s.calls))
  | inr (p, e) ↦ rw (e, remove_by_hostname)
]
step-calls s (updates a status) = elim (Option-cases (find a s.mac_address_index)) [
  | inl e ↦ rw (e, update_sleep_status) (sym (append-nil s.calls))
  | inr (p, e) ↦ rw (e, update_sleep_status) (ground (arith, append-nil s.calls))
]
step-calls s (wakes h) = elim (Option-cases (find h s.hostname_index)) [
  | inl e ↦ rw (e, wakeup) (sym (append-nil s.calls))
  | inr (p, e) ↦ rw (e, wakeup) (ground (arith, append-nil s.calls))
]
