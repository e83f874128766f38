-- ===== src/Management/History.antt =====
-- The table of src/management.cpp after any history of calls.
use sleep_manager.Base.{ℕ, ◌<◌, ◌≡◌, ◌≢◌, List, [], ◌∷◌, Bytes, some, inl, inr}
use sleep_manager.WorkStation.{WorkStation, Status, disconnected, awaken}
use sleep_manager.Management.{
  ManagementService, new_service, register_event_handler, insert, get_by_mac_address,
  get_by_ip_address, get_by_hostname, remove_by_hostname, remove_by_ip_address,
  remove_by_mac_address, update_sleep_status, wakeup,
}
use sleep_manager.Management.Table.{
  Call, creates, registers, inserts, removes_mac, removes_ip, removes_hostname, updates, wakes,
  step, run, IsProper,
}
use sleep_manager.Management.Invariant.{
  IsValid, new_service-IsValid, new_station-IsValid, change_status-IsValid, insert_cases,
  inserted-IsValid,
}
use sleep_manager.Management.Statuses.{update_sleep_status_cases, wakeup_cases}
use sleep_manager.Management.Removal.{
  without-IsValid, remove_by_mac_address_cases, remove_by_ip_address_cases,
  remove_by_hostname_cases,
}

pub insert-IsValid :
    (p : ℕ) (s : ManagementService) → IsValid s → p < s.next → IsValid (insert p s).0
insert-IsValid p s v made =
    insert_cases IsValid p s v λ on fresh. inserted-IsValid p s fresh v made on

remove_by_mac_address-IsValid :
    (a : Bytes) (s : ManagementService) → IsValid s → IsValid (remove_by_mac_address a s).0
remove_by_mac_address-IsValid a s v = elim (remove_by_mac_address_cases a s v) [
  | inl (e, r) ↦ rw r v
  | inr (p, e, r) ↦ rw r (without-IsValid p s v (v.mac_host a p e))
]

remove_by_ip_address-IsValid :
    (a : Bytes) (s : ManagementService) → IsValid s → IsValid (remove_by_ip_address a s).0
remove_by_ip_address-IsValid a s v = elim (remove_by_ip_address_cases a s v) [
  | inl (e, r) ↦ rw r v
  | inr (p, e, r) ↦ rw r (without-IsValid p s v (v.ip_host a p e))
]

remove_by_hostname-IsValid :
    (h : Bytes) (s : ManagementService) → IsValid s → IsValid (remove_by_hostname h s).0
remove_by_hostname-IsValid h s v = elim (remove_by_hostname_cases h s v) [
  | inl (e, r) ↦ rw r v
  | inr (p, e, r) ↦ rw r (without-IsValid p s v (rw (v.host_key h p e) e))
]

update_sleep_status-IsValid :
    (a : Bytes) (status : Status) (s : ManagementService)
    → IsValid s
    → status ≢ disconnected
    → IsValid (update_sleep_status a status s).0
update_sleep_status-IsValid a status s v h =
    update_sleep_status_cases IsValid a status s v λ p. change_status-IsValid p status s h v

wakeup-IsValid : (h : Bytes) (s : ManagementService) → IsValid s → IsValid (wakeup h s).0
wakeup-IsValid h s v = wakeup_cases IsValid h s v λ p. change_status-IsValid p awaken s (λ e. cc) v

pub register-IsValid :
    (handler : ℕ) (s : ManagementService) → IsValid s → IsValid (register_event_handler handler s)
unfolding register_event_handler
register-IsValid handler s v = record {
  host_key = v.host_key;
  host_made = v.host_made;
  host_on = v.host_on;
  mac_key = v.mac_key;
  mac_host = v.mac_host;
  ip_key = v.ip_key;
  ip_host = v.ip_host;
}

-- Every proper call keeps the table valid.
pub step-IsValid :
    (s : ManagementService) (c : Call) → IsProper s c → IsValid s → IsValid (step s c).0
unfolding step
step-IsValid s (creates a status) _ v = new_station-IsValid a status s v
step-IsValid s (registers handler) _ v = register-IsValid handler s v
step-IsValid s (inserts p) made v = insert-IsValid p s v made
step-IsValid s (removes_mac a) _ v = remove_by_mac_address-IsValid a s v
step-IsValid s (removes_ip a) _ v = remove_by_ip_address-IsValid a s v
step-IsValid s (removes_hostname h) _ v = remove_by_hostname-IsValid h s v
step-IsValid s (updates a status) on v = update_sleep_status-IsValid a status s v on
step-IsValid s (wakes h) _ v = wakeup-IsValid h s v

-- Each call is proper where it is made.
abbrev pub AllProper : ManagementService → List Call → Type 0
AllProper s [] = Unit
AllProper s (c ∷ cs) = IsProper s c × AllProper (step s c).0 cs

pub run-IsValid :
    (s : ManagementService) (cs : List Call) → AllProper s cs → IsValid s → IsValid (run s cs)
unfolding run
run-IsValid s [] _ v = v
run-IsValid s (c ∷ cs) (proper, rest) v =
    run-IsValid (step s c).0 cs rest (step-IsValid s c proper v)

-- The lookups of a valid table.
pub get-IsValid :
    (s : ManagementService) (k : Bytes) (p : ℕ)
    → IsValid s
    → (get_by_hostname k s ≡ some p
        → ((s.cell p).addresses.hostname ≡ k) × ((s.cell p).status ≢ disconnected))
      × (get_by_mac_address k s ≡ some p
          → ((s.cell p).addresses.mac ≡ k)
            × ((s.cell p).status ≢ disconnected)
            × (get_by_hostname (s.cell p).addresses.hostname s ≡ some p))
      × (get_by_ip_address k s ≡ some p
          → ((s.cell p).addresses.ip ≡ k)
            × ((s.cell p).status ≢ disconnected)
            × (get_by_hostname (s.cell p).addresses.hostname s ≡ some p))
unfolding get_by_mac_address get_by_ip_address get_by_hostname
get-IsValid s k p v = (
  λ e. (v.host_key k p e, v.host_on k p e),
  λ e. (v.mac_key k p e, v.host_on _ p (v.mac_host k p e), v.mac_host k p e),
  λ e. (v.ip_key k p e, v.host_on _ p (v.ip_host k p e), v.ip_host k p e),
)

-- After any history of proper calls on a new table, what a lookup returns is a station that is not
-- DISCONNECTED and that has the address or the hostname looked up; and a station that the MAC or the
-- IP lookup returns is also what the lookup of its hostname returns.
get-run :
    (next : ℕ) (cell : ℕ → WorkStation) (cs : List Call) (k : Bytes) (p : ℕ)
    → AllProper (new_service next cell) cs
    → let s = run (new_service next cell) cs in
      (get_by_hostname k s ≡ some p
        → ((s.cell p).addresses.hostname ≡ k) × ((s.cell p).status ≢ disconnected))
      × (get_by_mac_address k s ≡ some p
          → ((s.cell p).addresses.mac ≡ k)
            × ((s.cell p).status ≢ disconnected)
            × (get_by_hostname (s.cell p).addresses.hostname s ≡ some p))
      × (get_by_ip_address k s ≡ some p
          → ((s.cell p).addresses.ip ≡ k)
            × ((s.cell p).status ≢ disconnected)
            × (get_by_hostname (s.cell p).addresses.hostname s ≡ some p))
get-run next cell cs k p proper =
    get-IsValid (run (new_service next cell) cs) k p
      (run-IsValid (new_service next cell) cs proper (new_service-IsValid next cell))
