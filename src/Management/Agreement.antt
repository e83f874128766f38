-- ===== src/Management/Agreement.antt =====
-- The three indices of src/management.cpp as views of one set of stations.
use sleep_manager.Base.{
  ℕ, ◌≡◌, ◌≢◌, true, List, [], ◌∷◌, Bytes, none, some, arith, inl, inr, ◌⊎◌, bytes_eq_iff,
  bytes_eq_refl,
}
use sleep_manager.Base.Map.{find, insert as map_insert, find-place, find-insert, find-remove}
use sleep_manager.Address.{NodeAddresses}
use sleep_manager.WorkStation.{WorkStation, Status, disconnected, awaken, status_eq}
use sleep_manager.Management.{
  ManagementService, insert, get_by_mac_address, get_by_ip_address, get_by_hostname, new_service,
  participant_list, change_status, register_event_handler, new_station,
}
use sleep_manager.Management.Table.{
  Call, creates, registers, inserts, removes_mac, removes_ip, removes_hostname, updates, wakes,
  step, run, IsProper,
}
use sleep_manager.Management.Invariant.{
  IsValid, new_service-IsValid, inserted, insert_cases, find-hostname,
}
use sleep_manager.Management.Removal.{
  without, remove_by_mac_address_cases, remove_by_ip_address_cases, remove_by_hostname_cases,
}
use sleep_manager.Management.History.{step-IsValid}
use sleep_manager.Management.Statuses.{update_sleep_status_cases, wakeup_cases}

-- Each station of the hostname index is in the two others.
pub record IsAgreed (s : ManagementService) : Type 0 where
  pub host_mac :
      (k : Bytes) (p : ℕ)
      → find k s.hostname_index ≡ some p
      → find (s.cell p).addresses.mac s.mac_address_index ≡ some p
  pub host_ip :
      (k : Bytes) (p : ℕ)
      → find k s.hostname_index ≡ some p
      → find (s.cell p).addresses.ip s.ip_address_index ≡ some p

-- A station is inserted only under a MAC address and an IP address that are not taken.
abbrev IsFresh : ManagementService → Call → Type 0
IsFresh s (inserts p) =
    (find (s.cell p).addresses.mac s.mac_address_index ≡ none)
    × (find (s.cell p).addresses.ip s.ip_address_index ≡ none)
IsFresh s _ = Unit

pub inserted-IsAgreed :
    (q : ℕ) (s : ManagementService)
    → IsFresh s (inserts q)
    → find (s.cell q).addresses.hostname s.hostname_index ≡ none
    → IsAgreed s
    → IsAgreed (inserted q s)
unfolding inserted
inserted-IsAgreed q s (fm, fi) fresh g = record {
  host_mac = λ k p e. ground (
    arith,
    fm,
    find-hostname q s fresh k,
    find-insert (s.cell q).addresses.mac (s.cell p).addresses.mac q s.mac_address_index,
    bytes_eq_iff (s.cell q).addresses.mac (s.cell p).addresses.mac,
    g.host_mac k p,
  );
  host_ip = λ k p e. ground (
    arith,
    fi,
    find-hostname q s fresh k,
    find-insert (s.cell q).addresses.ip (s.cell p).addresses.ip q s.ip_address_index,
    bytes_eq_iff (s.cell q).addresses.ip (s.cell p).addresses.ip,
    g.host_ip k p,
  );
}

pub without-IsAgreed :
    (q : ℕ) (s : ManagementService)
    → find (s.cell q).addresses.hostname s.hostname_index ≡ some q
    → IsValid s
    → IsAgreed s
    → IsAgreed (without q s)
unfolding without
without-IsAgreed q s there v g = record {
  host_mac = λ k p e. ground (
    arith,
    find-remove (s.cell q).addresses.hostname k s.hostname_index,
    find-remove (s.cell q).addresses.mac (s.cell p).addresses.mac s.mac_address_index,
    bytes_eq_iff (s.cell q).addresses.mac (s.cell p).addresses.mac,
    bytes_eq_iff (s.cell q).addresses.hostname k,
    g.host_mac k p,
    g.host_mac (s.cell q).addresses.hostname q there,
    v.host_key k p,
  );
  host_ip = λ k p e. ground (
    arith,
    find-remove (s.cell q).addresses.hostname k s.hostname_index,
    find-remove (s.cell q).addresses.ip (s.cell p).addresses.ip s.ip_address_index,
    bytes_eq_iff (s.cell q).addresses.ip (s.cell p).addresses.ip,
    bytes_eq_iff (s.cell q).addresses.hostname k,
    g.host_ip k p,
    g.host_ip (s.cell q).addresses.hostname q there,
    v.host_key k p,
  );
}

pub change_status-IsAgreed :
    (q : ℕ) (status : Status) (s : ManagementService)
    → IsAgreed s
    → IsAgreed (change_status q status s)
unfolding change_status
change_status-IsAgreed q status s g = record {
  host_mac = λ k p e. ground (arith, g.host_mac k p e);
  host_ip = λ k p e. ground (arith, g.host_ip k p e);
}

pub new_station-IsAgreed :
    (a : NodeAddresses) (status : Status) (s : ManagementService)
    → IsValid s
    → IsAgreed s
    → IsAgreed (new_station a status s).0
unfolding new_station
new_station-IsAgreed a status s v g = record {
  host_mac = λ k p e. ground (arith, g.host_mac k p e, v.host_made k p e);
  host_ip = λ k p e. ground (arith, g.host_ip k p e, v.host_made k p e);
}

step-IsAgreed :
    (s : ManagementService) (c : Call)
    → IsFresh s c
    → IsValid s
    → IsAgreed s
    → IsAgreed (step s c).0
unfolding step register_event_handler
step-IsAgreed s (creates a status) _ v g = new_station-IsAgreed a status s v g
step-IsAgreed s (registers handler) _ v g = record { host_mac = g.host_mac; host_ip = g.host_ip }
step-IsAgreed s (inserts p) f v g =
    insert_cases IsAgreed p s g λ _ fresh. inserted-IsAgreed p s f fresh g
step-IsAgreed s (removes_mac a) _ v g = elim (remove_by_mac_address_cases a s v) [
  | inl (e, r) ↦ rw r g
  | inr (p, e, r) ↦ rw r (without-IsAgreed p s (v.mac_host a p e) v g)
]
step-IsAgreed s (removes_ip a) _ v g = elim (remove_by_ip_address_cases a s v) [
  | inl (e, r) ↦ rw r g
  | inr (p, e, r) ↦ rw r (without-IsAgreed p s (v.ip_host a p e) v g)
]
step-IsAgreed s (removes_hostname h) _ v g = elim (remove_by_hostname_cases h s v) [
  | inl (e, r) ↦ rw r g
  | inr (p, e, r) ↦ rw r (without-IsAgreed p s (rw (v.host_key h p e) e) v g)
]
step-IsAgreed s (updates a status) _ v g =
    update_sleep_status_cases IsAgreed a status s g λ p. change_status-IsAgreed p status s g
step-IsAgreed s (wakes h) _ v g =
    wakeup_cases IsAgreed h s g λ p. change_status-IsAgreed p awaken s g

-- Each call is proper and fresh where it is made.
abbrev pub AllFresh : ManagementService → List Call → Type 0
AllFresh s [] = Unit
AllFresh s (c ∷ cs) = (IsProper s c × IsFresh s c) × AllFresh (step s c).0 cs

run-IsAgreed :
    (s : ManagementService) (cs : List Call)
    → AllFresh s cs
    → IsValid s
    → IsAgreed s
    → IsValid (run s cs) × IsAgreed (run s cs)
unfolding run
run-IsAgreed s [] _ v g = (v, g)
run-IsAgreed s (c ∷ cs) ((proper, fresh), rest) v g =
    run-IsAgreed (step s c).0 cs rest (step-IsValid s c proper v) (step-IsAgreed s c fresh v g)

pub new_service-IsAgreed : (next : ℕ) (cell : ℕ → WorkStation) → IsAgreed (new_service next cell)
unfolding new_service find
new_service-IsAgreed next cell = record {
  host_mac = λ k p e. absurd (cc);
  host_ip = λ k p e. absurd (cc);
}

-- After any history of proper calls on a new table in which stations are inserted under MAC and IP
-- addresses that are not taken, the three lookups agree: a station that one of them returns is what
-- the two others return for its other addresses.
pub get-agree :
    (next : ℕ) (cell : ℕ → WorkStation) (cs : List Call) (k : Bytes) (p : ℕ)
    → AllFresh (new_service next cell) cs
    → let s = run (new_service next cell) cs in
      let a = (s.cell p).addresses in
      (get_by_hostname k s ≡ some p)
        ⊎ ((get_by_mac_address k s ≡ some p) ⊎ (get_by_ip_address k s ≡ some p))
      → (get_by_hostname a.hostname s ≡ some p)
        × (get_by_mac_address a.mac s ≡ some p)
        × (get_by_ip_address a.ip s ≡ some p)
unfolding get_by_mac_address get_by_ip_address get_by_hostname
get-agree next cell cs k p fresh found =
    let (v, g) =
      run-IsAgreed (new_service next cell) cs fresh (new_service-IsValid next cell)
        (new_service-IsAgreed next cell) in
    let s = run (new_service next cell) cs in
    let there : find (s.cell p).addresses.hostname s.hostname_index ≡ some p = elim found [
      | inl e ↦ rw (v.host_key k p e) e
      | inr (inl e) ↦ v.mac_host k p e
      | inr (inr e) ↦ v.ip_host k p e
    ] in
    (there, g.host_mac _ p there, g.host_ip _ p there)

-- A taken MAC address is not refused: a station that is on, under a hostname that is not taken and with a MAC
-- address that is taken, is inserted with the result true, is then found by its hostname, and is
-- not in the list of participants, which stays as it was.
insert_taken_mac :
    (s : ManagementService) (p q : ℕ)
    → (s.cell p).status ≢ disconnected
    → get_by_hostname (s.cell p).addresses.hostname s ≡ none
    → get_by_mac_address (s.cell p).addresses.mac s ≡ some q
    → ((insert p s).1 ≡ true)
      × (get_by_hostname (s.cell p).addresses.hostname (insert p s).0 ≡ some p)
      × (participant_list (insert p s).0 ≡ participant_list s)
unfolding get_by_hostname get_by_mac_address participant_list insert map_insert status_eq
insert_taken_mac s p q on fresh taken = (
  ground arith,
  ground (
    arith,
    find-place (s.cell p).addresses.hostname (s.cell p).addresses.hostname p s.hostname_index fresh,
    bytes_eq_refl (s.cell p).addresses.hostname,
  ),
  ground arith,
)
