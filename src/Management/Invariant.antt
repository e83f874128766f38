-- ===== src/Management/Invariant.antt =====
-- The three maps of src/management.cpp under every call.
use sleep_manager.Base.{
  ℕ, ◌<◌, ◌≡◌, ◌≢◌, Bytes, none, some, arith, bytes_eq, bytes_eq_iff, if◌then◌else◌,
}
use sleep_manager.Base.Map.{find, insert as map_insert, place, find-place, find-insert}
use sleep_manager.Address.{NodeAddresses}
use sleep_manager.WorkStation.{WorkStation, Status, disconnected, status_eq}
use sleep_manager.Management.{
  ManagementService, new_service, new_station, insert, insert_addresses, change_status,
}

-- Every station in the table is in the hostname index under its own name, is one that was made, and
-- is not DISCONNECTED; the two other indices hold their stations under their own addresses.
pub record IsValid (s : ManagementService) : Type 0 where
  pub host_key :
      (k : Bytes) (p : ℕ) → find k s.hostname_index ≡ some p → (s.cell p).addresses.hostname ≡ k
  pub host_made : (k : Bytes) (p : ℕ) → find k s.hostname_index ≡ some p → p < s.next
  pub host_on :
      (k : Bytes) (p : ℕ) → find k s.hostname_index ≡ some p → (s.cell p).status ≢ disconnected
  pub mac_key :
      (k : Bytes) (p : ℕ) → find k s.mac_address_index ≡ some p → (s.cell p).addresses.mac ≡ k
  pub mac_host :
      (k : Bytes) (p : ℕ)
      → find k s.mac_address_index ≡ some p
      → find (s.cell p).addresses.hostname s.hostname_index ≡ some p
  pub ip_key :
      (k : Bytes) (p : ℕ) → find k s.ip_address_index ≡ some p → (s.cell p).addresses.ip ≡ k
  pub ip_host :
      (k : Bytes) (p : ℕ)
      → find k s.ip_address_index ≡ some p
      → find (s.cell p).addresses.hostname s.hostname_index ≡ some p

pub new_service-IsValid : (next : ℕ) (cell : ℕ → WorkStation) → IsValid (new_service next cell)
unfolding new_service find
new_service-IsValid next cell = record {
  host_key = λ k p e. absurd (cc);
  host_made = λ k p e. absurd (cc);
  host_on = λ k p e. absurd (cc);
  mac_key = λ k p e. absurd (cc);
  mac_host = λ k p e. absurd (cc);
  ip_key = λ k p e. absurd (cc);
  ip_host = λ k p e. absurd (cc);
}

pub new_station-IsValid :
    (a : NodeAddresses) (status : Status) (s : ManagementService)
    → IsValid s
    → IsValid (new_station a status s).0
unfolding new_station
new_station-IsValid a status s v = record {
  host_key = λ k p e. ground (arith, v.host_key k p e, v.host_made k p e);
  host_made = λ k p e. ground (arith, v.host_made k p e);
  host_on = λ k p e. ground (arith, v.host_on k p, v.host_made k p e);
  mac_key = λ k p e.
      ground
        (arith, v.mac_key k p e, v.mac_host k p e, v.host_made (s.cell p).addresses.hostname p);
  mac_host = λ k p e. ground (arith, v.mac_host k p e, v.host_made (s.cell p).addresses.hostname p);
  ip_key = λ k p e.
      ground (arith, v.ip_key k p e, v.ip_host k p e, v.host_made (s.cell p).addresses.hostname p);
  ip_host = λ k p e. ground (arith, v.ip_host k p e, v.host_made (s.cell p).addresses.hostname p);
}

-- A new status that is not DISCONNECTED.
pub change_status-IsValid :
    (q : ℕ) (status : Status) (s : ManagementService)
    → status ≢ disconnected
    → IsValid s
    → IsValid (change_status q status s)
unfolding change_status
change_status-IsValid q status s h v = record {
  host_key = λ k p e. ground (arith, v.host_key k p e);
  host_made = λ k p e. v.host_made k p e;
  host_on = λ k p e. ground (arith, v.host_on k p);
  mac_key = λ k p e. ground (arith, v.mac_key k p e);
  mac_host = λ k p e. ground (arith, v.mac_host k p e);
  ip_key = λ k p e. ground (arith, v.ip_key k p e);
  ip_host = λ k p e. ground (arith, v.ip_host k p e);
}

-- The table with the station `q` under its addresses.
unfoldable pub inserted : ℕ → ManagementService → ManagementService
unfolding insert_addresses
inserted q s =
    insert_addresses q
      (record s { hostname_index = place (s.cell q).addresses.hostname q s.hostname_index })

-- `insert` changes nothing, or it puts a station that is on under a fresh hostname.
pub insert_cases {ℓ} :
    (P : ManagementService → Type ℓ) (q : ℕ) (s : ManagementService)
    → P s
    → ((s.cell q).status ≢ disconnected
        → find (s.cell q).addresses.hostname s.hostname_index ≡ none
        → P (inserted q s))
    → P (insert q s).0
unfolding insert map_insert status_eq inserted
insert_cases P q s same fresh = ground arith

module _ (q : ℕ) (s : ManagementService)
    (fresh : find (s.cell q).addresses.hostname s.hostname_index ≡ none) where
  pub find-hostname :
      (k : Bytes)
      → find k (inserted q s).hostname_index
        ≡ (if bytes_eq (s.cell q).addresses.hostname k then some q else find k s.hostname_index)
  unfolding inserted
  find-hostname k = find-place (s.cell q).addresses.hostname k q s.hostname_index fresh

  pub inserted-IsValid :
      IsValid s → q < s.next → (s.cell q).status ≢ disconnected → IsValid (inserted q s)
  unfolding inserted
  inserted-IsValid v made on = record {
    host_key = λ k p e.
        ground
          (arith, find-hostname k, bytes_eq_iff (s.cell q).addresses.hostname k, v.host_key k p);
    host_made = λ k p e. ground (arith, find-hostname k, v.host_made k p);
    host_on = λ k p e. ground (arith, find-hostname k, v.host_on k p);
    mac_key = λ k p e. ground (
      arith,
      find-insert (s.cell q).addresses.mac k q s.mac_address_index,
      bytes_eq_iff (s.cell q).addresses.mac k,
      v.mac_key k p,
    );
    mac_host = λ k p e. ground (
      arith,
      find-insert (s.cell q).addresses.mac k q s.mac_address_index,
      find-hostname (s.cell p).addresses.hostname,
      bytes_eq_iff (s.cell q).addresses.hostname (s.cell p).addresses.hostname,
      v.mac_host k p,
    );
    ip_key = λ k p e. ground (
      arith,
      find-insert (s.cell q).addresses.ip k q s.ip_address_index,
      bytes_eq_iff (s.cell q).addresses.ip k,
      v.ip_key k p,
    );
    ip_host = λ k p e. ground (
      arith,
      find-insert (s.cell q).addresses.ip k q s.ip_address_index,
      find-hostname (s.cell p).addresses.hostname,
      bytes_eq_iff (s.cell q).addresses.hostname (s.cell p).addresses.hostname,
      v.ip_host k p,
    );
  }
