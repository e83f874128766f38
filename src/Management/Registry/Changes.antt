-- ===== src/Management/Registry/Changes.antt =====
-- How the operations of src/management.cpp change the list of the stations held.
use sleep_manager.Base.{
  ℕ, ◌<◌, ◌≡◌, ◌≢◌, refl, ap₂, true, false, ◌==◌, if◌then◌else◌, List, [], ◌∷◌, map, none, some,
  Bytes, bytes_eq, bytes_eq_iff, arith,
}
use sleep_manager.Base.Map.{find, find-remove}
use sleep_manager.Address.{NodeAddresses}
use sleep_manager.WorkStation.{WorkStation, Status, disconnected}
use sleep_manager.Management.{ManagementService, new_station, set_status, change_status}
use sleep_manager.Management.Invariant.{
  new_station-IsValid, change_status-IsValid, inserted, inserted-IsValid, find-hostname,
}
use sleep_manager.Management.Agreement.{
  new_station-IsAgreed, change_status-IsAgreed, inserted-IsAgreed, without-IsAgreed,
}
use sleep_manager.Management.Removal.{without, without-IsValid}
use sleep_manager.Management.Registry.{Key, key_of, take_out, put_status}
use sleep_manager.Management.Registry.Listed.{
  elem, except, elem-except, index_of, IsListed, listed, key-found, map-same,
}

-- A new object is not listed.
pub new_station-IsListed :
    (a : NodeAddresses) (status : Status) (s : ManagementService) (ps : List ℕ)
    → IsListed s ps
    → let t = (new_station a status s).0 in IsListed t ps × (map t.cell ps ≡ map s.cell ps)
unfolding new_station
new_station-IsListed a status s ps l =
    let made : (p : ℕ) → elem p ps ≡ true → p < s.next =
      λ p m. l.valid.host_made _ p (l.sound p m) in
    (
      record {
        valid = new_station-IsValid a status s l.valid;
        agreed = new_station-IsAgreed a status s l.valid l.agreed;
        sound = λ p m. ground (arith, made p m, l.sound p m);
        complete = l.complete;
      },
      map-same _ _ ps (λ p m. ground (arith, made p m)),
    )

inserted_sound :
    (q : ℕ) (s : ManagementService) (ps : List ℕ)
    → IsListed s ps
    → find (s.cell q).addresses.hostname s.hostname_index ≡ none
    → (p : ℕ) → elem p (q ∷ ps) ≡ true
    → find ((inserted q s).cell p).addresses.hostname (inserted q s).hostname_index ≡ some p
unfolding inserted
inserted_sound q s ps l fh p m = ground (
  arith,
  find-hostname q s fh (s.cell p).addresses.hostname,
  l.sound p,
  bytes_eq_iff (s.cell q).addresses.hostname (s.cell p).addresses.hostname,
)

pub inserted-IsListed :
    (q : ℕ) (s : ManagementService) (ps : List ℕ)
    → IsListed s ps
    → q < s.next
    → (s.cell q).status ≢ disconnected
    → find (s.cell q).addresses.hostname s.hostname_index ≡ none
    → find (s.cell q).addresses.mac s.mac_address_index ≡ none
    → find (s.cell q).addresses.ip s.ip_address_index ≡ none
    → IsListed (inserted q s) (q ∷ ps)
inserted-IsListed q s ps l made on fh fm fi = record {
  valid = inserted-IsValid q s fh l.valid made on;
  agreed = inserted-IsAgreed q s (fm, fi) fh l.agreed;
  sound = inserted_sound q s ps l fh;
  complete = λ k p e. ground (arith, find-hostname q s fh k, l.complete k p);
}

without_sound :
    (q : ℕ) (s : ManagementService) (ps : List ℕ)
    → IsListed s ps
    → find (s.cell q).addresses.hostname s.hostname_index ≡ some q
    → (p : ℕ) → elem p (except q ps) ≡ true
    → find ((without q s).cell p).addresses.hostname (without q s).hostname_index ≡ some p
unfolding without
without_sound q s ps l there p m = ground (
  arith,
  elem-except q p ps,
  l.sound p,
  find-remove (s.cell q).addresses.hostname (s.cell p).addresses.hostname s.hostname_index,
  bytes_eq_iff (s.cell q).addresses.hostname (s.cell p).addresses.hostname,
)

without_complete :
    (q : ℕ) (s : ManagementService) (ps : List ℕ)
    → IsListed s ps
    → (k : Bytes) (p : ℕ) → find k (without q s).hostname_index ≡ some p
    → elem p (except q ps) ≡ true
unfolding without
without_complete q s ps l k p e = ground (
  arith,
  elem-except q p ps,
  l.complete k p,
  l.valid.host_key k p,
  find-remove (s.cell q).addresses.hostname k s.hostname_index,
  bytes_eq_iff (s.cell q).addresses.hostname k,
)

pub without-IsListed :
    (s : ManagementService) (ps : List ℕ) (i : Key) (k : Bytes) (q : ℕ)
    → IsListed s ps
    → find k (index_of i s) ≡ some q
    → IsListed (without q s) (except q ps)
without-IsListed s ps i k q l e =
    let there : find (s.cell q).addresses.hostname s.hostname_index ≡ some q =
      l.sound q (listed s ps i k q l e).0 in
    record {
      valid = without-IsValid q s l.valid there;
      agreed = without-IsAgreed q s there l.valid l.agreed;
      sound = without_sound q s ps l there;
      complete = without_complete q s ps l;
    }

take_out-except :
    (f g : ℕ → WorkStation) (i : Key) (k : Bytes) (q : ℕ) (ps : List ℕ)
    → ((p : ℕ) → (p == q) ≡ false → f p ≡ g p)
    → ((p : ℕ) → elem p ps ≡ true → bytes_eq (key_of i (g p)) k ≡ (p == q))
    → map f (except q ps) ≡ take_out i k (map g ps)
take_out-except f g i k q [] other same = refl
take_out-except f g i k q (p ∷ ps) other same = ground (
  arith,
  same p (ground arith),
  other p,
  take_out-except f g i k q ps other (λ r m. same r (ground (arith, m))),
)

-- The stations without the one that a key finds.
pub without-take_out :
    (s : ManagementService) (ps : List ℕ) (i : Key) (k : Bytes) (q : ℕ)
    → IsListed s ps
    → find k (index_of i s) ≡ some q
    → map (without q s).cell (except q ps) ≡ take_out i k (map s.cell ps)
unfolding without set_status
without-take_out s ps i k q l e =
    take_out-except _ s.cell i k q ps (λ p n. ground (arith, n))
      (λ p m. key-found s ps i k q p l e m)

put_status-map :
    (f g : ℕ → WorkStation) (i : Key) (k : Bytes) (status : Status) (q : ℕ) (ps : List ℕ)
    → ((p : ℕ) → f p ≡ (if p == q then record (g p) { status = status } else g p))
    → ((p : ℕ) → elem p ps ≡ true → bytes_eq (key_of i (g p)) k ≡ (p == q))
    → map f ps ≡ put_status i k status (map g ps)
put_status-map f g i k status q [] changed same = refl
put_status-map f g i k status q (p ∷ ps) changed same =
    ap₂ ◌∷◌ (rw (same p (ground arith)) (changed p))
      (put_status-map f g i k status q ps changed (λ r m. same r (ground (arith, m))))

pub change_status-IsListed :
    (q : ℕ) (status : Status) (s : ManagementService) (ps : List ℕ)
    → status ≢ disconnected
    → IsListed s ps
    → IsListed (change_status q status s) ps
unfolding change_status
change_status-IsListed q status s ps on l = record {
  valid = change_status-IsValid q status s on l.valid;
  agreed = change_status-IsAgreed q status s l.agreed;
  sound = λ p m. ground (arith, l.sound p m);
  complete = l.complete;
}

-- The stations with the status of the one that a key finds changed.
pub change_status-put_status :
    (s : ManagementService) (ps : List ℕ) (i : Key) (k : Bytes) (q : ℕ) (status : Status)
    → IsListed s ps
    → find k (index_of i s) ≡ some q
    → map (change_status q status s).cell ps ≡ put_status i k status (map s.cell ps)
unfolding change_status set_status
change_status-put_status s ps i k q status l e =
    put_status-map _ s.cell i k status q ps (λ p. refl) (λ p m. key-found s ps i k q p l e m)
