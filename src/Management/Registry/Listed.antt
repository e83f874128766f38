-- ===== src/Management/Registry/Listed.antt =====
-- Lists of the stations that the indices of src/management.cpp hold.
use sleep_manager.Base.{
  ℕ, ◌≡◌, refl, ap₂, Bool, true, false, not, ◌&&◌, ◌||◌, ◌==◌, if◌then◌else◌, List, [], ◌∷◌, map,
  none, some, Bytes, bytes_eq, bytes_eq_iff, arith, Option-cases, inl, inr,
}
use sleep_manager.Base.Map.{Map, find}
use sleep_manager.WorkStation.{WorkStation}
use sleep_manager.Management.{ManagementService}
use sleep_manager.Management.Invariant.{IsValid}
use sleep_manager.Management.Agreement.{IsAgreed}
use sleep_manager.Management.View.{read}
use sleep_manager.Management.Registry.{Key, by_mac, by_ip, by_hostname, key_of, lookup}

abbrev pub elem : ℕ → List ℕ → Bool
elem p [] = false
elem p (q ∷ qs) = p == q || elem p qs

abbrev pub except : ℕ → List ℕ → List ℕ
except p [] = []
except p (q ∷ qs) = if q == p then except p qs else q ∷ except p qs

pub elem-except : (p q : ℕ) (qs : List ℕ) → elem q (except p qs) ≡ elem q qs && not (q == p)
elem-except p q [] = refl
elem-except p q (r ∷ qs) = ground (arith, elem-except p q qs)

abbrev pub index_of : Key → ManagementService → Map ℕ
index_of by_mac s = s.mac_address_index
index_of by_ip s = s.ip_address_index
index_of by_hostname s = s.hostname_index

-- The list has the stations of the hostname index.
pub record IsListed (s : ManagementService) (ps : List ℕ) : Type 0 where
  pub valid : IsValid s
  pub agreed : IsAgreed s
  pub sound :
      (p : ℕ) → elem p ps ≡ true → find (s.cell p).addresses.hostname s.hostname_index ≡ some p
  pub complete : (k : Bytes) (p : ℕ) → find k s.hostname_index ≡ some p → elem p ps ≡ true

-- So each index finds them, and no others.
found :
    (s : ManagementService) (ps : List ℕ) (i : Key) (p : ℕ)
    → IsListed s ps
    → elem p ps ≡ true
    → find (key_of i (s.cell p)) (index_of i s) ≡ some p
found s ps by_mac p l e = l.agreed.host_mac _ p (l.sound p e)
found s ps by_ip p l e = l.agreed.host_ip _ p (l.sound p e)
found s ps by_hostname p l e = l.sound p e

pub listed :
    (s : ManagementService) (ps : List ℕ) (i : Key) (k : Bytes) (p : ℕ)
    → IsListed s ps
    → find k (index_of i s) ≡ some p
    → (elem p ps ≡ true) × (key_of i (s.cell p) ≡ k)
listed s ps by_mac k p l e = (l.complete _ p (l.valid.mac_host k p e), l.valid.mac_key k p e)
listed s ps by_ip k p l e = (l.complete _ p (l.valid.ip_host k p e), l.valid.ip_key k p e)
listed s ps by_hostname k p l e = (l.complete k p e, l.valid.host_key k p e)

module _ (cell : ℕ → WorkStation) (i : Key) (index : Map ℕ) (k : Bytes) where
  lookup-none :
      (ps : List ℕ)
      → ((p : ℕ) → elem p ps ≡ true → find (key_of i (cell p)) index ≡ some p)
      → find k index ≡ none
      → lookup i k (map cell ps) ≡ none
  lookup-none [] h e = refl
  lookup-none (p ∷ ps) h e = ground (
    arith,
    lookup-none ps (λ q m. h q (ground (arith, m))) e,
    h p (ground arith),
    bytes_eq_iff (key_of i (cell p)) k,
  )

  lookup-some :
      (ps : List ℕ) (q : ℕ)
      → ((p : ℕ) → elem p ps ≡ true → find (key_of i (cell p)) index ≡ some p)
      → find k index ≡ some q
      → key_of i (cell q) ≡ k
      → elem q ps ≡ true
      → lookup i k (map cell ps) ≡ some (cell q)
  lookup-some [] q h e ek m = absurd (cc)
  lookup-some (p ∷ ps) q h e ek m = ground (
    arith,
    lookup-some ps q (λ r m'. h r (ground (arith, m'))) e ek,
    h p (ground arith),
    bytes_eq_iff (key_of i (cell p)) k,
  )

-- A lookup in the list of stations is the lookup in the index.
pub lookup-index :
    (s : ManagementService) (ps : List ℕ) (i : Key) (k : Bytes)
    → IsListed s ps
    → lookup i k (map s.cell ps) ≡ read s.cell (find k (index_of i s))
lookup-index s ps i k l = elim (Option-cases (find k (index_of i s))) [
  | inl e ↦ rw e (lookup-none s.cell i (index_of i s) k ps (λ p. found s ps i p l) e)
  | inr (q, e) ↦
      let (m, ek) = listed s ps i k q l e in
      rw e (lookup-some s.cell i (index_of i s) k ps q (λ p. found s ps i p l) e ek m)
]

-- The key of the station found tells it from the others.
pub key-found :
    (s : ManagementService) (ps : List ℕ) (i : Key) (k : Bytes) (q p : ℕ)
    → IsListed s ps
    → find k (index_of i s) ≡ some q
    → elem p ps ≡ true
    → bytes_eq (key_of i (s.cell p)) k ≡ (p == q)
key-found s ps i k q p l e m =
    ground (arith, found s ps i p l m, listed s ps i k q l e, bytes_eq_iff (key_of i (s.cell p)) k)

pub map-same :
    (f g : ℕ → WorkStation) (ps : List ℕ)
    → ((p : ℕ) → elem p ps ≡ true → f p ≡ g p)
    → map f ps ≡ map g ps
map-same f g [] h = refl
map-same f g (p ∷ ps) h =
    ap₂ ◌∷◌ (h p (ground arith)) (map-same f g ps (λ q m. h q (ground (arith, m))))
