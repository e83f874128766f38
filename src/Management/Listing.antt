-- ===== src/Management/Listing.antt =====
-- What `participant_list` of src/management.cpp returns.
use sleep_manager.Base.{
  ℕ, zero, suc, ◌≡◌, refl, ap, List, [], ◌∷◌, ◌++◌, map, Option, none, some, length, replicate,
}
use sleep_manager.Base.Map.{values}
use sleep_manager.Management.{ManagementService, participant_list}

-- How often a pointer stands in a list.
abbrev null_count : List (Option ℕ) → ℕ
null_count [] = 0
null_count (none ∷ ps) = suc (null_count ps)
null_count (some p ∷ ps) = null_count ps

abbrev pub stations : List (Option ℕ) → List ℕ
stations [] = []
stations (none ∷ ps) = stations ps
stations (some p ∷ ps) = p ∷ stations ps

null_count-list : (n : ℕ) (ps : List ℕ) → null_count (replicate n none ++ map some ps) ≡ n
null_count-list zero [] = refl
null_count-list zero (p ∷ ps) = null_count-list zero ps
null_count-list (suc n) ps = ap suc (null_count-list n ps)

stations-list : (n : ℕ) (ps : List ℕ) → stations (replicate n none ++ map some ps) ≡ ps
stations-list zero [] = refl
stations-list zero (p ∷ ps) = ap (◌∷◌ p) (stations-list zero ps)
stations-list (suc n) ps = stations-list n ps

-- The list has, besides the stations of the MAC index in the order of their keys, as many null
-- pointers as there are stations.
participant_list_nulls :
    (s : ManagementService)
    → (null_count (participant_list s) ≡ length s.mac_address_index)
      × (stations (participant_list s) ≡ values s.mac_address_index)
unfolding participant_list
participant_list_nulls s = (
  null_count-list (length s.mac_address_index) (values s.mac_address_index),
  stations-list (length s.mac_address_index) (values s.mac_address_index),
)
