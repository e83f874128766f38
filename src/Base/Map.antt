-- ===== src/Base/Map.antt =====
-- `std::map` with a key of bytes: an association list in key order, with unique keys.
use mathlib.Core.Path.{◌≡◌, refl}
use mathlib.Core.Bool.{Bool, true, false}
use mathlib.Core.Option.{Option, none, some}
use mathlib.Core.List.{List, [], ◌∷◌, map}
use native.Mathlib.Omega.{arith}
use sleep_manager.Base.Tests.{if◌then◌else◌}
use sleep_manager.Base.Strings.{Bytes, bytes_eq, bytes_lt, bytes_eq_iff}

abbrev pub Map {ℓ} : Type ℓ → Type ℓ
Map V = List (Bytes × V)

module _ {ℓ} {V : Type ℓ} where
  -- `at`, with `none` for `out_of_range`.
  unfoldable pub find : Bytes → Map V → Option V
  find k [] = none
  find k ((j, v) ∷ m) = if bytes_eq j k then some v else find k m

  -- Before the first greater key.
  unfoldable pub place : Bytes → V → Map V → Map V
  place k v [] = (k, v) ∷ []
  place k v ((j, w) ∷ m) = if bytes_lt k j then (k, v) ∷ (j, w) ∷ m else (j, w) ∷ place k v m

  -- `insert` keeps an entry that is there, and tells whether it inserted.
  unfoldable pub insert : Bytes → V → Map V → Map V × Bool
  insert k v m = elim (find k m) [ none ↦ (place k v m, true) | some w ↦ (m, false) ]

  -- What `extract` leaves; the node that it returns is `find`'s.
  unfoldable pub remove : Bytes → Map V → Map V
  remove k [] = []
  remove k ((j, v) ∷ m) = if bytes_eq j k then remove k m else (j, v) ∷ remove k m

  unfoldable pub values : Map V → List V
  values = map (λ e. e.1)

  pub find-place :
      (k j : Bytes) (v : V) (m : Map V)
      → find k m ≡ none
      → find j (place k v m) ≡ (if bytes_eq k j then some v else find j m)
  unfolding find place
  find-place k j v [] h = refl
  find-place k j v ((i, w) ∷ m) h =
      ground (arith, find-place k j v m, bytes_eq_iff i k, bytes_eq_iff k j, bytes_eq_iff i j)

  -- A lookup after an insertion.
  pub find-insert :
      (k j : Bytes) (v : V) (m : Map V)
      → find j (insert k v m).0
        ≡ elim (find k m) [ none ↦ (if bytes_eq k j then some v else find j m) | some w ↦ find j m ]
  unfolding insert
  find-insert k j v m = ground (arith, find-place k j v m)

  -- A lookup after a removal.
  pub find-remove :
      (k j : Bytes) (m : Map V) → find j (remove k m) ≡ (if bytes_eq k j then none else find j m)
  unfolding find remove
  find-remove k j [] = ground arith
  find-remove k j ((i, w) ∷ m) =
      ground (arith, find-remove k j m, bytes_eq_iff i k, bytes_eq_iff k j, bytes_eq_iff i j)
