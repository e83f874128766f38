-- ===== src/Base/Sort.antt =====
-- std::sort: the list sorted by a comparison, with no element directly before one that comes before it.
use mathlib.Core.List.{Perm}
use mathlib.Core.List.Perm
use sleep_manager.Base.{◌≡◌, Bool, true, false, List, [], ◌∷◌, Bool-cases, inl, inr, if◌then◌else◌}

unfoldable place {ℓ} : {A : Type ℓ} → (A → A → Bool) → A → List A → List A
place before w [] = w ∷ []
place before w (v ∷ vs) =
    let rest = place before w vs in if before v w then v ∷ rest else w ∷ v ∷ vs

unfoldable pub sort {ℓ} : {A : Type ℓ} → (A → A → Bool) → List A → List A
unfolding place
sort before [] = []
sort before (w ∷ ws) = place before w (sort before ws)

abbrev pub IsAscending {ℓ} : {A : Type ℓ} → (A → A → Bool) → List A → Type 0
IsAscending before [] = Unit
IsAscending before (v ∷ []) = Unit
IsAscending before (v ∷ w ∷ ws) = (before w v ≡ false) × IsAscending before (w ∷ ws)

module _ {A : Type 0} (before : A → A → Bool)
    (asymmetric : (v w : A) → before v w ≡ true → before w v ≡ false) where
  place-perm : (w : A) (vs : List A) → Perm (place before w vs) (w ∷ vs)
  unfolding place
  place-perm w [] = Perm.rfl
  place-perm w (v ∷ vs) = elim (Bool-cases (before v w)) [
    | inl first ↦ rw first (Perm.trans (Perm.cons v (place-perm w vs)) (Perm.swap w v vs))
    | inr behind ↦ rw behind Perm.rfl
  ]

  place-IsAscending :
      (w : A) (vs : List A) → IsAscending before vs → IsAscending before (place before w vs)
  unfolding place
  place-IsAscending w [] _ = tt
  place-IsAscending w (v ∷ []) _ = elim (Bool-cases (before v w)) [
    | inl first ↦ rw first (asymmetric v w first, tt)
    | inr behind ↦ rw behind (behind, tt)
  ]
  place-IsAscending w (v ∷ u ∷ us) (vu, rest) = elim (Bool-cases (before v w)) [
    | inr behind ↦ rw behind (behind, (vu, rest))
    | inl first ↦
        let placed = place-IsAscending w (u ∷ us) rest in
        elim (Bool-cases (before u w)) [
          | inl later ↦ rw (first, later) (vu, (rw later at placed))
          | inr here ↦ rw (first, here) (asymmetric v w first, (rw here at placed))
        ]
  ]

  -- Sorted by a comparison that is asymmetric, a list is ascending, with each element as often as before.
  pub sort_lem : (ws : List A) → IsAscending before (sort before ws) × Perm (sort before ws) ws
  unfolding sort
  sort_lem [] = (tt, Perm.rfl)
  sort_lem (w ∷ ws) =
      let (ascending, perm) = sort_lem ws in
      (
        place-IsAscending w (sort before ws) ascending,
        Perm.trans (place-perm w (sort before ws)) (Perm.cons w perm),
      )
