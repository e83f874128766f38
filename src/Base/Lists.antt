-- ===== src/Base/Lists.antt =====
-- Lists measured by native numbers, and a predicate on all entries.
use Prim.Native.Nat.{ℕ, zero, suc, ◌+◌}
use mathlib.Core.Path.{◌≡◌, refl, ap}
use mathlib.Core.Bool.{Bool, true, false, ◌||◌}
use mathlib.Core.Logic.{◌⊎◌}
use mathlib.Core.List.{List, [], ◌∷◌, ◌++◌, map}
use native.Mathlib.Omega.{arith}

module _ {ℓ} {A : Type ℓ} where
  abbrev pub length : List A → ℕ
  length [] = 0
  length (x ∷ xs) = suc (length xs)

  abbrev pub take : ℕ → List A → List A
  take zero xs = []
  take (suc n) [] = []
  take (suc n) (x ∷ xs) = x ∷ take n xs

  abbrev pub drop : ℕ → List A → List A
  drop zero xs = xs
  drop (suc n) [] = []
  drop (suc n) (x ∷ xs) = drop n xs

  abbrev pub replicate : ℕ → A → List A
  replicate zero a = []
  replicate (suc n) a = a ∷ replicate n a

  pub length-append : (xs ys : List A) → length (xs ++ ys) ≡ length xs + length ys
  length-append [] ys = omega arith
  length-append (x ∷ xs) ys = omega (arith, length-append xs ys)

  pub take-append : (xs ys : List A) → take (length xs) (xs ++ ys) ≡ xs
  take-append [] ys = refl
  take-append (x ∷ xs) ys = ap (◌∷◌ x) (take-append xs ys)

  pub drop-append : (xs ys : List A) → drop (length xs) (xs ++ ys) ≡ ys
  drop-append [] ys = refl
  drop-append (x ∷ xs) ys = drop-append xs ys

  pub drop-length : (xs : List A) → drop (length xs) xs ≡ []
  drop-length [] = refl
  drop-length (x ∷ xs) = drop-length xs

  pub length-replicate : (n : ℕ) (a : A) → length (replicate n a) ≡ n
  length-replicate zero a = refl
  length-replicate (suc n) a = ap suc (length-replicate n a)

module _ {ℓ} {A : Type ℓ} where
  abbrev pub any : List A → (A → Bool) → Bool
  any [] p = false
  any (x ∷ xs) p = p x || any xs p

  pub any-append_left : (xs ys : List A) (p : A → Bool) → any xs p ≡ true → any (xs ++ ys) p ≡ true
  any-append_left [] ys p e = cc
  any-append_left (x ∷ xs) ys p e = ground (arith, any-append_left xs ys p)

  pub any-append_right : (xs ys : List A) (p : A → Bool) → any ys p ≡ true → any (xs ++ ys) p ≡ true
  any-append_right [] ys p e = e
  any-append_right (x ∷ xs) ys p e = ground (arith, any-append_right xs ys p e)

  -- One entry less: it is the one that was found, or another is found.
  pub any-middle :
      (xs : List A) (x : A) (ys : List A) (p : A → Bool)
      → any (xs ++ x ∷ ys) p ≡ true
      → (p x ≡ true) ⊎ (any (xs ++ ys) p ≡ true)
  any-middle [] x ys p e = ground arith
  any-middle (w ∷ xs) x ys p e = ground (arith, any-middle xs x ys p)

module _ {ℓ κ} {A : Type ℓ} {B : Type κ} where
  pub length-map : (xs : List A) (f : A → B) → length (map f xs) ≡ length xs
  length-map [] f = refl
  length-map (x ∷ xs) f = ap suc (length-map xs f)

module _ {ℓ κ} {A : Type ℓ} (P : A → Type κ) where
  abbrev pub All : List A → Type κ
  All [] = Unit
  All (x ∷ xs) = P x × All xs

  pub All-append : (xs ys : List A) → All xs → All ys → All (xs ++ ys)
  All-append [] ys _ hy = hy
  All-append (x ∷ xs) ys (px, hx) hy = (px, All-append xs ys hx hy)

  pub All-middle : (xs : List A) (x : A) (ys : List A) → All (xs ++ x ∷ ys) → P x × All (xs ++ ys)
  All-middle [] x ys (h, hs) = (h, hs)
  All-middle (w ∷ xs) x ys (h, hs) = let (hx, h') = All-middle xs x ys hs in (hx, (h, h'))

  pub All-insert : (xs zs ys : List A) → All zs → All (xs ++ ys) → All (xs ++ (zs ++ ys))
  All-insert [] zs ys hz h = All-append zs ys hz h
  All-insert (x ∷ xs) zs ys hz (hx, h) = (hx, All-insert xs zs ys hz h)
