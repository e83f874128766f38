-- ===== src/Interface/Trim.antt =====
-- What trim_whitespace of src/interface.cpp takes away.
use sleep_manager.Base.{◌≡◌, ◌∙◌, refl, ap, true, false, [], ◌∷◌, ◌++◌, Bytes, All, arith}
use sleep_manager.Text.Number.{is_space, skip_space}
use sleep_manager.Interface.{trim_end, trim_whitespace}

abbrev pub Spaces : Bytes → Type 0
Spaces = All (λ c. is_space c ≡ true)

-- A text whose first and last character are no spaces.
abbrev pub StartsWell : Bytes → Type 0
StartsWell [] = ⊥
StartsWell (c ∷ s) = is_space c ≡ false

abbrev pub EndsWell : Bytes → Type 0
EndsWell [] = ⊥
EndsWell (c ∷ []) = is_space c ≡ false
EndsWell (c ∷ d ∷ s) = EndsWell (d ∷ s)

skip_space-Spaces : (a t : Bytes) → Spaces a → StartsWell t → skip_space (a ++ t) ≡ t
unfolding skip_space
skip_space-Spaces [] [] _ h = absurd h
skip_space-Spaces [] (c ∷ t) _ h = rw h
skip_space-Spaces (c ∷ a) t (hc, ha) h = rw hc (skip_space-Spaces a t ha h)

trim_end-Spaces : (b : Bytes) → Spaces b → trim_end b ≡ []
unfolding trim_end
trim_end-Spaces [] _ = refl
trim_end-Spaces (c ∷ b) (hc, hb) = rw (trim_end-Spaces b hb, hc)

trim_end-append : (t b : Bytes) → EndsWell t → Spaces b → trim_end (t ++ b) ≡ t
unfolding trim_end
trim_end-append [] b h hb = absurd h
trim_end-append (c ∷ []) b h hb = rw (trim_end-Spaces b hb, h)
trim_end-append (c ∷ d ∷ t) b h hb = ground (arith, trim_end-append (d ∷ t) b h hb)

-- The spaces around a text.
pub trim_whitespace-Spaces :
    (a t b : Bytes)
    → Spaces a
    → Spaces b
    → StartsWell t
    → EndsWell t
    → trim_whitespace (a ++ (t ++ b)) ≡ t
unfolding trim_whitespace
trim_whitespace-Spaces a [] b _ _ h _ = absurd h
trim_whitespace-Spaces a (c ∷ t) b ha hb hs he =
    ap trim_end (skip_space-Spaces a ((c ∷ t) ++ b) ha hs) ∙ trim_end-append (c ∷ t) b he hb
