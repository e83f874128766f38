-- ===== src/Interface/Commands.antt =====
-- The command lines that handle_manager_input of src/interface.cpp understands.
use sleep_manager.Base.{
  ℕ, ◌≡◌, ◌≢◌, ◌∙◌, refl, sym, ap, false, [], ◌∷◌, ◌++◌, append-nil, map, inl, inr, Bool-cases,
  bytes_eq, Bytes, codes, All, length, take-append, drop-append, if◌then◌else◌, arith,
}
use sleep_manager.Text.Number.{is_space}
use sleep_manager.Text.Stream.{is_nil}
use sleep_manager.Management.{ManagementService, wakeup}
use sleep_manager.Interface.{trim_whitespace, toupper, find_pos, split_line, handle_line}
use sleep_manager.Interface.Trim.{Spaces, StartsWell, EndsWell, trim_whitespace-Spaces}

abbrev Spaceless : Bytes → Type 0
Spaceless = All (λ c. is_space c ≡ false)

is_space-toupper : (c : ℕ) → is_space (toupper c) ≡ is_space c
unfolding is_space toupper
is_space-toupper c = ground arith

map-toupper-Spaceless : (w v : Bytes) → map toupper w ≡ v → Spaceless v → Spaceless w
map-toupper-Spaceless [] v e h = tt
map-toupper-Spaceless (c ∷ w) [] e h = cc
map-toupper-Spaceless (c ∷ w) (d ∷ v) e (hd, hv) =
    (sym (is_space-toupper c) ∙ rw (head e) hd, map-toupper-Spaceless w v (tail e) hv)
  where
    head : toupper c ∷ map toupper w ≡ d ∷ v → toupper c ≡ d
    head e = cc

    tail : toupper c ∷ map toupper w ≡ d ∷ v → map toupper w ≡ v
    tail e = cc

find_pos-Spaceless : (w s : Bytes) → Spaceless w → find_pos b' ' (w ++ b' ' ∷ s) ≡ length w
unfolding find_pos is_space
find_pos-Spaceless [] s _ = refl
find_pos-Spaceless (c ∷ w) s (hc, hw) = ground (arith, find_pos-Spaceless w s hw)

StartsWell-append : (c : ℕ) (w s : Bytes) → Spaceless (c ∷ w) → StartsWell ((c ∷ w) ++ s)
StartsWell-append c w s (h, _) = h

EndsWell-append : (w h : Bytes) → EndsWell h → EndsWell (w ++ h)
EndsWell-append [] h e = e
EndsWell-append (c ∷ []) [] e = absurd e
EndsWell-append (c ∷ []) (d ∷ h) e = e
EndsWell-append (c ∷ d ∷ w) h e = EndsWell-append (d ∷ w) h e

split_line-trimmed :
    (line w h v : Bytes)
    → trim_whitespace line ≡ w ++ b' ' ∷ h
    → Spaceless w
    → map toupper w ≡ v
    → trim_whitespace (b' ' ∷ h) ≡ h
    → split_line line ≡ (v, h)
unfolding split_line
split_line-trimmed line w h v t hw e th =
    rw (t, find_pos-Spaceless w h hw, take-append w (b' ' ∷ h), drop-append w (b' ' ∷ h), e)
      (ap (λ (u : Bytes). (v, u)) th)

EndsWell-space : (h : Bytes) → EndsWell h → EndsWell (b' ' ∷ h)
EndsWell-space [] e = absurd e
EndsWell-space (d ∷ h) e = e

trim_whitespace-space : (h : Bytes) → StartsWell h → EndsWell h → trim_whitespace (b' ' ∷ h) ≡ h
unfolding is_space
trim_whitespace-space h hs he =
    ap (λ (t : Bytes). trim_whitespace (b' ' ∷ t)) (sym (append-nil h))
    ∙ trim_whitespace-Spaces (b' ' ∷ []) h [] (refl, tt) tt hs he

-- A command word, a space and an argument, with spaces around.
split_line-words :
    (a w h b v : Bytes)
    → Spaces a
    → Spaces b
    → map toupper w ≡ v
    → v ≢ []
    → Spaceless v
    → StartsWell h
    → EndsWell h
    → split_line (a ++ ((w ++ b' ' ∷ h) ++ b)) ≡ (v, h)
split_line-words a [] h b v ha hb e ne hv hs he = absurd (ne (sym e))
split_line-words a (c ∷ w) h b v ha hb e ne hv hs he =
    let word = map-toupper-Spaceless (c ∷ w) v e hv in
    split_line-trimmed _ (c ∷ w) h v
      (trim_whitespace-Spaces a ((c ∷ w) ++ b' ' ∷ h) b ha hb word.0
        (EndsWell-append (c ∷ w) (b' ' ∷ h) (EndsWell-space h he)))
      word e (trim_whitespace-space h hs he)

is_nil-StartsWell : (h : Bytes) → StartsWell h → is_nil h ≡ false
is_nil-StartsWell [] e = absurd e
is_nil-StartsWell (c ∷ h) _ = refl

wakeup_word : Spaceless (codes "WAKEUP")
unfolding is_space
wakeup_word = (refl, (refl, (refl, (refl, (refl, (refl, tt))))))

-- A line with the word WAKEUP, in small or capital letters, one space and a hostname, which may hold
-- spaces but neither begins nor ends with one, and any spaces around: it wakes this host up, and
-- writes an error only if the table refuses.
pub handle_line-wakeup :
    (a w h b : Bytes) (s : ManagementService)
    → Spaces a
    → Spaces b
    → map toupper w ≡ codes "WAKEUP"
    → StartsWell h
    → EndsWell h
    → handle_line (a ++ ((w ++ b' ' ∷ h) ++ b)) s
      ≡ ((wakeup h s).0, if (wakeup h s).1 then [] else (codes "could not wake up " ++ h) ∷ [])
unfolding handle_line bytes_eq
handle_line-wakeup a w h b s ha hb e hs he =
    rw
      (
        split_line-words a w h b (codes "WAKEUP") ha hb e (λ e. cc) wakeup_word hs he,
        is_nil-StartsWell h hs,
      )
      (elim (Bool-cases (wakeup h s).1) [ inl y ↦ rw y | inr y ↦ rw y ])
