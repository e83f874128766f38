-- ===== src/Text/Print.antt =====
-- Reading back what was printed: the digits of a number, in front of text that is no digit.
use native.Mathlib.Nat.{pow-suc}
use sleep_manager.Base.{
  ℕ, zero, suc, ◌+◌, ◌*◌, ◌/◌, ◌%◌, ◌^◌, ◌≤◌, ◌<◌, ◌≡◌, ◌∙◌, ap, refl, Bool, true, false, [], ◌∷◌,
  ◌++◌, none, some, Bytes, Bool-cases, ltb, lt→ltb, arith, inl, inr,
}
use sleep_manager.Text.Number.{digits, digit_value, scan_digits}

abbrev pub IsDigit : ℕ → Type 0
IsDigit c = (b'0' ≤ c) × (c ≤ b'9')

-- No digit of the base stands in front.
abbrev pub Stops : ℕ → Bytes → Type 0
Stops base [] = Unit
Stops base (c ∷ r) = digit_value base c ≡ none

pub scan_digits_stop :
    (base : ℕ) (s : Bytes) (n : ℕ) (any : Bool)
    → Stops base s
    → scan_digits base s n any ≡ record { value = n; any = any; rest = s }
unfolding scan_digits
scan_digits_stop base [] n any h = refl
scan_digits_stop base (c ∷ s) n any h = rw (h, scan_digits)

digit_value_decimal : (d : ℕ) → d < 10 → digit_value 10 (b'0' + d) ≡ some d
unfolding digit_value
digit_value_decimal d h = ground arith

-- One digit more.
scan_digit :
    (d : ℕ) (s : Bytes) (n : ℕ) (any : Bool)
    → d < 10
    → scan_digits 10 ((b'0' + d) ∷ s) n any ≡ scan_digits 10 s (n * 10 + d) true
unfolding scan_digits
scan_digit d s n any h = rw (digit_value_decimal d h, scan_digits)

scan_last :
    (n : ℕ) (out : Bytes)
    → scan_digits 10 ((b'0' + n % 10) ∷ out) (n / 10) true ≡ scan_digits 10 out n true
scan_last n out =
    scan_digit (n % 10) out (n / 10) true (omega arith)
    ∙ ap (λ (k : ℕ). scan_digits 10 out k true) (omega arith)

scan_small :
    (n : ℕ) (out : Bytes)
    → n < 10
    → scan_digits 10 ((b'0' + n % 10) ∷ out) 0 false ≡ scan_digits 10 out n true
scan_small n out h =
    scan_digit (n % 10) out 0 false (omega arith)
    ∙ ap (λ (k : ℕ). scan_digits 10 out k true) (omega arith)

-- Reading the digits of `n` gives `n`, and goes on behind them.
pub scan_digits-digits :
    (fuel n : ℕ) (out : Bytes)
    → n < 10 ^ suc fuel
    → scan_digits 10 (digits (suc fuel) n out) 0 false ≡ scan_digits 10 out n true
unfolding digits
scan_digits-digits zero n out h = rw (lt→ltb n 10 h) (scan_small n out h)
scan_digits-digits (suc fuel) n out h = elim (Bool-cases (ltb n 10)) [
  | inl small ↦ rw small (scan_small n out (ground arith))
  | inr large ↦ rw large (
      scan_digits-digits fuel (n / 10) ((b'0' + n % 10) ∷ out)
        (omega (arith, pow-suc 10 (suc fuel)))
      ∙ scan_last n out)
]

pub digits-append :
    (fuel n : ℕ) (out rest : Bytes) → digits fuel n (out ++ rest) ≡ digits fuel n out ++ rest
unfolding digits
digits-append zero n out rest = refl
digits-append (suc fuel) n out rest =
    ground (arith, digits-append fuel (n / 10) ((b'0' + n % 10) ∷ out) rest)

-- A number begins with a digit.
pub digits_head :
    (fuel n : ℕ) (out : Bytes)
    → (c : ℕ) × (r : Bytes) × (digits (suc fuel) n out ≡ c ∷ r) × IsDigit c
unfolding digits
digits_head zero n out = (b'0' + n % 10, out, ground arith, (omega arith, omega arith))
digits_head (suc fuel) n out = elim (Bool-cases (ltb n 10)) [
  | inl small ↦ (b'0' + n % 10, out, rw small, (omega arith, omega arith))
  | inr large ↦
      let (c, r, e, h) = digits_head fuel (n / 10) ((b'0' + n % 10) ∷ out) in (c, r, rw large e, h)
]
