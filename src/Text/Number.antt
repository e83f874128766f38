-- ===== src/Text/Number.antt =====
-- Numbers in decimal and hexadecimal: `std::to_string`, and the digits that `num_get` and `strtoull`
-- read.
use sleep_manager.Base.{
  ℕ, zero, suc, ◌+◌, ◌-◌, ◌*◌, ◌/◌, ◌%◌, ◌≡◌, refl, Bool, true, false, ◌&&◌, ◌||◌, [], ◌∷◌, Option,
  none, some, Bytes, codes, leb, ltb, ◌==◌, if◌then◌else◌,
}

-- The digits of a number, the last one first; `fuel` bounds their number.
unfoldable pub digits : ℕ → ℕ → Bytes → Bytes
digits zero n out = out
digits (suc fuel) n out =
    let d = b'0' + n % 10 in
    let more = digits fuel (n / 10) (d ∷ out) in if ltb n 10 then d ∷ out else more

-- `std::to_string` of a uint64_t, which has at most twenty digits.
unfoldable pub to_string : ℕ → Bytes
unfolding digits
to_string n = digits 20 n []

-- The value of a hexadecimal digit.
unfoldable hex_value : ℕ → Option ℕ
hex_value c =
    if leb b'0' c && leb c b'9'
    then some (c - b'0')
    else if leb b'a' c && leb c b'f'
    then some (c - b'a' + 10)
    else if leb b'A' c && leb c b'F'
    then some (c - b'A' + 10)
    else none

-- The value of a digit of the given base, ten or sixteen.
unfoldable pub digit_value : ℕ → ℕ → Option ℕ
unfolding hex_value
digit_value base c = elim (hex_value c) [
  | none ↦ none
  | some d ↦ if ltb d base then some d else none
]

-- A run of digits: its value behind `value`, whether there is one, and the text behind it.
pub record Digits : Type 0 where
  pub value : ℕ
  pub any : Bool
  pub rest : Bytes

unfoldable pub scan_digits : ℕ → Bytes → ℕ → Bool → Digits
scan_digits base [] n any = record { value = n; any = any; rest = [] }
scan_digits base (c ∷ s) n any = elim (digit_value base c) [
  | none ↦ record { value = n; any = any; rest = c ∷ s }
  | some d ↦ scan_digits base s (n * base + d) true
]

-- `isspace` in the C locale.
unfoldable pub is_space : ℕ → Bool
is_space c = c == b' ' || (leb 9 c && leb c 13)

unfoldable pub skip_space : Bytes → Bytes
skip_space [] = []
skip_space (c ∷ s) = if is_space c then skip_space s else c ∷ s

-- A sign: whether it is a minus, and the text behind it.
unfoldable pub scan_sign : Bytes → Bool × Bytes
scan_sign [] = (false, [])
scan_sign (c ∷ s) =
    if c == b'-' then (true, s) else if c == b'+' then (false, s) else (false, c ∷ s)

-- `-n` as an unsigned number below the modulus.
unfoldable pub negate_if : Bool → ℕ → ℕ → ℕ
negate_if neg modulus n = if neg then (modulus - n) % modulus else n

to_string_max : to_string 18446744073709551615 ≡ codes "18446744073709551615"
unfolding to_string
to_string_max = refl
