-- ===== src/Text/Scan.antt =====
-- `std::stoull` in base ten: leading spaces, a sign, digits; what stands behind them is ignored.
use sleep_manager.Base.{ℕ, ◌^◌, ◌≡◌, refl, Bool, false, Bytes, codes, ltb, if◌then◌else◌}
use sleep_manager.Text.Number.{
  Digits, scan_digits, scan_sign, skip_space, is_space, negate_if, digit_value,
}

pub data Stoull : Type 0 where
  parsed : ℕ → Stoull
  invalid_argument : Stoull
  out_of_range : Stoull

convert : Bool → Digits → Stoull
convert neg d =
    if d.any
    then if ltb d.value (2 ^ 64) then parsed (negate_if neg (2 ^ 64) d.value) else out_of_range
    else invalid_argument

unfoldable pub stoull : Bytes → Stoull
unfolding convert
stoull s = let (neg, r) = scan_sign (skip_space s) in convert neg (scan_digits 10 r 0 false)

stoull_tests :
    (stoull (codes " 42;") ≡ parsed 42)
    × (stoull (codes "x") ≡ invalid_argument)
    × (stoull (codes "-1") ≡ parsed 18446744073709551615)
    × (stoull (codes "18446744073709551616") ≡ out_of_range)
unfolding stoull scan_digits scan_sign skip_space is_space negate_if digit_value
stoull_tests = (refl, refl, refl, refl)
