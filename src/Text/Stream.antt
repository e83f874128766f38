-- ===== src/Text/Stream.antt =====
-- The formatted input of a `std::istringstream` that skips spaces: `>> char` and `>> unsigned`.
use sleep_manager.Base.{
  ℕ, ◌-◌, ◌^◌, ◌≡◌, refl, Bool, true, false, ◌||◌, ◌&&◌, [], ◌∷◌, Bytes, codes, ltb, ◌==◌,
  if◌then◌else◌,
}
use sleep_manager.Text.Number.{
  Digits, scan_digits, scan_sign, skip_space, is_space, negate_if, digit_value,
}

-- The unread text and the two state bits.
pub record Stream : Type 0 where
  pub rest : Bytes
  pub eof : Bool
  pub fail : Bool

abbrev pub istringstream : Bytes → Stream
istringstream s = record { rest = s; eof = false; fail = false }

-- The end of the text, met while spaces are skipped, sets both bits.
unfoldable after_space : Bytes → Stream
after_space [] = record { rest = []; eof = true; fail = true }
after_space (c ∷ r) = record { rest = c ∷ r; eof = false; fail = false }

-- The sentry: an input on a stream that is not good fails, and reads nothing.
unfoldable pub sentry : Stream → Stream
unfolding after_space
sentry s = if s.eof || s.fail then record s { fail = true } else after_space (skip_space s.rest)

-- A variable that the input leaves alone keeps what it holds, `old`.
take_char : ℕ → Stream → Bytes → ℕ × Stream
take_char old s [] = (old, record s { eof = true; fail = true })
take_char old s (c ∷ r) = (c, record s { rest = r })

unfoldable pub read_char : ℕ → Stream → ℕ × Stream
unfolding take_char
read_char old s = let t = sentry s in if t.fail then (old, t) else take_char old t t.rest

-- A base prefix `0x` is read under `hex` only.
unfoldable pub skip_prefix : ℕ → Bytes → Bytes
skip_prefix base [] = []
skip_prefix base (c ∷ []) = c ∷ []
skip_prefix base (c ∷ x ∷ r) =
    if base == 16 && (c == b'0' && (x == b'x' || x == b'X')) then r else c ∷ x ∷ r

abbrev pub is_nil : Bytes → Bool
is_nil [] = true
is_nil (c ∷ r) = false

-- What `num_get` stores: 0 where there is no digit, the greatest value where the number is too
-- large. The end of the text is noticed if it is reached.
unfoldable pub store_uint : Bool → Digits → ℕ × Stream
store_uint neg d =
    if d.any
    then if ltb d.value (2 ^ 32)
      then (
        negate_if neg (2 ^ 32) d.value,
        record { rest = d.rest; eof = is_nil d.rest; fail = false },
      )
      else (2 ^ 32 - 1, record { rest = d.rest; eof = is_nil d.rest; fail = true })
    else (0, record { rest = d.rest; eof = is_nil d.rest; fail = true })

unfoldable pub extract_uint : ℕ → Bytes → ℕ × Stream
unfolding store_uint
extract_uint base s =
    let (neg, r) = scan_sign s in store_uint neg (scan_digits base (skip_prefix base r) 0 false)

unfoldable pub read_unsigned : ℕ → ℕ → Stream → ℕ × Stream
read_unsigned base old s = let t = sentry s in if t.fail then (old, t) else extract_uint base t.rest

read_tests :
    (read_unsigned 10 7 (istringstream (codes " 12."))
      ≡ (12, record { rest = codes "."; eof = false; fail = false }))
    × (read_unsigned 16 7 (istringstream (codes "0xfF"))
        ≡ (255, record { rest = []; eof = true; fail = false }))
    × (read_unsigned 16 7 (istringstream (codes ":"))
        ≡ (0, record { rest = codes ":"; eof = false; fail = true }))
    × (read_unsigned 10 7 (istringstream []) ≡ (7, record { rest = []; eof = true; fail = true }))
    × (read_char 7 (istringstream (codes " ab"))
        ≡ (b'a', record { rest = codes "b"; eof = false; fail = false }))
unfolding read_unsigned read_char extract_uint skip_prefix sentry scan_digits scan_sign skip_space
    is_space negate_if digit_value
read_tests = (refl, refl, refl, refl, refl)
