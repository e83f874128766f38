-- ===== src/Text/Read.antt =====
-- Formatted input of text that was printed.
use sleep_manager.Base.{
  ℕ, suc, ◌^◌, ◌≤◌, ◌<◌, ◌≡◌, ◌∙◌, refl, sym, ap, true, false, [], ◌∷◌, Bytes, arith, lt→ltb,
}
use sleep_manager.Text.Number.{digits, scan_digits, scan_sign, skip_space, is_space, negate_if}
use sleep_manager.Text.Stream.{
  Stream, istringstream, sentry, read_char, read_unsigned, extract_uint, store_uint, skip_prefix,
  is_nil,
}
use sleep_manager.Text.Print.{Stops, scan_digits-digits, digits_head, scan_digits_stop}

-- Neither a space nor a sign.
abbrev pub IsPlain : ℕ → Type 0
IsPlain c = (b'0' ≤ c) × (c < 128)

pub read_char_plain :
    (old c : ℕ) (r : Bytes)
    → is_space c ≡ false
    → read_char old (istringstream (c ∷ r)) ≡ (c, istringstream r)
unfolding read_char sentry skip_space
read_char_plain old c r h = rw h

pub read_unsigned_plain :
    (base old c : ℕ) (r : Bytes)
    → IsPlain c
    → read_unsigned base old (istringstream (c ∷ r))
      ≡ store_uint false (scan_digits base (skip_prefix base (c ∷ r)) 0 false)
unfolding read_unsigned extract_uint sentry skip_space is_space scan_sign
read_unsigned_plain base old c r (lo, hi) = ground arith

skip_prefix_decimal : (s : Bytes) → skip_prefix 10 s ≡ s
unfolding skip_prefix
skip_prefix_decimal [] = refl
skip_prefix_decimal (c ∷ []) = refl
skip_prefix_decimal (c ∷ x ∷ r) = refl

-- The stream behind a number.
abbrev pub behind : Bytes → Stream
behind out = record { rest = out; eof = is_nil out; fail = false }

pub store_uint_small :
    (n : ℕ) (out : Bytes)
    → n < 2 ^ 32
    → store_uint false (record { value = n; any = true; rest = out }) ≡ (n, behind out)
unfolding store_uint negate_if
store_uint_small n out h = rw (lt→ltb n (2 ^ 32) h)

-- A printed number is read back.
pub read_unsigned-digits :
    (fuel old n : ℕ) (out : Bytes)
    → n < 10 ^ suc fuel
    → n < 2 ^ 32
    → Stops 10 out
    → read_unsigned 10 old (istringstream (digits (suc fuel) n out)) ≡ (n, behind out)
read_unsigned-digits fuel old n out h small stop =
    let (c, r, e, (lo, hi)) = digits_head fuel n out in
    rw e (
      read_unsigned_plain 10 old c r (lo, omega arith)
      ∙ ap (λ s. store_uint false (scan_digits 10 s 0 false)) (skip_prefix_decimal (c ∷ r))
      ∙ ap (λ s. store_uint false (scan_digits 10 s 0 false)) (sym e)
      ∙ ap (store_uint false)
          (scan_digits-digits fuel n out h ∙ scan_digits_stop 10 out n true stop)
      ∙ store_uint_small n out small)
