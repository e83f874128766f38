-- ===== src/Address/RoundTrip.antt =====
-- Printing and parsing of whole addresses, src/address.cpp.
use sleep_manager.Base.{
  ℕ, suc, ◌+◌, ◌/◌, ◌%◌, ◌^◌, ◌<◌, ◌≤◌, ◌*◌, ◌≡◌, ◌≢◌, ◌∙◌, refl, sym, ap, Bool, true, false, [],
  ◌∷◌, ◌++◌, append-nil, Bytes, All, length, map, arith, some, none, ap₂, codes, if◌then◌else◌,
}
use sleep_manager.Text.Number.{to_string, is_space, digit_value, scan_digits}
use sleep_manager.Text.Stream.{istringstream, read_unsigned, skip_prefix, is_nil}
use sleep_manager.Text.Print.{Stops, digits-append, scan_digits_stop}
use sleep_manager.Text.Read.{behind, read_unsigned-digits, read_unsigned_plain, store_uint_small}
use sleep_manager.Exception.{ok, throws, ◌>>=◌, invalid_address}
use sleep_manager.Address.{
  Junk, IsMac, IsIp, put_hex, put_dec, hex_digit, put_octets, read_octets, read_mac, read_ip,
  expect_end, parse_mac_address, parse_ip_address, render_mac_address, render_ip_address,
}
use sleep_manager.Address.Loop.{Format, low_bytes, joined, put_octets-joined, read_octets-joined}

put_dec_reads :
    (old b : ℕ) (out : Bytes)
    → b < 2 ^ 32
    → Stops 10 out
    → read_unsigned 10 old (istringstream (put_dec b ++ out)) ≡ (b, behind out)
unfolding to_string
put_dec_reads old b out h stop =
    rw (← digits-append 20 b [] out) (read_unsigned-digits 19 old b out (omega arith) h stop)

dec-Format : Format 10 (2 ^ 32) b'.' put_dec
unfolding is_space digit_value
dec-Format = record { reads = put_dec_reads; solid = refl; stops = refl }

hex_digit_value : (d : ℕ) → d < 16 → digit_value 16 (hex_digit d) ≡ some d
unfolding hex_digit digit_value
hex_digit_value d h = ground arith

hex_digit-IsPlain :
    (d : ℕ) → d < 16 → (b'0' ≤ hex_digit d) × (hex_digit d < b'x') × (hex_digit d ≢ b'X')
unfolding hex_digit
hex_digit-IsPlain d h = ground arith

skip_prefix_hex :
    (c x : ℕ) (r : Bytes) → x < b'x' → x ≢ b'X' → skip_prefix 16 (c ∷ x ∷ r) ≡ c ∷ x ∷ r
unfolding skip_prefix
skip_prefix_hex c x r h k = ground arith

scan_hex :
    (d : ℕ) (s : Bytes) (n : ℕ) (any : Bool)
    → d < 16
    → scan_digits 16 (hex_digit d ∷ s) n any ≡ scan_digits 16 s (n * 16 + d) true
unfolding scan_digits
scan_hex d s n any h = rw (hex_digit_value d h, scan_digits)

put_hex_reads :
    (old b : ℕ) (out : Bytes)
    → b < 256
    → Stops 16 out
    → read_unsigned 16 old (istringstream (put_hex b ++ out)) ≡ (b, behind out)
unfolding put_hex
put_hex_reads old b out h stop =
    let (lo, hi, _) = hex_digit-IsPlain (b / 16) (omega arith) in
    let (_, hi', other) = hex_digit-IsPlain (b % 16) (omega arith) in
    read_unsigned_plain 16 old _ _ (lo, omega arith)
    ∙ rw
        (
          skip_prefix_hex (hex_digit (b / 16)) (hex_digit (b % 16)) out hi' other,
          scan_hex (b / 16) (hex_digit (b % 16) ∷ out) 0 false (omega arith),
          scan_hex (b % 16) out (0 * 16 + b / 16) true (omega arith),
          scan_digits_stop 16 out ((0 * 16 + b / 16) * 16 + b % 16) true stop,
        )
        (store_uint_small _ out (omega arith) ∙ ap (λ (k : ℕ). (k, behind out)) (omega arith))

hex-Format : Format 16 256 b':' put_hex
unfolding is_space digit_value
hex-Format = record { reads = put_hex_reads; solid = refl; stops = refl }

module _ {base bound sep : ℕ} {put : ℕ → Bytes} (form : Format base bound sep put) where
  read_whole :
      (message : Bytes) (junk : Junk) (n : ℕ) (a tail : Bytes)
      → length a ≡ suc n
      → All (λ b. b < bound) a
      → Stops base tail
      → read_octets base sep message junk true
          (suc n)
          (istringstream (put_octets put sep true a [] ++ tail))
        ≡ ok (low_bytes a, behind tail)
  read_whole message junk n [] tail e h stop = absurd (omega arith)
  read_whole message junk n (b ∷ bs) tail e h stop =
      ap (λ s. read_octets base sep message junk true (suc n) (istringstream (s ++ tail)))
        (put_octets-joined put sep true (b ∷ bs) [])
      ∙ ap
          (λ k.
            read_octets base sep message junk true k
              (istringstream (joined put sep true (b ∷ bs) ++ tail)))
          (sym e)
      ∙ read_octets-joined base bound sep put form message junk true b bs tail h stop

low_bytes_same : (a : Bytes) → All (λ b. b < 256) a → low_bytes a ≡ a
low_bytes_same [] h = refl
low_bytes_same (b ∷ a) (h, hs) = ap₂ ◌∷◌ (omega arith) (low_bytes_same a hs)

wide : (a : Bytes) → All (λ b. b < 256) a → All (λ b. b < 2 ^ 32) a
wide [] h = tt
wide (b ∷ a) (h, hs) = (omega arith, wide a hs)

expect_end-behind :
    (a tail : Bytes)
    → expect_end (a, behind tail)
      ≡ (if is_nil tail then ok a else throws (invalid_address (codes "expected end of input")))
unfolding expect_end
expect_end-behind a tail = refl

parse_ip-behind :
    (junk : Junk) (a tail : Bytes)
    → length a ≡ 4
    → All (λ b. b < 2 ^ 32) a
    → Stops 10 tail
    → parse_ip_address junk (render_ip_address a ++ tail) ≡ (
        if is_nil tail
        then ok (low_bytes a)
        else throws (invalid_address (codes "expected end of input")))
unfolding parse_ip_address render_ip_address read_ip
parse_ip-behind junk a tail n h stop =
    ap (λ r. r >>= expect_end) (read_whole dec-Format _ junk 3 a tail n h stop)

parse_mac-behind :
    (junk : Junk) (a tail : Bytes)
    → IsMac a
    → Stops 16 tail
    → parse_mac_address junk (render_mac_address a ++ tail)
      ≡ (if is_nil tail then ok a else throws (invalid_address (codes "expected end of input")))
unfolding parse_mac_address render_mac_address read_mac
parse_mac-behind junk a tail (n, h) stop =
    ap (λ r. r >>= expect_end) (read_whole hex-Format _ junk 5 a tail n h stop)
    ∙ rw (low_bytes_same a h)

-- Every IPv4 address is read back from its print, whatever the uninitialised locals hold.
pub parse_ip_address-render :
    (junk : Junk) (a : Bytes) → IsIp a → parse_ip_address junk (render_ip_address a) ≡ ok a
parse_ip_address-render junk a (n, h) =
    ap (parse_ip_address junk) (sym (append-nil (render_ip_address a)))
    ∙ parse_ip-behind junk a [] n (wide a h) tt
    ∙ ap ok (low_bytes_same a h)

-- Every MAC address is read back from its print, whatever the uninitialised locals hold.
pub parse_mac_address-render :
    (junk : Junk) (a : Bytes) → IsMac a → parse_mac_address junk (render_mac_address a) ≡ ok a
parse_mac_address-render junk a h =
    ap (parse_mac_address junk) (sym (append-nil (render_mac_address a)))
    ∙ parse_mac-behind junk a [] h tt

-- The IPv4 parser checks no range: four decimal numbers below 2 ^ 32 with points between them are
-- accepted, and each is cut to its low eight bits.
pub parse_ip_address_wraps :
    (junk : Junk) (a : Bytes)
    → length a ≡ 4
    → All (λ b. b < 2 ^ 32) a
    → parse_ip_address junk (render_ip_address a) ≡ ok (map (λ b. b % 256) a)
parse_ip_address_wraps junk a n h =
    ap (parse_ip_address junk) (sym (append-nil (render_ip_address a)))
    ∙ parse_ip-behind junk a [] n h tt

-- Text behind an address is refused, if it does not begin with a digit of the base: for both kinds
-- of address the parser throws "expected end of input".
parse_trailing :
    (junk : Junk) (ip mac : Bytes) (c : ℕ) (tail : Bytes)
    → IsIp ip
    → IsMac mac
    → digit_value 16 c ≡ none
    → (parse_ip_address junk (render_ip_address ip ++ c ∷ tail)
        ≡ throws (invalid_address (codes "expected end of input")))
      × (parse_mac_address junk (render_mac_address mac ++ c ∷ tail)
          ≡ throws (invalid_address (codes "expected end of input")))
parse_trailing junk ip mac c tail (n, h) hm stop = (
  parse_ip-behind junk ip (c ∷ tail) n (wide ip h) (unfold digit_value in ground arith),
  parse_mac-behind junk mac (c ∷ tail) hm stop,
)
