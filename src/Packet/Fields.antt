-- ===== src/Packet/Fields.antt =====
-- Reading the fields of a packet's text in src/packet.cpp, one by one.
use sleep_manager.Base.{
  ℕ, zero, suc, ◌+◌, ◌-◌, ◌%◌, ◌^◌, ◌<◌, ◌/◌, ◌≡◌, ◌≢◌, ◌∙◌, ap, ap₂, Bool, true, false, [], ◌∷◌,
  ◌++◌, some, Bytes, take, drop, length, All, All-append, take-append, drop-append, arith, ltb,
  Bool-cases, inl, inr,
}
use sleep_manager.Text.Number.{
  digits, to_string, scan_digits, scan_sign, skip_space, is_space, negate_if,
}
use sleep_manager.Text.Print.{IsDigit, digits_head, scan_digits-digits, scan_digits_stop}
use sleep_manager.Text.Scan.{stoull, parsed}
use sleep_manager.Exception.{ok, ◌>>=◌}
use sleep_manager.Address.{
  Junk, IsMac, IsIp, put_octets, put_hex, put_dec, hex_digit, render_ip_address, render_mac_address,
}
use sleep_manager.Address.RoundTrip.{parse_ip_address-render, parse_mac_address-render}
use sleep_manager.Packet.Serializer.{field_end, backslash}
use sleep_manager.Packet.Deserializer.{
  PacketDeserializer, probe, probe_field_end, field_text, go_on, to_uint, to_bool, read_bool,
  read_uint, read_string, read_ip_address, read_mac_address,
}

-- Neither the end of a field nor an escape.
abbrev pub IsPlain : ℕ → Type 0
IsPlain c = (c ≢ field_end) × (c ≢ backslash)

-- The text that is not read yet.
abbrev pub left : PacketDeserializer → Bytes
left d = drop d.i d.serialized

probe-field :
    (field rest : Bytes) (j : ℕ)
    → All IsPlain field
    → probe (field ++ field_end ∷ rest) false j ≡ some (j + length field)
unfolding probe
probe-field [] rest j h = ap some (omega arith)
probe-field (c ∷ field) rest j (h, hs) = ground (arith, probe-field field rest (suc j) hs)

the_sum : (n k : ℕ) → suc n + k ≡ suc (n + k)
the_sum n k = omega arith

drop-drop : (n k : ℕ) (s : Bytes) → drop (n + k) s ≡ drop k (drop n s)
drop-drop zero k s = ap (λ m. drop m s) (omega arith)
drop-drop (suc n) zero [] = rw (the_sum n zero)
drop-drop (suc n) (suc k) [] = rw (the_sum n (suc k))
drop-drop (suc n) k (c ∷ s) = rw (the_sum n k) (drop-drop n k s)

module _ (d : PacketDeserializer) (field rest : Bytes) (plain : All IsPlain field)
    (here : left d ≡ field ++ field_end ∷ rest) where
  -- Where the field ends, and the deserializer behind it.
  abbrev pub end_of : ℕ
  end_of = d.i + length field

  abbrev pub past : PacketDeserializer
  past = go_on d end_of

  pub probe_field_end-field : probe_field_end d ≡ ok end_of
  unfolding probe_field_end
  probe_field_end-field = rw (here, probe_field_end, probe-field field rest d.i plain)

  pub field_text-field : field_text d end_of ≡ field
  unfolding field_text
  field_text-field =
      ap₂ take (the_length d.i (length field)) here ∙ take-append field (field_end ∷ rest)
    where
      the_length : (m n : ℕ) → m + n - m ≡ n
      the_length m n = omega arith

  pub left-past : left past ≡ rest
  left-past =
      ap (λ m. drop m d.serialized) (the_position d.i (length field))
      ∙ drop-drop d.i (length field + 1) d.serialized
      ∙ ap (drop (length field + 1)) here
      ∙ drop-drop (length field) 1 (field ++ field_end ∷ rest)
      ∙ ap (drop 1) (drop-append field (field_end ∷ rest))
    where
      the_position : (m n : ℕ) → m + n + 1 ≡ m + (n + 1)
      the_position m n = omega arith

  pub read_string-field : read_string d ≡ ok (field, past)
  unfolding read_string
  read_string-field = rw (probe_field_end-field, field_text-field)

  read_uint-field : read_uint d ≡ (to_uint field >>= λ n. ok (n, past))
  unfolding read_uint
  read_uint-field = rw (probe_field_end-field, field_text-field)

  pub read_bool-field : read_bool d ≡ (to_bool field >>= λ b. ok (b, past))
  unfolding read_bool
  read_bool-field = rw (probe_field_end-field, field_text-field)

digits-IsDigit : (fuel n : ℕ) (out : Bytes) → All IsDigit out → All IsDigit (digits fuel n out)
unfolding digits
digits-IsDigit zero n out h = h
digits-IsDigit (suc fuel) n out h = elim (Bool-cases (ltb n 10)) [
  | inl small ↦ rw small ((omega arith, omega arith), h)
  | inr large ↦
      rw large
        (digits-IsDigit fuel (n / 10) ((b'0' + n % 10) ∷ out) ((omega arith, omega arith), h))
]

digit-IsPlain : (s : Bytes) → All IsDigit s → All IsPlain s
digit-IsPlain [] h = tt
digit-IsPlain (c ∷ s) (h, hs) = (omega arith, digit-IsPlain s hs)

to_string-IsPlain : (n : ℕ) → All IsPlain (to_string n)
unfolding to_string
to_string-IsPlain n = digit-IsPlain _ (digits-IsDigit 20 n [] tt)

put_hex-IsPlain : (b : ℕ) → b < 256 → All IsPlain (put_hex b)
unfolding put_hex hex_digit
put_hex-IsPlain b h = ground arith

stoull_digits :
    (c : ℕ) (r : Bytes) (n : ℕ)
    → IsDigit c
    → n < 2 ^ 64
    → scan_digits 10 (c ∷ r) 0 false ≡ record { value = n; any = true; rest = [] }
    → stoull (c ∷ r) ≡ parsed n
unfolding stoull skip_space scan_sign is_space negate_if
stoull_digits c r n (lo, hi) h e = ground arith

stoull-to_string : (n : ℕ) → n < 2 ^ 64 → stoull (to_string n) ≡ parsed n
unfolding to_string
stoull-to_string n h =
    let (c, r, e, hc) = digits_head 19 n [] in
    ap stoull e
    ∙ stoull_digits c r n hc h
        (rw (← e) (scan_digits-digits 19 n [] (omega arith) ∙ scan_digits_stop 10 [] n true tt))

to_uint-to_string : (n : ℕ) → n < 2 ^ 64 → to_uint (to_string n) ≡ ok (n % 2 ^ 16)
unfolding to_uint
to_uint-to_string n h = rw (stoull-to_string n h, to_uint)

put_octets-IsPlain :
    (put : ℕ → Bytes) (sep bound : ℕ)
    → ((b : ℕ) → b < bound → All IsPlain (put b))
    → IsPlain sep
    → (first : Bool) (bs out : Bytes) → All (λ b. b < bound) bs
    → All IsPlain out
    → All IsPlain (put_octets put sep first bs out)
unfolding put_octets
put_octets-IsPlain put sep bound p q first [] out h ho = ho
put_octets-IsPlain put sep bound p q true (b ∷ bs) out (h, hs) ho =
    put_octets-IsPlain put sep bound p q false bs _ hs (All-append IsPlain out (put b) ho (p b h))
put_octets-IsPlain put sep bound p q false (b ∷ bs) out (h, hs) ho =
    put_octets-IsPlain put sep bound p q false bs _ hs (
      All-append IsPlain (out ++ sep ∷ []) (put b) (All-append IsPlain out (sep ∷ []) ho (q, tt))
        (p b h))

render_ip-IsPlain : (ip : Bytes) → IsIp ip → All IsPlain (render_ip_address ip)
unfolding render_ip_address
render_ip-IsPlain ip (_, h) =
    put_octets-IsPlain put_dec b'.' 256 (λ b _. to_string-IsPlain b) (omega arith) true ip [] h tt

render_mac-IsPlain : (mac : Bytes) → IsMac mac → All IsPlain (render_mac_address mac)
unfolding render_mac_address
render_mac-IsPlain mac (_, h) =
    put_octets-IsPlain put_hex b':' 256 put_hex-IsPlain (omega arith) true mac [] h tt

-- The reads of the fields that the serializer writes.
module _ (d : PacketDeserializer) (rest : Bytes) where
  pub read_uint-to_string :
      (n : ℕ)
      → n < 2 ^ 64
      → left d ≡ to_string n ++ field_end ∷ rest
      → (d' : PacketDeserializer) × (read_uint d ≡ ok (n % 2 ^ 16, d')) × (left d' ≡ rest)
  read_uint-to_string n h e =
      let p = to_string-IsPlain n in
      (
        past d (to_string n) rest p e,
        read_uint-field d (to_string n) rest p e ∙ rw (to_uint-to_string n h),
        left-past d (to_string n) rest p e,
      )

  pub read_string-plain :
      (text : Bytes)
      → All IsPlain text
      → left d ≡ text ++ field_end ∷ rest
      → (d' : PacketDeserializer) × (read_string d ≡ ok (text, d')) × (left d' ≡ rest)
  read_string-plain text p e =
      (past d text rest p e, read_string-field d text rest p e, left-past d text rest p e)

  pub read_ip_address-render :
      (junk : Junk) (ip : Bytes)
      → IsIp ip
      → left d ≡ render_ip_address ip ++ field_end ∷ rest
      → (d' : PacketDeserializer) × (read_ip_address junk d ≡ ok (ip, d')) × (left d' ≡ rest)
  unfolding read_ip_address
  read_ip_address-render junk ip h e =
      let p = render_ip-IsPlain ip h in
      let text = render_ip_address ip in
      (
        past d text rest p e,
        rw (read_string-field d text rest p e, parse_ip_address-render junk ip h),
        left-past d text rest p e,
      )

  pub read_mac_address-render :
      (junk : Junk) (mac : Bytes)
      → IsMac mac
      → left d ≡ render_mac_address mac ++ field_end ∷ rest
      → (d' : PacketDeserializer) × (read_mac_address junk d ≡ ok (mac, d')) × (left d' ≡ rest)
  unfolding read_mac_address
  read_mac_address-render junk mac h e =
      let p = render_mac-IsPlain mac h in
      let text = render_mac_address mac in
      (
        past d text rest p e,
        rw (read_string-field d text rest p e, parse_mac_address-render junk mac h),
        left-past d text rest p e,
      )
