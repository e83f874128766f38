-- ===== src/Interface/Columns.antt =====
-- How wide the table of `render` in src/interface.cpp is.
use native.Mathlib.Nat.{pow-suc}
use sleep_manager.Base.{
  ℕ, zero, suc, ◌+◌, ◌-◌, ◌/◌, ◌%◌, ◌^◌, ◌≤◌, ◌<◌, ◌≡◌, ◌≢◌, refl, [], ◌∷◌, ◌++◌, Bytes, codes,
  length, length-append, length-replicate, replicate, Bool-cases, inl, inr, ltb, lt→ltb, arith,
}
use sleep_manager.Text.Number.{to_string, digits}
use sleep_manager.Address.{IsMac, IsIp, put_hex, render_ip_address, render_mac_address}
use sleep_manager.WorkStation.{WorkStation, Status, disconnected, asleep, awaken}
use sleep_manager.Interface.Render.{
  pad, columns, row, header_row, rule_row, status_column, mac_col_size, ip_col_size,
  status_col_size, hostname_col_size,
}

-- A number below ten to the `k + 1` has at most `k + 1` digits.
length-digits :
    (k fuel n : ℕ) (out : Bytes)
    → n < 10 ^ suc k
    → k ≤ fuel
    → length (digits (suc fuel) n out) ≤ suc k + length out
unfolding digits
length-digits zero fuel n out h hf = rw (lt→ltb n 10 (ground arith)) (omega arith)
length-digits (suc k) zero n out h hf = absurd (omega arith)
length-digits (suc k) (suc fuel) n out h hf = elim (Bool-cases (ltb n 10)) [
  | inl small ↦ rw small (omega arith)
  | inr large ↦ rw large (
      omega (
        arith,
        length-digits k fuel (n / 10) ((b'0' + n % 10) ∷ out) (omega (arith, h, pow-suc 10 (suc k)))
            (omega arith),
      ))
]

length-to_string : (b : ℕ) → b < 256 → length (to_string b) ≤ 3
unfolding to_string
length-to_string b h = length-digits 2 19 b [] (omega arith) (omega arith)

length-render_mac_address : (a : Bytes) → IsMac a → length (render_mac_address a) ≡ 17
unfolding render_mac_address put_hex
length-render_mac_address (a ∷ b ∷ c ∷ d ∷ e ∷ f ∷ []) _ = refl
length-render_mac_address _ (n, _) = absurd (omega arith)

-- One number more.
length-joined :
    (out : Bytes) (b k : ℕ)
    → b < 256
    → length out ≤ k
    → length ((out ++ b'.' ∷ []) ++ to_string b) ≤ k + 4
length-joined out b k h hk = omega (
  arith,
  length-append (out ++ b'.' ∷ []) (to_string b),
  length-append out (b'.' ∷ []),
  length-to_string b h,
)

length-render_ip_address : (a : Bytes) → IsIp a → length (render_ip_address a) ≤ 15
unfolding render_ip_address
length-render_ip_address (a ∷ b ∷ c ∷ d ∷ []) (_, (ha, (hb, (hc, (hd, _))))) =
    length-joined _ d 11 hd
      (length-joined _ c 7 hc (length-joined _ b 3 hb (length-to_string a ha)))
length-render_ip_address _ (n, _) = absurd (omega arith)

length-pad : (size : ℕ) (s : Bytes) → length s ≤ size → length (pad size s) ≡ size
unfolding pad
length-pad size s h = omega (
  arith,
  length-append s (replicate (size - length s) b' '),
  length-replicate {A = ℕ} (size - length s) b' ',
)

-- Where no column is too long, the columns and the bars between them.
length-columns :
    (mac ip status hostname : Bytes)
    → length mac ≤ mac_col_size
    → length ip ≤ ip_col_size
    → length status ≤ status_col_size
    → length hostname ≤ hostname_col_size
    → length (columns mac ip status hostname) ≡ 89
unfolding columns
length-columns mac ip status hostname hm hi hs hh =
    let third = pad status_col_size status ++ (codes " | " ++ pad hostname_col_size hostname) in
    let second = pad ip_col_size ip ++ (codes " | " ++ third) in
    omega (
      arith,
      length-append (pad mac_col_size mac) (codes " | " ++ second),
      length-append (pad ip_col_size ip) (codes " | " ++ third),
      length-append (pad status_col_size status) (codes " | " ++ pad hostname_col_size hostname),
      length-pad mac_col_size mac hm,
      length-pad ip_col_size ip hi,
      length-pad status_col_size status hs,
      length-pad hostname_col_size hostname hh,
    )

length-status_column :
    (ip : Bytes) (s : Status) → s ≢ disconnected → length (status_column ip s) ≤ 6
unfolding status_column
length-status_column ip asleep _ = omega arith
length-status_column ip awaken _ = omega arith
length-status_column ip disconnected h = absurd (h refl)

-- The row of a station with a valid MAC and IP address, a status other than DISCONNECTED and a
-- hostname of at most 42 characters is as long as the header's, which is nine characters longer than
-- the rule below it.
length-row :
    (w : WorkStation)
    → IsMac w.addresses.mac
    → IsIp w.addresses.ip
    → w.status ≢ disconnected
    → length w.addresses.hostname ≤ hostname_col_size
    → (length (row w) ≡ length header_row) × (length header_row ≡ length rule_row + 9)
unfolding row header_row rule_row pad
length-row w hm hi hs hh =
    let ip = render_ip_address w.addresses.ip in
    (
      length-columns (render_mac_address w.addresses.mac) ip (status_column ip w.status)
          w.addresses.hostname (omega (arith, length-render_mac_address w.addresses.mac hm))
          (length-render_ip_address w.addresses.ip hi) (length-status_column ip w.status hs) hh,
      refl,
    )
