-- ===== src/Address.antt =====
-- MAC and IPv4 addresses, src/address.cpp and include/address.h: printing and parsing.
--
-- An address is the list of its bytes, six or four, in network order. A local variable that the
-- source leaves uninitialised holds an unknown value: `Junk` has those of the two parsers, and
-- every definition takes it as an argument. The manipulators that set and restore the stream's
-- flags are the `base` argument here, since each stream is local to one call.
pub mod Loop
pub mod RoundTrip
pub mod Host
mod Tests
use sleep_manager.Base.{
  ℕ, zero, suc, ◌+◌, ◌-◌, ◌/◌, ◌%◌, ◌<◌, ◌≡◌, Bool, true, false, ◌&&◌, List, [], ◌∷◌, ◌++◌, Bytes,
  All, length, codes, ltb, ◌==◌, if◌then◌else◌, replicate,
}
use sleep_manager.Text.Number.{to_string}
use sleep_manager.Text.Stream.{Stream, istringstream, read_char, read_unsigned}
use sleep_manager.Exception.{Result, ok, throws, ◌>>=◌, invalid_address}

abbrev pub Octets : ℕ → Bytes → Type 0
Octets n a = (length a ≡ n) × All (λ b. b < 256) a

abbrev pub IsMac : Bytes → Type 0
IsMac = Octets 6

abbrev pub IsIp : Bytes → Type 0
IsIp = Octets 4

pub record NodeAddresses : Type 0 where
  pub mac : Bytes
  pub ip : Bytes
  pub hostname : Bytes

-- `NodeAddresses()`.
abbrev pub no_addresses : NodeAddresses
no_addresses = record { mac = replicate 6 0; ip = replicate 4 0; hostname = [] }

pub record Junk : Type 0 where
  pub ch : ℕ
  pub byte : ℕ

-- A digit of a byte under `hex`.
unfoldable pub hex_digit : ℕ → ℕ
hex_digit d = if ltb d 10 then b'0' + d else b'a' + (d - 10)

-- `hex << setfill('0') << setw(2) << (unsigned) byte`.
unfoldable pub put_hex : ℕ → Bytes
unfolding hex_digit
put_hex b = hex_digit (b / 16) ∷ hex_digit (b % 16) ∷ []

-- `dec << (unsigned) byte`.
abbrev pub put_dec : ℕ → Bytes
put_dec = to_string

-- The loop of the two `operator <<`, over the bytes that are left; `first` is its flag.
unfoldable pub put_octets : (ℕ → Bytes) → ℕ → Bool → Bytes → Bytes → Bytes
put_octets put sep first [] out = out
put_octets put sep first (b ∷ bs) out =
    put_octets put sep false bs ((if first then out else out ++ sep ∷ []) ++ put b)

-- A separator is read before each byte but the first.
unfoldable pub read_separator : ℕ → Bytes → Junk → Bool → Stream → Result Stream
read_separator sep message junk true s = ok s
read_separator sep message junk false s =
    let (ch, t) = read_char junk.ch s in
    if ch == sep then ok t else throws (invalid_address message)

-- The loop of the two `operator >>`, for `n` bytes that are left. `*it = byte` keeps eight bits.
unfoldable pub read_octets : ℕ → ℕ → Bytes → Junk → Bool → ℕ → Stream → Result (Bytes × Stream)
unfolding read_separator
read_octets base sep message junk first zero s = ok ([], s)
read_octets base sep message junk first (suc n) s = do
  t ← read_separator sep message junk first s
  let (byte, u) = read_unsigned base junk.byte t
  (bs, v) ← read_octets base sep message junk false n u
  ok ((byte % 256) ∷ bs, v)

-- `operator >>(istream&, MacAddress&)` and `operator >>(istream&, IpAddress&)`.
unfoldable pub read_mac : Junk → Stream → Result (Bytes × Stream)
unfolding read_octets
read_mac junk = read_octets 16 b':' (codes "expected `:` in MAC address") junk true 6

unfoldable pub read_ip : Junk → Stream → Result (Bytes × Stream)
unfolding read_octets
read_ip junk = read_octets 10 b'.' (codes "expected `.` in IPV4 address") junk true 4

-- The whole text has to be read.
unfoldable pub expect_end : Bytes × Stream → Result Bytes
expect_end (a, s) = if s.eof then ok a else throws (invalid_address (codes "expected end of input"))

unfoldable pub parse_mac_address : Junk → Bytes → Result Bytes
unfolding expect_end
parse_mac_address junk text = read_mac junk (istringstream text) >>= expect_end

unfoldable pub parse_ip_address : Junk → Bytes → Result Bytes
unfolding expect_end
parse_ip_address junk text = read_ip junk (istringstream text) >>= expect_end

unfoldable pub render_mac_address : Bytes → Bytes
unfolding put_octets
render_mac_address a = put_octets put_hex b':' true a []

unfoldable pub render_ip_address : Bytes → Bytes
unfolding put_octets
render_ip_address a = put_octets put_dec b'.' true a []
