-- ===== src/Packet/Deserializer.antt =====
-- The class PacketDeserializer of src/packet.cpp: fields read from a string from a position on.
use sleep_manager.Base.{
  ℕ, suc, ◌+◌, ◌-◌, ◌%◌, ◌^◌, Bool, true, false, not, ◌||◌, [], ◌∷◌, Option, none, some, Bytes,
  codes, take, drop, bytes_eq, ◌==◌, if◌then◌else◌,
}
use sleep_manager.Text.Scan.{parsed, invalid_argument, out_of_range, stoull}
use sleep_manager.Exception.{
  Result, ok, throws, ◌>>=◌, invalid_packet, invalid_packet_pointer, std_invalid_argument,
  std_out_of_range,
}
use sleep_manager.Address.{Junk, parse_ip_address, parse_mac_address}
use sleep_manager.Packet.Serializer.{field_end, backslash}

pub record PacketDeserializer : Type 0 where
  pub serialized : Bytes
  pub i : ℕ

abbrev pub deserializer : Bytes → PacketDeserializer
deserializer serialized = record { serialized = serialized; i = 0 }

-- The loop of `probe_field_end` from position `j` on, over the text from there; `none` is the end
-- of the text.
unfoldable pub probe : Bytes → Bool → ℕ → Option ℕ
probe [] escape j = none
probe (c ∷ s) escape j =
    let rest = probe s (c == backslash) (suc j) in
    if not (c == field_end) || escape then rest else some j

unfoldable pub probe_field_end : PacketDeserializer → Result ℕ
probe_field_end d = elim (probe (drop d.i d.serialized) false d.i) [
  | none ↦ throws (invalid_packet (codes "missing field end ;"))
  | some j ↦ ok j
]

-- `substr(this->i, j - this->i)`.
unfoldable pub field_text : PacketDeserializer → ℕ → Bytes
field_text d j = take (j - d.i) (drop d.i d.serialized)

abbrev pub go_on : PacketDeserializer → ℕ → PacketDeserializer
go_on d j = record d { i = j + 1 }

-- `uint16_t uint = stoull(…)` keeps sixteen bits.
unfoldable pub to_uint : Bytes → Result ℕ
to_uint text = elim (stoull text) [
  | parsed n ↦ ok (n % 2 ^ 16)
  | invalid_argument ↦ throws std_invalid_argument
  | out_of_range ↦ throws std_out_of_range
]

unfoldable pub read_uint : PacketDeserializer → Result (ℕ × PacketDeserializer)
unfolding probe_field_end field_text to_uint
read_uint d = do j ← probe_field_end d; uint ← to_uint (field_text d j); ok (uint, go_on d j)

unfoldable pub read_string : PacketDeserializer → Result (Bytes × PacketDeserializer)
unfolding probe_field_end field_text
read_string d = do j ← probe_field_end d; ok (field_text d j, go_on d j)

unfoldable pub to_bool : Bytes → Result Bool
to_bool text =
    if bytes_eq text (codes "false")
    then ok false
    else if bytes_eq text (codes "true")
    then ok true
    else throws (invalid_packet_pointer (codes "invalid boolean field"))

unfoldable pub read_bool : PacketDeserializer → Result (Bool × PacketDeserializer)
unfolding probe_field_end field_text to_bool
read_bool d = do j ← probe_field_end d; value ← to_bool (field_text d j); ok (value, go_on d j)

unfoldable pub read_ip_address : Junk → PacketDeserializer → Result (Bytes × PacketDeserializer)
unfolding read_string
read_ip_address junk d = do (text, d') ← read_string d; ip ← parse_ip_address junk text; ok (ip, d')

unfoldable pub read_mac_address : Junk → PacketDeserializer → Result (Bytes × PacketDeserializer)
unfolding read_string
read_mac_address junk d = do
  (text, d') ← read_string d
  mac ← parse_mac_address junk text
  ok (mac, d')
