-- ===== src/Packet/Serializer.antt =====
-- The class PacketSerializer of src/packet.cpp: fields appended to a string, each behind FIELD_END.
use sleep_manager.Base.{ℕ, Bool, true, false, [], ◌∷◌, ◌++◌, Bytes, ◌==◌, if◌then◌else◌}
use sleep_manager.Text.Number.{to_string}
use sleep_manager.Address.{render_ip_address, render_mac_address}

abbrev pub field_end : ℕ
field_end = b';'

abbrev pub backslash : ℕ
backslash = b'\\'

pub record PacketSerializer : Type 0 where
  pub serialized : Bytes

abbrev pub empty_serializer : PacketSerializer
empty_serializer = record { serialized = [] }

-- `this->serialized += text; this->serialized += FIELD_END;`
abbrev append_field : Bytes → PacketSerializer → PacketSerializer
append_field text s = record { serialized = (s.serialized ++ text) ++ field_end ∷ [] }

unfoldable pub write_uint : ℕ → PacketSerializer → PacketSerializer
write_uint n = append_field (to_string n)

-- The loop of `write(string)` over the characters that are left, with its flag `escape`.
unfoldable pub write_chars : Bool → Bytes → Bytes → Bytes
write_chars escape [] out = out
write_chars true (c ∷ s) out = write_chars false s (out ++ c ∷ [])
write_chars false (c ∷ s) out = write_chars (c == backslash) s out

unfoldable pub write_string : Bytes → PacketSerializer → PacketSerializer
write_string text s = record { serialized = write_chars false text s.serialized ++ field_end ∷ [] }

-- `to_string` of a bool is that of an int.
unfoldable pub write_bool : Bool → PacketSerializer → PacketSerializer
write_bool b = append_field (if b then b'1' ∷ [] else b'0' ∷ [])

unfoldable pub write_ip_address : Bytes → PacketSerializer → PacketSerializer
write_ip_address ip = append_field (render_ip_address ip)

unfoldable pub write_mac_address : Bytes → PacketSerializer → PacketSerializer
write_mac_address mac = append_field (render_mac_address mac)

unfoldable pub finish : PacketSerializer → Bytes
finish s = s.serialized
