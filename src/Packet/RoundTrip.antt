-- ===== src/Packet/RoundTrip.antt =====
-- What a packet becomes when its text is read back, src/packet.cpp.
use sleep_manager.Base.{
  ◌%◌, ◌^◌, ◌<◌, ◌≡◌, ◌≢◌, ◌∙◌, refl, sym, Bool, true, false, [], ◌∷◌, ◌++◌, append_assoc,
  append-nil, Bytes, Lacks, codes, bytes_eq, All, arith, ◌==◌,
}
use sleep_manager.Text.Number.{to_string}
use sleep_manager.Exception.{ok, throws, invalid_packet_pointer}
use sleep_manager.Address.{Junk, IsMac, IsIp, render_ip_address, render_mac_address}
use sleep_manager.Packet.Serializer.{
  PacketSerializer, empty_serializer, field_end, backslash, write_uint, write_chars, write_string,
  write_bool, write_ip_address, write_mac_address, finish,
}
use sleep_manager.Packet.Deserializer.{PacketDeserializer, deserializer, read_bool, to_bool}
use sleep_manager.Packet.Fields.{
  IsPlain, left, read_bool-field, read_uint-to_string, read_string-plain, read_ip_address-render,
  read_mac_address-render,
}
use sleep_manager.Packet.{
  Direction, request, response, BodyType, discovery, exit, wol, sleep_status_type, PacketHeader,
  PacketBody, Packet, direction_code, type_code, parse_direction, parse_type, serialize_header,
  serialize_body, serialize, deserialize_header, deserialize_body, deserialize_rest, deserialize,
}

-- The characters that stand behind a backslash which is not itself behind one.
abbrev pub kept : Bool → Bytes → Bytes
kept escape [] = []
kept true (c ∷ s) = c ∷ kept false s
kept false (c ∷ s) = kept (c == backslash) s

write_chars-kept : (escape : Bool) (s out : Bytes) → write_chars escape s out ≡ out ++ kept escape s
unfolding write_chars
write_chars-kept escape [] out = sym (append-nil out)
write_chars-kept true (c ∷ s) out =
    write_chars-kept false s (out ++ c ∷ []) ∙ append_assoc out (c ∷ []) (kept false s)
write_chars-kept false (c ∷ s) out = write_chars-kept (c == backslash) s out

body_text : PacketBody → Bytes
body_text b = to_string (type_code b.body_type) ++ field_end ∷ []

-- The seven fields.
packet_text : Packet → Bytes
packet_text p =
    let h = p.header in
    let a = h.sender_addresses in
    to_string h.seqn
    ++ field_end
      ∷ (to_string h.timestamp
          ++ field_end
            ∷ (render_mac_address a.mac
                ++ field_end
                  ∷ (render_ip_address a.ip
                      ++ field_end
                        ∷ (kept false a.hostname
                            ++ field_end
                              ∷ (to_string (direction_code h.direction)
                                  ++ field_end ∷ body_text p.body)))))

finish-serialize : (p : Packet) → finish (serialize p empty_serializer) ≡ packet_text p
unfolding finish serialize serialize_header serialize_body write_uint write_string write_mac_address
    write_ip_address packet_text body_text
finish-serialize p = simp (write_chars-kept, append_assoc)

parse_direction-code :
    (d : Direction) (h : PacketHeader)
    → parse_direction (direction_code d % 2 ^ 16) h ≡ (record h { direction = d }, true)
unfolding parse_direction direction_code
parse_direction-code request h = refl
parse_direction-code response h = refl

-- Whether a packet of this type is recognised, and the body that it then has.
abbrev pub is_discovery : BodyType → Bool
is_discovery discovery = true
is_discovery _ = false

abbrev pub body_after : BodyType → PacketBody → PacketBody
body_after discovery b = record b { body_type = discovery }
body_after _ b = b

parse_type-code :
    (t : BodyType) (b : PacketBody)
    → parse_type (type_code t % 2 ^ 16) b ≡ (body_after t b, is_discovery t)
unfolding parse_type type_code
parse_type-code discovery b = refl
parse_type-code exit b = refl
parse_type-code wol b = refl
parse_type-code sleep_status_type b = refl

-- The header that arrives: sixteen bits of the numbers, and of the hostname what `kept` leaves.
abbrev pub header_after : PacketHeader → PacketHeader
header_after h = record h {
  seqn = h.seqn % 2 ^ 16;
  timestamp = h.timestamp % 2 ^ 16;
  sender_addresses = record (h.sender_addresses) {
    hostname = kept false h.sender_addresses.hostname;
  };
}

-- A header with numbers of 64 bits, proper addresses, and no separator or escape among the
-- characters of the hostname that are written.
pub record IsSendable (h : PacketHeader) : Type 0 where
  pub seqn_fits : h.seqn < 2 ^ 64
  pub timestamp_fits : h.timestamp < 2 ^ 64
  pub mac_valid : IsMac h.sender_addresses.mac
  pub ip_valid : IsIp h.sender_addresses.ip
  pub hostname_plain : All IsPlain (kept false h.sender_addresses.hostname)

direction_fits : (d : Direction) → direction_code d < 2 ^ 64
unfolding direction_code
direction_fits request = omega arith
direction_fits response = omega arith

type_fits : (t : BodyType) → type_code t < 2 ^ 64
unfolding type_code
type_fits discovery = omega arith
type_fits exit = omega arith
type_fits wol = omega arith
type_fits sleep_status_type = omega arith

deserialize-text :
    (junk : Junk) (p q : Packet) (d : PacketDeserializer)
    → IsSendable p.header
    → left d ≡ packet_text p
    → (d' : PacketDeserializer) × (deserialize junk q d
        ≡ ok (
          record { header = header_after p.header; body = body_after p.body.body_type q.body },
          is_discovery p.body.body_type,
          d',
        ))
unfolding packet_text body_text deserialize deserialize_header deserialize_rest deserialize_body
deserialize-text junk p q d v e =
    let h = p.header in
    let a = h.sender_addresses in
    let (d1, r1, e1) = read_uint-to_string d _ h.seqn v.seqn_fits e in
    let (d2, r2, e2) = read_uint-to_string d1 _ h.timestamp v.timestamp_fits e1 in
    let (d3, r3, e3) = read_mac_address-render d2 _ junk a.mac v.mac_valid e2 in
    let (d4, r4, e4) = read_ip_address-render d3 _ junk a.ip v.ip_valid e3 in
    let (d5, r5, e5) = read_string-plain d4 _ (kept false a.hostname) v.hostname_plain e4 in
    let (d6, r6, e6) =
      read_uint-to_string d5 _ (direction_code h.direction) (direction_fits h.direction) e5 in
    let (d7, r7, e7) =
      read_uint-to_string d6 _ (type_code p.body.body_type) (type_fits p.body.body_type) e6 in
    (
      d7,
      rw (
        r1,
        r2,
        r3,
        r4,
        r5,
        r6,
        parse_direction-code h.direction,
        r7,
        parse_type-code p.body.body_type,
      ),
    )

-- A sendable packet that is serialized and deserialized into any packet `q` gives: the numbers
-- modulo 2 ^ 16, the MAC and IP address and the direction unchanged, and of the hostname the
-- characters behind a backslash; the body's type becomes DISCOVERY and the result is true if the
-- type is DISCOVERY, and otherwise the body is `q`'s and the result is false. The sleep status is
-- `q`'s.
pub deserialize-serialize :
    (junk : Junk) (p q : Packet)
    → IsSendable p.header
    → (d : PacketDeserializer) × (deserialize junk q
          (deserializer (finish (serialize p empty_serializer)))
        ≡ ok (
          record { header = header_after p.header; body = body_after p.body.body_type q.body },
          is_discovery p.body.body_type,
          d,
        ))
deserialize-serialize junk p q v =
    deserialize-text junk p q (deserializer (finish (serialize p empty_serializer))) v
      (finish-serialize p)

pub kept-Lacks : (s : Bytes) → All (λ c. c ≢ backslash) s → kept false s ≡ []
kept-Lacks [] h = refl
kept-Lacks (c ∷ s) (h, hs) = ground (arith, kept-Lacks s hs)

-- The serializer writes nothing of a text without a backslash: all such texts are serialized alike,
-- as the empty field.
write_string_drops :
    (s : PacketSerializer) (text : Bytes)
    → Lacks backslash text
    → finish (write_string text s) ≡ finish s ++ field_end ∷ []
unfolding finish write_string
write_string_drops s text h = rw (write_chars-kept, kept-Lacks text h, append-nil)

-- A boolean that the serializer wrote is not read back: for both values the deserializer throws,
-- and throws a pointer.
read_bool-write_bool :
    (d : PacketDeserializer) (b : Bool) (rest : Bytes)
    → left d ≡ finish (write_bool b empty_serializer) ++ rest
    → read_bool d ≡ throws (invalid_packet_pointer (codes "invalid boolean field"))
unfolding finish write_bool to_bool bytes_eq
read_bool-write_bool d true rest e =
    rw (read_bool-field d (b'1' ∷ []) rest ((omega arith, omega arith), tt) e)
read_bool-write_bool d false rest e =
    rw (read_bool-field d (b'0' ∷ []) rest ((omega arith, omega arith), tt) e)
