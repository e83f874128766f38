-- ===== src/Packet.antt =====
-- Packets and their text, src/packet.cpp and include/packet.h.
--
-- A method that changes the packet takes it and returns the new one. A deserialization that returns
-- false or throws part of the way leaves the fields that it had read.
pub mod Serializer
pub mod Deserializer
pub mod Fields
pub mod RoundTrip
mod Tests
use sleep_manager.Base.{ℕ, ◌≡◌, refl, Bool, true, false, Bytes, ◌==◌, if◌then◌else◌}
use sleep_manager.Exception.{Result, ok, throws, ◌>>=◌}
use sleep_manager.Address.{NodeAddresses, no_addresses, Junk}
use sleep_manager.WorkStation.{Status, awaken}
use Serializer.{PacketSerializer, write_uint, write_string, write_ip_address, write_mac_address}
use Deserializer.{PacketDeserializer, read_uint, read_string, read_ip_address, read_mac_address}

pub data Direction : Type 0 where
  request response : Direction

pub data BodyType : Type 0 where
  discovery exit wol sleep_status_type : BodyType

-- The enumerations' values.
unfoldable pub direction_code : Direction → ℕ
direction_code request = 0
direction_code response = 1

unfoldable pub type_code : BodyType → ℕ
type_code discovery = 0
type_code exit = 1
type_code wol = 2
type_code sleep_status_type = 3

pub record PacketHeader : Type 0 where
  pub seqn : ℕ
  pub timestamp : ℕ
  pub sender_addresses : NodeAddresses
  pub direction : Direction

pub record PacketBody : Type 0 where
  pub body_type : BodyType
  pub sleep_status : Status

pub record Packet : Type 0 where
  pub header : PacketHeader
  pub body : PacketBody

-- `PacketHeader()` and `PacketBody()`.
abbrev pub new_header : PacketHeader
new_header = record {
  seqn = 0;
  timestamp = 0;
  sender_addresses = no_addresses;
  direction = request;
}

abbrev pub new_body : PacketBody
new_body = record { body_type = discovery; sleep_status = awaken }

abbrev pub new_packet : Packet
new_packet = record { header = new_header; body = new_body }

unfoldable pub parse_direction : ℕ → PacketHeader → PacketHeader × Bool
parse_direction n h =
    if n == 0
    then (record h { direction = request }, true)
    else if n == 1
    then (record h { direction = response }, true)
    else (h, false)

-- The switch has one case.
unfoldable pub parse_type : ℕ → PacketBody → PacketBody × Bool
parse_type n b = if n == 0 then (record b { body_type = discovery }, true) else (b, false)

unfoldable pub serialize_header : PacketHeader → PacketSerializer → PacketSerializer
serialize_header h s =
    let s = write_uint h.seqn s in
    let s = write_uint h.timestamp s in
    let s = write_mac_address h.sender_addresses.mac s in
    let s = write_ip_address h.sender_addresses.ip s in
    let s = write_string h.sender_addresses.hostname s in write_uint (direction_code h.direction) s

unfoldable pub serialize_body : PacketBody → PacketSerializer → PacketSerializer
serialize_body b = write_uint (type_code b.body_type)

unfoldable pub serialize : Packet → PacketSerializer → PacketSerializer
serialize p s = serialize_body p.body (serialize_header p.header s)

unfoldable pub deserialize_header :
    Junk → PacketHeader → PacketDeserializer → Result (PacketHeader × Bool × PacketDeserializer)
deserialize_header junk h d = do
  (seqn, d) ← read_uint d
  (timestamp, d) ← read_uint d
  (mac, d) ← read_mac_address junk d
  (ip, d) ← read_ip_address junk d
  (hostname, d) ← read_string d
  (code, d) ← read_uint d
  let addresses : NodeAddresses = record { mac = mac; ip = ip; hostname = hostname }
  let (h', parsed) =
      parse_direction code
        (record h { seqn = seqn; timestamp = timestamp; sender_addresses = addresses })
  ok (h', parsed, d)

unfoldable pub deserialize_body :
    PacketBody → PacketDeserializer → Result (PacketBody × Bool × PacketDeserializer)
deserialize_body b d = do
  (code, d) ← read_uint d
  let (b', parsed) = parse_type code b
  ok (b', parsed, d)

-- The body is read if the header was.
unfoldable pub deserialize_rest :
    Packet → PacketHeader × Bool × PacketDeserializer → Result (Packet × Bool × PacketDeserializer)
unfolding deserialize_body
deserialize_rest p (h, false, d) = ok (record p { header = h }, false, d)
deserialize_rest p (h, true, d) = do
  (b, parsed, d) ← deserialize_body p.body d
  ok (record { header = h; body = b }, parsed, d)

unfoldable pub deserialize :
    Junk → Packet → PacketDeserializer → Result (Packet × Bool × PacketDeserializer)
unfolding deserialize_header deserialize_rest
deserialize junk p d = deserialize_header junk p.header d >>= deserialize_rest p
