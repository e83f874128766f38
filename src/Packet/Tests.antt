-- ===== src/Packet/Tests.antt =====
-- Tests of packets and their text, and the theorems at concrete inputs.
use sleep_manager.Base.{◌≡◌, true}
use sleep_manager.Exception.{ok}
use sleep_manager.Packet.Serializer.{empty_serializer, finish}
use sleep_manager.Packet.Deserializer.{PacketDeserializer, deserializer}
use sleep_manager.Packet.{discovery, serialize, deserialize, new_packet}
use sleep_manager.Samples.{junk, hello, hello-IsSendable}
use sleep_manager.Packet.RoundTrip.{header_after, body_after, deserialize-serialize}

deserialize-serialize_example :
    (d : PacketDeserializer) × (deserialize junk new_packet
        (deserializer (finish (serialize hello empty_serializer)))
      ≡ ok (
        record { header = header_after hello.header; body = body_after discovery new_packet.body },
        true,
        d,
      ))
deserialize-serialize_example = deserialize-serialize junk hello new_packet hello-IsSendable
