-- ===== src/Discovery/Tests.antt =====
-- The theorems on discovery at concrete inputs.
use mathlib.Core.List.{Perm, Mem}
use mathlib.Core.List.Perm
use sleep_manager.Base.{List, All, bytes_eq, arith, ◌≡◌, ◌≢◌, map, refl, none, [], ◌∷◌, ◌++◌, codes}
use sleep_manager.Exception.{ok, invalid_packet}
use sleep_manager.Address.{NodeAddresses}
use sleep_manager.WorkStation.{awaken}
use sleep_manager.Address.{put_hex, render_ip_address, render_mac_address}
use sleep_manager.Text.Number.{to_string}
use sleep_manager.Packet.{
  Packet, new_packet, deserialize, deserialize_header, serialize, serialize_header, serialize_body,
  direction_code, type_code,
}
use sleep_manager.Packet.Serializer.{
  empty_serializer, finish, write_string, write_uint, write_mac_address, write_ip_address,
  write_chars,
}
use sleep_manager.Packet.Deserializer.{read_uint, probe_field_end, probe}
use sleep_manager.Management.{ManagementService, new_service, get_by_hostname}
use sleep_manager.Socket.{Env, World, Datagram}
use sleep_manager.Socket.Receiving.{text, IsShort, packet_after}
use sleep_manager.Socket.Udp.{no_faults}
use sleep_manager.Socket.Retries.{IsWorking}
use sleep_manager.Discovery.{discovery_main, awaits, terminates, handle_requests}
use sleep_manager.Discovery.Registration.{answer}
use sleep_manager.Discovery.Requests.{requests}
use sleep_manager.Discovery.Serving.{IsMalformed, discovery_main_lem}
use sleep_manager.Discovery.Answering.{IsUnicast}
use sleep_manager.Samples.{junk, hello, goodbye, hello-IsShort, goodbye-IsShort}

abbrev desk : NodeAddresses
desk = record { mac = 1 ∷ []; ip = 9 ∷ []; hostname = codes "desk" }

abbrev lamp : NodeAddresses
lamp = record { mac = 2 ∷ []; ip = 8 ∷ []; hostname = codes "lamp" }

abbrev empty_table : ManagementService
empty_table = new_service 0 (λ _. record { addresses = desk; status = awaken })

abbrev env : Env
env = record {
  load_host = ok lamp;
  tv_sec = 5;
  tv_nsec = 7000;
  socket_errno = none;
  setsockopt_errno = none;
  sendto_errno = none;
}

abbrev world : World
world = record { global_seqn = 3; sent = [] }

empty-IsMalformed : IsMalformed junk (invalid_packet (codes "missing field end ;")) []
unfolding deserialize deserialize_header read_uint probe_field_end probe
empty-IsMalformed q = refl

abbrev working : IsWorking env
working = record { socket_works = refl; setsockopt_works = refl; sendto_works = refl }

-- The request of another host.
abbrev other : Packet
other = record hello {
  header = record (hello.header) {
    seqn = 4;
    sender_addresses = record {
      mac = 0 ∷ 27 ∷ 68 ∷ 17 ∷ 58 ∷ 184 ∷ [];
      ip = 10 ∷ 0 ∷ 0 ∷ 8 ∷ [];
      hostname = codes "lamp";
    };
  };
}

other_text :
    finish (serialize other empty_serializer)
    ≡ codes "4;1700000000000000;00:1b:44:11:3a:b8;10.0.0.8;;0;0;"
unfolding finish serialize serialize_header serialize_body write_uint write_string write_mac_address
    write_ip_address write_chars render_mac_address render_ip_address put_hex to_string
    direction_code type_code
other_text = refl

other-IsShort : IsShort other
other-IsShort = record {
  sendable = record {
    seqn_fits = omega arith;
    timestamp_fits = omega arith;
    mac_valid = omega arith;
    ip_valid = omega arith;
    hostname_plain = tt;
  };
  fits = rw other_text (omega arith);
}

-- Two requests, of which the second comes to its thread first.
abbrev arriving : List Packet
arriving = hello ∷ goodbye ∷ other ∷ []

abbrev order : List Packet
order = packet_after other new_packet ∷ packet_after hello new_packet ∷ []

order-IsUnicast : All IsUnicast order
unfolding bytes_eq
order-IsUnicast = (refl, (refl, tt))

discovery_main_lem_example :
    let (u, answered) = handle_requests env order empty_table world in
    (discovery_main env no_faults junk (map text arriving) ≡ awaits (requests arriving))
    × (discovery_main env no_faults junk (map text arriving ++ [] ∷ [])
        ≡ terminates (requests arriving) (invalid_packet (codes "missing field end ;")))
    × ((answers : List Datagram) × Perm answers (map (answer env lamp) (requests arriving))
        × (answered ≡ ok (record world { sent = world.sent ++ answers })))
    × ((r : Packet)
        → Mem r (requests arriving)
        → get_by_hostname r.header.sender_addresses.hostname u ≢ none)
discovery_main_lem_example =
    discovery_main_lem env lamp junk working refl arriving order []
      (invalid_packet (codes "missing field end ;")) [] empty_table world
      (hello-IsShort, (goodbye-IsShort, (other-IsShort, tt))) empty-IsMalformed
      (Perm.swap (packet_after hello new_packet) (packet_after other new_packet) []) order-IsUnicast
