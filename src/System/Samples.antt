-- ===== src/System/Samples.antt =====
-- A host and its packets, for the tests.
use sleep_manager.Base.{[], ◌∷◌, ◌≡◌, refl, none, codes, arith, bytes_eq, false}
use sleep_manager.Text.Number.{to_string}
use sleep_manager.Exception.{ok}
use sleep_manager.Address.{NodeAddresses, put_hex, render_ip_address, render_mac_address}
use sleep_manager.Packet.Serializer.{
  empty_serializer, finish, write_string, write_uint, write_mac_address, write_ip_address,
  write_chars,
}
use sleep_manager.Packet.{serialize, serialize_header, serialize_body, direction_code, type_code}
use sleep_manager.Socket.{Env, broadcast_ip, timestamp_of}
use sleep_manager.Socket.Receiving.{IsShort}
use sleep_manager.System.Handshake.{Host, discovery_request, discovery_answer}
use sleep_manager.System.Farewell.{exit_request}
use sleep_manager.Samples.{hello, world}

abbrev pub desk_env : Env
desk_env = record {
  load_host = ok hello.header.sender_addresses;
  tv_sec = 5;
  tv_nsec = 7000;
  socket_errno = none;
  setsockopt_errno = none;
  sendto_errno = none;
}

pub desk_unicast : bytes_eq hello.header.sender_addresses.ip broadcast_ip ≡ false
unfolding bytes_eq
desk_unicast = refl

abbrev pub desk : Host
desk = record {
  env = desk_env;
  addresses = hello.header.sender_addresses;
  world = world;
  working = record { socket_works = refl; setsockopt_works = refl; sendto_works = refl };
  loaded = refl;
  unicast = desk_unicast;
}

request_text :
    finish (serialize (discovery_request desk) empty_serializer)
    ≡ codes "3;5000007;00:1b:44:11:3a:b7;10.0.0.7;;0;0;"
unfolding finish serialize serialize_header serialize_body write_uint write_string write_mac_address
    write_ip_address write_chars render_mac_address render_ip_address put_hex to_string
    direction_code type_code timestamp_of
request_text = refl

pub request-IsShort : IsShort (discovery_request desk)
unfolding timestamp_of
request-IsShort = record {
  sendable = record {
    seqn_fits = omega arith;
    timestamp_fits = omega arith;
    mac_valid = omega arith;
    ip_valid = omega arith;
    hostname_plain = tt;
  };
  fits = rw request_text (omega arith);
}

answer_text :
    finish (serialize (discovery_answer desk desk) empty_serializer)
    ≡ codes "3;5000007;00:1b:44:11:3a:b7;10.0.0.7;;1;0;"
unfolding finish serialize serialize_header serialize_body write_uint write_string write_mac_address
    write_ip_address write_chars render_mac_address render_ip_address put_hex to_string
    direction_code type_code timestamp_of
answer_text = refl

pub answer-IsShort : IsShort (discovery_answer desk desk)
unfolding timestamp_of
answer-IsShort = record {
  sendable = record {
    seqn_fits = omega arith;
    timestamp_fits = omega arith;
    mac_valid = omega arith;
    ip_valid = omega arith;
    hostname_plain = tt;
  };
  fits = rw answer_text (omega arith);
}

exit_text :
    finish (serialize (exit_request desk) empty_serializer)
    ≡ codes "3;5000007;00:1b:44:11:3a:b7;10.0.0.7;;0;1;"
unfolding finish serialize serialize_header serialize_body write_uint write_string write_mac_address
    write_ip_address write_chars render_mac_address render_ip_address put_hex to_string
    direction_code type_code timestamp_of
exit_text = refl

pub exit-IsShort : IsShort (exit_request desk)
unfolding timestamp_of
exit-IsShort = record {
  sendable = record {
    seqn_fits = omega arith;
    timestamp_fits = omega arith;
    mac_valid = omega arith;
    ip_valid = omega arith;
    hostname_plain = tt;
  };
  fits = rw exit_text (omega arith);
}

-- Another host, with no address in common.
abbrev pub lamp_addresses : NodeAddresses
lamp_addresses = record {
  mac = 0 ∷ 27 ∷ 68 ∷ 17 ∷ 58 ∷ 184 ∷ [];
  ip = 10 ∷ 0 ∷ 0 ∷ 8 ∷ [];
  hostname = codes "lamp";
}

pub lamp_unicast : bytes_eq lamp_addresses.ip broadcast_ip ≡ false
unfolding bytes_eq
lamp_unicast = refl

abbrev pub lamp : Host
lamp = record {
  env = record desk_env { load_host = ok lamp_addresses };
  addresses = lamp_addresses;
  world = world;
  working = record { socket_works = refl; setsockopt_works = refl; sendto_works = refl };
  loaded = refl;
  unicast = lamp_unicast;
}
