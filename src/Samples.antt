-- ===== src/Samples.antt =====
-- Concrete values for the tests: a packet, uninitialised locals, a table and an environment.
use sleep_manager.Base.{◌≡◌, refl, none, [], ◌∷◌, codes, arith}
use sleep_manager.Text.Number.{to_string}
use sleep_manager.Exception.{ok}
use sleep_manager.Address.{Junk, NodeAddresses, put_hex, render_ip_address, render_mac_address}
use sleep_manager.WorkStation.{awaken}
use sleep_manager.Packet.Serializer.{
  empty_serializer, finish, write_string, write_uint, write_mac_address, write_ip_address,
  write_chars,
}
use sleep_manager.Packet.{
  Packet, request, discovery, exit, serialize, serialize_header, serialize_body, direction_code,
  type_code,
}
use sleep_manager.Packet.RoundTrip.{IsSendable}
use sleep_manager.Management.{ManagementService, new_service}
use sleep_manager.Socket.{Env, World}
use sleep_manager.Socket.Receiving.{IsShort}

abbrev pub junk : Junk
junk = record { ch = b'?'; byte = 77 }

abbrev pub hello : Packet
hello = record {
  header = record {
    seqn = 65537;
    timestamp = 1700000000000000;
    sender_addresses = record {
      mac = 0 ∷ 27 ∷ 68 ∷ 17 ∷ 58 ∷ 183 ∷ [];
      ip = 10 ∷ 0 ∷ 0 ∷ 7 ∷ [];
      hostname = codes "desk";
    };
    direction = request;
  };
  body = record { body_type = discovery; sleep_status = awaken };
}

-- The hostname's field is empty.
hello_text :
    finish (serialize hello empty_serializer)
    ≡ codes "65537;1700000000000000;00:1b:44:11:3a:b7;10.0.0.7;;0;0;"
unfolding finish serialize serialize_header serialize_body write_uint write_string write_mac_address
    write_ip_address write_chars render_mac_address render_ip_address put_hex to_string
    direction_code type_code
hello_text = refl

pub hello-IsSendable : IsSendable hello.header
hello-IsSendable = record {
  seqn_fits = omega arith;
  timestamp_fits = omega arith;
  mac_valid = omega arith;
  ip_valid = omega arith;
  hostname_plain = tt;
}

pub hello-IsShort : IsShort hello
hello-IsShort = record { sendable = hello-IsSendable; fits = rw hello_text (omega arith) }

-- The same from a participant that exits.
abbrev pub goodbye : Packet
goodbye = record hello { body = record { body_type = exit; sleep_status = awaken } }

goodbye_text :
    finish (serialize goodbye empty_serializer)
    ≡ codes "65537;1700000000000000;00:1b:44:11:3a:b7;10.0.0.7;;0;1;"
unfolding finish serialize serialize_header serialize_body write_uint write_string write_mac_address
    write_ip_address write_chars render_mac_address render_ip_address put_hex to_string
    direction_code type_code
goodbye_text = refl

pub goodbye-IsShort : IsShort goodbye
goodbye-IsShort = record { sendable = hello-IsSendable; fits = rw goodbye_text (omega arith) }

abbrev pub desk : NodeAddresses
desk = record { mac = 1 ∷ []; ip = 9 ∷ []; hostname = codes "desk" }

abbrev pub empty_table : ManagementService
empty_table = new_service 0 (λ _. record { addresses = desk; status = awaken })

abbrev pub env : Env
env = record {
  load_host = ok desk;
  tv_sec = 5;
  tv_nsec = 7000;
  socket_errno = none;
  setsockopt_errno = none;
  sendto_errno = none;
}

abbrev pub world : World
world = record { global_seqn = 3; sent = [] }
