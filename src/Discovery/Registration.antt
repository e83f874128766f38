-- ===== src/Discovery/Registration.antt =====
-- Which participants src/discovery.cpp registers.
use sleep_manager.Base.{
  ◌≡◌, ◌≢◌, ◌∙◌, refl, subst, false, List, Bytes, All, [], ◌∷◌, ◌++◌, none, some, Lacks, arith,
  Option-cases, inl, inr, bytes_eq_refl, bytes_eq,
}
use sleep_manager.Base.Map.{find, insert as map_insert, find-place}
use sleep_manager.Exception.{ok}
use sleep_manager.Address.{NodeAddresses}
use sleep_manager.WorkStation.{awaken, status_eq}
use sleep_manager.Packet.{Packet, response}
use sleep_manager.Packet.Serializer.{backslash}
use sleep_manager.Packet.RoundTrip.{kept-Lacks}
use sleep_manager.Management.{
  ManagementService, new_station, insert, participant_list, get_by_hostname, get_by_mac_address,
  get_by_ip_address,
}
use sleep_manager.Socket.{
  Env, World, Datagram, send_packet, send_string, sendto, broadcast_ip, sender_socket,
  discovery_participant_port, timestamp_of,
}
use sleep_manager.Socket.Server.{respond}
use sleep_manager.Socket.Receiving.{text, packet_after}
use sleep_manager.Socket.Retries.{IsWorking}
use sleep_manager.Discovery.{register, discovery_response}

-- A hostname that is taken: the table stays as it is, but for the object that was made.
pub register_taken :
    (received : Packet) (s : ManagementService)
    → find received.header.sender_addresses.hostname s.hostname_index ≢ none
    → let t = register received s in
      (participant_list t ≡ participant_list s)
      × (t.hostname_index ≡ s.hostname_index)
      × (t.mac_address_index ≡ s.mac_address_index)
      × (t.ip_address_index ≡ s.ip_address_index)
unfolding register new_station insert map_insert status_eq participant_list
register_taken received s taken = ground arith

-- A registration leaves its hostname taken.
pub register_takes :
    (received : Packet) (s : ManagementService)
    → find received.header.sender_addresses.hostname (register received s).hostname_index ≢ none
unfolding register new_station insert map_insert status_eq
register_takes received s =
    let h = received.header.sender_addresses.hostname in
    elim (Option-cases (find h s.hostname_index)) [
      | inl free ↦ ground (arith, find-place h h s.next s.hostname_index free, bytes_eq_refl h)
      | inr (p, e) ↦ ground arith
    ]

-- The registrations of the packets that arrive, one after the other.
abbrev pub registrations : Packet → List Packet → ManagementService → ManagementService
registrations x [] s = s
registrations x (p ∷ ps) s = registrations x ps (register (packet_after p x) s)

abbrev pub IsPlainHost : Packet → Type 0
IsPlainHost p = Lacks backslash p.header.sender_addresses.hostname

-- Once the empty hostname is taken.
registrations_taken :
    (x : Packet) (ps : List Packet) (s : ManagementService)
    → All IsPlainHost ps
    → find [] s.hostname_index ≢ none
    → participant_list (registrations x ps s) ≡ participant_list s
registrations_taken x [] s _ taken = refl
registrations_taken x (p ∷ ps) s (hp, hs) taken =
    let (list, index, _, _) = register_taken (packet_after p x) s (rw (kept-Lacks _ hp) taken) in
    registrations_taken x ps (register (packet_after p x) s) hs (rw index taken) ∙ list

-- From packets whose hostname has no backslash at most one participant is registered: all these
-- hostnames arrive empty, so every registration behind the first finds its hostname taken, and the
-- list of participants stays as the first registration left it.
pub register_once :
    (p x : Packet) (ps : List Packet) (s : ManagementService)
    → IsPlainHost p
    → All IsPlainHost ps
    → participant_list (registrations x (p ∷ ps) s)
      ≡ participant_list (register (packet_after p x) s)
register_once p x ps s hp hs = registrations_taken x ps (register (packet_after p x) s) hs (
    subst (λ (h : Bytes). find h (register (packet_after p x) s).hostname_index ≢ none)
      (kept-Lacks _ hp) (register_takes (packet_after p x) s))

-- The packet that answers a packet, and its datagram.
abbrev pub answer_packet : Env → NodeAddresses → Packet → Packet
answer_packet env host received = record received {
  header = record (received.header) {
    direction = response;
    sender_addresses = host;
    timestamp = timestamp_of env;
  };
}

abbrev pub answer : Env → NodeAddresses → Packet → Datagram
answer env host received = record {
  payload = text (answer_packet env host received);
  dest_ip = received.header.sender_addresses.ip;
  dest_port = discovery_participant_port;
  broadcast = false;
}

pub respond-IsWorking :
    (env : Env) (host : NodeAddresses) (received : Packet) (w : World)
    → IsWorking env
    → env.load_host ≡ ok host
    → bytes_eq received.header.sender_addresses.ip broadcast_ip ≡ false
    → respond env discovery_participant_port received w
      ≡ ok (record w { sent = w.sent ++ answer env host received ∷ [] })
unfolding respond sender_socket send_packet send_string sendto
respond-IsWorking env host received w k e one = rw (e, k.socket_works, k.sendto_works, one)

-- A registration under addresses that are not taken.
pub register_lem :
    (received : Packet) (s : ManagementService)
    → let a = received.header.sender_addresses in
      let t = register received s in
      get_by_hostname a.hostname s ≡ none
      → get_by_mac_address a.mac s ≡ none
      → get_by_ip_address a.ip s ≡ none
      → (get_by_hostname a.hostname t ≡ some s.next)
        × (get_by_mac_address a.mac t ≡ some s.next)
        × (get_by_ip_address a.ip t ≡ some s.next)
        × (t.cell s.next ≡ record { addresses = a; status = awaken })
unfolding register new_station insert map_insert status_eq get_by_hostname get_by_mac_address
    get_by_ip_address
register_lem received s fh fm fi =
    let a = received.header.sender_addresses in
    (
      ground (
        arith,
        find-place a.hostname a.hostname s.next s.hostname_index fh,
        bytes_eq_refl a.hostname,
      ),
      ground (arith, find-place a.mac a.mac s.next s.mac_address_index fm, bytes_eq_refl a.mac),
      ground (arith, find-place a.ip a.ip s.next s.ip_address_index fi, bytes_eq_refl a.ip),
      ground arith,
    )

-- A discovery request from a sender whose hostname, MAC and IP address are not taken: afterwards the
-- three lookups return a new station, with the sender's addresses and AWAKEN; and where the system
-- calls succeed and the sender's IP address is not the broadcast address, one datagram is sent, to the sender, with the request's sequence number and body,
-- the direction RESPONSE and the host's own addresses.
pub discovery_response_lem :
    (env : Env) (host : NodeAddresses) (received : Packet) (s : ManagementService) (w : World)
    → IsWorking env
    → env.load_host ≡ ok host
    → bytes_eq received.header.sender_addresses.ip broadcast_ip ≡ false
    → get_by_hostname received.header.sender_addresses.hostname s ≡ none
    → get_by_mac_address received.header.sender_addresses.mac s ≡ none
    → get_by_ip_address received.header.sender_addresses.ip s ≡ none
    → let a = received.header.sender_addresses in
      let (t, answered) = discovery_response env received s w in
      (get_by_hostname a.hostname t ≡ some s.next)
      × (get_by_mac_address a.mac t ≡ some s.next)
      × (get_by_ip_address a.ip t ≡ some s.next)
      × (t.cell s.next ≡ record { addresses = a; status = awaken })
      × (answered ≡ ok (record w { sent = w.sent ++ answer env host received ∷ [] }))
unfolding discovery_response
discovery_response_lem env host received s w k e one fh fm fi =
    let (hostname, mac, ip, station) = register_lem received s fh fm fi in
    (hostname, mac, ip, station, respond-IsWorking env host received w k e one)
