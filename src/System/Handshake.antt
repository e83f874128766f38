-- ===== src/System/Handshake.antt =====
-- A participant connects: its discovery request and the answer of the manager.
use sleep_manager.Base.{◌≡◌, refl, false, bytes_eq, [], ◌∷◌, ◌++◌, none, some}
use sleep_manager.Exception.{ok}
use sleep_manager.Address.{Junk, NodeAddresses}
use sleep_manager.WorkStation.{awaken}
use sleep_manager.Packet.{Packet, new_packet}
use sleep_manager.Management.{
  ManagementService, get_by_hostname, get_by_mac_address, get_by_ip_address,
}
use sleep_manager.Socket.{
  Env, World, UdpSenderSocket, broadcast_ip, discovery_manager_port, next_seqn,
}
use sleep_manager.Socket.Udp.{returns, no_faults}
use sleep_manager.Socket.Receiving.{text, IsShort, packet_after, server_receive_skips}
use sleep_manager.Socket.Retries.{IsWorking, after_sends}
use sleep_manager.Discovery.{discovery_response, discovery_round}
use sleep_manager.Discovery.Registration.{answer, answer_packet, discovery_response_lem}
use sleep_manager.Participant.{connect_to_manager, discovery_body}
use sleep_manager.Participant.Exchange.{query, query_packet, connect_to_manager_lem}

-- What comes over of an address.
abbrev pub carried : NodeAddresses → NodeAddresses
carried a =
    (packet_after
      (record new_packet { header = record (new_packet.header) { sender_addresses = a } })
      new_packet).header.sender_addresses

-- A host: its environment, its addresses, and the state of its sockets. Its calls that send succeed,
-- and its IP address is not the broadcast address.
pub record Host : Type 0 where
  pub env : Env
  pub addresses : NodeAddresses
  pub world : World
  pub working : IsWorking env
  pub loaded : env.load_host ≡ ok addresses
  pub unicast : bytes_eq addresses.ip broadcast_ip ≡ false

abbrev pub discovery_request : Host → Packet
discovery_request h = query_packet h.env h.addresses h.world discovery_body

-- What the manager receives of it.
abbrev pub arrived : Host → Packet
arrived h = packet_after (discovery_request h) new_packet

abbrev pub discovery_answer : Host → Host → Packet
discovery_answer manager participant =
    answer_packet manager.env manager.addresses (arrived participant)

module _ (junk : Junk) (client : UdpSenderSocket) (participant manager : Host)
    (s : ManagementService) (short : IsShort (discovery_request participant))
    (answer_short : IsShort (discovery_answer manager participant)) where
  pub manager_receives :
      discovery_round manager.env no_faults junk
        (record { nonblocking = false; inbox = text (discovery_request participant) ∷ [] })
        s
        manager.world
      ≡ returns (
        discovery_response manager.env (arrived participant) s manager.world,
        record { nonblocking = false; inbox = [] },
      )
  unfolding discovery_round
  manager_receives =
      rw (server_receive_skips junk [] (discovery_request participant) false [] tt short refl)

  pub participant_connects :
      connect_to_manager participant.env no_faults junk client
        ((text (discovery_answer manager participant) ∷ []) ∷ [])
        participant.world
      ≡ returns (
        carried manager.addresses,
        after_sends 1
            (query participant.env participant.addresses participant.world discovery_body
              broadcast_ip discovery_manager_port)
            (next_seqn participant.world),
      )
  participant_connects =
      connect_to_manager_lem participant.env junk participant.addresses client 0
        (discovery_answer manager participant) [] participant.world participant.working
        participant.loaded answer_short refl

  -- The request of a participant whose addresses are not taken, delivered to the manager's discovery
  -- loop, and the payload of the manager's answer, delivered to the participant: the manager's three
  -- lookups then find a new station, AWAKEN and with the addresses that came over, it has sent one
  -- datagram more, and the participant has the manager's addresses, as far as they come over, and has
  -- sent its request once. Both packets are sendable and fit the buffer, and the system calls of both
  -- hosts succeed.
  pub handshake_lem :
      get_by_hostname (arrived participant).header.sender_addresses.hostname s ≡ none
      → get_by_mac_address participant.addresses.mac s ≡ none
      → get_by_ip_address participant.addresses.ip s ≡ none
      → let a = (arrived participant).header.sender_addresses in
        let q =
          query participant.env participant.addresses participant.world discovery_body broadcast_ip
            discovery_manager_port in
        let reply = answer manager.env manager.addresses (arrived participant) in
        let (t, answered) = discovery_response manager.env (arrived participant) s manager.world in
        (discovery_round manager.env no_faults junk
            (record { nonblocking = false; inbox = q.sent_packet ∷ [] })
            s
            manager.world
          ≡ returns ((t, answered), record { nonblocking = false; inbox = [] }))
        × (get_by_hostname a.hostname t ≡ some s.next)
        × (get_by_mac_address participant.addresses.mac t ≡ some s.next)
        × (get_by_ip_address participant.addresses.ip t ≡ some s.next)
        × (t.cell s.next ≡ record { addresses = a; status = awaken })
        × (answered ≡ ok (record (manager.world) { sent = manager.world.sent ++ reply ∷ [] }))
        × (connect_to_manager participant.env no_faults junk client
              ((reply.payload ∷ []) ∷ [])
              participant.world
            ≡ returns (carried manager.addresses, after_sends 1 q (next_seqn participant.world)))
  handshake_lem fh fm fi =
      let (host, mac, ip, station, answered) =
        discovery_response_lem manager.env manager.addresses (arrived participant) s manager.world
          manager.working manager.loaded participant.unicast fh fm fi in
      (manager_receives, host, mac, ip, station, answered, participant_connects)
