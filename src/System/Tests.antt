-- ===== src/System/Tests.antt =====
-- The theorems on the whole system at concrete hosts.
use sleep_manager.Base.{arith, ◌≡◌, refl, false, none, some, [], ◌∷◌, ◌++◌, Bool}
use sleep_manager.Base.Map.{find}
use sleep_manager.Exception.{ok}
use sleep_manager.WorkStation.{awaken, disconnected}
use sleep_manager.Management.{
  ManagementService, new_service, get_by_hostname, get_by_mac_address, get_by_ip_address,
}
use sleep_manager.Management.Invariant.{new_service-IsValid}
use sleep_manager.Socket.{broadcast_ip, discovery_manager_port, next_seqn}
use sleep_manager.Socket.Udp.{returns, no_faults}
use sleep_manager.Socket.Receiving.{text}
use sleep_manager.Socket.Retries.{after_sends}
use sleep_manager.Discovery.{register, discovery_response, discovery_round}
use sleep_manager.Discovery.Registration.{answer}
use sleep_manager.Monitoring.{exits}
use sleep_manager.Participant.{connect_to_manager, discovery_body}
use sleep_manager.Participant.Exchange.{query}
use sleep_manager.System.Handshake.{arrived, carried, handshake_lem}
use sleep_manager.System.Farewell.{exit_request, farewell_lem}
use sleep_manager.Samples.{junk, empty_table, world}
use sleep_manager.Base.{Bytes}
use sleep_manager.WorkStation.{WorkStation}
use sleep_manager.Management.{participant_list}
use sleep_manager.System.Second.{second_lem}
use sleep_manager.System.Samples.{
  lamp, desk_env, desk, request-IsShort, answer-IsShort, exit-IsShort,
}

abbrev nobody : WorkStation
nobody = record { addresses = desk.addresses; status = awaken }

handshake_lem_example :
    let a = (arrived desk).header.sender_addresses in
    let q =
      query desk_env desk.addresses world discovery_body broadcast_ip discovery_manager_port in
    let reply = answer desk_env desk.addresses (arrived desk) in
    let (t, answered) = discovery_response desk_env (arrived desk) empty_table world in
    (discovery_round desk_env no_faults junk
        (record { nonblocking = false; inbox = q.sent_packet ∷ [] })
        empty_table
        world
      ≡ returns ((t, answered), record { nonblocking = false; inbox = [] }))
    × (get_by_hostname a.hostname t ≡ some 0)
    × (get_by_mac_address desk.addresses.mac t ≡ some 0)
    × (get_by_ip_address desk.addresses.ip t ≡ some 0)
    × (t.cell 0 ≡ record { addresses = a; status = awaken })
    × (answered ≡ ok (record world { sent = world.sent ++ reply ∷ [] }))
    × (connect_to_manager desk_env no_faults junk
          (record { broadcast_enabled = false })
          ((reply.payload ∷ []) ∷ [])
          world
        ≡ returns (carried desk.addresses, after_sends 1 q (next_seqn world)))
unfolding new_service get_by_hostname get_by_mac_address get_by_ip_address find
handshake_lem_example =
    handshake_lem junk (record { broadcast_enabled = false }) desk desk empty_table request-IsShort
      answer-IsShort refl refl refl

farewell_lem_example :
    let a = (arrived desk).header.sender_addresses in
    let t = register (arrived desk) empty_table in
    (u : ManagementService) × (c : Bool) × (exits no_faults junk false
        (text (exit_request desk) ∷ [])
        t
      ≡ returns (u, record { nonblocking = c; inbox = [] }))
    × (get_by_hostname a.hostname u ≡ none)
    × (get_by_mac_address desk.addresses.mac u ≡ none)
    × (get_by_ip_address desk.addresses.ip u ≡ none)
    × ((u.cell 0).status ≡ disconnected)
unfolding new_service get_by_hostname get_by_mac_address get_by_ip_address find
farewell_lem_example =
    farewell_lem junk desk desk false empty_table (new_service-IsValid 0 _) exit-IsShort refl refl
      refl refl

second_lem_example :
    let t = register (arrived lamp) empty_table in
    let q =
      query desk_env desk.addresses world discovery_body broadcast_ip discovery_manager_port in
    let reply = answer desk_env desk.addresses (arrived desk) in
    let (u, answered) = discovery_response desk_env (arrived desk) t world in
    (discovery_round desk_env no_faults junk
        (record { nonblocking = false; inbox = q.sent_packet ∷ [] })
        t
        world
      ≡ returns ((u, answered), record { nonblocking = false; inbox = [] }))
    × (participant_list u ≡ participant_list t)
    × ((k : Bytes) → get_by_hostname k u ≡ get_by_hostname k t)
    × ((k : Bytes) → get_by_mac_address k u ≡ get_by_mac_address k t)
    × ((k : Bytes) → get_by_ip_address k u ≡ get_by_ip_address k t)
    × (answered ≡ ok (record world { sent = world.sent ++ reply ∷ [] }))
    × (connect_to_manager desk_env no_faults junk
          (record { broadcast_enabled = false })
          ((reply.payload ∷ []) ∷ [])
          world
        ≡ returns (carried desk.addresses, after_sends 1 q (next_seqn world)))
second_lem_example =
    second_lem junk (record { broadcast_enabled = false }) lamp desk desk empty_table (omega arith)
      (omega arith) request-IsShort answer-IsShort
