-- ===== src/Participant/Tests.antt =====
-- The theorems on the participant at concrete inputs.
use sleep_manager.Base.{
  ◌≡◌, refl, false, List, [], ◌∷◌, ◌++◌, map, none, some, Option, replicate, codes, Bytes, ltb,
  length, if◌then◌else◌,
}
use sleep_manager.Packet.{Packet, new_packet}
use sleep_manager.Socket.{broadcast_ip, eacces, discovery_manager_port, next_seqn}
use sleep_manager.Socket.Udp.{returns, raises, blocks, no_faults}
use sleep_manager.Exception.{invalid_packet, io_exception}
use sleep_manager.Socket.Receiving.{text, packet_after}
use sleep_manager.Socket.Retries.{IsWorking, after_sends}
use sleep_manager.Participant.{
  connect_to_manager, interrupt, participant_main, listen_wol, discovery_body,
}
use sleep_manager.Participant.Listening.{listen_wol_lem}
use sleep_manager.Participant.Exchange.{query, connect_to_manager_lem}
use sleep_manager.Participant.Ending.{batch, participant_main_blocks}
use sleep_manager.Interface.{ParticipantMsg, participant_wakeup, participant_exit}
use sleep_manager.Socket.Server.{magic_size}
use sleep_manager.Samples.{junk, hello, hello-IsShort, desk, env, world, goodbye, goodbye-IsShort}

env-IsWorking : IsWorking env
env-IsWorking = record { socket_works = refl; setsockopt_works = refl; sendto_works = refl }

connect_to_manager_lem_example :
    connect_to_manager env no_faults junk
      (record { broadcast_enabled = false })
      (replicate 2 [] ++ (text hello ∷ []) ∷ [])
      world
    ≡ returns (
      (packet_after hello new_packet).header.sender_addresses,
      after_sends 3
          (query env desk world discovery_body broadcast_ip discovery_manager_port)
          (next_seqn world),
    )
connect_to_manager_lem_example =
    connect_to_manager_lem env junk desk (record { broadcast_enabled = false }) 2 hello [] world
      env-IsWorking refl hello-IsShort refl

-- An answer of the type EXIT.
abbrev arrivals : List (Option Packet)
arrivals = none ∷ some goodbye ∷ none ∷ []

-- A wakeup for the participant and then its exit.
abbrev messages : List (Option ParticipantMsg)
messages = some participant_wakeup ∷ some participant_exit ∷ []

participant_main_blocks_example :
    (participant_main env no_faults junk
        (record { broadcast_enabled = false })
        (replicate 2 [] ++ (text hello ∷ []) ∷ [])
        messages
        (map batch arrivals)
        world
      ≡ blocks)
    × (interrupt env no_faults junk (9 ∷ []) (map batch arrivals) world ≡ blocks)
participant_main_blocks_example =
    participant_main_blocks env junk desk (record { broadcast_enabled = false }) 2 hello [] messages
      (9 ∷ []) arrivals world env-IsWorking refl hello-IsShort refl
      (tt, ((goodbye-IsShort, refl), (tt, tt)))

-- A datagram of 102 bytes.
abbrev magic : Bytes
magic = replicate 102 255

listen_wol_lem_example :
    (listen_wol env no_faults [] world ≡ blocks)
    × (listen_wol env no_faults (magic ∷ []) world
        ≡ raises (
            if ltb (length magic) magic_size
            then invalid_packet (codes "WOL packet must have length 6 * 17")
            else io_exception (codes "sendto") eacces))
listen_wol_lem_example = listen_wol_lem env desk env-IsWorking refl magic [] world
