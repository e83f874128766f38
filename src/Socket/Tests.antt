-- ===== src/Socket/Tests.antt =====
-- The theorems on the sockets at concrete inputs.
use sleep_manager.Base.{
  ◌≡◌, ◌≤◌, ◌<◌, ◌⊎◌, Bytes, refl, true, false, none, some, [], ◌∷◌, ◌++◌, codes, map, bytes_eq,
  if◌then◌else◌, replicate, length,
}
use sleep_manager.Exception.{invalid_packet, io_exception, std_bad_optional_access}
use sleep_manager.Packet.{new_packet}
use sleep_manager.Samples.{junk, hello, hello-IsShort, desk, env, world}
use sleep_manager.Socket.{broadcast_ip, eacces}
use sleep_manager.Socket.Udp.{returns, raises, blocks, no_faults, UdpReceiverSocket}
use sleep_manager.Socket.Wol.{after_answer, handle_wol_lem}
use sleep_manager.Socket.Server.{handle_wol, server_receive, server_try_receive, magic_size}
use sleep_manager.Socket.Client.{Request, receive_bounded, receive_response}
use sleep_manager.Socket.Receiving.{
  text, packet_after, server_receive_skips, server_try_receive_lem,
}
use sleep_manager.Socket.Retries.{Bounded, receive_bounded_lem, receive_response_lem, after_sends}

abbrev ask : Request
ask = record { sent_packet = codes "x"; dest_ip_address = 9 ∷ []; dest_port = 9041 }

abbrev idle : UdpReceiverSocket
idle = record { nonblocking = false; inbox = [] }

server_receive_skips_example :
    server_receive no_faults junk
      (record { nonblocking = false; inbox = map text [] ++ text hello ∷ codes "x" ∷ [] })
    ≡ returns
        (packet_after hello new_packet, record { nonblocking = false; inbox = codes "x" ∷ [] })
server_receive_skips_example =
    server_receive_skips junk [] hello false (codes "x" ∷ []) tt hello-IsShort refl

server_try_receive_lem_example :
    (server_try_receive no_faults junk (record { nonblocking = false; inbox = text hello ∷ [] })
      ≡ returns (some (packet_after hello new_packet), idle))
    × (server_try_receive no_faults junk idle
        ≡ returns (none, record { nonblocking = true; inbox = [] }))
    × (server_receive no_faults junk (record { nonblocking = true; inbox = [] })
        ≡ raises std_bad_optional_access)
    × (server_receive no_faults junk idle ≡ blocks)
server_try_receive_lem_example = server_try_receive_lem junk hello false [] hello-IsShort

receive_bounded_lem_example :
    Bounded 3 world (receive_bounded env no_faults junk ask 3 new_packet idle [] world)
receive_bounded_lem_example = receive_bounded_lem env no_faults junk ask 3 new_packet idle [] world

receive_response_lem_example :
    receive_response env no_faults junk ask new_packet idle
      (replicate 2 [] ++ (text hello ∷ []) ∷ [])
      world
    ≡ returns (packet_after hello new_packet, after_sends 2 ask world)
receive_response_lem_example =
    receive_response_lem env junk ask 2 hello new_packet false [] world
      (record { socket_works = refl; setsockopt_works = refl; sendto_works = refl }) hello-IsShort
      refl

-- A datagram that is longer than a WOL packet.
abbrev sevens : Bytes
sevens = replicate 103 7

handle_wol_lem_example :
    ((magic_size ≤ length sevens)
      × (handle_wol env no_faults
            (9 ∷ [])
            7010
            (record { nonblocking = false; inbox = sevens ∷ [] })
            world
          ≡ (if bytes_eq (9 ∷ []) broadcast_ip
              then raises (io_exception (codes "sendto") eacces)
              else returns (after_answer env desk (9 ∷ []) 7010 world, idle))))
    ⊎ ((length sevens < magic_size)
        × (handle_wol env no_faults
              (9 ∷ [])
              7010
              (record { nonblocking = false; inbox = sevens ∷ [] })
              world
            ≡ raises (invalid_packet (codes "WOL packet must have length 6 * 17"))))
handle_wol_lem_example =
    handle_wol_lem env desk (9 ∷ []) 7010 false sevens [] world
      (record { socket_works = refl; setsockopt_works = refl; sendto_works = refl }) refl
