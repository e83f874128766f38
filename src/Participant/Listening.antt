-- ===== src/Participant/Listening.antt =====
-- How long a participant of src/participant.cpp listens for Wake-on-LAN packets.
use sleep_manager.Base.{
  ◌≡◌, refl, false, List, [], ◌∷◌, Bytes, codes, length, arith, inl, inr, true, ltb, bytes_eq,
  if◌then◌else◌,
}
use sleep_manager.Exception.{Exception, ok, invalid_packet, io_exception}
use sleep_manager.Address.{NodeAddresses}
use sleep_manager.Socket.{Env, World, broadcast_ip, eacces, wol_participant_port}
use sleep_manager.Socket.Udp.{
  raises, blocks, no_faults, receiver_socket, receiver_broadcast, receive_bytes,
}
use sleep_manager.Socket.Server.{handle_wol, magic_size}
use sleep_manager.Socket.Retries.{IsWorking}
use sleep_manager.Socket.Wol.{handle_wol_lem}
use sleep_manager.Participant.{wol_loop, listen_wol}

module _ (env : Env) (host : NodeAddresses) (k : IsWorking env) (e : env.load_host ≡ ok host) where
  -- What ends the thread: the length of the datagram, or the answer to it.
  abbrev pub ended_by : Bytes → Exception
  ended_by m =
      if ltb (length m) magic_size
      then invalid_packet (codes "WOL packet must have length 6 * 17")
      else io_exception (codes "sendto") eacces

  wol_loop-message :
      (m : Bytes) (rest : List Bytes) (w : World)
      → wol_loop env no_faults false (m ∷ rest) w ≡ raises (ended_by m)
  unfolding wol_loop bytes_eq
  wol_loop-message m rest w =
      elim (handle_wol_lem env host broadcast_ip wol_participant_port false m rest w k e) [
        | inl (long, handled) ↦
            let h : ltb (length m) magic_size ≡ false = ground arith in rw (handled, h)
        | inr (short, handled) ↦
            let h : ltb (length m) magic_size ≡ true = ground arith in rw (handled, h)
      ]

  wol_loop-empty : (w : World) → wol_loop env no_faults false [] w ≡ blocks
  unfolding wol_loop handle_wol receive_bytes
  wol_loop-empty w = refl

  listen_wol-loop :
      (inbox : List Bytes) (w : World)
      → listen_wol env no_faults inbox w ≡ wol_loop env no_faults false inbox w
  unfolding listen_wol receiver_socket receiver_broadcast
  listen_wol-loop inbox w = rw (k.socket_works, k.setsockopt_works)

  -- A participant answers no Wake-on-LAN packet: where the other system calls succeed, it waits for a
  -- datagram, and the first one ends it, whoever sent it and whatever it holds. One that is shorter than
  -- 102 bytes raises the exception for an invalid packet, and any other one that of `sendto`, which
  -- refuses the broadcast address with EACCES; nothing catches either.
  pub listen_wol_lem :
      (m : Bytes) (rest : List Bytes) (w : World)
      → (listen_wol env no_faults [] w ≡ blocks)
        × (listen_wol env no_faults (m ∷ rest) w
            ≡ raises (
                if ltb (length m) magic_size
                then invalid_packet (codes "WOL packet must have length 6 * 17")
                else io_exception (codes "sendto") eacces))
  listen_wol_lem m rest w = (
    rw (listen_wol-loop [] w) (wol_loop-empty w),
    rw (listen_wol-loop (m ∷ rest) w) (wol_loop-message m rest w),
  )
