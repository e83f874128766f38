-- ===== src/Socket/Wol.antt =====
-- What ServerSocket::handle_wol of src/socket.cpp answers.
use sleep_manager.Base.{
  ℕ, zero, suc, ◌≤◌, ◌<◌, ◌≡◌, refl, Bool, false, List, [], ◌∷◌, ◌++◌, Bytes, codes, length, take,
  ltb, bytes_eq, if◌then◌else◌, Bool-cases, arith, ◌⊎◌, inl, inr,
}
use sleep_manager.Exception.{ok, throws, Result, invalid_packet, io_exception}
use sleep_manager.Address.{NodeAddresses}
use sleep_manager.Packet.{Packet, new_body, response, wol}
use sleep_manager.Socket.{
  Env, World, sender_socket, send_packet, send_string, sendto, eacces, broadcast_ip, timestamp_of,
  next_seqn,
}
use sleep_manager.Socket.Udp.{returns, raises, no_faults, UdpReceiverSocket, receive_bytes}
use sleep_manager.Socket.Server.{handle_wol, answer_wol, magic_size}
use sleep_manager.Socket.Receiving.{text}
use sleep_manager.Socket.Retries.{IsWorking}

length-take : (n : ℕ) (s : Bytes) → n ≤ length s → length (take n s) ≡ n
length-take zero s h = refl
length-take (suc n) [] h = absurd (omega arith)
length-take (suc n) (c ∷ s) h = omega (arith, length-take n s (omega arith))

length-take-short : (n : ℕ) (s : Bytes) → length s < n → length (take n s) ≡ length s
length-take-short zero s h = absurd (omega arith)
length-take-short (suc n) [] h = refl
length-take-short (suc n) (c ∷ s) h = omega (arith, length-take-short n s (omega arith))

-- The packet that answers a Wake-on-LAN packet.
abbrev wol_answer : Env → NodeAddresses → World → Packet
wol_answer env host w = record {
  header = record {
    seqn = w.global_seqn;
    timestamp = timestamp_of env;
    sender_addresses = host;
    direction = response;
  };
  body = record (new_body) { body_type = wol };
}

abbrev pub after_answer : Env → NodeAddresses → Bytes → ℕ → World → World
after_answer env host ip port w = record (next_seqn w) {
  sent =
      w.sent
      ++ record {
        payload = text (wol_answer env host w);
        dest_ip = ip;
        dest_port = port;
        broadcast = false;
      }
        ∷ [];
}

-- What becomes of the answer: it goes out, but not to the broadcast address, since broadcast is not
-- enabled on its socket.
abbrev pub wol_sent : Env → NodeAddresses → Bytes → ℕ → World → Result World
wol_sent env host ip port w =
    if bytes_eq ip broadcast_ip
    then throws (io_exception (codes "sendto") eacces)
    else ok (after_answer env host ip port w)

answer_wol-long :
    (env : Env) (host : NodeAddresses) (ip : Bytes) (port : ℕ) (m : Bytes) (w : World)
    → IsWorking env
    → env.load_host ≡ ok host
    → length m ≡ magic_size
    → answer_wol env ip port m w ≡ wol_sent env host ip port w
unfolding answer_wol sender_socket send_packet send_string sendto
answer_wol-long env host ip port m w k e h = elim (Bool-cases (bytes_eq ip broadcast_ip)) [
  | inl b ↦ rw (h, e, k.socket_works, k.sendto_works, b)
  | inr b ↦ rw (h, e, k.socket_works, k.sendto_works, b)
]

answer_wol-short :
    (env : Env) (ip : Bytes) (port : ℕ) (m : Bytes) (w : World)
    → length m < magic_size
    → answer_wol env ip port m w
      ≡ throws (invalid_packet (codes "WOL packet must have length 6 * 17"))
unfolding answer_wol
answer_wol-short env ip port m w h = ground arith

receive_bytes-message :
    (capacity : ℕ) (b : Bool) (m : Bytes) (rest : List Bytes)
    → receive_bytes no_faults capacity (record { nonblocking = b; inbox = m ∷ rest })
      ≡ returns (take capacity m, record { nonblocking = b; inbox = rest })
unfolding receive_bytes
receive_bytes-message capacity b m rest = refl

-- Where the other system calls succeed, a datagram of at least 102 bytes, whatever they are, is
-- answered with one WOL packet from the host, with the next sequence number, unless the answer is for
-- the broadcast address, where `sendto` fails with EACCES; a shorter one raises the exception for an
-- invalid packet.
pub handle_wol_lem :
    (env : Env) (host : NodeAddresses) (ip : Bytes) (port : ℕ) (b : Bool) (m : Bytes)
    (rest : List Bytes) (w : World)
    → IsWorking env
    → env.load_host ≡ ok host
    → let r : UdpReceiverSocket = record { nonblocking = b; inbox = m ∷ rest } in
      ((magic_size ≤ length m)
        × (handle_wol env no_faults ip port r w ≡ (
            if bytes_eq ip broadcast_ip
            then raises (io_exception (codes "sendto") eacces)
            else returns
                (after_answer env host ip port w, record { nonblocking = b; inbox = rest }))))
      ⊎ ((length m < magic_size)
          × (handle_wol env no_faults ip port r w
              ≡ raises (invalid_packet (codes "WOL packet must have length 6 * 17"))))
unfolding handle_wol
handle_wol_lem env host ip port b m rest w k e = elim (Bool-cases (ltb (length m) magic_size)) [
  | inl short ↦
      let h : length m < magic_size = ground arith in
      inr (
        h,
        rw (
          receive_bytes-message magic_size b m rest,
          answer_wol-short env ip port (take magic_size m) w
              (omega (arith, length-take-short magic_size m h, h)),
        ),
      )
  | inr long ↦
      let h : magic_size ≤ length m = ground arith in
      let answered =
        answer_wol-long env host ip port (take magic_size m) w k e (length-take magic_size m h) in
      inl (
        h,
        elim (Bool-cases (bytes_eq ip broadcast_ip)) [
          | inl to_all ↦ rw (receive_bytes-message magic_size b m rest, answered, to_all)
          | inr to_one ↦ rw (receive_bytes-message magic_size b m rest, answered, to_one)
        ],
      )
]
