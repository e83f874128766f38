-- ===== src/Socket.antt =====
-- Sending, src/socket.cpp and include/socket.h: the class UdpSenderSocket and what the other socket
-- classes share.
--
-- The system calls are not part of the program. `Env` has what they answer: the host's addresses,
-- the clock, and the error numbers of the calls that fail. A datagram that is sent is appended to
-- the log `sent`. An exception ends the call, so the state behind it is not kept.
pub mod Udp
pub mod Server
pub mod Client
pub mod Magic
pub mod Wol
pub mod Receiving
pub mod Retries
mod Tests
use sleep_manager.Base.{
  ℕ, ◌+◌, ◌*◌, ◌/◌, ◌%◌, ◌^◌, Bool, true, false, List, [], ◌∷◌, ◌++◌, Option, none, some, Bytes,
  codes, bytes_eq, if◌then◌else◌,
}
use sleep_manager.Exception.{Result, ok, throws, ◌>>=◌, io_exception}
use sleep_manager.Address.{NodeAddresses}
use sleep_manager.Packet.{Packet, serialize}
use sleep_manager.Packet.Serializer.{empty_serializer, finish}

abbrev pub wol_participant_port : ℕ
wol_participant_port = 7010

abbrev pub exit_port : ℕ
exit_port = 8020

abbrev pub discovery_participant_port : ℕ
discovery_participant_port = 9040

abbrev pub discovery_manager_port : ℕ
discovery_manager_port = 9041

abbrev pub sleep_status_port : ℕ
sleep_status_port = 10030

abbrev pub broadcast_ip : Bytes
broadcast_ip = 255 ∷ 255 ∷ 255 ∷ 255 ∷ []

-- The system calls' answers; `none` is a call that succeeds, `some` the error number of one that
-- fails.
pub record Env : Type 0 where
  pub load_host : Result NodeAddresses
  pub tv_sec : ℕ
  pub tv_nsec : ℕ
  pub socket_errno : Option ℕ
  pub setsockopt_errno : Option ℕ
  pub sendto_errno : Option ℕ

pub record Datagram : Type 0 where
  pub payload : Bytes
  pub dest_ip : Bytes
  pub dest_port : ℕ
  pub broadcast : Bool

-- `global_seqn` and the datagrams sent so far.
pub record World : Type 0 where
  pub global_seqn : ℕ
  pub sent : List Datagram

abbrev pub check : Bytes → Option ℕ → Result (Unit {0})
check context none = ok tt
check context (some errno) = throws (io_exception context errno)

infixl 5 ◌>>◌
abbrev pub ◌>>◌ {ℓ} : {B : Type ℓ} → Result (Unit {0}) → Result B → Result B
m >> k = m >>= λ _. k

-- A sender socket: whether broadcast is enabled.
pub record UdpSenderSocket : Type 0 where
  pub broadcast_enabled : Bool

unfoldable pub sender_socket : Env → Result UdpSenderSocket
sender_socket env = do
  check (codes "sender socket") env.socket_errno
  ok (record { broadcast_enabled = false })

unfoldable pub enable_broadcast : Env → Bool → UdpSenderSocket → Result UdpSenderSocket
enable_broadcast env enable socket = do
  check (codes "setsockopt for sender broadcast") env.setsockopt_errno
  ok (record { broadcast_enabled = enable })

-- What `sendto` answers: beside its other errors, the system refuses the broadcast address to a socket
-- on which broadcast is not enabled, with EACCES.
abbrev pub eacces : ℕ
eacces = 13

unfoldable pub sendto : Env → UdpSenderSocket → Bytes → Option ℕ
sendto env socket ip = elim env.sendto_errno [
  | some errno ↦ some errno
  | none ↦
      if bytes_eq ip broadcast_ip
      then (if socket.broadcast_enabled then none else some eacces)
      else none
]

-- `send` of a string, and of the bytes of one.
unfoldable pub send_string : Env → UdpSenderSocket → Bytes → Bytes → ℕ → World → Result World
unfolding sendto
send_string env socket message ip port w = do
  check (codes "sendto") (sendto env socket ip)
  ok (record w {
    sent =
        w.sent
        ++ record {
          payload = message;
          dest_ip = ip;
          dest_port = port;
          broadcast = socket.broadcast_enabled;
        }
          ∷ [];
  })

unfoldable pub send_packet : Env → UdpSenderSocket → Packet → Bytes → ℕ → World → Result World
unfolding send_string
send_packet env socket packet ip port w =
    send_string env socket (finish (serialize packet empty_serializer)) ip port w

-- `tv_nsec / 1000 + tv_sec * 1000000` as a uint64_t.
unfoldable pub timestamp_of : Env → ℕ
timestamp_of env = (env.tv_nsec / 1000 + env.tv_sec * 1000000) % 2 ^ 64

-- `global_seqn++`.
abbrev pub next_seqn : World → World
next_seqn w = record w { global_seqn = (w.global_seqn + 1) % 2 ^ 64 }
