-- ===== src/Socket/Udp.antt =====
-- The class UdpReceiverSocket of src/socket.cpp.
--
-- `inbox` has the datagrams that arrived, the oldest first. A receive on an empty inbox blocks, or
-- answers EWOULDBLOCK if O_NONBLOCK is set.
use sleep_manager.Base.{
  ℕ, ◌≡◌, refl, Bool, true, false, List, [], ◌∷◌, Option, none, some, Bytes, codes, take,
  if◌then◌else◌, ◌==◌,
}
use sleep_manager.Exception.{Exception, Result, ok, throws, io_exception, std_bad_optional_access}
use sleep_manager.Address.{Junk}
use sleep_manager.Packet.{Packet, deserialize}
use sleep_manager.Socket.{Env}
use sleep_manager.Packet.Deserializer.{deserializer}

-- A call that can also block for ever, since nothing more arrives.
pub data Outcome {ℓ} (A : Type ℓ) : Type ℓ where
  returns : A → Outcome A
  raises : Exception → Outcome A
  blocks : Outcome A

infixl 5 ◌>>=◌
abbrev pub ◌>>=◌ {ℓ κ} : {A : Type ℓ} {B : Type κ} → Outcome A → (A → Outcome B) → Outcome B
blocks >>= rest = blocks
raises thrown >>= rest = raises thrown
returns value >>= rest = rest value

abbrev pub lift {ℓ} : {A : Type ℓ} → Result A → Outcome A
lift (throws thrown) = raises thrown
lift (ok value) = returns value

-- A block that returns has had its first call return.
pub >>=-returns :
    {A B : Type 0} (first : Outcome A) (rest : A → Outcome B) {out : B}
    → (first >>= rest) ≡ returns out
    → (value : A) × (first ≡ returns value) × (rest value ≡ returns out)
>>=-returns blocks rest e = cc
>>=-returns (raises thrown) rest e = cc
>>=-returns (returns value) rest e = (value, refl, e)

pub data BlockType : Type 0 where
  blocking non_blocking : BlockType

-- The error numbers of the calls of bind, fcntl and recvfrom that fail.
pub record Faults : Type 0 where
  pub bind_errno : Option ℕ
  pub getfl_errno : Option ℕ
  pub setfl_errno : Option ℕ
  pub unset_errno : Option ℕ
  pub recvfrom_errno : Option ℕ

abbrev pub no_faults : Faults
no_faults = record {
  bind_errno = none;
  getfl_errno = none;
  setfl_errno = none;
  unset_errno = none;
  recvfrom_errno = none;
}

pub record UdpReceiverSocket : Type 0 where
  pub nonblocking : Bool
  pub inbox : List Bytes

abbrev check : Bytes → Option ℕ → Outcome (Unit {0})
check context none = returns tt
check context (some errno) = raises (io_exception context errno)

infixl 5 ◌>>◌
abbrev ◌>>◌ {ℓ} : {B : Type ℓ} → Outcome (Unit {0}) → Outcome B → Outcome B
m >> k = m >>= λ _. k

-- The constructor, `UdpReceiverSocket(port)`, with what will have arrived at its first receive.
unfoldable pub receiver_socket : Env → Faults → List Bytes → Outcome UdpReceiverSocket
receiver_socket env faults inbox = do
  check (codes "receiver socket") env.socket_errno
  check (codes "receiver bind") faults.bind_errno
  returns (record { nonblocking = false; inbox = inbox })

-- `UdpReceiverSocket::enable_broadcast`; what arrives is a parameter, so it only can fail.
unfoldable pub receiver_broadcast : Env → UdpReceiverSocket → Outcome UdpReceiverSocket
receiver_broadcast env r = do
  check (codes "setsockopt for receiver broadcast") env.setsockopt_errno
  returns r

-- The first switch: `fcntl(F_SETFL, flags | O_NONBLOCK)`.
set_flags : Faults → BlockType → UdpReceiverSocket → Outcome UdpReceiverSocket
set_flags faults blocking r = returns r
set_flags faults non_blocking r = do
  check (codes "fcntl setfl O_NONBLOCK") faults.setfl_errno
  returns (record r { nonblocking = true })

-- The second switch: `fcntl(F_SETFL, flags)`, with the flags as they were.
unset_flags : Faults → BlockType → Bool → UdpReceiverSocket → Outcome UdpReceiverSocket
unset_flags faults blocking old r = returns r
unset_flags faults non_blocking old r = do
  check (codes "fcntl unset O_NONBLOCK") faults.unset_errno
  returns (record r { nonblocking = old })

abbrev eagain : ℕ
eagain = 11

-- What follows on a `recvfrom` that fails: EAGAIN, which is EWOULDBLOCK too, returns before the flags
-- are set back.
recvfrom_fails : ℕ → UdpReceiverSocket → Outcome (Option Bytes × UdpReceiverSocket)
recvfrom_fails errno r =
    if errno == eagain then returns (none, r) else raises (io_exception (codes "recvfrom") errno)

-- `recvfrom`, and what stands behind it. On an empty inbox a `recvfrom` that does not fail otherwise
-- waits, or fails with EAGAIN where the socket does not block.
receive_from :
    Faults
    → ℕ
    → BlockType
    → Bool
    → UdpReceiverSocket
    → List Bytes
    → Outcome (Option Bytes × UdpReceiverSocket)
unfolding unset_flags recvfrom_fails
receive_from faults capacity block old r inbox = elim faults.recvfrom_errno [
  | some errno ↦ recvfrom_fails errno r
  | none ↦ elim inbox [
    | [] ↦ if r.nonblocking then returns (none, r) else blocks
    | message ∷ inbox' ↦ do
      r' ← unset_flags faults block old (record r { inbox = inbox' })
      returns (some (take capacity message), r')
  ]
]

unfoldable pub receive_with_block_type :
    Faults → ℕ → BlockType → UdpReceiverSocket → Outcome (Option Bytes × UdpReceiverSocket)
unfolding set_flags receive_from recvfrom_fails
receive_with_block_type faults capacity block r = do
  check (codes "fcntl getfl") faults.getfl_errno
  r' ← set_flags faults block r
  receive_from faults capacity block r.nonblocking r' r'.inbox

-- `.value()` of an optional.
abbrev pub value_of {ℓ} : {A : Type ℓ} → Option A → Outcome A
value_of none = raises std_bad_optional_access
value_of (some a) = returns a

unfoldable pub receive_bytes : Faults → ℕ → UdpReceiverSocket → Outcome (Bytes × UdpReceiverSocket)
unfolding receive_with_block_type
receive_bytes faults capacity r = do
  (read, r') ← receive_with_block_type faults capacity blocking r
  message ← value_of read
  returns (message, r')

unfoldable pub try_receive_bytes :
    Faults → ℕ → UdpReceiverSocket → Outcome (Option Bytes × UdpReceiverSocket)
unfolding receive_with_block_type
try_receive_bytes faults capacity r = receive_with_block_type faults capacity non_blocking r

abbrev pub str_buf_size : ℕ
str_buf_size = 0xffff

-- `receive` and `try_receive` of a string.
abbrev receive_string : Faults → UdpReceiverSocket → Outcome (Bytes × UdpReceiverSocket)
receive_string faults r = receive_bytes faults str_buf_size r

abbrev try_receive_string : Faults → UdpReceiverSocket → Outcome (Option Bytes × UdpReceiverSocket)
try_receive_string faults r = try_receive_bytes faults str_buf_size r

-- `receive(Packet&)`, by way of `receive` of a string.
unfoldable pub receive_packet :
    Faults → Junk → Packet → UdpReceiverSocket → Outcome (Packet × Bool × UdpReceiverSocket)
unfolding receive_bytes
receive_packet faults junk packet r = do
  (message, r') ← receive_string faults r
  (p, recognised, _) ← lift (deserialize junk packet (deserializer message))
  returns (p, recognised, r')

-- `try_receive(Packet&)`, by way of `try_receive` of a string: no message, or whether the packet
-- was recognised.
try_parse :
    Junk
    → Packet
    → UdpReceiverSocket
    → Option Bytes
    → Outcome (Packet × Option Bool × UdpReceiverSocket)
try_parse junk packet r none = returns (packet, none, r)
try_parse junk packet r (some message) = do
  (p, recognised, _) ← lift (deserialize junk packet (deserializer message))
  returns (p, some recognised, r)

unfoldable pub try_receive_packet :
    Faults → Junk → Packet → UdpReceiverSocket → Outcome (Packet × Option Bool × UdpReceiverSocket)
unfolding try_receive_bytes try_parse
try_receive_packet faults junk packet r = do
  (message, r') ← try_receive_string faults r
  try_parse junk packet r' message
