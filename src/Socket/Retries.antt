-- ===== src/Socket/Retries.antt =====
-- The two retry loops of ClientSocket::Request in src/socket.cpp.
use sleep_manager.Base.{
  ℕ, zero, suc, ◌+◌, ◌≤◌, ◌≡◌, ◌≢◌, ◌∙◌, refl, Bool, true, false, List, [], ◌∷◌, ◌++◌, append_assoc,
  append-nil, Option, none, some, Bytes, length, length-append, replicate, arith, bytes_eq,
  Bool-cases, inl, inr,
}
use sleep_manager.Exception.{Result, ok, throws, >>=-ok}
use sleep_manager.Address.{Junk}
use sleep_manager.Packet.{Packet, discovery, new_packet}
use sleep_manager.Socket.{
  Env, World, Datagram, UdpSenderSocket, broadcast_ip, send_string, sendto, sender_socket,
  enable_broadcast,
}
use sleep_manager.Socket.Udp.{
  Outcome, returns, raises, blocks, ◌>>=◌, lift, Faults, no_faults, UdpReceiverSocket,
  receiver_socket, try_receive_packet,
}
use sleep_manager.Socket.Client.{
  Request, prepare_socket, send_request, receive_bounded, receive_response, is_recognised, arrive,
  open_response, open_bounded,
}
use sleep_manager.Socket.Receiving.{text, IsShort, packet_after, try_receive_packet-text}

-- What the loop may come to: an exception, or a packet and at most `n` datagrams more.
abbrev pub Bounded : ℕ → World → Outcome (Option Packet × World) → Type 0
Bounded n w (returns (o, w')) = (o ≢ none) × (length w'.sent ≤ length w.sent + n)
Bounded n w (raises e) = Unit
Bounded n w blocks = ⊥

Bounded-weaken :
    (n : ℕ) (w w' : World) (o : Outcome (Option Packet × World))
    → length w'.sent ≤ suc (length w.sent)
    → Bounded n w' o
    → Bounded (suc n) w o
Bounded-weaken n w w' (returns (o, v)) h (s, b) = (s, omega arith)
Bounded-weaken n w w' (raises e) h b = tt
Bounded-weaken n w w' blocks h b = b

send_string-sent :
    (env : Env) (socket : UdpSenderSocket) (m ip : Bytes) (port : ℕ) (w w' : World)
    → send_string env socket m ip port w ≡ ok w'
    → length w'.sent ≡ length w.sent + 1
unfolding send_string
send_string-sent env socket m ip port w w' h =
    let d : Datagram = record {
      payload = m;
      dest_ip = ip;
      dest_port = port;
      broadcast = socket.broadcast_enabled;
    } in
    ground (arith, length-append w.sent (d ∷ []))

-- A request that is sent is one datagram.
send_request-sent :
    (env : Env) (q : Request) (w w' : World)
    → send_request env q w ≡ ok w'
    → length w'.sent ≡ length w.sent + 1
unfolding send_request
send_request-sent env q w w' h =
    let (socket, _, h') = >>=-ok (sender_socket env) _ h in
    let (socket', _, h'') = >>=-ok (prepare_socket env q.dest_ip_address socket) _ h' in
    send_string-sent env socket' q.sent_packet q.dest_ip_address q.dest_port w w' h''

-- A call in non-blocking mode does not block.
try_receive_packet-ne-blocks :
    (faults : Faults) (junk : Junk) (p : Packet) (r : UdpReceiverSocket)
    → try_receive_packet faults junk p r ≢ blocks
unfolding try_receive_packet
try_receive_packet-ne-blocks faults junk p r h = ground arith

module _ (send : Result World)
    (rest : Packet → UdpReceiverSocket → World → Outcome (Option Packet × World)) (n : ℕ)
    (w : World) (one : (w' : World) → send ≡ ok w' → length w'.sent ≡ length w.sent + 1)
    (later : (p : Packet) (r : UdpReceiverSocket) (w' : World) → Bounded n w' (rest p r w')) where
  resend_Bounded :
      (p : Packet) (r : UdpReceiverSocket) (s : Result World)
      → send ≡ s
      → Bounded (suc n) w (lift s >>= rest p r)
  resend_Bounded p r (ok w') e =
      Bounded-weaken n w w' (rest p r w') (omega (arith, one w' e)) (later p r w')
  resend_Bounded p r (throws x) e = tt

  attempt_Bounded :
      (t : Outcome (Packet × Option Bool × UdpReceiverSocket))
      → t ≢ blocks
      → Bounded (suc n) w (
          t >>= λ a. elim (is_recognised a.1) [
            | true ↦ returns (some a.0, w)
            | false ↦ lift send >>= rest a.0 a.2
          ])
  attempt_Bounded blocks h = absurd (h refl)
  attempt_Bounded (raises e) h = tt
  attempt_Bounded (returns (p, none, r)) h = resend_Bounded p r send refl
  attempt_Bounded (returns (p, some false, r)) h = resend_Bounded p r send refl
  attempt_Bounded (returns (p, some true, r)) h = ((λ e. cc), omega arith)

-- The bounded receive never blocks and never returns the empty optional, and it sends its request
-- at most as often again as the bound says: it raises an exception, or returns a packet with at most
-- that many datagrams sent. So a caller cannot tell by the optional that no answer came.
pub receive_bounded_lem :
    (env : Env) (faults : Faults) (junk : Junk) (q : Request) (bound : ℕ) (p : Packet)
    (r : UdpReceiverSocket) (arrivals : List (List Bytes)) (w : World)
    → Bounded bound w (receive_bounded env faults junk q bound p r arrivals w)
unfolding receive_bounded
receive_bounded_lem env faults junk q zero p r [] w = ((λ e. cc), omega arith)
receive_bounded_lem env faults junk q zero p r (m ∷ arrivals) w = ((λ e. cc), omega arith)
receive_bounded_lem env faults junk q (suc bound) p r [] w =
    attempt_Bounded (send_request env q w) _ bound w (send_request-sent env q w)
      (λ p' r' w'. receive_bounded_lem env faults junk q bound p' r' [] w') _
      (try_receive_packet-ne-blocks faults junk p r)
receive_bounded_lem env faults junk q (suc bound) p r (m ∷ arrivals) w =
    attempt_Bounded (send_request env q w) _ bound w (send_request-sent env q w)
      (λ p' r' w'. receive_bounded_lem env faults junk q bound p' r' arrivals w') _
      (try_receive_packet-ne-blocks faults junk p (arrive m r))

-- The calls that send do not fail, but for what `sendto` refuses of itself.
pub record IsWorking (env : Env) : Type 0 where
  pub socket_works : env.socket_errno ≡ none
  pub setsockopt_works : env.setsockopt_errno ≡ none
  pub sendto_works : env.sendto_errno ≡ none

-- A request as it goes out, by broadcast if it goes to the broadcast address.
abbrev pub datagram_of : Request → Datagram
datagram_of q = record {
  payload = q.sent_packet;
  dest_ip = q.dest_ip_address;
  dest_port = q.dest_port;
  broadcast = bytes_eq q.dest_ip_address broadcast_ip;
}

abbrev pub after_sends : ℕ → Request → World → World
after_sends n q w = record w { sent = w.sent ++ replicate n (datagram_of q) }

pub send_request-IsWorking :
    (env : Env) (q : Request) (w : World)
    → IsWorking env
    → send_request env q w ≡ ok (after_sends 1 q w)
unfolding send_request sender_socket prepare_socket enable_broadcast send_string sendto
send_request-IsWorking env q w k =
    rw (k.socket_works, k.setsockopt_works, k.sendto_works)
      (elim (Bool-cases (bytes_eq q.dest_ip_address broadcast_ip)) [ inl e ↦ rw e | inr e ↦ rw e ])

pub try_receive_packet-empty :
    (junk : Junk) (packet : Packet) (b : Bool)
    → try_receive_packet no_faults junk packet (record { nonblocking = b; inbox = [] })
      ≡ returns (packet, none, record { nonblocking = true; inbox = [] })
unfolding try_receive_packet
try_receive_packet-empty junk packet b = refl

-- Where no system call fails, receive_response sends the request again after each attempt that finds
-- no datagram, and returns with the first DISCOVERY packet: after `n` empty attempts and the packet
-- `p`, sendable and within the buffer, it has sent the request exactly `n` times more and returns
-- what arrives of `p`.
pub receive_response_lem :
    (env : Env) (junk : Junk) (q : Request) (n : ℕ) (p packet : Packet) (b : Bool)
    (rest : List (List Bytes)) (w : World)
    → IsWorking env
    → IsShort p
    → p.body.body_type ≡ discovery
    → receive_response env no_faults junk q packet
        (record { nonblocking = b; inbox = [] })
        (replicate n [] ++ (text p ∷ []) ∷ rest)
        w
      ≡ returns (packet_after p packet, after_sends n q w)
unfolding receive_response
receive_response_lem env junk q zero p packet b rest w k s t =
    rw (try_receive_packet-text junk p packet b [] s, t, append-nil w.sent)
receive_response_lem env junk q (suc n) p packet b rest w k s t =
    rw (try_receive_packet-empty junk packet b, send_request-IsWorking env q w k)
      (receive_response_lem env junk q n p packet true rest (after_sends 1 q w) k s t
        ∙ rw (append_assoc w.sent (datagram_of q ∷ []) (replicate n (datagram_of q))))

-- Where the system calls succeed, a call of `receive_response` is its loop on an idle socket.
pub open_response-IsWorking :
    (env : Env) (junk : Junk) (q : Request) (arrivals : List (List Bytes)) (w : World)
    → IsWorking env
    → open_response env no_faults junk q arrivals w
      ≡ receive_response env no_faults junk q new_packet
          (record { nonblocking = false; inbox = [] })
          arrivals
          w
unfolding open_response receiver_socket
open_response-IsWorking env junk q arrivals w k = rw k.socket_works

bind-Bounded :
    (n : ℕ) (w : World) (o : Outcome UdpReceiverSocket)
    (rest : UdpReceiverSocket → Outcome (Option Packet × World))
    → o ≢ blocks
    → ((r : UdpReceiverSocket) → Bounded n w (rest r))
    → Bounded n w (o >>= rest)
bind-Bounded n w (returns r) rest h each = each r
bind-Bounded n w (raises e) rest h each = tt
bind-Bounded n w blocks rest h each = absurd (h refl)

receiver_socket-ne-blocks :
    (env : Env) (faults : Faults) (inbox : List Bytes) → receiver_socket env faults inbox ≢ blocks
unfolding receiver_socket
receiver_socket-ne-blocks env faults inbox h = ground arith

-- A call of `receive_bounded`, with its socket, comes to what its loop comes to.
pub open_bounded-Bounded :
    (env : Env) (faults : Faults) (junk : Junk) (q : Request) (n : ℕ) (arrivals : List (List Bytes))
    (w : World)
    → Bounded n w (open_bounded env faults junk q n arrivals w)
unfolding open_bounded
open_bounded-Bounded env faults junk q n arrivals w =
    bind-Bounded n w (receiver_socket env faults []) _ (receiver_socket-ne-blocks env faults [])
      (λ r. receive_bounded_lem env faults junk q n new_packet r arrivals w)
