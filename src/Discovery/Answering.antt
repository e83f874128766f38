-- ===== src/Discovery/Answering.antt =====
-- What the threads of src/discovery.cpp do with the requests, in the order in which they come.
use mathlib.Core.Logic.Or
use mathlib.Core.List.{Mem, mem-cons, not-mem-nil}
use sleep_manager.Base.{
  ◌≡◌, ◌∙◌, ap, false, List, [], ◌∷◌, ◌++◌, map, Bytes, All, append-nil, append_assoc, sym, subst,
  bytes_eq, ◌≢◌, Option-cases, none, arith, inl, inr,
}
use sleep_manager.Exception.{ok, Result}
use sleep_manager.Address.{NodeAddresses}
use sleep_manager.Packet.{Packet}
use sleep_manager.Management.{ManagementService, new_station, insert}
use sleep_manager.Socket.{Env, World, Datagram, broadcast_ip}
use sleep_manager.Socket.Retries.{IsWorking}
use sleep_manager.Discovery.{register, discovery_response, handle_requests}
use sleep_manager.Discovery.Registration.{answer, respond-IsWorking, register_takes}
use sleep_manager.Base.Map.{find, insert as map_insert, find-place}
use sleep_manager.WorkStation.{status_eq}

-- A request can be answered: the sender's IP address is not the broadcast address.
abbrev pub IsUnicast : Packet → Type 0
IsUnicast p = bytes_eq p.header.sender_addresses.ip broadcast_ip ≡ false

abbrev pub HasHost : ManagementService → Packet → Type 0
HasHost s received = find received.header.sender_addresses.hostname s.hostname_index ≢ none

register_keeps :
    (received : Packet) (s : ManagementService) (k : Bytes)
    → find k s.hostname_index ≢ none
    → find k (register received s).hostname_index ≢ none
unfolding register new_station insert map_insert status_eq
register_keeps received s k taken =
    let h = received.header.sender_addresses.hostname in
    elim (Option-cases (find h s.hostname_index)) [
      | inl free ↦ ground (arith, find-place h k s.next s.hostname_index free)
      | inr (p, e) ↦ ground arith
    ]

pub HasHost-of_mem :
    (s : ManagementService) (r : Packet) (rs : List Packet)
    → All (HasHost s) rs
    → Mem r rs
    → HasHost s r
HasHost-of_mem s r [] h m free = absurd (not-mem-nil m)
HasHost-of_mem s r (x ∷ rs) (hx, hs) m free =
    Or.elim (λ a b. absurd a) (mem-cons.0 m) (λ e. let here : HasHost s r = rw e hx in here free)
      (λ later. HasHost-of_mem s r rs hs later free)

module _ (env : Env) (host : NodeAddresses) (k : IsWorking env)
    (loaded : env.load_host ≡ ok host) where
  handle_requests-first :
      (r : Packet) (rs : List Packet) (s : ManagementService) (w : World)
      → IsUnicast r
      → handle_requests env (r ∷ rs) s w
        ≡ handle_requests env rs
            (register r s)
            (record w { sent = w.sent ++ answer env host r ∷ [] })
  unfolding handle_requests discovery_response
  handle_requests-first r rs s w one =
      rw (handle_requests, respond-IsWorking env host r w k loaded one)

  handle_requests_keeps :
      (rs : List Packet) (s : ManagementService) (w : World) (key : Bytes)
      → All IsUnicast rs
      → find key s.hostname_index ≢ none
      → find key (handle_requests env rs s w).0.hostname_index ≢ none
  unfolding handle_requests
  handle_requests_keeps [] s w key _ taken = taken
  handle_requests_keeps (r ∷ rs) s w key (one, more) taken =
      rw (handle_requests-first r rs s w one) (
        handle_requests_keeps rs (register r s)
          (record w { sent = w.sent ++ answer env host r ∷ [] }) key more
          (register_keeps r s key taken))

  pub handle_requests_sends :
      (rs : List Packet) (s : ManagementService) (w : World)
      → All IsUnicast rs
      → (handle_requests env rs s w).1 ≡ ok (record w { sent = w.sent ++ map (answer env host) rs })
  unfolding handle_requests
  handle_requests_sends [] s w _ =
      ap (λ (ds : List Datagram). ok (record w { sent = ds })) (sym (append-nil w.sent))
  handle_requests_sends (r ∷ rs) s w (one, more) = rw (handle_requests-first r rs s w one) (
      handle_requests_sends rs (register r s) (record w { sent = w.sent ++ answer env host r ∷ [] })
        more
      ∙ ap (λ (ds : List Datagram). ok (record w { sent = ds }))
          (append_assoc w.sent (answer env host r ∷ []) (map (answer env host) rs)))

  pub handle_requests_registers :
      (rs : List Packet) (s : ManagementService) (w : World)
      → All IsUnicast rs
      → All (HasHost (handle_requests env rs s w).0) rs
  handle_requests_registers [] s w _ = tt
  handle_requests_registers (r ∷ rs) s w (one, more) =
      let w' = record w { sent = w.sent ++ answer env host r ∷ [] } in
      subst (λ (o : ManagementService × Result World). HasHost o.0 r × All (HasHost o.0) rs)
        (sym (handle_requests-first r rs s w one))
        (
          handle_requests_keeps rs (register r s) w' r.header.sender_addresses.hostname more
              (register_takes r s),
          handle_requests_registers rs (register r s) w' more,
        )
