-- ===== src/System/Second.antt =====
-- Two participants and the manager: the second one connects, but the manager does not know it.
use sleep_manager.Base.{ap, ◌≡◌, ◌≢◌, ◌∙◌, sym, subst, false, [], ◌∷◌, ◌++◌, none, Bytes}
use sleep_manager.Base.Map.{find}
use sleep_manager.Exception.{ok}
use sleep_manager.Address.{Junk}
use sleep_manager.Packet.RoundTrip.{kept-Lacks}
use sleep_manager.Management.{
  ManagementService, participant_list, get_by_hostname, get_by_mac_address, get_by_ip_address,
}
use sleep_manager.Socket.{broadcast_ip, discovery_manager_port, next_seqn, UdpSenderSocket}
use sleep_manager.Socket.Udp.{returns, no_faults}
use sleep_manager.Socket.Receiving.{IsShort}
use sleep_manager.Socket.Retries.{after_sends}
use sleep_manager.Discovery.{register, discovery_response, discovery_round}
use sleep_manager.Discovery.Registration.{
  IsPlainHost, answer, respond-IsWorking, register_takes, register_taken,
}
use sleep_manager.Participant.{connect_to_manager, discovery_body}
use sleep_manager.Participant.Exchange.{query}
use sleep_manager.System.Handshake.{
  Host, discovery_request, discovery_answer, arrived, carried, manager_receives,
  participant_connects,
}

-- Two plain hosts arrive with the same, empty, name.
takes_second :
    (first second : Host) (s : ManagementService)
    → IsPlainHost (discovery_request first)
    → IsPlainHost (discovery_request second)
    → find
        (arrived second).header.sender_addresses.hostname
        (register (arrived first) s).hostname_index
      ≢ none
takes_second first second s plain plain' =
    subst (λ (h : Bytes). find h (register (arrived first) s).hostname_index ≢ none)
      (kept-Lacks _ plain ∙ sym (kept-Lacks _ plain')) (register_takes (arrived first) s)

-- Of two participants whose hostnames have no backslash the manager knows only the first, whatever
-- their addresses are and whatever is in its table before: the request of the second one, delivered to
-- the discovery loop once the first one is registered, changes neither the list of the participants nor
-- what a lookup by any hostname, MAC or IP address finds. But the manager answers it all the same, and
-- with the payload of this answer the second participant connects. Its packet and the answer are
-- sendable and fit the buffer, and the system calls of all hosts succeed.
pub second_lem :
    (junk : Junk) (client : UdpSenderSocket) (first second manager : Host) (s : ManagementService)
    → IsPlainHost (discovery_request first)
    → IsPlainHost (discovery_request second)
    → IsShort (discovery_request second)
    → IsShort (discovery_answer manager second)
    → let t = register (arrived first) s in
      let q =
        query second.env second.addresses second.world discovery_body broadcast_ip
          discovery_manager_port in
      let reply = answer manager.env manager.addresses (arrived second) in
      let (u, answered) = discovery_response manager.env (arrived second) t manager.world in
      (discovery_round manager.env no_faults junk
          (record { nonblocking = false; inbox = q.sent_packet ∷ [] })
          t
          manager.world
        ≡ returns ((u, answered), record { nonblocking = false; inbox = [] }))
      × (participant_list u ≡ participant_list t)
      × ((k : Bytes) → get_by_hostname k u ≡ get_by_hostname k t)
      × ((k : Bytes) → get_by_mac_address k u ≡ get_by_mac_address k t)
      × ((k : Bytes) → get_by_ip_address k u ≡ get_by_ip_address k t)
      × (answered ≡ ok (record (manager.world) { sent = manager.world.sent ++ reply ∷ [] }))
      × (connect_to_manager second.env no_faults junk client
            ((reply.payload ∷ []) ∷ [])
            second.world
          ≡ returns (carried manager.addresses, after_sends 1 q (next_seqn second.world)))
unfolding discovery_response get_by_hostname get_by_mac_address get_by_ip_address
second_lem junk client first second manager s plain plain' short answer_short =
    let t = register (arrived first) s in
    let (list, hosts, macs, ips) =
      register_taken (arrived second) t (takes_second first second s plain plain') in
    (
      manager_receives junk client second manager t short answer_short,
      list,
      λ k. ap (find k) hosts,
      λ k. ap (find k) macs,
      λ k. ap (find k) ips,
      respond-IsWorking manager.env manager.addresses (arrived second) manager.world manager.working
          manager.loaded second.unicast,
      participant_connects junk client second manager t short answer_short,
    )
