-- ===== src/System/Farewell.antt =====
-- A participant comes and goes: its discovery request and then its exit request reach the manager.
use sleep_manager.Base.{ℕ, ◌≡◌, ◌∙◌, ap, Bool, [], ◌∷◌, none, some, Bytes, arith, inl, inr}
use sleep_manager.Address.{Junk, NodeAddresses}
use sleep_manager.WorkStation.{WorkStation, awaken, disconnected}
use sleep_manager.Packet.{Packet}
use sleep_manager.Management.{
  ManagementService, new_station, remove_by_mac_address, get_by_hostname, get_by_mac_address,
  get_by_ip_address,
}
use sleep_manager.Management.Invariant.{IsValid, new_station-IsValid}
use sleep_manager.Management.History.{insert-IsValid}
use sleep_manager.Management.Removal.{remove_by_address-hostname, remove_by_hostname_lem}
use sleep_manager.Socket.Udp.{returns, no_faults}
use sleep_manager.Socket.Receiving.{text, IsShort}
use sleep_manager.Discovery.{register}
use sleep_manager.Discovery.Registration.{register_lem}
use sleep_manager.Monitoring.{exits}
use sleep_manager.Monitoring.Exits.{exits_lem}
use sleep_manager.Participant.{exit_body}
use sleep_manager.Participant.Exchange.{query_packet}
use sleep_manager.System.Handshake.{Host, arrived}

abbrev pub exit_request : Host → Packet
exit_request h = query_packet h.env h.addresses h.world exit_body

register-IsValid :
    (received : Packet) (s : ManagementService) → IsValid s → IsValid (register received s)
unfolding register new_station
register-IsValid received s v =
    let (t, p) = new_station received.header.sender_addresses awaken s in
    insert-IsValid p t (new_station-IsValid received.header.sender_addresses awaken s v)
      (omega arith)

-- A removal by the MAC address of a station that its hostname finds too.
removed :
    (t : ManagementService) (p : ℕ)
    → IsValid t
    → let a = (t.cell p).addresses in
      get_by_hostname a.hostname t ≡ some p
      → get_by_mac_address a.mac t ≡ some p
      → let u = (remove_by_mac_address a.mac t).0 in
        (get_by_hostname a.hostname u ≡ none)
        × (get_by_mac_address a.mac u ≡ none)
        × (get_by_ip_address a.ip u ≡ none)
        × ((u.cell p).status ≡ disconnected)
removed t p v eh em =
    rw ((remove_by_address-hostname t (t.cell p).addresses.mac p v).0 em)
      (elim (remove_by_hostname_lem t (t.cell p).addresses.hostname v) [
        | inl (e, _, _) ↦ absurd (cc)
        | inr (q, e, _, off, host, mac, ip, _) ↦
            let same : q ≡ p = ground arith in (host, ground arith, ground arith, ground arith)
      ])

removed_as :
    (a : NodeAddresses) (t : ManagementService) (p : ℕ)
    → IsValid t
    → (t.cell p).addresses ≡ a
    → get_by_hostname a.hostname t ≡ some p
    → get_by_mac_address a.mac t ≡ some p
    → let u = (remove_by_mac_address a.mac t).0 in
      (get_by_hostname a.hostname u ≡ none)
      × (get_by_mac_address a.mac u ≡ none)
      × (get_by_ip_address a.ip u ≡ none)
      × ((u.cell p).status ≡ disconnected)
removed_as a t p v ea eh em = rw (← ea) (removed t p v (rw ea eh) (rw ea em))

-- A participant whose addresses are not taken connects and later sends its exit request: the
-- manager's exit loop then has taken it out of the table again. None of its three addresses is found,
-- and the station is DISCONNECTED. The exit request is sendable and fits the buffer.
pub farewell_lem :
    (junk : Junk) (participant leaving : Host) (b : Bool) (s : ManagementService)
    → IsValid s
    → IsShort (exit_request leaving)
    → leaving.addresses.mac ≡ participant.addresses.mac
    → get_by_hostname (arrived participant).header.sender_addresses.hostname s ≡ none
    → get_by_mac_address participant.addresses.mac s ≡ none
    → get_by_ip_address participant.addresses.ip s ≡ none
    → let a = (arrived participant).header.sender_addresses in
      let t = register (arrived participant) s in
      (u : ManagementService) × (c : Bool) × (exits no_faults junk b
          (text (exit_request leaving) ∷ [])
          t
        ≡ returns (u, record { nonblocking = c; inbox = [] }))
      × (get_by_hostname a.hostname u ≡ none)
      × (get_by_mac_address participant.addresses.mac u ≡ none)
      × (get_by_ip_address participant.addresses.ip u ≡ none)
      × ((u.cell s.next).status ≡ disconnected)
farewell_lem junk participant leaving b s v short same fh fm fi =
    let t = register (arrived participant) s in
    let (host, mac, ip, station) = register_lem (arrived participant) s fh fm fi in
    let (c, e) = exits_lem junk (exit_request leaving ∷ []) b t (short, tt) in
    let a = (arrived participant).header.sender_addresses in
    let (no_host, no_mac, no_ip, off) =
      removed_as a t s.next (register-IsValid (arrived participant) s v)
        (ap (λ (w : WorkStation). w.addresses) station) host mac in
    (
      (remove_by_mac_address participant.addresses.mac t).0,
      c,
      e
          ∙ ap
              (λ (m : Bytes).
                returns ((remove_by_mac_address m t).0, record { nonblocking = c; inbox = [] }))
              same,
      no_host,
      no_mac,
      no_ip,
      off,
    )
