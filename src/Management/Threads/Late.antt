-- ===== src/Management/Threads/Late.antt =====
-- A station that is removed while another thread reports its status or wakes it up.
use sleep_manager.Base.{
  ℕ, ◌≡◌, ◌≢◌, refl, true, not, List, [], ◌∷◌, ◌++◌, append_assoc, map, none, some, Bytes, arith,
  inl, inr,
}
use sleep_manager.WorkStation.{Status, disconnected, status_eq}
use sleep_manager.Management.{
  ManagementService, ManagementEvent, EventType, get_by_mac_address, get_by_ip_address,
  get_by_hostname, set_status, dispatch_event, event_of, changed_status, removal,
  remove_by_mac_address,
}
use sleep_manager.Management.Table.{removes_mac, step}
use sleep_manager.Management.Invariant.{IsValid}
use sleep_manager.Management.Removal.{
  without, without_off, without_hostname, without_mac, without_ip, remove_by_mac_address_cases,
}
use sleep_manager.Management.Threads.{
  updating, waking, telling, advance, write_if, calls, updates_, moves, Reach, here, next,
}

-- The table once both threads are done.
abbrev pub late : ℕ → Status → ManagementService → ManagementService
late p status t = dispatch_event (event_of changed_status p) (set_status p status t)

differs :
    (s : ManagementService) (p : ℕ) (status : Status)
    → (s.cell p).status ≡ disconnected
    → status ≢ disconnected
    → not (status_eq (s.cell p).status status) ≡ true
unfolding status_eq
differs s p status off on = ground arith

late-advance :
    (t : ManagementService) (p : ℕ) (status : Status)
    → (t.cell p).status ≡ disconnected
    → status ≢ disconnected
    → advance (updating p status) t ≡ (set_status p status t, telling p ∷ [])
unfolding advance write_if
late-advance t p status off on = rw (differs t p status off on)

late-waking :
    (t : ManagementService) (p : ℕ)
    → (t.cell p).status ≡ disconnected
    → advance (waking p) t ≡ (t, [])
unfolding advance write_if status_eq
late-waking t p off = rw off

-- The report looks up, the removal comes in between, and the report writes and tells.
late-Reach :
    (s : ManagementService) (a : Bytes) (status : Status) (p : ℕ)
    → status ≢ disconnected
    → get_by_mac_address a s ≡ some p
    → ((remove_by_mac_address a s).0.cell p).status ≡ disconnected
    → Reach
        (record { table = s; pending = [] })
        (record { table = late p status (remove_by_mac_address a s).0; pending = [] })
unfolding step advance
late-Reach s a status p on e off =
    let t = (remove_by_mac_address a s).0 in
    let looked : Reach (record { table = s; pending = [] })
        (record { table = s; pending = updating p status ∷ [] }) =
      rw e at (next here (updates_ s [] a status on)) in
    let removed : Reach (record { table = s; pending = [] })
        (record { table = t; pending = updating p status ∷ [] }) =
      next looked (calls s (updating p status ∷ []) (removes_mac a) refl tt) in
    let written : Reach (record { table = s; pending = [] })
        (record { table = set_status p status t; pending = telling p ∷ [] }) =
      rw (late-advance t p status off on) at (next removed (moves t [] [] (updating p status))) in
    next written (moves (set_status p status t) [] [] (telling p))

abbrev pub told_by : ManagementService → EventType → ℕ → List (ℕ × ManagementEvent)
told_by s t p = map (λ h. (h, event_of t p)) s.event_handlers

late-calls :
    (s : ManagementService) (p : ℕ) (status : Status)
    → (late p status (without p s)).calls
      ≡ s.calls ++ (told_by s removal p ++ told_by s changed_status p)
unfolding dispatch_event set_status without
late-calls s p status = append_assoc s.calls (told_by s removal p) (told_by s changed_status p)

removed :
    (s : ManagementService) (a : Bytes) (p : ℕ)
    → IsValid s
    → get_by_mac_address a s ≡ some p
    → (remove_by_mac_address a s).0 ≡ without p s
unfolding get_by_mac_address
removed s a p v e = elim (remove_by_mac_address_cases a s v) [
  | inl (e', _) ↦ absurd (cc)
  | inr (q, e', r) ↦ let same : q ≡ p = ground arith in rw (r, same)
]

late-without :
    (s : ManagementService) (p : ℕ) (status : Status)
    → let t = late p status (without p s) in
      let a = (s.cell p).addresses in
      (get_by_hostname a.hostname t ≡ none)
      × (get_by_mac_address a.mac t ≡ none)
      × (get_by_ip_address a.ip t ≡ none)
      × ((t.cell p).status ≡ status)
      × (t.calls ≡ s.calls ++ (told_by s removal p ++ told_by s changed_status p))
unfolding get_by_hostname get_by_mac_address get_by_ip_address dispatch_event set_status
late-without s p status =
    (without_hostname p s, without_mac p s, without_ip p s, ground arith, late-calls s p status)

-- A station that is removed between the lookup of a status report and its write ends up with the
-- status that was reported, although no lookup finds it any more, and the handlers hear of its new
-- status after they heard of its removal. A wakeup in the same place writes nothing. The report is not
-- of DISCONNECTED.
pub late_lem :
    (s : ManagementService) (a : Bytes) (status : Status) (p : ℕ)
    → IsValid s
    → status ≢ disconnected
    → get_by_mac_address a s ≡ some p
    → let t = (remove_by_mac_address a s).0 in
      let u = late p status t in
      let k = (s.cell p).addresses in
      Reach (record { table = s; pending = [] }) (record { table = u; pending = [] })
      × (get_by_hostname k.hostname u ≡ none)
      × (get_by_mac_address k.mac u ≡ none)
      × (get_by_ip_address k.ip u ≡ none)
      × ((u.cell p).status ≡ status)
      × (u.calls ≡ s.calls ++ (told_by s removal p ++ told_by s changed_status p))
      × (advance (waking p) t ≡ (t, []))
late_lem s a status p v on e =
    let is_without : (remove_by_mac_address a s).0 ≡ without p s = removed s a p v e in
    let off : ((remove_by_mac_address a s).0.cell p).status ≡ disconnected =
      rw is_without (without_off p s) in
    let (host, mac, ip, now, heard) = late-without s p status in
    (
      late-Reach s a status p on e off,
      rw is_without host,
      rw is_without mac,
      rw is_without ip,
      rw is_without now,
      rw is_without heard,
      late-waking (remove_by_mac_address a s).0 p off,
    )
