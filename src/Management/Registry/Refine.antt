-- ===== src/Management/Registry/Refine.antt =====
-- The table of src/management.cpp against the list of stations that it promises.
use sleep_manager.Base.{ℕ, ◌≡◌, refl, sym, ap, ap₂, not, List, [], ◌∷◌}
use sleep_manager.Base.Map.{find}
use sleep_manager.WorkStation.{WorkStation, status_eq, awaken, asleep}
use sleep_manager.Management.{
  ManagementService, new_service, remove_by_mac_address, remove_by_ip_address, remove_by_hostname,
  update_sleep_status, wakeup, get_by_mac_address, get_by_ip_address, get_by_hostname,
}
use sleep_manager.Management.Invariant.{new_service-IsValid}
use sleep_manager.Management.Agreement.{new_service-IsAgreed}
use sleep_manager.Management.Removal.{
  remove_by_mac_address_cases, remove_by_ip_address_cases, remove_by_hostname_cases,
}
use sleep_manager.Management.Registry.{
  ClientCall, connects, removes_mac, removes_ip, removes_hostname, updates, wakes, asks_mac,
  asks_ip, asks_hostname, done, station, serve, replies, specified, specified_replies, IsAllowed,
  AllAllowed, by_mac, by_ip, by_hostname,
}
use sleep_manager.Management.Registry.Operations.{
  Holds, lookup-Holds, removed, switched, status_eq-disconnected, connected,
}

serve-specified :
    (s : ManagementService) (ws : List WorkStation) (c : ClientCall)
    → Holds s ws
    → IsAllowed ws c
    → Holds (serve s c).0 (specified ws c).0 × ((serve s c).1 ≡ (specified ws c).1)
unfolding serve specified update_sleep_status wakeup get_by_mac_address get_by_ip_address
    get_by_hostname
serve-specified s ws (connects a status) h free =
    let (g, e) = connected s ws a status h free in (g, ap done e)
serve-specified s ws (removes_mac a) (ps, l, ew) _ =
    let (g, e) =
      removed s ws by_mac a (remove_by_mac_address a s) (ps, l, ew)
        (remove_by_mac_address_cases a s l.valid) in
    (g, ap done e)
serve-specified s ws (removes_ip a) (ps, l, ew) _ =
    let (g, e) =
      removed s ws by_ip a (remove_by_ip_address a s) (ps, l, ew)
        (remove_by_ip_address_cases a s l.valid) in
    (g, ap done e)
serve-specified s ws (removes_hostname k) (ps, l, ew) _ =
    let (g, e) =
      removed s ws by_hostname k (remove_by_hostname k s) (ps, l, ew)
        (remove_by_hostname_cases k s l.valid) in
    (g, ap done e)
serve-specified s ws (updates a status) h on =
    let (g, e) =
      switched s ws by_mac a (λ old. not (status_eq old status)) status h
        (status_eq-disconnected status on) in
    (g, ap done e)
serve-specified s ws (wakes k) h _ =
    let (g, e) = switched s ws by_hostname k (λ old. status_eq old asleep) awaken h (λ e. cc) in
    (g, ap done e)
serve-specified s ws (asks_mac a) h _ = (h, ap station (sym (lookup-Holds s ws by_mac a h)))
serve-specified s ws (asks_ip a) h _ = (h, ap station (sym (lookup-Holds s ws by_ip a h)))
serve-specified s ws (asks_hostname k) h _ =
    (h, ap station (sym (lookup-Holds s ws by_hostname k h)))

run_refines :
    (s : ManagementService) (ws : List WorkStation) (cs : List ClientCall)
    → Holds s ws
    → AllAllowed ws cs
    → replies s cs ≡ specified_replies ws cs
unfolding replies specified_replies
run_refines s ws [] h _ = refl
run_refines s ws (c ∷ cs) h (allowed, rest) =
    let (h', e) = serve-specified s ws c h allowed in
    ap₂ ◌∷◌ e (run_refines (serve s c).0 (specified ws c).0 cs h' rest)

new_service-Holds : (next : ℕ) (cell : ℕ → WorkStation) → Holds (new_service next cell) []
unfolding new_service find
new_service-Holds next cell = (
  [],
  record {
    valid = new_service-IsValid next cell;
    agreed = new_service-IsAgreed next cell;
    sound = λ p m. cc;
    complete = λ k p e. absurd (cc);
  },
  refl,
)

-- To its clients the table is a list of stations: whatever they ask a new table, in any order, each
-- answer, of the lookups by all three keys, the insertions, the removals, the status reports and the
-- wakeups, is the one that a plain list of stations gives, in which a key is searched one by one. A
-- client connects a station under a hostname that is taken, and is refused, or with none of its
-- addresses taken, and reports no station as DISCONNECTED.
pub replies-refine :
    (next : ℕ) (cell : ℕ → WorkStation) (cs : List ClientCall)
    → AllAllowed [] cs
    → replies (new_service next cell) cs ≡ specified_replies [] cs
replies-refine next cell cs allowed =
    run_refines (new_service next cell) [] cs (new_service-Holds next cell) allowed
