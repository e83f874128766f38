-- ===== src/Management/Registry/Operations.antt =====
-- Each operation of src/management.cpp against the list of stations.
use sleep_manager.Base.{
  ℕ, ◌<◌, ◌≡◌, ◌≢◌, ◌⊎◌, ◌∙◌, refl, sym, ap, subst, Bool, true, false, if◌then◌else◌, List, ◌∷◌,
  map, none, some, Bytes, arith, Option-cases, Bool-cases, inl, inr,
}
use sleep_manager.Base.Map.{find, insert as map_insert}
use sleep_manager.Address.{NodeAddresses}
use sleep_manager.WorkStation.{WorkStation, Status, status_eq, disconnected}
use sleep_manager.Management.{
  ManagementService, new_station, insert, insert_hostname, change_status,
}
use sleep_manager.Management.Invariant.{inserted}
use sleep_manager.Management.Removal.{without}
use sleep_manager.Management.View.{read}
use sleep_manager.Management.Registry.{
  connects, IsAllowed, Key, by_mac, by_ip, by_hostname, lookup, take_out, put_status, add,
  drop_station, switch_status,
}
use sleep_manager.Management.Registry.Listed.{IsListed, index_of, except, lookup-index}
use sleep_manager.Management.Registry.Changes.{
  new_station-IsListed, inserted-IsListed, without-IsListed, without-take_out,
  change_status-IsListed, change_status-put_status,
}

-- A table that holds the stations of a list.
abbrev pub Holds : ManagementService → List WorkStation → Type 0
Holds s ws = (ps : List ℕ) × IsListed s ps × (map s.cell ps ≡ ws)

-- A change of the table that answers as the list does, and holds it again.
abbrev Agrees : ManagementService × Bool → List WorkStation × Bool → Type 0
Agrees (t, b) (vs, c) = Holds t vs × (b ≡ c)

pub lookup-Holds :
    (s : ManagementService) (ws : List WorkStation) (i : Key) (k : Bytes)
    → Holds s ws
    → lookup i k ws ≡ read s.cell (find k (index_of i s))
lookup-Holds s ws i k (ps, l, e) = ap (lookup i k) (sym e) ∙ lookup-index s ps i k l

-- A removal, from its two cases.
pub removed :
    (s : ManagementService) (ws : List WorkStation) (i : Key) (k : Bytes)
    (r : ManagementService × Bool)
    → Holds s ws
    → ((find k (index_of i s) ≡ none) × (r ≡ (s, false)))
      ⊎ ((p : ℕ) × (find k (index_of i s) ≡ some p) × (r ≡ (without p s, true)))
    → Agrees r (drop_station i k ws)
removed s ws i k r h (inl (e, er)) =
    let none_found : lookup i k ws ≡ none = lookup-Holds s ws i k h ∙ ap (read s.cell) e in
    rw (er, drop_station, none_found) (h, refl)
removed s ws i k r (ps, l, ew) (inr (p, e, er)) =
    let one_found : lookup i k ws ≡ some (s.cell p) =
      lookup-Holds s ws i k (ps, l, ew) ∙ ap (read s.cell) e in
    rw (er, drop_station, one_found)
      (
        (
          except p ps,
          without-IsListed s ps i k p l e,
          without-take_out s ps i k p l e ∙ ap (take_out i k) ew,
        ),
        refl,
      )

-- A change of status, from its cases.
pub switched :
    (s : ManagementService) (ws : List WorkStation) (i : Key) (k : Bytes) (test : Status → Bool)
    (status : Status)
    → Holds s ws
    → status ≢ disconnected
    → Agrees
        (elim (find k (index_of i s)) [
          | none ↦ (s, false)
          | some p ↦ if test (s.cell p).status then (change_status p status s, true) else (s, false)
        ])
        (switch_status i k test status ws)
switched s ws i k test status (ps, l, ew) on = elim (Option-cases (find k (index_of i s))) [
  | inl e ↦
      let none_found : lookup i k ws ≡ none =
        lookup-Holds s ws i k (ps, l, ew) ∙ ap (read s.cell) e in
      rw (e, switch_status, none_found) ((ps, l, ew), refl)
  | inr (p, e) ↦
      let one_found : lookup i k ws ≡ some (s.cell p) =
        lookup-Holds s ws i k (ps, l, ew) ∙ ap (read s.cell) e in
      rw (e, switch_status, one_found)
        (elim (Bool-cases (test (s.cell p).status)) [
          | inl b ↦ rw b (
            (
              ps,
              change_status-IsListed p status s ps on l,
              change_status-put_status s ps i k p status l e ∙ ap (put_status i k status) ew,
            ),
            refl,
          )
          | inr b ↦ rw b ((ps, l, ew), refl)
        ])
]

pub status_eq-disconnected :
    (status : Status) → status_eq status disconnected ≡ false → status ≢ disconnected
unfolding status_eq
status_eq-disconnected status e d = ground arith

module _ (s : ManagementService) (p : ℕ) where
  insert_off : status_eq (s.cell p).status disconnected ≡ true → insert p s ≡ (s, false)
  unfolding insert
  insert_off e = rw e refl

  insert_taken :
      (q : ℕ)
      → status_eq (s.cell p).status disconnected ≡ false
      → find (s.cell p).addresses.hostname s.hostname_index ≡ some q
      → insert p s ≡ (s, false)
  unfolding insert insert_hostname map_insert
  insert_taken q on e = ground arith

  insert_free :
      status_eq (s.cell p).status disconnected ≡ false
      → find (s.cell p).addresses.hostname s.hostname_index ≡ none
      → insert p s ≡ (inserted p s, true)
  unfolding insert insert_hostname map_insert inserted
  insert_free on e = ground arith

inserted-cells :
    (p : ℕ) (s : ManagementService) (ps : List ℕ)
    → map (inserted p s).cell (p ∷ ps) ≡ s.cell p ∷ map s.cell ps
unfolding inserted
inserted-cells p s ps = refl

index-none :
    (s : ManagementService) (ps : List ℕ) (i : Key) (k : Bytes)
    → IsListed s ps
    → lookup i k (map s.cell ps) ≡ none
    → find k (index_of i s) ≡ none
index-none s ps i k l e = elim (Option-cases (find k (index_of i s))) [
  | inl none_found ↦ none_found
  | inr (q, one_found) ↦ absurd (
      let h : none ≡ some (s.cell q) =
        sym e ∙ lookup-index s ps i k l ∙ ap (read s.cell) one_found in
      cc)
]

-- The insertion of a station that is made.
added :
    (s : ManagementService) (ps : List ℕ) (p : ℕ)
    → IsListed s ps
    → p < s.next
    → (lookup by_hostname (s.cell p).addresses.hostname (map s.cell ps) ≡ none
        → (lookup by_mac (s.cell p).addresses.mac (map s.cell ps) ≡ none)
          × (lookup by_ip (s.cell p).addresses.ip (map s.cell ps) ≡ none))
    → Agrees (insert p s) (add (s.cell p) (map s.cell ps))
added s ps p l made free = elim (Bool-cases (status_eq (s.cell p).status disconnected)) [
  | inl off ↦ rw (insert_off s p off, add, off) ((ps, l, refl), refl)
  | inr on ↦ elim (Option-cases (find (s.cell p).addresses.hostname s.hostname_index)) [
    | inl e ↦
        let none_found : lookup by_hostname (s.cell p).addresses.hostname (map s.cell ps) ≡ none =
          lookup-index s ps by_hostname (s.cell p).addresses.hostname l ∙ ap (read s.cell) e in
        let (fm, fi) = free none_found in
        rw (insert_free s p on e, add, on, none_found)
          (
            (
              p ∷ ps,
              inserted-IsListed p s ps l made (status_eq-disconnected (s.cell p).status on) e
                  (index-none s ps by_mac (s.cell p).addresses.mac l fm)
                  (index-none s ps by_ip (s.cell p).addresses.ip l fi),
              inserted-cells p s ps,
            ),
            refl,
          )
    | inr (q, e) ↦
        let one_found : lookup by_hostname (s.cell p).addresses.hostname (map s.cell ps)
            ≡ some (s.cell q) =
          lookup-index s ps by_hostname (s.cell p).addresses.hostname l ∙ ap (read s.cell) e in
        rw (insert_taken s p q on e, add, on, one_found) ((ps, l, refl), refl)
  ]
]

new_station-cell :
    (a : NodeAddresses) (status : Status) (s : ManagementService)
    → (new_station a status s).0.cell (new_station a status s).1
      ≡ record { addresses = a; status = status }
unfolding new_station
new_station-cell a status s = ground arith

new_station-made :
    (a : NodeAddresses) (status : Status) (s : ManagementService)
    → (new_station a status s).1 < (new_station a status s).0.next
unfolding new_station
new_station-made a status s = omega arith

-- The same, of a station and a list that the table holds.
added_as :
    (t : ManagementService) (ps : List ℕ) (p : ℕ) (w : WorkStation) (ws : List WorkStation)
    → t.cell p ≡ w
    → map t.cell ps ≡ ws
    → IsListed t ps
    → p < t.next
    → IsAllowed ws (connects w.addresses w.status)
    → Agrees (insert p t) (add w ws)
added_as t ps p w ws ew es l made free =
    subst (λ (v : WorkStation). Agrees (insert p t) (add v ws)) ew
      (subst (λ (vs : List WorkStation). Agrees (insert p t) (add (t.cell p) vs)) es
        (added t ps p l made (rw (ew, es) free)))

-- A connection: the station is made, and inserted or refused.
pub connected :
    (s : ManagementService) (ws : List WorkStation) (a : NodeAddresses) (status : Status)
    → Holds s ws
    → IsAllowed ws (connects a status)
    → let (t, p) = new_station a status s in
      Agrees (insert p t) (add (record { addresses = a; status = status }) ws)
connected s ws a status (ps, l, ew) free =
    let (l', same) = new_station-IsListed a status s ps l in
    added_as (new_station a status s).0 ps (new_station a status s).1
      (record { addresses = a; status = status }) ws (new_station-cell a status s) (same ∙ ew) l'
      (new_station-made a status s) free
