-- ===== src/Management/Registry.antt =====
-- What the table of src/management.cpp is to its clients: a list of stations, in which a station is
-- looked up, removed and updated by any of its three keys, without indices and pointers.
pub mod Listed
pub mod Changes
pub mod Operations
pub mod Refine
mod Tests
use sleep_manager.Base.{
  ℕ, ◌≡◌, Bool, true, false, not, if◌then◌else◌, List, [], ◌∷◌, map, Option, none, some, Bytes,
  bytes_eq,
}
use sleep_manager.Address.{NodeAddresses}
use sleep_manager.WorkStation.{WorkStation, Status, status_eq, awaken, asleep, disconnected}
use sleep_manager.Management.{
  ManagementService, new_station, insert, remove_by_mac_address, remove_by_ip_address,
  remove_by_hostname, update_sleep_status, wakeup, get_by_mac_address, get_by_ip_address,
  get_by_hostname,
}
use sleep_manager.Management.View.{read}

-- What a client asks; `connects` makes a station and inserts it.
pub data ClientCall : Type 0 where
  connects : NodeAddresses → Status → ClientCall
  removes_mac : Bytes → ClientCall
  removes_ip : Bytes → ClientCall
  removes_hostname : Bytes → ClientCall
  updates : Bytes → Status → ClientCall
  wakes : Bytes → ClientCall
  asks_mac : Bytes → ClientCall
  asks_ip : Bytes → ClientCall
  asks_hostname : Bytes → ClientCall

pub data Reply : Type 0 where
  done : Bool → Reply
  station : Option WorkStation → Reply

answered : ManagementService × Bool → ManagementService × Reply
answered (s, b) = (s, done b)

-- The call on the table, and what it answers.
unfoldable pub serve : ManagementService → ClientCall → ManagementService × Reply
unfolding answered
serve s (connects a status) = let (t, p) = new_station a status s in answered (insert p t)
serve s (removes_mac a) = answered (remove_by_mac_address a s)
serve s (removes_ip a) = answered (remove_by_ip_address a s)
serve s (removes_hostname h) = answered (remove_by_hostname h s)
serve s (updates a status) = answered (update_sleep_status a status s)
serve s (wakes h) = answered (wakeup h s)
serve s (asks_mac a) = (s, station (read s.cell (get_by_mac_address a s)))
serve s (asks_ip a) = (s, station (read s.cell (get_by_ip_address a s)))
serve s (asks_hostname h) = (s, station (read s.cell (get_by_hostname h s)))

unfoldable pub replies : ManagementService → List ClientCall → List Reply
replies s [] = []
replies s (c ∷ cs) = let (t, r) = serve s c in r ∷ replies t cs

-- A key of a station.
pub data Key : Type 0 where
  by_mac by_ip by_hostname : Key

abbrev pub key_of : Key → WorkStation → Bytes
key_of by_mac w = w.addresses.mac
key_of by_ip w = w.addresses.ip
key_of by_hostname w = w.addresses.hostname

abbrev pub lookup : Key → Bytes → List WorkStation → Option WorkStation
lookup i k [] = none
lookup i k (w ∷ ws) = if bytes_eq (key_of i w) k then some w else lookup i k ws

abbrev pub take_out : Key → Bytes → List WorkStation → List WorkStation
take_out i k [] = []
take_out i k (w ∷ ws) = if bytes_eq (key_of i w) k then take_out i k ws else w ∷ take_out i k ws

abbrev pub put_status : Key → Bytes → Status → List WorkStation → List WorkStation
put_status i k status [] = []
put_status i k status (w ∷ ws) =
    (if bytes_eq (key_of i w) k then record w { status = status } else w) ∷ put_status i k status ws

-- A station that is on, under a hostname that is free.
abbrev pub add : WorkStation → List WorkStation → List WorkStation × Bool
add w ws =
    if status_eq w.status disconnected
    then (ws, false)
    else elim (lookup by_hostname w.addresses.hostname ws) [
      | none ↦ (w ∷ ws, true)
      | some v ↦ (ws, false)
    ]

abbrev pub drop_station : Key → Bytes → List WorkStation → List WorkStation × Bool
drop_station i k ws = elim (lookup i k ws) [ none ↦ (ws, false) | some w ↦ (take_out i k ws, true) ]

-- The status of the station found, if the test on its old status holds.
abbrev pub switch_status :
    Key → Bytes → (Status → Bool) → Status → List WorkStation → List WorkStation × Bool
switch_status i k test status ws = elim (lookup i k ws) [
  | none ↦ (ws, false)
  | some w ↦ if test w.status then (put_status i k status ws, true) else (ws, false)
]

noted : List WorkStation × Bool → List WorkStation × Reply
noted (ws, b) = (ws, done b)

-- The call on the list of stations.
unfoldable pub specified : List WorkStation → ClientCall → List WorkStation × Reply
unfolding noted
specified ws (connects a status) = noted (add (record { addresses = a; status = status }) ws)
specified ws (removes_mac a) = noted (drop_station by_mac a ws)
specified ws (removes_ip a) = noted (drop_station by_ip a ws)
specified ws (removes_hostname h) = noted (drop_station by_hostname h ws)
specified ws (updates a status) =
    noted (switch_status by_mac a (λ old. not (status_eq old status)) status ws)
specified ws (wakes h) = noted (switch_status by_hostname h (λ old. status_eq old asleep) awaken ws)
specified ws (asks_mac a) = (ws, station (lookup by_mac a ws))
specified ws (asks_ip a) = (ws, station (lookup by_ip a ws))
specified ws (asks_hostname h) = (ws, station (lookup by_hostname h ws))

unfoldable pub specified_replies : List WorkStation → List ClientCall → List Reply
specified_replies ws [] = []
specified_replies ws (c ∷ cs) = let (vs, r) = specified ws c in r ∷ specified_replies vs cs

-- A station connects under a hostname that is taken, or with none of its addresses taken; and no
-- station is reported as DISCONNECTED.
abbrev pub IsAllowed : List WorkStation → ClientCall → Type 0
IsAllowed ws (connects a status) =
    lookup by_hostname a.hostname ws ≡ none
    → (lookup by_mac a.mac ws ≡ none) × (lookup by_ip a.ip ws ≡ none)
IsAllowed ws (updates a status) = status_eq status disconnected ≡ false
IsAllowed ws _ = Unit

abbrev pub AllAllowed : List WorkStation → List ClientCall → Type 0
AllAllowed ws [] = Unit
AllAllowed ws (c ∷ cs) = IsAllowed ws c × AllAllowed (specified ws c).0 cs
