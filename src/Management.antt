-- ===== src/Management.antt =====
-- The table of work stations, the class ManagementService of src/management.cpp.
--
-- A `shared_ptr<WorkStation>` is a number, and `cell` the object that it points to: the three maps
-- and the callers share the objects. A `new WorkStation` takes the number `next`. An event handler
-- is a number too; `calls` is the trace of the calls of handlers, oldest first. Each method is one
-- step, as if its locks were held throughout.
pub mod Table
pub mod Invariant
pub mod Removal
pub mod Statuses
pub mod History
pub mod Agreement
pub mod Events
pub mod Listing
pub mod View
pub mod Cells
pub mod Registry
pub mod Locks
pub mod Threads
pub mod Handlers
mod Tests
use sleep_manager.Base.{
  ℕ, suc, ◌≡◌, Bool, true, false, not, List, [], ◌∷◌, ◌++◌, map, Option, none, some, Bytes, length,
  replicate, ◌==◌, if◌then◌else◌,
}
use sleep_manager.Base.Map.{Map, find, insert as map_insert, remove, values}
use sleep_manager.Address.{NodeAddresses}
use sleep_manager.WorkStation.{WorkStation, Status, disconnected, asleep, awaken, status_eq}

pub data EventType : Type 0 where
  insertion removal changed_status : EventType

-- `none` is a status that nothing was written to.
pub record ManagementEvent : Type 0 where
  pub event_type : EventType
  pub old_status : Option Status
  pub new_status : Option Status
  pub work_station : ℕ

pub record ManagementService : Type 0 where
  pub next : ℕ
  pub cell : ℕ → WorkStation
  pub mac_address_index : Map ℕ
  pub ip_address_index : Map ℕ
  pub hostname_index : Map ℕ
  pub event_handlers : List ℕ
  pub calls : List (ℕ × ManagementEvent)

-- `ManagementService()`, over objects that are there already.
unfoldable pub new_service : ℕ → (ℕ → WorkStation) → ManagementService
new_service next cell = record {
  next = next;
  cell = cell;
  mac_address_index = [];
  ip_address_index = [];
  hostname_index = [];
  event_handlers = [];
  calls = [];
}

-- `new WorkStation(addresses, status)`.
unfoldable pub new_station : NodeAddresses → Status → ManagementService → ManagementService × ℕ
new_station addresses status s = (
  record s {
    next = suc s.next;
    cell = λ p. if p == s.next then record { addresses = addresses; status = status } else s.cell p;
  },
  s.next,
)

unfoldable pub register_event_handler : ℕ → ManagementService → ManagementService
register_event_handler handler s = record s { event_handlers = s.event_handlers ++ handler ∷ [] }

-- The handlers are called in the order of their registration.
unfoldable pub dispatch_event : ManagementEvent → ManagementService → ManagementService
dispatch_event event s = record s { calls = s.calls ++ map (λ h. (h, event)) s.event_handlers }

-- The event has its type and its work station written, and nothing else.
abbrev pub event_of : EventType → ℕ → ManagementEvent
event_of t p = record { event_type = t; old_status = none; new_status = none; work_station = p }

-- `station->status_ = status`.
unfoldable pub set_status : ℕ → Status → ManagementService → ManagementService
set_status p status s = record s {
  cell = λ q. if q == p then record (s.cell q) { status = status } else s.cell q;
}

unfoldable pub insert_addresses : ℕ → ManagementService → ManagementService
unfolding dispatch_event
insert_addresses p s =
    let a = (s.cell p).addresses in
    dispatch_event (event_of insertion p) (record s {
      mac_address_index = (map_insert a.mac p s.mac_address_index).0;
      ip_address_index = (map_insert a.ip p s.ip_address_index).0;
    })

unfoldable pub insert_hostname : ℕ → ManagementService → Map ℕ × Bool → ManagementService × Bool
unfolding insert_addresses
insert_hostname p s (index, inserted) =
    let s' = record s { hostname_index = index } in
    if inserted then (insert_addresses p s', true) else (s', false)

unfoldable pub insert : ℕ → ManagementService → ManagementService × Bool
unfolding insert_hostname
insert p s =
    if status_eq (s.cell p).status disconnected
    then (s, false)
    else insert_hostname p s (map_insert (s.cell p).addresses.hostname p s.hostname_index)

unfoldable pub on_remove : ℕ → ManagementService → ManagementService
unfolding dispatch_event set_status
on_remove p s = dispatch_event (event_of removal p) (set_status p disconnected s)

unfoldable pub remove_by_mac_address : Bytes → ManagementService → ManagementService × Bool
unfolding on_remove
remove_by_mac_address address s = elim (find address s.mac_address_index) [
  | none ↦ (s, false)
  | some p ↦ (
    on_remove p (record s {
      mac_address_index = remove address s.mac_address_index;
      ip_address_index = remove (s.cell p).addresses.ip s.ip_address_index;
      hostname_index = remove (s.cell p).addresses.hostname s.hostname_index;
    }),
    true,
  )
]

unfoldable pub remove_by_ip_address : Bytes → ManagementService → ManagementService × Bool
unfolding on_remove
remove_by_ip_address address s = elim (find address s.ip_address_index) [
  | none ↦ (s, false)
  | some p ↦ (
    on_remove p (record s {
      ip_address_index = remove address s.ip_address_index;
      mac_address_index = remove (s.cell p).addresses.mac s.mac_address_index;
      hostname_index = remove (s.cell p).addresses.hostname s.hostname_index;
    }),
    true,
  )
]

unfoldable pub remove_by_hostname : Bytes → ManagementService → ManagementService × Bool
unfolding on_remove
remove_by_hostname hostname s = elim (find hostname s.hostname_index) [
  | none ↦ (s, false)
  | some p ↦ (
    on_remove p (record s {
      hostname_index = remove hostname s.hostname_index;
      mac_address_index = remove (s.cell p).addresses.mac s.mac_address_index;
      ip_address_index = remove (s.cell p).addresses.ip s.ip_address_index;
    }),
    true,
  )
]

-- `none` is the null pointer.
unfoldable pub get_by_mac_address : Bytes → ManagementService → Option ℕ
get_by_mac_address address s = find address s.mac_address_index

unfoldable pub get_by_ip_address : Bytes → ManagementService → Option ℕ
get_by_ip_address address s = find address s.ip_address_index

unfoldable pub get_by_hostname : Bytes → ManagementService → Option ℕ
get_by_hostname hostname s = find hostname s.hostname_index

unfoldable pub change_status : ℕ → Status → ManagementService → ManagementService
unfolding dispatch_event set_status
change_status p status s = dispatch_event (event_of changed_status p) (set_status p status s)

unfoldable pub update_sleep_status : Bytes → Status → ManagementService → ManagementService × Bool
unfolding get_by_mac_address change_status
update_sleep_status address status s = elim (get_by_mac_address address s) [
  | none ↦ (s, false)
  | some p ↦
      if not (status_eq (s.cell p).status status)
      then (change_status p status s, true)
      else (s, false)
]

unfoldable pub wakeup : Bytes → ManagementService → ManagementService × Bool
unfolding get_by_hostname change_status
wakeup hostname s = elim (get_by_hostname hostname s) [
  | none ↦ (s, false)
  | some p ↦
      if status_eq (s.cell p).status asleep then (change_status p awaken s, true) else (s, false)
]

-- `vector(n)` has `n` null pointers already, and the loop appends the stations behind them.
unfoldable pub participant_list : ManagementService → List (Option ℕ)
participant_list s =
    replicate (length s.mac_address_index) none ++ map some (values s.mac_address_index)
