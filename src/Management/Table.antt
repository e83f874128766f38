-- ===== src/Management/Table.antt =====
-- The calls on a ManagementService of src/management.cpp, and histories of them.
use sleep_manager.Base.{ℕ, ◌<◌, ◌≢◌, Bool, false, List, [], ◌∷◌, Bytes}
use sleep_manager.Address.{NodeAddresses}
use sleep_manager.WorkStation.{Status, disconnected}
use sleep_manager.Management.{
  ManagementService, new_station, register_event_handler, insert, remove_by_mac_address,
  remove_by_ip_address, remove_by_hostname, update_sleep_status, wakeup,
}

pub data Call : Type 0 where
  creates : NodeAddresses → Status → Call
  registers : ℕ → Call
  inserts : ℕ → Call
  removes_mac : Bytes → Call
  removes_ip : Bytes → Call
  removes_hostname : Bytes → Call
  updates : Bytes → Status → Call
  wakes : Bytes → Call

-- The result of a call that returns none is false.
unfoldable pub step : ManagementService → Call → ManagementService × Bool
step s (creates a status) = ((new_station a status s).0, false)
step s (registers handler) = (register_event_handler handler s, false)
step s (inserts p) = insert p s
step s (removes_mac a) = remove_by_mac_address a s
step s (removes_ip a) = remove_by_ip_address a s
step s (removes_hostname h) = remove_by_hostname h s
step s (updates a status) = update_sleep_status a status s
step s (wakes h) = wakeup h s

unfoldable pub run : ManagementService → List Call → ManagementService
run s [] = s
run s (c ∷ cs) = run (step s c).0 cs

-- A station is inserted after it is made, and no status is reported as DISCONNECTED.
abbrev pub IsProper : ManagementService → Call → Type 0
IsProper s (inserts p) = p < s.next
IsProper s (updates a status) = status ≢ disconnected
IsProper s _ = Unit
