-- ===== src/Interface/Render.antt =====
-- The table on the screen: `render` and `manager_interface_main` of src/interface.cpp.
--
-- A null pointer among the participants is read through, by the comparison or by the loop: `none`.
-- `sort` may leave two participants with the same IP address in either order; here the one that
-- came first stays first.
use sleep_manager.Base.Sort.{sort}
use sleep_manager.Base.{
  ℕ, ◌+◌, ◌-◌, ◌*◌, List, [], ◌∷◌, ◌++◌, Option, none, some, Bytes, codes, length, replicate,
  bytes_lt, Bool,
}
use sleep_manager.Address.{render_ip_address, render_mac_address}
use sleep_manager.WorkStation.{WorkStation, Status, disconnected, asleep, awaken}
use sleep_manager.Management.{ManagementService, participant_list}
use sleep_manager.Interface.{ManagerIfaceMsg, manager_iface_exit, manager_iface_refresh}

abbrev row_size : ℕ
row_size = 80

abbrev pub mac_col_size : ℕ
mac_col_size = 6 * 2 + 5

abbrev pub ip_col_size : ℕ
ip_col_size = 4 * 3 + 3

abbrev pub status_col_size : ℕ
status_col_size = 6

abbrev pub hostname_col_size : ℕ
hostname_col_size = row_size - mac_col_size - ip_col_size - status_col_size

-- A column and the spaces that fill it up, none if it is too long.
unfoldable pub pad : ℕ → Bytes → Bytes
pad size column = column ++ replicate (size - length column) b' '

-- Four columns and the bars between them, without the end of the line.
unfoldable pub columns : Bytes → Bytes → Bytes → Bytes → Bytes
columns mac ip status hostname =
    pad mac_col_size mac
    ++ (codes " | "
        ++ (pad ip_col_size ip
            ++ (codes " | "
                ++ (pad status_col_size status
                    ++ (codes " | " ++ pad hostname_col_size hostname)))))

unfoldable pub header_row : Bytes
unfolding columns
header_row = columns (codes "MAC Address") (codes "IP Address") (codes "Status") (codes "Hostname")

unfoldable pub rule_row : Bytes
rule_row = replicate row_size b'-'

-- The switch: a status of neither case leaves the column as it was, which is the IP address.
unfoldable pub status_column : Bytes → Status → Bytes
status_column column asleep = codes "ASLEEP"
status_column column awaken = codes "AWAKEN"
status_column column disconnected = column

-- `resize` to the size that the hostname has already changes nothing.
unfoldable pub row : WorkStation → Bytes
unfolding columns status_column
row w =
    let ip = render_ip_address w.addresses.ip in
    columns (render_mac_address w.addresses.mac) ip (status_column ip w.status) w.addresses.hostname

abbrev pub endl : Bytes → Bytes
endl line = line ++ b'\n' ∷ []

unfoldable pub rows : List WorkStation → Bytes
unfolding row
rows [] = []
rows (w ∷ ws) = endl (row w) ++ rows ws

-- Every participant is read.
unfoldable pub read_all : (ℕ → WorkStation) → List (Option ℕ) → Option (List WorkStation)
read_all cell [] = some []
read_all cell (none ∷ ps) = none
read_all cell (some p ∷ ps) = elim (read_all cell ps) [ none ↦ none | some ws ↦ some (cell p ∷ ws) ]

-- The comparison that `render` sorts by.
unfoldable pub ip_before : WorkStation → WorkStation → Bool
ip_before v w = bytes_lt v.addresses.ip w.addresses.ip

unfoldable pub render : ManagementService → Option Bytes
unfolding read_all rows header_row rule_row
render s = elim (read_all s.cell (participant_list s)) [
  | none ↦ none
  | some ws ↦ some (endl header_row ++ (endl rule_row ++ rows (sort ip_before ws)))
]

-- What the loop of `manager_interface_main` comes to, with the screens that it printed.
pub data Shown : Type 0 where
  exited : List Bytes → Shown
  waiting : List Bytes → Shown
  dereferences_null : List Bytes → Shown

-- The loop, over what `receive` answers and the table at that time.
unfoldable pub interface_loop :
    List (Option ManagerIfaceMsg × ManagementService) → List Bytes → Shown
unfolding render
interface_loop [] screens = waiting screens
interface_loop ((none, s) ∷ answers) screens = exited screens
interface_loop ((some manager_iface_exit, s) ∷ answers) screens = exited screens
interface_loop ((some manager_iface_refresh, s) ∷ answers) screens = elim (render s) [
  | none ↦ dereferences_null screens
  | some screen ↦ interface_loop answers (screens ++ screen ∷ [])
]

-- `manager_interface_main`, with the table as it is at first.
unfoldable pub manager_interface_main :
    ManagementService → List (Option ManagerIfaceMsg × ManagementService) → Shown
unfolding interface_loop
manager_interface_main s answers = elim (render s) [
  | none ↦ dereferences_null []
  | some screen ↦ interface_loop answers (screen ∷ [])
]
