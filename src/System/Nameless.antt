-- ===== src/System/Nameless.antt =====
-- What the manager's terminal, src/interface.cpp, can do with the participants that src/discovery.cpp
-- registers, and src/monitoring.cpp reports on and removes: their hostnames do not come over.
use sleep_manager.Base.{◌≡◌, ◌≢◌, List, [], ◌∷◌, none, Bytes}
use sleep_manager.Base.Map.{find}
use sleep_manager.WorkStation.{WorkStation, Status}
use sleep_manager.Packet.{Packet, new_packet}
use sleep_manager.Management.{ManagementService, update_sleep_status, remove_by_mac_address}
use sleep_manager.Socket.Receiving.{packet_after}
use sleep_manager.Discovery.{register}
use sleep_manager.Discovery.Registration.{IsPlainHost}

-- Only the empty hostname is taken.
abbrev IsNameless : ManagementService → Type 0
IsNameless s = (k : Bytes) → k ≢ [] → find k s.hostname_index ≡ none

-- What the manager's other threads do to the table: a packet is registered, a status reported, or the
-- station of a MAC address removed.
pub data Change : Type 0 where
  registers : Packet → Change
  reports : Bytes → Status → Change
  leaves : Bytes → Change

abbrev pub change : Change → ManagementService → ManagementService
change (registers p) s = register (packet_after p new_packet) s
change (reports mac status) s = (update_sleep_status mac status s).0
change (leaves mac) s = (remove_by_mac_address mac s).0

abbrev pub changed : List Change → ManagementService → ManagementService
changed [] s = s
changed (c ∷ cs) s = changed cs (change c s)

-- The packets that are registered come from hosts whose names have no backslash.
abbrev pub IsPlain : Change → Type 0
IsPlain (registers p) = IsPlainHost p
IsPlain _ = Unit
