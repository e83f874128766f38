-- ===== src/WorkStation.antt =====
-- A participant's work station, the class WorkStation of include/management.h. Its `shared_mutex`
-- is left out: each access is one step.
use sleep_manager.Base.{Bool, true, false}
use sleep_manager.Address.{NodeAddresses}

pub data Status : Type 0 where
  disconnected asleep awaken : Status

pub record WorkStation : Type 0 where
  pub addresses : NodeAddresses
  pub status : Status

-- `==` on the enumeration.
unfoldable pub status_eq : Status → Status → Bool
status_eq disconnected disconnected = true
status_eq asleep asleep = true
status_eq awaken awaken = true
status_eq _ _ = false
