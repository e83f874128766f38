-- ===== src/Management/Threads.antt =====
-- Threads on the table of src/management.cpp. `update_sleep_status` and `wakeup` hold no lock from
-- their lookup to their write, nor from there to their event, so other threads' calls may come in
-- between: each of the three is a step here, and every other call is one step.
pub mod Interleaved
pub mod Late
mod Tests
use sleep_manager.Base.{
  ℕ, ◌≡◌, ◌≢◌, Bool, true, false, not, if◌then◌else◌, List, [], ◌∷◌, ◌++◌, Option, none, some,
  Bytes,
}
use sleep_manager.WorkStation.{WorkStation, Status, disconnected, asleep, awaken, status_eq}
use sleep_manager.Management.{
  ManagementService, get_by_mac_address, get_by_hostname, set_status, dispatch_event, event_of,
  changed_status,
}
use sleep_manager.Management.Table.{
  Call, creates, registers, inserts, removes_mac, removes_ip, removes_hostname, updates, wakes,
  step, IsProper,
}

-- What a thread has left to do, for the station that it found.
pub data Pending : Type 0 where
  updating : ℕ → Status → Pending
  waking : ℕ → Pending
  telling : ℕ → Pending

pub record Threads : Type 0 where
  pub table : ManagementService
  pub pending : List Pending

-- The write under the station's lock, if its test holds; then the event is left.
unfoldable pub write_if : Bool → ℕ → Status → ManagementService → ManagementService × List Pending
write_if test p status s = if test then (set_status p status s, telling p ∷ []) else (s, [])

unfoldable pub advance : Pending → ManagementService → ManagementService × List Pending
unfolding write_if
advance (updating p status) s = write_if (not (status_eq (s.cell p).status status)) p status s
advance (waking p) s = write_if (status_eq (s.cell p).status asleep) p awaken s
advance (telling p) s = (dispatch_event (event_of changed_status p) s, [])

abbrev pub found : Option ℕ → (ℕ → Pending) → List Pending
found none f = []
found (some p) f = f p ∷ []

-- The calls that are one step.
abbrev is_whole : Call → Bool
is_whole (updates a status) = false
is_whole (wakes h) = false
is_whole _ = true

pub data Step : Threads → Threads → Type 0 where
  calls :
      (s : ManagementService) (ts : List Pending) (c : Call)
      → is_whole c ≡ true
      → IsProper s c
      → Step (record { table = s; pending = ts }) (record { table = (step s c).0; pending = ts })
  updates_ :
      (s : ManagementService) (ts : List Pending) (a : Bytes) (status : Status)
      → status ≢ disconnected
      → Step
          (record { table = s; pending = ts })
          (record {
            table = s;
            pending = found (get_by_mac_address a s) (λ p. updating p status) ++ ts;
          })
  wakes_ :
      (s : ManagementService) (ts : List Pending) (h : Bytes)
      → Step
          (record { table = s; pending = ts })
          (record { table = s; pending = found (get_by_hostname h s) waking ++ ts })
  moves :
      (s : ManagementService) (us vs : List Pending) (t : Pending)
      → Step
          (record { table = s; pending = us ++ t ∷ vs })
          (record { table = (advance t s).0; pending = us ++ ((advance t s).1 ++ vs) })

pub data Reach (x : Threads) : Threads → Type 0 where
  here : Reach x x
  next : {y z : Threads} → Reach x y → Step y z → Reach x z
