-- ===== src/Management/Locks.antt =====
-- The locks of src/management.cpp: which calls take which lock, by `lock_guard` or by the guard of
-- include/lock.h. The other modules have the calls as the locks are meant to make them.
pub mod Unheld
use sleep_manager.Base.{
  ℕ, zero, suc, ◌≡◌, refl, Bool, true, false, not, ◌||◌, ◌==◌, if◌then◌else◌, List, Option, none,
  some, Bytes, arith, Option-cases, inl, inr,
}
use sleep_manager.Base.Map.{find, remove, insert as map_insert}
use sleep_manager.WorkStation.{WorkStation, Status, disconnected, asleep, awaken, status_eq}
use sleep_manager.Lock.{SharedMutex, guard_new, guard_drop, unlock_shared}
use sleep_manager.Management.{
  ManagementService, insert_hostname, remove_by_mac_address, remove_by_ip_address,
  remove_by_hostname, get_by_mac_address, get_by_ip_address, get_by_hostname, participant_list,
  set_status, dispatch_event, event_of, removal, changed_status, on_remove,
}

-- `rw_data_lock`, or the `rw_status_lock` of a station.
pub data LockName : Type 0 where
  data_lock : LockName
  status_lock : ℕ → LockName

abbrev pub same_lock : LockName → LockName → Bool
same_lock data_lock data_lock = true
same_lock (status_lock p) (status_lock q) = p == q
same_lock _ _ = false

abbrev pub Locks : Type 0
Locks = LockName → SharedMutex

abbrev put : LockName → SharedMutex → Locks → Locks
put l m locks k = if same_lock k l then m else locks k

-- `undefined` is undefined behaviour, and `waits` a call that waits for another thread.
pub data Locked {ℓ} (A : Type ℓ) : Type ℓ where
  completes : A → Locks → Locked A
  undefined : Locked A
  waits : Locked A

-- A call of a thread, from the locks as they stand.
abbrev pub Locking : Type 0 → Type 0
Locking A = Locks → Locked A

abbrev continue_with : {A B : Type 0} → Locked A → (A → Locking B) → Locked B
continue_with (completes a locks) f = f a locks
continue_with undefined f = undefined
continue_with waits f = waits

infixl 5 ◌>>=◌
unfoldable pub ◌>>=◌ : {A B : Type 0} → Locking A → (A → Locking B) → Locking B
(x >>= f) locks = continue_with (x locks) f

unfoldable pub completes_with : {A : Type 0} → A → Locking A
completes_with a locks = completes a locks

-- The end of the block that a guard stands in.
abbrev release : {A : Type 0} → LockName → Option SharedMutex → A → Locking A
release l none a locks = undefined
release l (some m) a locks = completes a (put l m locks)

-- A block behind a `SharedLockGuard`.
unfoldable pub with_shared : {A : Type 0} → LockName → Locking A → Locking A
unfolding guard_new guard_drop
with_shared l body locks = elim (guard_new (locks l)) [
  | none ↦ undefined
  | some m ↦
      continue_with (body (put l m locks)) (λ a after. release l (guard_drop (after l)) a after)
]

-- A block behind a `lock_guard`.
unfoldable pub with_exclusive : {A : Type 0} → LockName → Locking A → Locking A
with_exclusive l body locks =
    if (locks l).writer || not ((locks l).readers == 0)
    then waits
    else continue_with (body (put l (record { readers = 0; writer = true }) locks))
        (λ a after. completes a (put l (record (after l) { writer = false }) after))

-- `WorkStation::status`.
unfoldable pub locked_status : ℕ → ManagementService → Locking Status
unfolding with_shared completes_with
locked_status p s = with_shared (status_lock p) (completes_with (s.cell p).status)

-- The three lookups and the list, by what they read.
unfoldable pub locked_read : {A : Type 0} → (ManagementService → A) → ManagementService → Locking A
unfolding with_shared completes_with
locked_read reads s = with_shared data_lock (completes_with (reads s))

insert_exclusive : ℕ → ManagementService → Locking (ManagementService × Bool)
unfolding with_exclusive completes_with
insert_exclusive p s = with_exclusive data_lock (
    completes_with
      (insert_hostname p s (map_insert (s.cell p).addresses.hostname p s.hostname_index)))

unfoldable pub locked_insert : ℕ → ManagementService → Locking (ManagementService × Bool)
unfolding ◌>>=◌ locked_status insert_exclusive completes_with
locked_insert p s = do
  status ← locked_status p s
  if status_eq status disconnected then completes_with (s, false) else insert_exclusive p s

unfoldable pub locked_on_remove : ℕ → ManagementService → Locking ManagementService
unfolding ◌>>=◌ with_exclusive completes_with
locked_on_remove p s = do
  s' ← with_exclusive (status_lock p) (completes_with (set_status p disconnected s))
  completes_with (dispatch_event (event_of removal p) s')

removed : ManagementService → Locking (ManagementService × Bool)
unfolding completes_with
removed s = completes_with (s, true)

unfoldable pub locked_remove_by_mac_address :
    Bytes → ManagementService → Locking (ManagementService × Bool)
unfolding ◌>>=◌ with_exclusive completes_with locked_on_remove removed
locked_remove_by_mac_address address s =
    with_exclusive data_lock (elim (find address s.mac_address_index) [
      | none ↦ completes_with (s, false)
      | some p ↦
          locked_on_remove p (record s {
            mac_address_index = remove address s.mac_address_index;
            ip_address_index = remove (s.cell p).addresses.ip s.ip_address_index;
            hostname_index = remove (s.cell p).addresses.hostname s.hostname_index;
          })
          >>= removed
    ])

unfoldable pub locked_remove_by_ip_address :
    Bytes → ManagementService → Locking (ManagementService × Bool)
unfolding ◌>>=◌ with_exclusive completes_with locked_on_remove removed
locked_remove_by_ip_address address s =
    with_exclusive data_lock (elim (find address s.ip_address_index) [
      | none ↦ completes_with (s, false)
      | some p ↦
          locked_on_remove p (record s {
            ip_address_index = remove address s.ip_address_index;
            mac_address_index = remove (s.cell p).addresses.mac s.mac_address_index;
            hostname_index = remove (s.cell p).addresses.hostname s.hostname_index;
          })
          >>= removed
    ])

unfoldable pub locked_remove_by_hostname :
    Bytes → ManagementService → Locking (ManagementService × Bool)
unfolding ◌>>=◌ with_exclusive completes_with locked_on_remove removed
locked_remove_by_hostname hostname s =
    with_exclusive data_lock (elim (find hostname s.hostname_index) [
      | none ↦ completes_with (s, false)
      | some p ↦
          locked_on_remove p (record s {
            hostname_index = remove hostname s.hostname_index;
            mac_address_index = remove (s.cell p).addresses.mac s.mac_address_index;
            ip_address_index = remove (s.cell p).addresses.ip s.ip_address_index;
          })
          >>= removed
    ])

-- The block over the station's lock in `update_sleep_status` and in `wakeup`, and the event behind it.
unfoldable locked_change :
    (Status → Bool) → Status → Option ℕ → ManagementService → Locking (ManagementService × Bool)
unfolding ◌>>=◌ with_exclusive completes_with
locked_change test status none s = completes_with (s, false)
locked_change test status (some p) s = do
  (s', updated) ← with_exclusive (status_lock p) (
      completes_with (if test (s.cell p).status then (set_status p status s, true) else (s, false)))
  completes_with
      (if updated then (dispatch_event (event_of changed_status p) s', true) else (s', false))

unfoldable pub locked_update_sleep_status :
    Bytes → Status → ManagementService → Locking (ManagementService × Bool)
unfolding ◌>>=◌ locked_read locked_change
locked_update_sleep_status address status s = do
  station ← locked_read (get_by_mac_address address) s
  locked_change (λ old. not (status_eq old status)) status station s

unfoldable pub locked_wakeup : Bytes → ManagementService → Locking (ManagementService × Bool)
unfolding ◌>>=◌ locked_read locked_change
locked_wakeup hostname s = do
  station ← locked_read (get_by_hostname hostname) s
  locked_change (λ old. status_eq old asleep) awaken station s
