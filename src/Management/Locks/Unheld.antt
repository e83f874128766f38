-- ===== src/Management/Locks/Unheld.antt =====
-- The calls of src/management.cpp where no thread holds a lock.
use sleep_manager.Base.{ℕ, ◌≡◌, refl, Bool, true, false, Bytes, arith, Option-cases, inl, inr}
use sleep_manager.Base.Map.{find}
use sleep_manager.WorkStation.{Status}
use sleep_manager.Lock.{SharedMutex, guard_new, unlock_shared}
use sleep_manager.Management.{
  ManagementService, remove_by_mac_address, remove_by_ip_address, remove_by_hostname,
  get_by_mac_address, get_by_hostname, on_remove,
}
use sleep_manager.Management.Locks.{
  LockName, data_lock, status_lock, same_lock, Locks, put, Locked, completes, undefined, Locking,
  ◌>>=◌, completes_with, removed, with_shared, with_exclusive, locked_status, locked_read,
  locked_insert, locked_on_remove, locked_remove_by_mac_address, locked_remove_by_ip_address,
  locked_remove_by_hostname, locked_update_sleep_status, locked_wakeup,
}

abbrev pub unheld : SharedMutex
unheld = record { readers = 0; writer = false }

abbrev AllUnheld : Locks → Type 0
AllUnheld locks = (l : LockName) → locks l ≡ unheld

-- A call that completes and lets its locks go.
abbrev pub Balanced : {A : Type 0} → Locked A → A → Type 0
Balanced x a = (after : Locks) × (x ≡ completes a after) × AllUnheld after

with_shared-unheld :
    {A : Type 0} (l : LockName) (body : Locking A) (locks : Locks)
    → AllUnheld locks
    → with_shared l body locks ≡ undefined
unfolding with_shared guard_new unlock_shared
with_shared-unheld l body locks h = rw (with_shared, h l)

-- A block that leaves the lock that it stands in as it is taken, and the others free.
with_exclusive-unheld :
    {A : Type 0} (l : LockName) (body : Locking A) (a : A) (locks after : Locks)
    → AllUnheld locks
    → body (put l (record { readers = 0; writer = true }) locks) ≡ completes a after
    → after l ≡ record { readers = 0; writer = true }
    → ((k : LockName) → same_lock k l ≡ false → after k ≡ unheld)
    → Balanced (with_exclusive l body locks) a
unfolding with_exclusive
with_exclusive-unheld l body a locks after h e taken others = (
  put l (record (after l) { writer = false }) after,
  rw (h l, e),
  λ k. ground (arith, taken, others k),
)

locked_on_remove-unheld :
    (p : ℕ) (s : ManagementService) (locks : Locks)
    → AllUnheld locks
    → let held = put data_lock (record { readers = 0; writer = true }) locks in
      (after : Locks) × (locked_on_remove p s held ≡ completes (on_remove p s) after)
      × (after data_lock ≡ record { readers = 0; writer = true })
      × ((k : LockName) → same_lock k data_lock ≡ false → after k ≡ unheld)
unfolding locked_on_remove with_exclusive ◌>>=◌ completes_with on_remove
locked_on_remove-unheld p s locks h =
    let held = put data_lock (record { readers = 0; writer = true }) locks in
    (
      put (status_lock p)
          (record (put (status_lock p) (record { readers = 0; writer = true }) held
            (status_lock p)) { writer = false })
          (put (status_lock p) (record { readers = 0; writer = true }) held),
      rw (h (status_lock p)),
      refl,
      λ k n. ground (arith, n, h k),
    )

-- The block of a removal that found nothing, and of one that found the station `p`.
nothing_removed :
    (s : ManagementService) (locks : Locks)
    → AllUnheld locks
    → Balanced {A = ManagementService × Bool}
        (with_exclusive data_lock (completes_with (s, false)) locks)
        (s, false)
unfolding completes_with
nothing_removed s locks h =
    with_exclusive-unheld data_lock (completes_with (s, false)) (s, false) locks
      (put data_lock (record { readers = 0; writer = true }) locks) h refl refl
      (λ k n. ground (arith, n, h k))

one_removed :
    (p : ℕ) (s : ManagementService) (locks : Locks)
    → AllUnheld locks
    → Balanced {A = ManagementService × Bool}
        (with_exclusive data_lock (locked_on_remove p s >>= removed) locks)
        (on_remove p s, true)
unfolding ◌>>=◌ removed completes_with
one_removed p s locks h =
    let (after, e, taken, others) = locked_on_remove-unheld p s locks h in
    with_exclusive-unheld data_lock (locked_on_remove p s >>= removed) (on_remove p s, true) locks
      after h (rw e) taken others

remove_by_mac_address_unheld :
    (a : Bytes) (s : ManagementService) (locks : Locks)
    → AllUnheld locks
    → Balanced (locked_remove_by_mac_address a s locks) (remove_by_mac_address a s)
unfolding locked_remove_by_mac_address remove_by_mac_address
remove_by_mac_address_unheld a s locks h = elim (Option-cases (find a s.mac_address_index)) [
  | inl e ↦ rw (e, remove_by_mac_address) (nothing_removed s locks h)
  | inr (p, e) ↦ rw (e, remove_by_mac_address) (one_removed p _ locks h)
]

remove_by_ip_address_unheld :
    (a : Bytes) (s : ManagementService) (locks : Locks)
    → AllUnheld locks
    → Balanced (locked_remove_by_ip_address a s locks) (remove_by_ip_address a s)
unfolding locked_remove_by_ip_address remove_by_ip_address
remove_by_ip_address_unheld a s locks h = elim (Option-cases (find a s.ip_address_index)) [
  | inl e ↦ rw (e, remove_by_ip_address) (nothing_removed s locks h)
  | inr (p, e) ↦ rw (e, remove_by_ip_address) (one_removed p _ locks h)
]

remove_by_hostname_unheld :
    (k : Bytes) (s : ManagementService) (locks : Locks)
    → AllUnheld locks
    → Balanced (locked_remove_by_hostname k s locks) (remove_by_hostname k s)
unfolding locked_remove_by_hostname remove_by_hostname
remove_by_hostname_unheld k s locks h = elim (Option-cases (find k s.hostname_index)) [
  | inl e ↦ rw (e, remove_by_hostname) (nothing_removed s locks h)
  | inr (p, e) ↦ rw (e, remove_by_hostname) (one_removed p _ locks h)
]

read_unheld :
    {A : Type 0} (reads : ManagementService → A) (s : ManagementService) (locks : Locks)
    → AllUnheld locks
    → locked_read reads s locks ≡ undefined
unfolding locked_read
read_unheld reads s locks h = with_shared-unheld data_lock (completes_with (reads s)) locks h

status_unheld :
    (p : ℕ) (s : ManagementService) (locks : Locks)
    → AllUnheld locks
    → locked_status p s locks ≡ undefined
unfolding locked_status
status_unheld p s locks h =
    with_shared-unheld (status_lock p) (completes_with (s.cell p).status) locks h

-- Where no thread holds a lock, every call that takes a lock as a reader is undefined behaviour: the
-- status of a station, the three lookups and the list of participants, whatever they read, the
-- insertion, the status report and the wakeup. The removals, which take their locks as writers, do
-- what they are meant to do and let their locks go.
pub locked_lem :
    {A : Type 0} (reads : ManagementService → A) (p : ℕ) (k : Bytes) (status : Status)
    (s : ManagementService) (locks : Locks)
    → AllUnheld locks
    → (locked_status p s locks ≡ undefined)
      × (locked_read reads s locks ≡ undefined)
      × (locked_insert p s locks ≡ undefined)
      × (locked_update_sleep_status k status s locks ≡ undefined)
      × (locked_wakeup k s locks ≡ undefined)
      × Balanced (locked_remove_by_mac_address k s locks) (remove_by_mac_address k s)
      × Balanced (locked_remove_by_ip_address k s locks) (remove_by_ip_address k s)
      × Balanced (locked_remove_by_hostname k s locks) (remove_by_hostname k s)
unfolding locked_insert locked_update_sleep_status locked_wakeup ◌>>=◌
locked_lem reads p k status s locks h =
    let off : locked_status p s locks ≡ undefined = status_unheld p s locks h in
    (
      off,
      read_unheld reads s locks h,
      rw off,
      rw (read_unheld (get_by_mac_address k) s locks h),
      rw (read_unheld (get_by_hostname k) s locks h),
      remove_by_mac_address_unheld k s locks h,
      remove_by_ip_address_unheld k s locks h,
      remove_by_hostname_unheld k s locks h,
    )
