-- ===== src/Lock.antt =====
-- The guard of a reader lock, include/lock.h, over the standard library's `shared_mutex`.
pub mod Balance
use sleep_manager.Base.{ℕ, zero, suc, ◌+◌, Bool, true, false, Option, none, some, if◌then◌else◌}

-- Who holds a `shared_mutex`.
pub record SharedMutex : Type 0 where
  pub readers : ℕ
  pub writer : Bool

-- `none` is a call that waits for the writer.
unfoldable lock_shared : SharedMutex → Option SharedMutex
lock_shared m = if m.writer then none else some (record m { readers = m.readers + 1 })

-- `none` is undefined behaviour: the standard wants the caller to hold the lock as a reader.
unfoldable pub unlock_shared : SharedMutex → Option SharedMutex
unlock_shared m = elim m.readers [ zero ↦ none | suc n ↦ some (record m { readers = n }) ]

-- The constructor of SharedLockGuard.
unfoldable pub guard_new : SharedMutex → Option SharedMutex
unfolding unlock_shared
guard_new = unlock_shared

-- The destructor.
unfoldable pub guard_drop : SharedMutex → Option SharedMutex
unfolding unlock_shared
guard_drop = unlock_shared

-- A block that holds a guard and does nothing else with the lock.
unfoldable pub guarded : SharedMutex → Option SharedMutex
unfolding guard_new guard_drop
guarded m = elim (guard_new m) [ none ↦ none | some m' ↦ guard_drop m' ]
