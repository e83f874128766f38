-- ===== src/Lock/Balance.antt =====
-- What a guarded block of include/lock.h does to its lock.
use sleep_manager.Base.{ℕ, zero, suc, ◌+◌, ◌<◌, ◌≡◌, refl, Bool, none, some, arith, ◌⊎◌, inl, inr}
use sleep_manager.Lock.{SharedMutex, guarded}

-- The outcome, by the number of readers.
abbrev Unbalanced : SharedMutex → Type 0
Unbalanced m =
    ((m.readers < 2) × (guarded m ≡ none))
    ⊎ ((k : SharedMutex) × (guarded m ≡ some k)
        × (k.readers + 2 ≡ m.readers)
        × (k.writer ≡ m.writer))

by_readers : (n : ℕ) (w : Bool) → Unbalanced (record { readers = n; writer = w })
unfolding guarded
by_readers zero w = inl (omega arith, refl)
by_readers (suc zero) w = inl (omega arith, refl)
by_readers (suc (suc n)) w = inr (record { readers = n; writer = w }, refl, omega arith, refl)

-- A guarded block never leaves its lock as it was: with fewer than two readers it is undefined
-- behaviour, and otherwise it takes two readers away that did not leave.
guarded_unbalanced :
    (m : SharedMutex)
    → ((m.readers < 2) × (guarded m ≡ none))
      ⊎ ((k : SharedMutex) × (guarded m ≡ some k)
          × (k.readers + 2 ≡ m.readers)
          × (k.writer ≡ m.writer))
guarded_unbalanced m = by_readers m.readers m.writer
