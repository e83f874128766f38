-- ===== src/Channel/Wakeup.antt =====
-- The wait of `receive` in include/channel.h against the notifications of the senders.
--
-- The receiver's thread runs, or has tested the predicate of the wait and holds the lock (`tested`),
-- or is blocked and has given the lock up. A sender's `send` needs the lock. `~Sender` takes none:
-- it can store DISCONNECTED and notify at any point. One receiver is assumed, so the senders are
-- the other handles.
use sleep_manager.Base.{◌≤◌, ◌<◌, ◌≡◌, subst, ◌≢◌, Bool, true, false, arith, leb}
use sleep_manager.Channel.{
  Mpsc, up_to_date, disconnected, copy_handle, drop_sender, send, receive_pass,
}

pub data Thread : Type 0 where
  runs tested blocked : Thread

-- `notify_one` wakes the receiver if it is blocked.
abbrev notify : Thread → Thread
notify blocked = runs
notify r = r

-- A send notifies only where it returns true.
abbrev notify_if : Bool → Thread → Thread
notify_if true r = notify r
notify_if false r = r

-- What `~Sender` does to the receiver: only the last sender notifies.
abbrev pub notify_last {ℓ} : {T : Type ℓ} → Mpsc T → Thread → Thread
notify_last c r = notify_if (leb c.use_count 2) r

-- A step of the channel and of the receiver's thread.
pub data Step {ℓ} {T : Type ℓ} : Mpsc T → Thread → Mpsc T → Thread → Type ℓ where
  sends :
      (c : Mpsc T) (r : Thread) (t : T)
      → 2 ≤ c.use_count
      → r ≢ tested
      → Step c r (send t c).0 (notify_if (send t c).1 r)
  copies : (c : Mpsc T) (r : Thread) → 2 ≤ c.use_count → Step c r (copy_handle c) r
  drops : (c : Mpsc T) (r : Thread) → 2 ≤ c.use_count → Step c r (drop_sender c) (notify_last c r)
  tests : (c : Mpsc T) → c.state_tag ≡ up_to_date → Step c runs c tested
  blocks : (c : Mpsc T) → Step c tested c blocked
  receives : (c : Mpsc T) → c.state_tag ≢ up_to_date → Step c runs (receive_pass c).0 runs

pub data Reach {ℓ} {T : Type ℓ} (c : Mpsc T) (r : Thread) : Mpsc T → Thread → Type ℓ where
  here : Reach c r c r
  next : {d e : Mpsc T} {p q : Thread} → Reach c r d p → Step d p e q → Reach c r e q

-- The receiver waits only while there is nothing to tell it.
abbrev pub IsAwake {ℓ} : {T : Type ℓ} → Mpsc T → Thread → Type 0
IsAwake c r = r ≢ runs → c.state_tag ≡ up_to_date

-- The last sender does not go away between the receiver's test and its block.
abbrev pub IsTimely {ℓ} : {T : Type ℓ} {c d : Mpsc T} {p q : Thread} → Step c p d q → Type 0
IsTimely (drops c r _) = r ≡ tested → 2 < c.use_count
IsTimely _ = Unit

-- Nor in any step of a run.
abbrev pub AllTimely {ℓ} :
    {T : Type ℓ} {c : Mpsc T} {p : Thread} {d : Mpsc T} {q : Thread} → Reach c p d q → Type 0
AllTimely here = Unit
AllTimely (next run m) = AllTimely run × IsTimely m

module _ {ℓ} {T : Type ℓ} where
  no_senders : {c d : Mpsc T} {q : Thread} → c.use_count ≤ 1 → ¬ Step c blocked d q
  no_senders h (sends c r t n _) = omega arith
  no_senders h (copies c r n) = omega arith
  no_senders h (drops c r n) = omega arith

  notify_last-tested : (c : Mpsc T) → notify_last c tested ≡ tested
  notify_last-tested c = ground arith

  -- A wakeup can be lost: with one sender and nothing queued, the sender can go away after the
  -- receiver's test, and the receiver then blocks on a disconnected channel, with no step left that
  -- could wake it.
  pub lost_wakeup :
      (c : Mpsc T)
      → c.state_tag ≡ up_to_date
      → c.use_count ≡ 2
      → (d : Mpsc T) × Reach c runs d blocked
        × (d.state_tag ≡ disconnected)
        × ((e : Mpsc T) (q : Thread) → ¬ Step d blocked e q)
  unfolding drop_sender
  lost_wakeup c h n = (
    drop_sender c,
    next (next (next here (tests c h)) drop) (blocks (drop_sender c)),
    ground arith,
    λ e q. no_senders (ground arith),
  )
    where
      drop : Step c tested (drop_sender c) tested
      drop =
          subst (Step c tested (drop_sender c)) (notify_last-tested c)
            (drops c tested (omega arith))
