-- ===== src/Channel.antt =====
-- The multiple-producers, single-consumer channel of include/channel.h.
--
-- `Mpsc` is the object behind the `shared_ptr`; `use_count` counts the handles that hold it. The
-- move constructors take a `const&&`, so they copy the pointer: a handle that was moved from still
-- counts, and both constructors of a handle are one operation here. A call runs under the lock and
-- is one step; `Wakeup` looks inside the wait.
pub mod Invariant
pub mod Fifo
pub mod Pipe
pub mod Blocking
pub mod Wakeup
mod Tests
use sleep_manager.Base.{
  ℕ, ◌+◌, ◌-◌, ◌≡◌, Bool, true, false, List, [], ◌∷◌, ◌++◌, leb, if◌then◌else◌,
}

pub data StateTag : Type 0 where
  up_to_date new_message disconnected : StateTag

pub record Mpsc {ℓ} (T : Type ℓ) : Type ℓ where
  pub state_tag : StateTag
  pub messages : List T
  pub use_count : ℕ

-- What one pass of the loop in `receive` comes to: it returns a message or the empty optional, it
-- waits on the condition variable, or it reads the front of an empty queue.
pub data Received {ℓ} (T : Type ℓ) : Type ℓ where
  message : T → Received T
  closed : Received T
  waits : Received T
  undefined : Received T

-- `Channel::open`: a fresh object with one sender and one receiver.
unfoldable pub open_channel {ℓ} : (T : Type ℓ) → Mpsc T
open_channel T = record { state_tag = up_to_date; messages = []; use_count = 2 }

module _ {ℓ} {T : Type ℓ} where
  -- `Sender(Sender const&)`, `Sender(Sender const&&)` and `Receiver(Receiver const&&)`.
  unfoldable pub copy_handle : Mpsc T → Mpsc T
  copy_handle c = record c { use_count = c.use_count + 1 }

  -- `~Sender`, and then the pointer that it holds.
  unfoldable pub drop_sender : Mpsc T → Mpsc T
  drop_sender c =
      if leb c.use_count 2
      then record c { state_tag = disconnected; use_count = c.use_count - 1 }
      else record c { use_count = c.use_count - 1 }

  -- `~Receiver`, and then the pointer that it holds.
  unfoldable pub drop_receiver : Mpsc T → Mpsc T
  drop_receiver c = record c { state_tag = disconnected; use_count = c.use_count - 1 }

  unfoldable pub send : T → Mpsc T → Mpsc T × Bool
  send t c = elim c.state_tag [
    | disconnected ↦ (record c { messages = c.messages ++ t ∷ [] }, false)
    | _ ↦ (record c { state_tag = new_message; messages = c.messages ++ t ∷ [] }, true)
  ]

  tag_after_pop : List T → StateTag
  tag_after_pop [] = up_to_date
  tag_after_pop (t ∷ ts) = new_message

  pop_front : Mpsc T → List T → Mpsc T × Received T
  unfolding tag_after_pop
  pop_front c [] = (c, undefined)
  pop_front c (t ∷ ts) = (record c { state_tag = tag_after_pop ts; messages = ts }, message t)

  -- One pass of the loop in `receive`.
  unfoldable pub receive_pass : Mpsc T → Mpsc T × Received T
  unfolding pop_front
  receive_pass c = elim c.state_tag [
    | new_message ↦ pop_front c c.messages
    | up_to_date ↦ (c, waits)
    | disconnected ↦ (c, closed)
  ]

-- The calls that threads make on a channel.
pub data Call {ℓ} (T : Type ℓ) : Type ℓ where
  sends : T → Call T
  copies : Call T
  drops_sender : Call T
  drops_receiver : Call T
  receives : Call T

module _ {ℓ} {T : Type ℓ} where
  -- The state after a call.
  pub step : Mpsc T → Call T → Mpsc T
  step c (sends t) = (send t c).0
  step c copies = copy_handle c
  step c drops_sender = drop_sender c
  step c drops_receiver = drop_receiver c
  step c receives = (receive_pass c).0

  pub run : Mpsc T → List (Call T) → Mpsc T
  run c [] = c
  run c (x ∷ xs) = run (step c x) xs
