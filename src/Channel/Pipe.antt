-- ===== src/Channel/Pipe.antt =====
-- The channel of include/channel.h against what it promises: a queue that is open or shut.
use sleep_manager.Base.{
  ℕ, ◌-◌, ◌+◌, ◌≡◌, ◌≢◌, refl, ap₂, Bool, true, false, List, [], ◌∷◌, ◌++◌, leb, if◌then◌else◌,
  arith,
}
use sleep_manager.Channel.{
  Mpsc, Call, sends, copies, drops_sender, drops_receiver, receives, Received, message, closed,
  waits, disconnected, open_channel, copy_handle, drop_sender, drop_receiver, send, receive_pass,
  step,
}
use sleep_manager.Channel.Invariant.{IsValid, step-IsValid}

-- An open pipe has a queue and a number of handles.
pub data Pipe {ℓ} (T : Type ℓ) : Type ℓ where
  open_ : List T → ℕ → Pipe T
  shut : Pipe T

-- What a caller gets.
pub data Answer {ℓ} (T : Type ℓ) : Type ℓ where
  silent : Answer T
  accepted : Bool → Answer T
  got : Received T → Answer T

module _ {ℓ} {T : Type ℓ} where
  abbrev pub answer : Mpsc T → Call T → Answer T
  answer c (sends t) = accepted (send t c).1
  answer c receives = got (receive_pass c).1
  answer c _ = silent

  abbrev pub answers : Mpsc T → List (Call T) → List (Answer T)
  answers c [] = []
  answers c (x ∷ xs) = answer c x ∷ answers (step c x) xs

  -- A pipe is shut with its receiver, and with a sender where no more than two handles are left.
  unfoldable pub pipe_step : Pipe T → Call T → Pipe T × Answer T
  pipe_step shut (sends t) = (shut, accepted false)
  pipe_step shut receives = (shut, got closed)
  pipe_step shut _ = (shut, silent)
  pipe_step (open_ q n) (sends t) = (open_ (q ++ t ∷ []) n, accepted true)
  pipe_step (open_ q n) copies = (open_ q (n + 1), silent)
  pipe_step (open_ q n) drops_sender = ((if leb n 2 then shut else open_ q (n - 1)), silent)
  pipe_step (open_ q n) drops_receiver = (shut, silent)
  pipe_step (open_ [] n) receives = (open_ [] n, got waits)
  pipe_step (open_ (t ∷ q) n) receives = (open_ q n, got (message t))

  unfoldable pub pipe_answers : Pipe T → List (Call T) → List (Answer T)
  pipe_answers p [] = []
  pipe_answers p (x ∷ xs) = let (q, a) = pipe_step p x in a ∷ pipe_answers q xs

  abbrev Shows : Mpsc T → Pipe T → Type ℓ
  Shows c (open_ q n) = (c.state_tag ≢ disconnected) × (c.messages ≡ q) × (c.use_count ≡ n)
  Shows c shut = (c.state_tag ≡ disconnected) × Unit {ℓ}

  step-pipe :
      (c : Mpsc T) (p : Pipe T) (x : Call T)
      → IsValid c
      → Shows c p
      → Shows (step c x) (pipe_step p x).0 × (answer c x ≡ (pipe_step p x).1)
  unfolding step send copy_handle drop_sender drop_receiver receive_pass pipe_step
  step-pipe c shut (sends t) v h = ground arith
  step-pipe c shut copies v h = ground arith
  step-pipe c shut drops_sender v h = ground arith
  step-pipe c shut drops_receiver v h = ground arith
  step-pipe c shut receives v h = ground arith
  step-pipe c (open_ q n) (sends t) v h = ground arith
  step-pipe c (open_ q n) copies v h = ground arith
  step-pipe c (open_ q n) drops_sender v h = ground arith
  step-pipe c (open_ q n) drops_receiver v h = ground arith
  step-pipe c (open_ [] n) receives v h = ground (arith, v.queued)
  step-pipe c (open_ (t ∷ q) n) receives v h = ground (arith, v.drained)

  run-pipe :
      (c : Mpsc T) (p : Pipe T) (xs : List (Call T))
      → IsValid c
      → Shows c p
      → answers c xs ≡ pipe_answers p xs
  unfolding pipe_answers
  run-pipe c p [] v h = refl
  run-pipe c p (x ∷ xs) v h =
      let (h', e) = step-pipe c p x v h in
      ap₂ ◌∷◌ e (run-pipe (step c x) (pipe_step p x).0 xs (step-IsValid c x v) h')

  -- To its callers the channel is a queue that is open or shut: whatever they call on a fresh one,
  -- in any order, each answer is the queue's. An open queue takes every message and gives the oldest
  -- one, or lets its receiver wait; a shut one refuses, gives nothing, and stays shut.
  pub answers-refine :
      (xs : List (Call T)) → answers (open_channel T) xs ≡ pipe_answers (open_ [] 2) xs
  unfolding open_channel
  answers-refine xs =
      run-pipe (open_channel T) (open_ [] 2) xs
        (record { queued = λ e. absurd (cc); drained = λ _. refl }) ((λ e. cc), refl, refl)
