-- ===== src/Channel/Invariant.antt =====
-- The state tag of include/channel.h tells whether messages are queued.
use sleep_manager.Base.{◌≡◌, ◌≢◌, refl, List, [], ◌∷◌, arith}
use sleep_manager.Channel.{
  Mpsc, Call, sends, copies, drops_sender, drops_receiver, receives, undefined, up_to_date,
  new_message, open_channel, copy_handle, drop_sender, drop_receiver, send, receive_pass, step, run,
}

-- What the tag promises of the queue.
pub record IsValid {ℓ} {T : Type ℓ} (c : Mpsc T) : Type ℓ where
  pub queued : c.state_tag ≡ new_message → c.messages ≢ []
  pub drained : c.state_tag ≡ up_to_date → c.messages ≡ []

module _ {ℓ} {T : Type ℓ} where
  send-IsValid : (t : T) (c : Mpsc T) → IsValid c → IsValid (send t c).0
  unfolding send
  send-IsValid t c v = ground arith

  receive_pass-IsValid : (c : Mpsc T) → IsValid c → IsValid (receive_pass c).0
  unfolding receive_pass
  receive_pass-IsValid c v = ground arith

  drop_sender-IsValid : (c : Mpsc T) → IsValid c → IsValid (drop_sender c)
  unfolding drop_sender
  drop_sender-IsValid c v = ground arith

  pub step-IsValid : (c : Mpsc T) (x : Call T) → IsValid c → IsValid (step c x)
  unfolding step copy_handle drop_receiver
  step-IsValid c (sends t) v = send-IsValid t c v
  step-IsValid c copies v = ground arith
  step-IsValid c drops_sender v = drop_sender-IsValid c v
  step-IsValid c drops_receiver v = ground arith
  step-IsValid c receives v = receive_pass-IsValid c v

  run-IsValid : (c : Mpsc T) (xs : List (Call T)) → IsValid c → IsValid (run c xs)
  unfolding run
  run-IsValid c [] v = v
  run-IsValid c (x ∷ xs) v = run-IsValid (step c x) xs (step-IsValid c x v)

  receive_pass-defined : (c : Mpsc T) → IsValid c → (receive_pass c).1 ≢ undefined
  unfolding receive_pass
  receive_pass-defined c v = ground arith

  -- After any calls on a fresh channel the tag is NEW_MESSAGE only over a queue that holds a
  -- message, it is UP_TO_DATE only over an empty queue, and a receive never reads the front of an
  -- empty queue.
  run-open_channel :
      (xs : List (Call T))
      → IsValid (run (open_channel T) xs) × ((receive_pass (run (open_channel T) xs)).1 ≢ undefined)
  unfolding open_channel
  run-open_channel xs =
      let v =
        run-IsValid (open_channel T) xs
          (record { queued = λ e. absurd (cc); drained = λ _. refl }) in
      (v, receive_pass-defined _ v)
