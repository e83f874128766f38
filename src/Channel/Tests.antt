-- ===== src/Channel/Tests.antt =====
-- Tests of the channel, and its theorems at concrete inputs.
use sleep_manager.Base.{ℕ, ◌≡◌, refl, List, [], ◌∷◌, ◌++◌, some}
use sleep_manager.Channel.{
  Mpsc, Call, sends, copies, drops_sender, drops_receiver, receives, up_to_date, new_message,
  disconnected, open_channel, send, receive_pass, copy_handle, drop_sender, step, run,
}
use sleep_manager.Channel.Invariant.{IsValid}
use sleep_manager.Channel.Fifo.{received}
use sleep_manager.Channel.Pipe.{answers, pipe_answers, open_, answers-refine}
use sleep_manager.Channel.Blocking.{receive, returns, blocked, receive-head}
use sleep_manager.Channel.Wakeup.{
  Step, Reach, sends as sends_message, runs, blocked as asleep, lost_wakeup, Thread,
}

abbrev two_messages : List (Call ℕ)
two_messages = copies ∷ sends 4 ∷ sends 5 ∷ receives ∷ drops_sender ∷ []

abbrev fresh : Mpsc ℕ
fresh = record { state_tag = up_to_date; messages = []; use_count = 2 }

abbrev gone : Mpsc ℕ
gone = record { state_tag = disconnected; messages = 7 ∷ []; use_count = 1 }

-- Two handles are left when the copy goes, so the channel stays connected.
stays_connected :
    run (open_channel ℕ) two_messages
    ≡ record { state_tag = new_message; messages = 5 ∷ []; use_count = 2 }
unfolding run open_channel step copy_handle send receive_pass drop_sender
stays_connected = refl

-- A message that is queued when the last sender goes away is not delivered.
queued_then_dropped : received (open_channel ℕ) (sends 4 ∷ drops_sender ∷ receives ∷ []) ≡ []
unfolding open_channel step send receive_pass drop_sender
queued_then_dropped = refl

-- Without a further call the receiver stays in its wait.
nothing_sent : receive fresh (copies ∷ []) ≡ blocked
unfolding receive step copy_handle receive_pass
nothing_sent = refl

answers-refine_example :
    answers (open_channel ℕ) (two_messages ++ drops_receiver ∷ two_messages)
    ≡ pipe_answers (open_ [] 2) (two_messages ++ drops_receiver ∷ two_messages)
answers-refine_example = answers-refine (two_messages ++ drops_receiver ∷ two_messages)

fresh-IsValid : IsValid fresh
fresh-IsValid = record { queued = λ e. absurd (cc); drained = λ _. refl }

receive-head_example : (d : Mpsc ℕ) × (receive fresh (copies ∷ sends 9 ∷ []) ≡ returns d (some 9))
receive-head_example =
    receive-head fresh (copies ∷ sends 9 ∷ []) 9 fresh-IsValid (λ e. cc) (tt, (tt, tt)) refl

lost_wakeup_example :
    (d : Mpsc ℕ) × Reach fresh runs d asleep
    × (d.state_tag ≡ disconnected)
    × ((e : Mpsc ℕ) (q : Thread) → ¬ Step d asleep e q)
lost_wakeup_example = lost_wakeup fresh refl refl
