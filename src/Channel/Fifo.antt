-- ===== src/Channel/Fifo.antt =====
-- What comes out of a channel of include/channel.h against what went in, and an abstract queue.
use sleep_manager.Base.{◌≡◌, refl, sym, List, [], ◌∷◌, ◌++◌, append_assoc, append-nil, false, arith}
use sleep_manager.Channel.{
  Mpsc, Call, sends, copies, drops_sender, drops_receiver, receives, Received, message, closed,
  disconnected, copy_handle, drop_sender, drop_receiver, send, receive_pass, step, run,
}

module _ {ℓ} {T : Type ℓ} where
  -- The messages of the calls that send, oldest first.
  abbrev pub sent : List (Call T) → List T
  sent [] = []
  sent (sends t ∷ xs) = t ∷ sent xs
  sent (_ ∷ xs) = sent xs

  abbrev pub delivery : Received T → List T
  delivery (message t) = t ∷ []
  delivery _ = []

  abbrev pub delivered : Mpsc T → Call T → List T
  delivered c receives = delivery (receive_pass c).1
  delivered c _ = []

  -- The messages that the calls receive, in order.
  abbrev pub received : Mpsc T → List (Call T) → List T
  received c [] = []
  received c (x ∷ xs) = delivered c x ++ received (step c x) xs

  step-messages :
      (c : Mpsc T) (x : Call T) → delivered c x ++ (step c x).messages ≡ c.messages ++ sent (x ∷ [])
  unfolding step send copy_handle drop_sender drop_receiver receive_pass
  step-messages c (sends t) = ground arith
  step-messages c copies = ground (arith, append-nil c.messages)
  step-messages c drops_sender = ground (arith, append-nil c.messages)
  step-messages c drops_receiver = ground (arith, append-nil c.messages)
  step-messages c receives = ground (arith, append-nil c.messages)

  sent-cons : (x : Call T) (xs : List (Call T)) → sent (x ∷ xs) ≡ sent (x ∷ []) ++ sent xs
  sent-cons (sends t) xs = refl
  sent-cons copies xs = refl
  sent-cons drops_sender xs = refl
  sent-cons drops_receiver xs = refl
  sent-cons receives xs = refl

  -- Whatever the calls are, the messages received and then those still queued are the messages
  -- queued at the start and then those sent: none is lost, doubled or reordered in the queue.
  pub received-run :
      (c : Mpsc T) (xs : List (Call T))
      → received c xs ++ (run c xs).messages ≡ c.messages ++ sent xs
  unfolding run
  received-run c [] = sym (append-nil c.messages)
  received-run c (x ∷ xs) = cc (
    append_assoc (delivered c x) (received (step c x) xs) (run (step c x) xs).messages,
    received-run (step c x) xs,
    append_assoc (delivered c x) (step c x).messages (sent xs),
    step-messages c x,
    append_assoc c.messages (sent (x ∷ [])) (sent xs),
    sent-cons x xs,
  )

  step-disconnected :
      (c : Mpsc T) (x : Call T)
      → c.state_tag ≡ disconnected
      → ((step c x).state_tag ≡ disconnected) × (delivered c x ≡ [])
  unfolding step send copy_handle drop_sender drop_receiver receive_pass
  step-disconnected c (sends t) h = ground arith
  step-disconnected c copies h = ground arith
  step-disconnected c drops_sender h = ground arith
  step-disconnected c drops_receiver h = ground arith
  step-disconnected c receives h = ground arith

  -- Once a channel is disconnected it stays so: after any further calls a send returns false, a
  -- receive returns the empty optional, and none of the calls in between receives a message, also
  -- where messages are queued.
  run-disconnected :
      (c : Mpsc T) (xs : List (Call T)) (t : T)
      → c.state_tag ≡ disconnected
      → ((run c xs).state_tag ≡ disconnected)
        × ((send t (run c xs)).1 ≡ false)
        × ((receive_pass (run c xs)).1 ≡ closed)
        × (received c xs ≡ [])
  unfolding run
  run-disconnected c [] t h = unfold send receive_pass in ground arith
  run-disconnected c (x ∷ xs) t h =
      let (kept, silent) = step-disconnected c x h in
      let (tag, refused, empty, none_received) = run-disconnected (step c x) xs t kept in
      (tag, refused, empty, cc)
