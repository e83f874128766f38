-- ===== src/Channel/Blocking.antt =====
-- The whole of `receive` in include/channel.h, against the calls of other threads while it waits.
use sleep_manager.Base.{
  ◌≡◌, ◌≢◌, refl, List, [], ◌∷◌, ◌++◌, append_assoc, Option, none, some, arith, All,
}
use sleep_manager.Channel.{
  Mpsc, Call, sends, copies, drops_sender, drops_receiver, receives, message, closed, waits,
  undefined, disconnected, copy_handle, send, receive_pass, step,
}
use sleep_manager.Channel.Invariant.{IsValid, step-IsValid}
use sleep_manager.Channel.Fifo.{sent}

-- `returns` has the state behind and the optional; `blocked` means that the other threads made no
-- further call and `receive` still waits.
pub data Outcome {ℓ} (T : Type ℓ) : Type ℓ where
  returns : Mpsc T → Option T → Outcome T
  blocked : Outcome T
  faults : Outcome T

module _ {ℓ} {T : Type ℓ} where
  -- The loop: each wait lets the next call of another thread happen.
  unfoldable pub receive : Mpsc T → List (Call T) → Outcome T
  receive c [] = elim (receive_pass c).1 [
    | message t ↦ returns (receive_pass c).0 (some t)
    | closed ↦ returns (receive_pass c).0 none
    | waits ↦ blocked
    | undefined ↦ faults
  ]
  receive c (x ∷ xs) = elim (receive_pass c).1 [
    | message t ↦ returns (receive_pass c).0 (some t)
    | closed ↦ returns (receive_pass c).0 none
    | waits ↦ receive (step c x) xs
    | undefined ↦ faults
  ]

  abbrev pub head? : List T → Option T
  head? [] = none
  head? (t ∷ ts) = some t

  -- Calls of senders that stay.
  abbrev pub IsQuiet : Call T → Type 0
  IsQuiet (sends t) = Unit
  IsQuiet copies = Unit
  IsQuiet _ = ⊥

  receive_queued :
      (c : Mpsc T) (xs : List (Call T)) (t : T) (ts : List T)
      → IsValid c
      → c.state_tag ≢ disconnected
      → c.messages ≡ t ∷ ts
      → (d : Mpsc T) × (receive c xs ≡ returns d (some t)) × (d.messages ≡ ts)
  unfolding receive receive_pass
  receive_queued c [] t ts v h e = ((receive_pass c).0, ground arith, ground arith)
  receive_queued c (x ∷ xs) t ts v h e = ((receive_pass c).0, ground arith, ground arith)

  quiet_connected :
      (c : Mpsc T) (x : Call T)
      → IsQuiet x
      → c.state_tag ≢ disconnected
      → (step c x).state_tag ≢ disconnected
  unfolding step send copy_handle
  quiet_connected c (sends t) q h = ground arith
  quiet_connected c copies q h = ground arith
  quiet_connected c drops_sender q h = absurd q
  quiet_connected c drops_receiver q h = absurd q
  quiet_connected c receives q h = absurd q

  quiet_messages :
      (c : Mpsc T) (x : Call T) (xs : List (Call T))
      → IsQuiet x
      → (step c x).messages ++ sent xs ≡ c.messages ++ sent (x ∷ xs)
  unfolding step send copy_handle
  quiet_messages c (sends t) xs q = ground (arith, append_assoc c.messages (t ∷ []) (sent xs))
  quiet_messages c copies xs q = refl
  quiet_messages c drops_sender xs q = absurd q
  quiet_messages c drops_receiver xs q = absurd q
  quiet_messages c receives xs q = absurd q

  receive_waits :
      (c : Mpsc T) (x : Call T) (xs : List (Call T))
      → IsValid c
      → c.state_tag ≢ disconnected
      → c.messages ≡ []
      → receive c (x ∷ xs) ≡ receive (step c x) xs
  unfolding receive receive_pass
  receive_waits c x xs v h e = ground arith

  receive_from :
      (c : Mpsc T) (xs : List (Call T)) (t : T) (ts : List T)
      → c.messages ≡ ts
      → IsValid c
      → c.state_tag ≢ disconnected
      → All IsQuiet xs
      → head? (c.messages ++ sent xs) ≡ some t
      → (d : Mpsc T) × (receive c xs ≡ returns d (some t))
  receive_from c xs t (u ∷ us) p v h q e =
      let (d, r, _) = receive_queued c xs u us v h p in (d, ground arith)
  receive_from c [] t [] p v h q e = absurd (ground arith)
  receive_from c (x ∷ xs) t [] p v h (qx, qs) e = rw (receive_waits c x xs v h p) (
      receive_from (step c x) xs t (step c x).messages refl (step-IsValid c x v)
        (quiet_connected c x qx h) qs (rw (quiet_messages c x xs qx) e))

  -- On a connected channel in a valid state, while the other threads only send and copy their
  -- handles, `receive` returns, and returns the oldest message: the head of what is queued followed
  -- by what is sent, provided that there is one.
  pub receive-head :
      (c : Mpsc T) (xs : List (Call T)) (t : T)
      → IsValid c
      → c.state_tag ≢ disconnected
      → All IsQuiet xs
      → head? (c.messages ++ sent xs) ≡ some t
      → (d : Mpsc T) × (receive c xs ≡ returns d (some t))
  receive-head c xs t = receive_from c xs t c.messages refl
