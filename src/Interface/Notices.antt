-- ===== src/Interface/Notices.antt =====
-- The messages that the event handler of src/interface.cpp sends through its channel.
use sleep_manager.Base.{
  ℕ, suc, ◌≤◌, ◌≡◌, ◌≢◌, refl, Bool, true, false, ◌||◌, List, [], ◌∷◌, ◌++◌, ◌==◌, if◌then◌else◌,
  arith, ◌⊎◌, inl, inr,
}
use sleep_manager.Channel.{
  Mpsc, message, waits, send, drop_sender, receive_pass, StateTag, up_to_date, new_message,
  disconnected,
}
use sleep_manager.Channel.Invariant.{IsValid as ChannelIsValid}
use sleep_manager.Interface.{ManagerIfaceMsg, manager_iface_exit, manager_iface_refresh}
use sleep_manager.Interface.Session.{on_event}

-- A REFRESH is queued.
abbrev pub pending : List ManagerIfaceMsg → Bool
pending [] = false
pending (manager_iface_refresh ∷ ms) = true
pending (manager_iface_exit ∷ ms) = pending ms

abbrev pub listens : ℕ → List ℕ → Bool
listens h [] = false
listens h (j ∷ js) = j == h || listens h js

pending-append :
    (ms : List ManagerIfaceMsg) (m : ManagerIfaceMsg)
    → pending ms ≡ true
    → pending (ms ++ m ∷ []) ≡ true
pending-append [] m e = cc
pending-append (manager_iface_refresh ∷ ms) m e = refl
pending-append (manager_iface_exit ∷ ms) m e = pending-append ms m e

pending-refresh : (ms : List ManagerIfaceMsg) → pending (ms ++ manager_iface_refresh ∷ []) ≡ true
pending-refresh [] = refl
pending-refresh (manager_iface_refresh ∷ ms) = refl
pending-refresh (manager_iface_exit ∷ ms) = pending-refresh ms

-- A channel that is connected and tagged, with `n` handles at least.
abbrev pub IsOpen : ℕ → Mpsc ManagerIfaceMsg → Type 0
IsOpen n c = (c.state_tag ≢ disconnected) × ChannelIsValid c × (n ≤ c.use_count)

pub send-IsOpen :
    (n : ℕ) (m : ManagerIfaceMsg) (c : Mpsc ManagerIfaceMsg) → IsOpen n c → IsOpen n (send m c).0
unfolding send
send-IsOpen n m c (o, v, held) = (ground arith, ground arith, ground arith)

pub drop_sender-pending :
    (c : Mpsc ManagerIfaceMsg) → pending c.messages ≡ true → pending (drop_sender c).messages ≡ true
unfolding drop_sender
drop_sender-pending c e = ground (arith, e)

-- A sender that is not the last leaves the channel open.
pub drop_sender-IsOpen :
    (n : ℕ) (c : Mpsc ManagerIfaceMsg) → 2 ≤ n → IsOpen (suc n) c → IsOpen n (drop_sender c)
unfolding drop_sender
drop_sender-IsOpen n c enough (o, v, held) = (ground arith, ground arith, ground arith)

pub send-pending :
    (m : ManagerIfaceMsg) (c : Mpsc ManagerIfaceMsg)
    → pending c.messages ≡ true
    → pending (send m c).0.messages ≡ true
unfolding send
send-pending m c e = ground (arith, pending-append c.messages m)

send-refresh : (c : Mpsc ManagerIfaceMsg) → pending (send manager_iface_refresh c).0.messages ≡ true
unfolding send
send-refresh c = ground (arith, pending-refresh c.messages)

pub on_event-IsOpen :
    (n h j : ℕ) (c : Mpsc ManagerIfaceMsg) → IsOpen n c → IsOpen n (on_event h j c)
unfolding on_event
on_event-IsOpen n h j c o =
    elim (j == h) as (λ b. IsOpen n (if b then (send manager_iface_refresh c).0 else c)) [
      | true ↦ send-IsOpen n manager_iface_refresh c o
      | false ↦ o
    ]

pub on_event-pending :
    (h j : ℕ) (c : Mpsc ManagerIfaceMsg)
    → pending c.messages ≡ true
    → pending (on_event h j c).messages ≡ true
unfolding on_event
on_event-pending h j c e =
    elim (j == h)
      as (λ b. pending (if b then (send manager_iface_refresh c).0 else c).messages ≡ true) [
        | true ↦ send-refresh c
        | false ↦ e
      ]

pub on_event_self :
    (h j : ℕ) (c : Mpsc ManagerIfaceMsg)
    → (j == h) ≡ true
    → pending (on_event h j c).messages ≡ true
unfolding on_event
on_event_self h j c e = rw (e, pending) (send-refresh c)

pub listens-append : (h j : ℕ) (hs : List ℕ) → listens h hs ≡ true → listens h (hs ++ j ∷ []) ≡ true
listens-append h j [] e = cc
listens-append h j (i ∷ hs) e = ground (arith, listens-append h j hs)

-- What a receive on an open channel comes to: it waits, or takes a message and leaves it open.
abbrev Receives : ℕ → Mpsc ManagerIfaceMsg → Type 0
Receives k c =
    (receive_pass c ≡ (c, waits))
    ⊎ ((m : ManagerIfaceMsg) × (d : Mpsc ManagerIfaceMsg) × (receive_pass c ≡ (d, message m))
        × IsOpen k d)

by_tag :
    (k : ℕ) (tag : StateTag) (ms : List ManagerIfaceMsg) (n : ℕ)
    → let c : Mpsc ManagerIfaceMsg = record { state_tag = tag; messages = ms; use_count = n } in
      IsOpen k c → Receives k c
unfolding receive_pass
by_tag k up_to_date ms n _ = inl refl
by_tag k disconnected ms n (o, _, _) = absurd (o refl)
by_tag k new_message [] n (_, v, _) = absurd (v.queued refl refl)
by_tag k new_message (m ∷ []) n (_, _, held) = inr (m, _, refl, (ground arith, ground arith, held))
by_tag k new_message (m ∷ m' ∷ ms) n (_, _, held) =
    inr (m, _, refl, (ground arith, ground arith, held))

pub receives : (k : ℕ) (c : Mpsc ManagerIfaceMsg) → IsOpen k c → Receives k c
receives k c o = by_tag k c.state_tag c.messages c.use_count o

pub listens_last : (h : ℕ) (hs : List ℕ) → listens h (hs ++ h ∷ []) ≡ true
listens_last h [] = ground arith
listens_last h (j ∷ hs) = ground (arith, listens_last h hs)

pub queued_tag :
    (n : ℕ) (c : Mpsc ManagerIfaceMsg)
    → IsOpen n c
    → pending c.messages ≡ true
    → (c.state_tag ≡ new_message) × (pending c.messages ≡ true)
queued_tag n c (o, v, _) e = ground arith
