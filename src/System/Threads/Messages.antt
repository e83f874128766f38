-- ===== src/System/Threads/Messages.antt =====
-- The messages that are queued for the interface of src/interface.cpp as long as input can come.
use sleep_manager.Base.{
  ℕ, ◌≡◌, refl, true, false, [], ◌∷◌, All, All-append, arith, Bool-cases, inl, inr, ◌==◌, subst,
}
use sleep_manager.Address.{Junk}
use sleep_manager.WorkStation.{WorkStation}
use sleep_manager.Channel.{
  Mpsc, message, waits, up_to_date, receive_pass, send, open_channel, copy_handle,
}
use sleep_manager.Channel.Invariant.{IsValid as ChannelIsValid}
use sleep_manager.Socket.{Env, World}
use sleep_manager.Socket.Udp.{Faults}
use sleep_manager.Interface.{ManagerIfaceMsg, manager_iface_refresh}
use sleep_manager.Interface.Session.{Session, on_event, input_ends}
use sleep_manager.System.Threads.{
  Process, table_moves, Step, arrives, receives, makes, inserts, responds, reports, commands, moves,
  leaves, nobody_leaves, tells, input_is_over, takes, fetches, draws, shows, Reach, here, next,
  start_process,
}

abbrev pub IsRefresh : ManagerIfaceMsg → Type 0
IsRefresh m = m ≡ manager_iface_refresh

-- No EXIT is queued before the end of the input.
abbrev pub NoExit : Session → Type 0
NoExit s = s.input_over ≡ false → All IsRefresh s.channel.messages

on_event-IsRefresh :
    (h j : ℕ) (c : Mpsc ManagerIfaceMsg)
    → All IsRefresh c.messages
    → All IsRefresh (on_event h j c).messages
unfolding on_event send
on_event-IsRefresh h j c k =
    let more = All-append IsRefresh c.messages (manager_iface_refresh ∷ []) k (refl, tt) in
    elim (Bool-cases (j == h)) [
      | inl this ↦ rw this (ground (arith, more))
      | inr other ↦ rw other k
    ]

-- A message that a receive returns was the first.
pub received_first :
    (c d : Mpsc ManagerIfaceMsg) (m : ManagerIfaceMsg)
    → receive_pass c ≡ (d, message m)
    → c.messages ≡ m ∷ d.messages
unfolding receive_pass
received_first c d m e = ground arith

-- A receive that waits has nothing to take.
pub waits_drained :
    (c d : Mpsc ManagerIfaceMsg)
    → ChannelIsValid c
    → receive_pass c ≡ (d, waits)
    → (c.state_tag ≡ up_to_date) × (c.messages ≡ [])
unfolding receive_pass
waits_drained c d v e = ground arith

taken-IsRefresh :
    (c d : Mpsc ManagerIfaceMsg) (m : ManagerIfaceMsg)
    → receive_pass c ≡ (d, message m)
    → All IsRefresh c.messages
    → All IsRefresh d.messages
taken-IsRefresh c d m e k = (subst (All IsRefresh) (received_first c d m e) k).1

over : {A : Type 0} → true ≡ false → A
over e = absurd (cc)

Step-NoExit :
    {h : ℕ} {env : Env} {faults : Faults} {junk : Junk} {x y : Process}
    → Step h env faults junk x y
    → NoExit x.session
    → NoExit y.session
unfolding table_moves input_ends
Step-NoExit (arrives x discovery exits) k = k
Step-NoExit (receives x received r e) k = k
Step-NoExit (makes x us vs received e) k = k
Step-NoExit (inserts x us vs received p e) k = k
Step-NoExit (responds x us vs received w e _) k = k
Step-NoExit (reports x junk_status mac q arrivals answer w on _) k = k
Step-NoExit (commands x line) k = k
Step-NoExit (moves x us vs t e) k = k
Step-NoExit (leaves x packet r _) k = k
Step-NoExit (nobody_leaves x r _) k = k
Step-NoExit {h} (tells x us vs j e n) k =
    λ running. on_event-IsRefresh h j x.session.channel (k running)
Step-NoExit (input_is_over x running) k = λ e. over e
Step-NoExit (takes x c e r) k =
    λ running. taken-IsRefresh x.session.channel c manager_iface_refresh r (k running)
Step-NoExit (fetches x e) k = k
Step-NoExit (draws x p ps rows e) k = k
Step-NoExit (shows x rows e) k = k

pub Reach-NoExit :
    {h : ℕ} {env : Env} {faults : Faults} {junk : Junk} {x y : Process}
    → Reach h env faults junk x y
    → NoExit x.session
    → NoExit y.session
Reach-NoExit here k = k
Reach-NoExit (next run m) k = Step-NoExit m (Reach-NoExit run k)

pub start_process-NoExit :
    (h first : ℕ) (cell : ℕ → WorkStation) (w : World)
    → NoExit (start_process h first cell w).session
unfolding start_process open_channel copy_handle
start_process-NoExit h first cell w = λ running. tt
