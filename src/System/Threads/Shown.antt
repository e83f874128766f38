-- ===== src/System/Threads/Shown.antt =====
-- The table and the screen of the manager under any interleaving of its threads.
use sleep_manager.Base.{
  ℕ, ◌≡◌, ◌≢◌, none, some, refl, true, [], ◌∷◌, any, Option, ◌⊎◌, inl, inr, arith, Bool-cases,
}
use sleep_manager.Address.{Junk}
use sleep_manager.WorkStation.{WorkStation, Status, disconnected}
use sleep_manager.Packet.{Packet}
use sleep_manager.Channel.{new_message}
use sleep_manager.Management.{
  participant_list, register_event_handler, new_service, get_by_mac_address,
}
use sleep_manager.Management.Invariant.{IsValid, new_service-IsValid}
use sleep_manager.Management.History.{register-IsValid}
use sleep_manager.Management.Threads.{updating, waking}
use sleep_manager.Socket.{Env, World}
use sleep_manager.Socket.Udp.{Faults}
use sleep_manager.Monitoring.{status_from}
use sleep_manager.Interface.{manager_iface_refresh}
use sleep_manager.Interface.Session.{start_session}
use sleep_manager.Interface.Notices.{pending, queued_tag, listens_last}
use sleep_manager.Interface.Open.{handles, start_session-IsOpen}
use sleep_manager.System.Threads.{
  Process, making, idle, fetching, drawing, looks_up, Step, arrives, receives, makes, inserts,
  responds, reports, commands, moves, leaves, nobody_leaves, tells, input_is_over, takes, fetches,
  draws, shows, Reach, here, next, start_process,
}
use sleep_manager.System.Threads.Screen.{is_for, is_due}
use sleep_manager.System.Threads.Rendering.{
  input_ends-IsLive, taken, fetched, drawn-blank, finished,
}
use sleep_manager.System.Threads.Moves.{
  IsRunning, handled, looked_up, at_drawing, makes-IsRunning, inserts-IsRunning, responds-IsRunning,
  leaves-IsRunning, moves-IsRunning, tells-IsRunning,
}

status_from-on :
    (junk_status : Status) (answer : Option Packet)
    → junk_status ≢ disconnected
    → status_from junk_status answer ≢ disconnected
status_from-on junk_status (some p) on = on
status_from-on junk_status none on = λ e. cc

-- Each step keeps what is true of the threads.
pub Step-IsRunning :
    {h : ℕ} {env : Env} {faults : Faults} {junk : Junk} {x y : Process}
    → Step h env faults junk x y
    → IsRunning h x
    → IsRunning h y
Step-IsRunning (arrives x discovery exits) k = k
Step-IsRunning (receives x received r _) k =
    handled k (making received ∷ x.handlers) (tt, k.insertable)
Step-IsRunning {h} (makes x us vs received e) k = makes-IsRunning h x us vs received e k
Step-IsRunning {h} (inserts x us vs received p e) k = inserts-IsRunning h x us vs received p e k
Step-IsRunning {h} (responds x us vs received w e _) k = responds-IsRunning h x us vs received w e k
Step-IsRunning (reports x junk_status mac q arrivals answer w on _) k =
    looked_up k (get_by_mac_address mac x.session.table)
      (λ p. updating p (status_from junk_status answer)) (λ p. status_from-on junk_status answer on)
Step-IsRunning (commands x line) k = looked_up k (looks_up line x.session.table) waking (λ p. tt)
Step-IsRunning {h} (moves x us vs t e) k = moves-IsRunning h x us vs t e k
Step-IsRunning {h} (leaves x packet r _) k =
    leaves-IsRunning h x packet.header.sender_addresses.mac k
Step-IsRunning (nobody_leaves x r _) k = k
Step-IsRunning {h} (tells x us vs j e n) k = tells-IsRunning h x us vs j e n k
Step-IsRunning {h} (input_is_over x running) k =
    input_ends-IsLive h x.session x.notices x.drawing x.pending x.handlers running k
Step-IsRunning {h} (takes x c e r) k = taken c manager_iface_refresh r (at_drawing h x idle e k)
Step-IsRunning {h} (fetches x e) k = fetched (at_drawing h x fetching e k)
Step-IsRunning {h} (draws x p ps rows e) k =
    drawn-blank p ps rows (at_drawing h x (drawing (some p ∷ ps) rows) e k)
Step-IsRunning {h} (shows x rows e) k = finished rows (at_drawing h x (drawing [] rows) e k)

pub Reach-IsRunning :
    {h : ℕ} {env : Env} {faults : Faults} {junk : Junk} {x y : Process}
    → Reach h env faults junk x y
    → IsRunning h x
    → IsRunning h y
Reach-IsRunning here k = k
Reach-IsRunning (next run m) k = Step-IsRunning m (Reach-IsRunning run k)

pub start_process-IsRunning :
    (h first : ℕ) (cell : ℕ → WorkStation) (w : World) → IsRunning h (start_process h first cell w)
unfolding start_process start_session new_service register_event_handler
start_process-IsRunning h first cell w = record {
  heard = listens_last h [];
  valid = register-IsValid h (new_service first cell) (new_service-IsValid first cell);
  open_ = start_session-IsOpen h (new_service first cell);
  orderly = tt;
  dark = refl;
  blank = tt;
  insertable = tt;
  fresh = inl (inr refl);
}

-- Whatever arrives, whatever is typed, whichever system calls fail, and in whatever order the steps of
-- the manager's threads come, the table stays valid: an entry of an index is a station under its own
-- key, which the hostname index has too and which is not DISCONNECTED. The screen never shows a
-- participant. And a participant that is listed does not go unnoticed: as long as there is one, the
-- interface is about to read the list, or its rendering stands before a null pointer, where the process
-- ends; or a REFRESH is queued and the tag is NEW_MESSAGE, or the interface's handler is still to be
-- called. The status that a report leaves uninitialised is not DISCONNECTED.
pub threads_lem :
    {h : ℕ} {env : Env} {faults : Faults} {junk : Junk} {x : Process} (first : ℕ)
    (cell : ℕ → WorkStation) (w : World)
    → Reach h env faults junk (start_process h first cell w) x
    → IsValid x.session.table
      × (x.session.screen ≡ [])
      × ((participant_list x.session.table ≡ [])
          ⊎ (is_due x.drawing ≡ true)
          ⊎ ((x.session.channel.state_tag ≡ new_message)
              × (pending x.session.channel.messages ≡ true))
          ⊎ (any x.notices (is_for h) ≡ true))
threads_lem {h} {env} {faults} {junk} {x} first cell w run =
    let k = Reach-IsRunning run (start_process-IsRunning h first cell w) in
    (
      k.valid,
      k.dark,
      elim k.fresh [
        | inl (inl unlisted) ↦ inl unlisted
        | inl (inr due) ↦ inr (inl due)
        | inr owed ↦ elim (Bool-cases (pending x.session.channel.messages)) [
          | inl queued ↦ inr (
              inr
                (inl (queued_tag (handles x.session.input_over) x.session.channel k.open_ queued)))
          | inr empty ↦ inr (inr (inr (ground arith)))
        ]
      ],
    )
