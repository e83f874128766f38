-- ===== src/Interface/Open.antt =====
-- The channel of src/interface.cpp stays connected, and its event handler registered.
use sleep_manager.Base.{Bool, arith, ℕ, ◌≡◌, refl, true, false, length, drop, drop-append, inl, inr}
use sleep_manager.Channel.{send, drop_sender, open_channel, copy_handle}
use sleep_manager.Management.{ManagementService}
use sleep_manager.Management.Table.{Call, step}
use sleep_manager.Management.Invariant.{IsValid}
use sleep_manager.Management.Events.{told, station_of, step-calls}
use sleep_manager.Management.Handlers.{event_handlers-step}
use sleep_manager.Interface.{manager_iface_exit}
use sleep_manager.Interface.Session.{Session, input_ends, start_session}
use sleep_manager.Interface.Notices.{
  listens, IsOpen, send-IsOpen, drop_sender-IsOpen, listens-append,
}

-- The handles that are there: two more as long as the thread of the input runs.
abbrev pub handles : Bool → ℕ
handles true = 4
handles false = 6

pub listens-step :
    (h : ℕ) (s : ManagementService) (c : Call)
    → IsValid s
    → listens h s.event_handlers ≡ true
    → listens h (step s c).0.event_handlers ≡ true
listens-step h s c v l = elim (event_handlers-step s c v) [
  | inl same ↦ rw same l
  | inr (j, more) ↦ rw more (listens-append h j s.event_handlers l)
]

pub new_calls :
    (s : ManagementService) (c : Call)
    → drop (length s.calls) (step s c).0.calls
      ≡ told c s.event_handlers (step s c).1 (station_of s c)
new_calls s c = rw (step-calls s c) (drop-append s.calls _)

pub input_ends-IsOpen :
    (x : Session)
    → x.input_over ≡ false
    → IsOpen (handles x.input_over) x.channel
    → IsOpen 4 (input_ends x).channel
unfolding input_ends
input_ends-IsOpen x running o =
    let six : IsOpen 6 x.channel = rw running at o in
    let sent = (send manager_iface_exit x.channel).0 in
    drop_sender-IsOpen 4 (drop_sender sent) (omega arith)
      (drop_sender-IsOpen 5 sent (omega arith) (send-IsOpen 6 manager_iface_exit x.channel six))

pub start_session-IsOpen : (h : ℕ) (s : ManagementService) → IsOpen 6 (start_session h s).channel
unfolding start_session open_channel copy_handle
start_session-IsOpen h s =
    ((λ e. cc), record { queued = λ e. absurd (cc); drained = λ _. refl }, omega arith)
