-- ===== src/System/Threads/Settled.antt =====
-- What is under way in the manager comes to rest, or to a null pointer.
use sleep_manager.Base.{ℕ, ◌≡◌, List, [], ◌⊎◌}
use sleep_manager.Address.{Junk}
use sleep_manager.WorkStation.{WorkStation}
use sleep_manager.Channel.{Mpsc, up_to_date}
use sleep_manager.Management.{participant_list}
use sleep_manager.Socket.{Env}
use sleep_manager.Socket.Udp.{Faults}
use sleep_manager.Interface.{ManagerIfaceMsg}
use sleep_manager.Interface.Notices.{receives as receive_cases}
use sleep_manager.System.Threads.{Process, Drawing, idle, drawing, Reach}
use sleep_manager.System.Threads.Progress.{IsBroken}

module _ (h : ℕ) (env : Env) (faults : Faults) (junk : Junk) where
  -- Nobody is listed, nothing is queued, and no rendering is under way.
  abbrev IsAtRest : Process → Type 0
  IsAtRest x =
      (participant_list x.session.table ≡ [])
      × (x.session.channel.state_tag ≡ up_to_date)
      × (x.session.channel.messages ≡ [])
      × (x.drawing ≡ idle)

  -- The sockets, the requests that are handled, and the input stay as they are.
  abbrev IsBeside : Process → Process → Type 0
  IsBeside x y =
      (y.discovery ≡ x.discovery)
      × (y.exits ≡ x.exits)
      × (y.world ≡ x.world)
      × (y.handlers ≡ x.handlers)
      × (y.session.input_over ≡ x.session.input_over)

  -- The table stays as it is meanwhile.
  abbrev Settles : Process → Type 0
  Settles x =
      (c : Mpsc ManagerIfaceMsg) × (r : List WorkStation) × (d : Drawing) × let y = record x {
        session = record (x.session) { channel = c; screen = r };
        drawing = d;
      } in
        Reach h env faults junk x y × (IsAtRest y ⊎ IsBroken h env faults junk d)
