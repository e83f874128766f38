-- ===== src/Interface/Session.antt =====
-- What `manager_interface_main` of src/interface.cpp shares with the other threads of the manager: the
-- table, with its event handler, and the channel of the messages.
use sleep_manager.Base.{ℕ, Bool, true, false, List, [], ◌==◌, if◌then◌else◌}
use sleep_manager.WorkStation.{WorkStation}
use sleep_manager.Channel.{Mpsc, send, open_channel, copy_handle, drop_sender}
use sleep_manager.Management.{ManagementService, register_event_handler}
use sleep_manager.Interface.{ManagerIfaceMsg, manager_iface_exit, manager_iface_refresh}

pub record Session : Type 0 where
  pub table : ManagementService
  pub channel : Mpsc ManagerIfaceMsg
  pub screen : List WorkStation
  pub input_over : Bool

-- The handler that `manager_interface_main` registers, `h`, sends a message; another one does not.
unfoldable pub on_event : ℕ → ℕ → Mpsc ManagerIfaceMsg → Mpsc ManagerIfaceMsg
on_event h j channel = if j == h then (send manager_iface_refresh channel).0 else channel

-- The end of the input: the thread's copy of the sender goes away, and so does its parameter.
unfoldable pub input_ends : Session → Session
input_ends x = record x {
  channel = drop_sender (drop_sender (send manager_iface_exit x.channel).0);
  input_over = true;
}

-- The session before the first rendering: the handler is registered, and the channel is fresh, with
-- the handles `channel.sender`, `channel.receiver`, `sender`, `receiver`, and the two of the input's thread.
unfoldable pub start_session : ℕ → ManagementService → Session
start_session h s =
    let t = register_event_handler h s in
    record {
      table = t;
      channel =
          copy_handle (copy_handle (copy_handle (copy_handle (open_channel ManagerIfaceMsg))));
      screen = [];
      input_over = false;
    }
