-- ===== src/System/Threads/Tests.antt =====
-- The threads of the manager at a concrete run.
use sleep_manager.Base.{◌≡◌, refl, true, false, [], ◌∷◌, ◌⊎◌, any}
use sleep_manager.WorkStation.{WorkStation, awaken}
use sleep_manager.Channel.{new_message}
use sleep_manager.Management.{
  participant_list, insert, new_station, register_event_handler, new_service,
}
use sleep_manager.Management.Invariant.{IsValid}
use sleep_manager.Socket.Udp.{no_faults}
use sleep_manager.Socket.Receiving.{text, server_receive_skips}
use sleep_manager.Interface.Notices.{pending}
use sleep_manager.System.Handshake.{discovery_request, arrived}
use sleep_manager.System.Samples.{desk_env, desk, request-IsShort}
use sleep_manager.System.Threads.{
  Process, drawing, making, inserting, responding, table_moves, made, start_process, Reach, arrives,
  receives, makes, inserts, here, next,
}
use sleep_manager.System.Threads.Screen.{is_for, is_due}
use sleep_manager.System.Threads.Shown.{threads_lem}
use sleep_manager.Samples.{junk, world}

abbrev nobody : WorkStation
nobody = record { addresses = desk.addresses; status = awaken }

-- The manager with its handler 0; a request that arrives, and the thread for it.
abbrev started : Process
started = start_process 0 0 (λ _. nobody) world

abbrev asked : Process
asked = record started {
  discovery = record { nonblocking = false; inbox = text (discovery_request desk) ∷ [] };
}

abbrev received : Process
received = record asked {
  discovery = record { nonblocking = false; inbox = [] };
  handlers = making (arrived desk) ∷ [];
}

abbrev with_station : Process
with_station = record (table_moves (made (arrived desk) received.session.table).0 received) {
  handlers = inserting (arrived desk) 0 ∷ [];
}

-- The station is in the table, and the interface's handler is still to be called.
abbrev registered : Process
registered = record (table_moves (insert 0 with_station.session.table).0 with_station) {
  handlers = responding (arrived desk) ∷ [];
}

registered-Reach : Reach 0 desk_env no_faults junk started registered
unfolding start_process table_moves new_station register_event_handler new_service
registered-Reach =
    next
      (next
        (next (next here (arrives started (text (discovery_request desk) ∷ []) [])) (
          receives asked (arrived desk) (record { nonblocking = false; inbox = [] })
            (server_receive_skips junk [] (discovery_request desk) false [] tt request-IsShort
              refl)))
        (makes received [] [] (arrived desk) refl))
      (inserts with_station [] [] (arrived desk) 0 refl)

threads_lem_example :
    IsValid registered.session.table
    × (registered.session.screen ≡ [])
    × ((participant_list registered.session.table ≡ [])
        ⊎ (is_due registered.drawing ≡ true)
        ⊎ ((registered.session.channel.state_tag ≡ new_message)
            × (pending registered.session.channel.messages ≡ true))
        ⊎ (any registered.notices (is_for 0) ≡ true))
threads_lem_example = threads_lem 0 (λ _. nobody) world registered-Reach
