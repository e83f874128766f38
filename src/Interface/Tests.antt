-- ===== src/Interface/Tests.antt =====
-- The theorems on the interface at concrete inputs, and runs of its loops.
use sleep_manager.Base.{◌≡◌, refl, [], ◌∷◌, ◌++◌, codes, if◌then◌else◌, some, bytes_eq}
use sleep_manager.Base.Sort.{sort}
use sleep_manager.Base.Map.{values}
use sleep_manager.Text.Number.{is_space, skip_space}
use sleep_manager.WorkStation.{WorkStation, awaken}
use sleep_manager.Management.{wakeup, new_service, participant_list}
use sleep_manager.Channel.{open_channel, send}
use sleep_manager.Interface.{
  manager_iface_exit, manager_iface_refresh, ParticipantMsg, participant_exit,
  participant_interface_main, unknown_command, handle_line, trim_whitespace, toupper,
}
use sleep_manager.Interface.Render.{interface_loop, exited, header_row, rule_row, endl}
use sleep_manager.Interface.Commands.{handle_line-wakeup}
use sleep_manager.Base.{map}
use sleep_manager.Interface.Render.{manager_interface_main, dereferences_null}
use sleep_manager.Interface.Sorting.{refresh_at, manager_interface_main_lem}
use sleep_manager.Samples.{empty_table}

handle_line-wakeup_example :
    handle_line
      (codes "  " ++ ((codes "WakeUp" ++ b' ' ∷ codes "my desk") ++ codes " "))
      empty_table
    ≡ (
      (wakeup (codes "my desk") empty_table).0,
      if (wakeup (codes "my desk") empty_table).1
          then []
          else (codes "could not wake up " ++ codes "my desk") ∷ [],
    )
unfolding is_space toupper
handle_line-wakeup_example =
    handle_line-wakeup (codes "  ") (codes "WakeUp") (codes "my desk") (codes " ") empty_table
      (refl, (refl, tt)) (refl, tt) refl refl refl

abbrev lamp : WorkStation
lamp = record {
  addresses = record {
    mac = 0 ∷ 27 ∷ 68 ∷ 17 ∷ 58 ∷ 183 ∷ [];
    ip = 10 ∷ 0 ∷ 0 ∷ 7 ∷ [];
    hostname = codes "lamp";
  };
  status = awaken;
}

participant_tests :
    participant_interface_main
      (codes "help" ∷ codes " exit " ∷ codes "more" ∷ [])
      (open_channel ParticipantMsg)
    ≡ ((send participant_exit (open_channel ParticipantMsg)).0, unknown_command ∷ [])
unfolding participant_interface_main trim_whitespace toupper is_space skip_space bytes_eq
participant_tests = refl

-- The only screen of an empty table.
loop_tests :
    interface_loop
      ((some manager_iface_refresh, empty_table) ∷ (some manager_iface_exit, empty_table) ∷ [])
      []
    ≡ exited ((endl header_row ++ (endl rule_row ++ [])) ∷ [])
unfolding interface_loop participant_list new_service values sort
loop_tests = refl

-- The second REFRESH finds a station.
manager_interface_main_lem_example :
    let screen = endl header_row ++ (endl rule_row ++ []) in
    let listed = record empty_table { mac_address_index = (1 ∷ [], 0) ∷ [] } in
    manager_interface_main empty_table (map refresh_at (empty_table ∷ []) ++ refresh_at listed ∷ [])
    ≡ dereferences_null (screen ∷ map (λ t. screen) (empty_table ∷ []))
unfolding new_service
manager_interface_main_lem_example =
    manager_interface_main_lem empty_table (empty_table ∷ [])
      (record empty_table { mac_address_index = (1 ∷ [], 0) ∷ [] }) [] refl (refl, tt) (λ e. cc)
