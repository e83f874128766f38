-- ===== src/Monitoring/Tests.antt =====
-- The theorems on monitoring at concrete inputs.
use sleep_manager.Base.{◌≡◌, ◌≢◌, Bool, false, [], ◌∷◌, codes, map, ◌⊎◌}
use sleep_manager.Exception.{Exception}
use sleep_manager.WorkStation.{awaken}
use sleep_manager.Management.{ManagementService, update_sleep_status}
use sleep_manager.Socket.{World}
use sleep_manager.Socket.Udp.{returns, raises, no_faults}
use sleep_manager.Socket.Client.{Request}
use sleep_manager.Socket.Receiving.{text}
use sleep_manager.Samples.{junk, hello, hello-IsShort, empty_table, env, world}
use sleep_manager.Monitoring.{polled, dereferences_null, monitoring_round, report}
use sleep_manager.Monitoring.Round.{report_lem}
use sleep_manager.Monitoring.Exits.{monitoring_round_lem}

abbrev one_station : ManagementService
one_station = record empty_table { mac_address_index = (1 ∷ [], 0) ∷ [] }

abbrev status_request : Request
status_request = record { sent_packet = codes "x"; dest_ip_address = 9 ∷ []; dest_port = 10030 }

monitoring_round_lem_example :
    let round =
      monitoring_round env no_faults junk awaken []
        (record { nonblocking = false; inbox = map text (hello ∷ []) })
        empty_table
        world in
    ((empty_table.mac_address_index ≢ []) × (round ≡ dereferences_null))
    ⊎ ((empty_table.mac_address_index ≡ [])
        × ((c : Bool) × (round
              ≡ polled (empty_table, world, record { nonblocking = c; inbox = [] }))))
monitoring_round_lem_example =
    monitoring_round_lem env junk awaken [] (hello ∷ []) false empty_table world (hello-IsShort, tt)

report_lem_example :
    ((e : Exception) × (report env no_faults junk awaken
          (1 ∷ [], status_request)
          []
          one_station
          world
        ≡ raises e))
    ⊎ ((w' : World) × (report env no_faults junk awaken
            (1 ∷ [], status_request)
            []
            one_station
            world
          ≡ returns ((update_sleep_status (1 ∷ []) awaken one_station).0, w')))
report_lem_example =
    report_lem env no_faults junk awaken (1 ∷ []) status_request [] one_station world
