-- ===== src/Main.antt =====
-- The choice of the mode, src/main.cpp, and the farewell of the manager, src/manager.cpp.
use sleep_manager.Base.{◌≡◌, refl, true, not, List, [], ◌∷◌, Bytes, codes, bytes_eq, if◌then◌else◌}
use sleep_manager.Exception.{Result, ◌>>=◌}
use sleep_manager.Socket.{Env, World, UdpSenderSocket, broadcast_ip, exit_port}
use sleep_manager.Socket.Client.{Request, client_request, client_broadcast}
use sleep_manager.Participant.{exit_body}

-- What `main` runs; `refused` has the message on `cerr`, and the exit code is -1 then.
pub data Mode : Type 0 where
  participant_mode manager_mode : Mode
  refused : Bytes → Mode

-- The arguments with the program's name in front, which may be missing.
unfoldable main_mode : List Bytes → Mode
main_mode [] = participant_mode
main_mode (name ∷ []) = participant_mode
main_mode (name ∷ argument ∷ []) =
    if not (bytes_eq argument (codes "manager"))
    then refused (codes "if additional argument given, it must be \"maanger\"")
    else manager_mode
main_mode (name ∷ argument ∷ more ∷ arguments) =
    refused (codes "program expects at most one additional argument")

-- `sigint_handler` of the manager: the EXIT request is broadcast.
unfoldable pub sigint_handler : Env → UdpSenderSocket → World → Result (Request × World)
sigint_handler env client w = do
  client' ← client_broadcast env true client
  client_request env exit_body broadcast_ip exit_port w

main_tests :
    (main_mode (codes "sleep" ∷ []) ≡ participant_mode)
    × (main_mode (codes "sleep" ∷ codes "manager" ∷ []) ≡ manager_mode)
    × (main_mode (codes "sleep" ∷ codes "maanger" ∷ [])
        ≡ refused (codes "if additional argument given, it must be \"maanger\""))
unfolding main_mode bytes_eq
main_tests = (refl, refl, refl)
