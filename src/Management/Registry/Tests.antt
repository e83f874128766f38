-- ===== src/Management/Registry/Tests.antt =====
-- The table and its list of stations at a concrete history.
use sleep_manager.Base.{◌≡◌, refl, true, false, List, [], ◌∷◌, none, some, codes, bytes_eq}
use sleep_manager.Address.{NodeAddresses}
use sleep_manager.WorkStation.{WorkStation, awaken, asleep, disconnected, status_eq}
use sleep_manager.Management.{new_service}
use sleep_manager.Management.Registry.{
  ClientCall, connects, updates, wakes, removes_ip, asks_mac, asks_hostname, done, station, replies,
  specified, specified_replies,
}
use sleep_manager.Management.Registry.Refine.{replies-refine}
use sleep_manager.Samples.{desk}

abbrev lamp : NodeAddresses
lamp = record { mac = 2 ∷ []; ip = 8 ∷ []; hostname = codes "lamp" }

-- Two stations; the second sleeps and is woken up, the first comes again and is removed.
abbrev history : List ClientCall
history =
    connects desk awaken
    ∷ connects lamp awaken
    ∷ updates (2 ∷ []) asleep
    ∷ connects desk awaken
    ∷ wakes (codes "lamp")
    ∷ removes_ip (9 ∷ [])
    ∷ asks_mac (1 ∷ [])
    ∷ asks_hostname (codes "lamp")
    ∷ []

abbrev blank : WorkStation
blank = record { addresses = desk; status = disconnected }

history_tests :
    specified_replies [] history
    ≡ done true
      ∷ done true
      ∷ done true
      ∷ done false
      ∷ done true
      ∷ done true
      ∷ station none
      ∷ station (some (record { addresses = lamp; status = awaken }))
      ∷ []
unfolding specified_replies specified status_eq bytes_eq
history_tests = refl

replies-refine_example : replies (new_service 0 (λ _. blank)) history ≡ specified_replies [] history
unfolding specified status_eq bytes_eq
replies-refine_example =
    replies-refine 0 (λ _. blank) history
      (
        (λ _. (refl, refl)),
        ((λ _. (refl, refl)), (refl, ((λ e. absurd (cc)), (tt, (tt, (tt, (tt, tt))))))),
      )
