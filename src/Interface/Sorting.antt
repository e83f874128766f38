-- ===== src/Interface/Sorting.antt =====
-- When a screen is printed at all, src/interface.cpp.
use sleep_manager.Base.Sort.{sort}
use sleep_manager.Base.{
  ℕ, ◌≡◌, ◌≢◌, refl, ap, List, [], ◌∷◌, ◌++◌, append_assoc, append-nil, ◌∙◌, map, Option, none,
  some, Bytes, All, replicate, length, ◌⊎◌, inl, inr,
}
use sleep_manager.Base.Map.{Map, values}
use sleep_manager.WorkStation.{WorkStation}
use sleep_manager.Management.{ManagementService, participant_list}
use sleep_manager.Interface.{ManagerIfaceMsg, manager_iface_refresh}
use sleep_manager.Interface.Render.{
  read_all, render, rows, endl, header_row, rule_row, interface_loop, manager_interface_main,
  dereferences_null,
}

-- A table that lists nobody has a screen of two lines, and one that lists a station has none.
abbrev empty_screen : Bytes
empty_screen = endl header_row ++ (endl rule_row ++ [])

read_listed :
    (cell : ℕ → WorkStation) (m : Map ℕ)
    → ((m ≡ []) × (read_all cell (replicate (length m) none ++ map some (values m)) ≡ some []))
      ⊎ ((m ≢ []) × (read_all cell (replicate (length m) none ++ map some (values m)) ≡ none))
unfolding read_all values
read_listed cell [] = inl (refl, refl)
read_listed cell (e ∷ m) = inr ((λ e. cc), refl)

render-cases :
    (s : ManagementService)
    → ((s.mac_address_index ≡ []) × (render s ≡ some empty_screen))
      ⊎ ((s.mac_address_index ≢ []) × (render s ≡ none))
unfolding render participant_list sort rows
render-cases s = elim (read_listed s.cell s.mac_address_index) [
  | inl (e, r) ↦ inl (e, rw (render, r))
  | inr (n, r) ↦ inr (n, rw (render, r))
]

abbrev ListsNobody : ManagementService → Type 0
ListsNobody s = s.mac_address_index ≡ []

abbrev pub refresh_at : ManagementService → Option ManagerIfaceMsg × ManagementService
refresh_at s = (some manager_iface_refresh, s)

render-nobody : (s : ManagementService) → ListsNobody s → render s ≡ some empty_screen
render-nobody s h = elim (render-cases s) [ inl (_, e) ↦ e | inr (n, _) ↦ absurd (n h) ]

render-listed : (s : ManagementService) → s.mac_address_index ≢ [] → render s ≡ none
render-listed s h = elim (render-cases s) [ inl (e, _) ↦ absurd (h e) | inr (_, e) ↦ e ]

interface_loop-listed :
    (ss : List ManagementService) (s : ManagementService)
    (rest : List (Option ManagerIfaceMsg × ManagementService)) (screens : List Bytes)
    → All ListsNobody ss
    → s.mac_address_index ≢ []
    → interface_loop (map refresh_at ss ++ refresh_at s ∷ rest) screens
      ≡ dereferences_null (screens ++ map (λ t. empty_screen) ss)
unfolding interface_loop
interface_loop-listed [] s rest screens _ h =
    rw (interface_loop, render-listed s h, append-nil screens)
interface_loop-listed (t ∷ ss) s rest screens (nobody, more) h =
    rw (interface_loop, render-nobody t nobody)
      (interface_loop-listed ss s rest (screens ++ empty_screen ∷ []) more h
        ∙ ap dereferences_null
            (append_assoc screens (empty_screen ∷ []) (map (λ t. empty_screen) ss)))

-- The manager's interface comes to an end through a null pointer with the first REFRESH that finds a
-- station in the table: until then it has printed the head of the table, with nobody in it, once at
-- the start and once for each REFRESH.
pub manager_interface_main_lem :
    (start : ManagementService) (ss : List ManagementService) (s : ManagementService)
    (rest : List (Option ManagerIfaceMsg × ManagementService))
    → ListsNobody start
    → All ListsNobody ss
    → s.mac_address_index ≢ []
    → let screen = endl header_row ++ (endl rule_row ++ []) in
      manager_interface_main start (map refresh_at ss ++ refresh_at s ∷ rest)
      ≡ dereferences_null (screen ∷ map (λ t. screen) ss)
unfolding manager_interface_main
manager_interface_main_lem start ss s rest nobody more h =
    rw (manager_interface_main, render-nobody start nobody)
      (interface_loop-listed ss s rest (empty_screen ∷ []) more h)
