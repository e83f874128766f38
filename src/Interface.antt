-- ===== src/Interface.antt =====
-- The terminal interface of both modes, src/interface.cpp.
--
-- `cin` is the list of the lines that `getline` is to read; behind the last one it fails. `cerr` is
-- the list of the lines that are written to it.
pub mod Render
pub mod Trim
pub mod Commands
pub mod Refusals
pub mod Columns
pub mod Sorting
pub mod Session
pub mod Notices
pub mod Open
mod Tests
use sleep_manager.Base.{
  ℕ, zero, suc, ◌+◌, ◌-◌, ◌≡◌, Bool, true, false, ◌&&◌, List, [], ◌∷◌, ◌++◌, map, Option, none,
  some, Bytes, codes, length, take, drop, bytes_eq, leb, ◌==◌, if◌then◌else◌,
}
use sleep_manager.Text.Number.{is_space, skip_space}
use sleep_manager.Text.Stream.{is_nil}
use sleep_manager.Channel.{Mpsc, send}
use sleep_manager.Management.{ManagementService, wakeup}

pub data ManagerIfaceMsg : Type 0 where
  manager_iface_exit manager_iface_refresh : ManagerIfaceMsg

-- The `ParticipantMsg` of include/participant.h.
pub data ParticipantMsg : Type 0 where
  participant_wakeup participant_exit : ParticipantMsg

-- The second `erase` of `trim_whitespace`: from behind the last character that is no space.
unfoldable pub trim_end : Bytes → Bytes
trim_end [] = []
trim_end (c ∷ s) = let t = trim_end s in if is_space c && is_nil t then [] else c ∷ t

unfoldable pub trim_whitespace : Bytes → Bytes
unfolding trim_end
trim_whitespace input = trim_end (skip_space input)

-- `::toupper` in the C locale.
unfoldable pub toupper : ℕ → ℕ
toupper c = if leb b'a' c && leb c b'z' then c - 32 else c

-- `min(input.find(c), input.size())`.
unfoldable pub find_pos : ℕ → Bytes → ℕ
find_pos c [] = 0
find_pos c (x ∷ s) = if x == c then 0 else suc (find_pos c s)

-- The command and the argument of a line.
unfoldable pub split_line : Bytes → Bytes × Bytes
unfolding trim_whitespace toupper find_pos
split_line line =
    let input = trim_whitespace line in
    let whitespace_pos = find_pos b' ' input in
    (map toupper (take whitespace_pos input), trim_whitespace (drop whitespace_pos input))

abbrev pub unknown_command : Bytes
unknown_command = codes "Unknown command."

-- A `WAKEUP` with its argument.
run_wakeup : Bytes → ManagementService → ManagementService × List Bytes
run_wakeup argument s =
    let (s', woke_up) = wakeup argument s in
    if is_nil argument
    then (s, codes "WAKEUP expects a hostname." ∷ [])
    else if woke_up
    then (s', [])
    else (s', (codes "could not wake up " ++ argument) ∷ [])

-- One round of the loop in `handle_manager_input`: the table, and what is written to `cerr`.
unfoldable pub handle_line : Bytes → ManagementService → ManagementService × List Bytes
unfolding run_wakeup
handle_line line s =
    let (command, argument) = split_line line in
    if bytes_eq command (codes "WAKEUP") then run_wakeup argument s else (s, unknown_command ∷ [])

unfoldable handle_lines : List Bytes → ManagementService → ManagementService × List Bytes
unfolding handle_line
handle_lines [] s = (s, [])
handle_lines (line ∷ cin) s =
    let (s', errors) = handle_line line s in
    let (s'', later) = handle_lines cin s' in (s'', errors ++ later)

-- `handle_manager_input`: behind the loop the interface is told to exit.
unfoldable pub handle_manager_input :
    List Bytes
    → ManagementService
    → Mpsc ManagerIfaceMsg
    → (ManagementService × List Bytes) × Mpsc ManagerIfaceMsg
unfolding handle_lines
handle_manager_input cin s sender = (handle_lines cin s, (send manager_iface_exit sender).0)

-- `participant_interface_main`.
unfoldable pub participant_interface_main :
    List Bytes → Mpsc ParticipantMsg → Mpsc ParticipantMsg × List Bytes
unfolding trim_whitespace toupper
participant_interface_main [] channel = (channel, [])
participant_interface_main (line ∷ cin) channel =
    let rest = participant_interface_main cin channel in
    if bytes_eq (map toupper (trim_whitespace line)) (codes "EXIT")
    then ((send participant_exit channel).0, [])
    else (rest.0, unknown_command ∷ rest.1)
