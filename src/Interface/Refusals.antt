-- ===== src/Interface/Refusals.antt =====
-- What handle_manager_input of src/interface.cpp does where the table refuses to wake up anybody.
use sleep_manager.Base.{
  suc, ◌≡◌, ◌≢◌, length, refl, ap, false, List, [], ◌∷◌, ◌++◌, Bytes, Bool-cases, inl, inr,
  bytes_eq, codes,
}
use sleep_manager.Management.{ManagementService, wakeup}
use sleep_manager.Interface.{split_line, run_wakeup, unknown_command, handle_line, handle_lines}

-- Every name is refused.
abbrev pub RefusesNames : ManagementService → Type 0
RefusesNames s = (k : Bytes) → k ≢ [] → wakeup k s ≡ (s, false)

run_wakeup_refused :
    (argument : Bytes) (s : ManagementService)
    → RefusesNames s
    → (e : Bytes) × (run_wakeup argument s ≡ (s, e ∷ []))
unfolding run_wakeup
run_wakeup_refused [] s refuses = (codes "WAKEUP expects a hostname.", refl)
run_wakeup_refused (c ∷ a) s refuses =
    (codes "could not wake up " ++ c ∷ a, rw (refuses (c ∷ a) (λ e. cc)))

handle_line_refused :
    (line : Bytes) (s : ManagementService)
    → RefusesNames s
    → (e : Bytes) × (handle_line line s ≡ (s, e ∷ []))
unfolding handle_line
handle_line_refused line s refuses =
    elim (Bool-cases (bytes_eq (split_line line).0 (codes "WAKEUP"))) [
      | inl command ↦ rw command (run_wakeup_refused (split_line line).1 s refuses)
      | inr other ↦ (unknown_command, rw other)
    ]

pub handle_lines_refused :
    (cin : List Bytes) (s : ManagementService)
    → RefusesNames s
    → ((handle_lines cin s).0 ≡ s) × (length (handle_lines cin s).1 ≡ length cin)
unfolding handle_lines
handle_lines_refused [] s refuses = (refl, refl)
handle_lines_refused (line ∷ cin) s refuses =
    let (e, refused) = handle_line_refused line s refuses in
    let (same, errors) = handle_lines_refused cin s refuses in rw refused (same, ap suc errors)
