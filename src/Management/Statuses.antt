-- ===== src/Management/Statuses.antt =====
-- The two calls of src/management.cpp that change the status of a station in the table.
use sleep_manager.Base.{
  ℕ, ◌≡◌, ◌≢◌, refl, true, false, Bytes, some, arith, Option-cases, inl, inr, ◌⊎◌,
}
use sleep_manager.Base.Map.{find}
use sleep_manager.WorkStation.{Status, disconnected, asleep, awaken, status_eq}
use sleep_manager.Management.{
  ManagementService, get_by_mac_address, get_by_hostname, change_status, update_sleep_status,
  wakeup,
}

-- Each of the two changes nothing, or the status of the station that it finds.
pub update_sleep_status_cases {ℓ} :
    (P : ManagementService → Type ℓ) (a : Bytes) (status : Status) (s : ManagementService)
    → P s
    → ((p : ℕ) → P (change_status p status s))
    → P (update_sleep_status a status s).0
unfolding update_sleep_status
update_sleep_status_cases P a status s same change =
    elim (Option-cases (find a s.mac_address_index)) [
      | inl e ↦ rw (e, update_sleep_status) same
      | inr (p, e) ↦ rw (e, update_sleep_status) (ground (arith, same, change p))
    ]

pub wakeup_cases {ℓ} :
    (P : ManagementService → Type ℓ) (h : Bytes) (s : ManagementService)
    → P s
    → ((p : ℕ) → P (change_status p awaken s))
    → P (wakeup h s).0
unfolding wakeup
wakeup_cases P h s same change = elim (Option-cases (find h s.hostname_index)) [
  | inl e ↦ rw (e, wakeup) same
  | inr (p, e) ↦ rw (e, wakeup) (ground (arith, same, change p))
]

-- The station `p` alone gets a status.
abbrev SetsStatus : ℕ → Status → ManagementService → ManagementService → Type 0
SetsStatus p status s t =
    ((t.cell p).status ≡ status)
    × ((t.cell p).addresses ≡ (s.cell p).addresses)
    × ((q : ℕ) → q ≢ p → t.cell q ≡ s.cell q)
    × (t.mac_address_index ≡ s.mac_address_index)
    × (t.ip_address_index ≡ s.ip_address_index)
    × (t.hostname_index ≡ s.hostname_index)

change_status-SetsStatus :
    (p : ℕ) (status : Status) (s : ManagementService)
    → SetsStatus p status s (change_status p status s)
unfolding change_status
change_status-SetsStatus p status s =
    (ground arith, ground arith, λ q h. ground arith, refl, refl, refl)

status_eq_cases :
    (a b : Status) → ((a ≡ b) × (status_eq a b ≡ true)) ⊎ ((a ≢ b) × (status_eq a b ≡ false))
unfolding status_eq
status_eq_cases disconnected disconnected = inl (refl, refl)
status_eq_cases disconnected asleep = inr (λ e. cc, refl)
status_eq_cases disconnected awaken = inr (λ e. cc, refl)
status_eq_cases asleep disconnected = inr (λ e. cc, refl)
status_eq_cases asleep asleep = inl (refl, refl)
status_eq_cases asleep awaken = inr (λ e. cc, refl)
status_eq_cases awaken disconnected = inr (λ e. cc, refl)
status_eq_cases awaken asleep = inr (λ e. cc, refl)
status_eq_cases awaken awaken = inl (refl, refl)

-- A status report returns true exactly where the MAC lookup finds a station with another status;
-- then that station alone gets the status, and the three indices stay. Otherwise nothing changes.
pub update_sleep_status_lem :
    (a : Bytes) (status : Status) (s : ManagementService)
    → let (t, updated) = update_sleep_status a status s in
      ((p : ℕ) × (get_by_mac_address a s ≡ some p)
        × ((s.cell p).status ≢ status)
        × (updated ≡ true)
        × SetsStatus p status s t)
      ⊎ (((p : ℕ) → get_by_mac_address a s ≡ some p → (s.cell p).status ≡ status)
          × (updated ≡ false)
          × (t ≡ s))
unfolding get_by_mac_address update_sleep_status
update_sleep_status_lem a status s = elim (Option-cases (find a s.mac_address_index)) [
  | inl e ↦
      inr (λ p f. absurd (ground arith), rw (e, update_sleep_status), rw (e, update_sleep_status))
  | inr (p, e) ↦ elim (status_eq_cases (s.cell p).status status) [
    | inl (same, b) ↦
        inr (λ q f. ground arith, rw (e, update_sleep_status, b), rw (e, update_sleep_status, b))
    | inr (other, b) ↦ inl (
      p,
      e,
      other,
      rw (e, update_sleep_status, b),
      rw (e, update_sleep_status, b) (change_status-SetsStatus p status s),
    )
  ]
]

-- A wakeup returns true exactly where the hostname lookup finds a station that is ASLEEP; then that
-- station alone becomes AWAKEN, and the three indices stay. Otherwise nothing changes.
pub wakeup_lem :
    (h : Bytes) (s : ManagementService)
    → let (t, wokeup) = wakeup h s in
      ((p : ℕ) × (get_by_hostname h s ≡ some p)
        × ((s.cell p).status ≡ asleep)
        × (wokeup ≡ true)
        × SetsStatus p awaken s t)
      ⊎ (((p : ℕ) → get_by_hostname h s ≡ some p → (s.cell p).status ≢ asleep)
          × (wokeup ≡ false)
          × (t ≡ s))
unfolding get_by_hostname wakeup
wakeup_lem h s = elim (Option-cases (find h s.hostname_index)) [
  | inl e ↦ inr (λ p f. absurd (ground arith), rw (e, wakeup), rw (e, wakeup))
  | inr (p, e) ↦ elim (status_eq_cases (s.cell p).status asleep) [
    | inl (same, b) ↦
        inl (p, e, same, rw (e, wakeup, b), rw (e, wakeup, b) (change_status-SetsStatus p awaken s))
    | inr (other, b) ↦ inr (λ q f g. other (ground arith), rw (e, wakeup, b), rw (e, wakeup, b))
  ]
]
