-- ===== src/Management/Removal.antt =====
-- The three removals of src/management.cpp.
use sleep_manager.Base.{
  ℕ, ◌≡◌, ◌≢◌, ◌∙◌, true, false, Bytes, none, some, arith, Option-cases, inl, inr, ◌⊎◌,
  bytes_eq_iff, bytes_eq_refl,
}
use sleep_manager.Base.Map.{find, remove, find-remove}
use sleep_manager.WorkStation.{disconnected}
use sleep_manager.Management.{
  ManagementService, on_remove, remove_by_mac_address, remove_by_ip_address, remove_by_hostname,
  get_by_mac_address, get_by_ip_address, get_by_hostname,
}
use sleep_manager.Management.Invariant.{IsValid}

-- The table without the station `p`, which is told that it is off.
unfoldable pub without : ℕ → ManagementService → ManagementService
unfolding on_remove
without p s =
    let a = (s.cell p).addresses in
    on_remove p (record s {
      mac_address_index = remove a.mac s.mac_address_index;
      ip_address_index = remove a.ip s.ip_address_index;
      hostname_index = remove a.hostname s.hostname_index;
    })

-- On a valid table the three removals do the same to the station that they find, whichever address
-- finds it; if they find none they change nothing. The result tells which.
pub remove_by_mac_address_cases :
    (a : Bytes) (s : ManagementService)
    → IsValid s
    → ((find a s.mac_address_index ≡ none) × (remove_by_mac_address a s ≡ (s, false)))
      ⊎ ((p : ℕ) × (find a s.mac_address_index ≡ some p)
          × (remove_by_mac_address a s ≡ (without p s, true)))
unfolding remove_by_mac_address without
remove_by_mac_address_cases a s v = elim (Option-cases (find a s.mac_address_index)) [
  | inl e ↦ inl (e, rw (e, remove_by_mac_address))
  | inr (p, e) ↦ inr (p, e, rw (e, remove_by_mac_address, v.mac_key a p e))
]

pub remove_by_ip_address_cases :
    (a : Bytes) (s : ManagementService)
    → IsValid s
    → ((find a s.ip_address_index ≡ none) × (remove_by_ip_address a s ≡ (s, false)))
      ⊎ ((p : ℕ) × (find a s.ip_address_index ≡ some p)
          × (remove_by_ip_address a s ≡ (without p s, true)))
unfolding remove_by_ip_address without
remove_by_ip_address_cases a s v = elim (Option-cases (find a s.ip_address_index)) [
  | inl e ↦ inl (e, rw (e, remove_by_ip_address))
  | inr (p, e) ↦ inr (p, e, rw (e, remove_by_ip_address, v.ip_key a p e))
]

pub remove_by_hostname_cases :
    (h : Bytes) (s : ManagementService)
    → IsValid s
    → ((find h s.hostname_index ≡ none) × (remove_by_hostname h s ≡ (s, false)))
      ⊎ ((p : ℕ) × (find h s.hostname_index ≡ some p)
          × (remove_by_hostname h s ≡ (without p s, true)))
unfolding remove_by_hostname without
remove_by_hostname_cases h s v = elim (Option-cases (find h s.hostname_index)) [
  | inl e ↦ inl (e, rw (e, remove_by_hostname))
  | inr (p, e) ↦ inr (p, e, rw (e, remove_by_hostname, v.host_key h p e))
]

module _ (q : ℕ) (s : ManagementService) (v : IsValid s)
    (there : find (s.cell q).addresses.hostname s.hostname_index ≡ some q) where
  pub without-IsValid : IsValid (without q s)
  unfolding without
  without-IsValid = record {
    host_key = λ k p e.
        ground
          (arith, find-remove (s.cell q).addresses.hostname k s.hostname_index, v.host_key k p);
    host_made = λ k p e.
        ground
          (arith, find-remove (s.cell q).addresses.hostname k s.hostname_index, v.host_made k p);
    host_on = λ k p e. ground (
      arith,
      find-remove (s.cell q).addresses.hostname k s.hostname_index,
      v.host_on k p,
      v.host_key k p,
      bytes_eq_iff (s.cell q).addresses.hostname k,
    );
    mac_key = λ k p e.
        ground (arith, find-remove (s.cell q).addresses.mac k s.mac_address_index, v.mac_key k p);
    mac_host = λ k p e. ground (
      arith,
      there,
      find-remove (s.cell q).addresses.mac k s.mac_address_index,
      v.mac_key k p,
      v.mac_host k p,
      find-remove (s.cell q).addresses.hostname (s.cell p).addresses.hostname s.hostname_index,
      bytes_eq_iff (s.cell q).addresses.mac k,
      bytes_eq_iff (s.cell q).addresses.hostname (s.cell p).addresses.hostname,
    );
    ip_key = λ k p e.
        ground (arith, find-remove (s.cell q).addresses.ip k s.ip_address_index, v.ip_key k p);
    ip_host = λ k p e. ground (
      arith,
      there,
      find-remove (s.cell q).addresses.ip k s.ip_address_index,
      v.ip_key k p,
      v.ip_host k p,
      find-remove (s.cell q).addresses.hostname (s.cell p).addresses.hostname s.hostname_index,
      bytes_eq_iff (s.cell q).addresses.ip k,
      bytes_eq_iff (s.cell q).addresses.hostname (s.cell p).addresses.hostname,
    );
  }

module _ (q : ℕ) (s : ManagementService) where
  pub without_off : ((without q s).cell q).status ≡ disconnected
  unfolding without
  without_off = ground arith

  pub without_hostname : find (s.cell q).addresses.hostname (without q s).hostname_index ≡ none
  unfolding without
  without_hostname = ground (
    arith,
    find-remove (s.cell q).addresses.hostname (s.cell q).addresses.hostname s.hostname_index,
    bytes_eq_refl (s.cell q).addresses.hostname,
  )

  pub without_mac : find (s.cell q).addresses.mac (without q s).mac_address_index ≡ none
  unfolding without
  without_mac = ground (
    arith,
    find-remove (s.cell q).addresses.mac (s.cell q).addresses.mac s.mac_address_index,
    bytes_eq_refl (s.cell q).addresses.mac,
  )

  pub without_ip : find (s.cell q).addresses.ip (without q s).ip_address_index ≡ none
  unfolding without
  without_ip = ground (
    arith,
    find-remove (s.cell q).addresses.ip (s.cell q).addresses.ip s.ip_address_index,
    bytes_eq_refl (s.cell q).addresses.ip,
  )

  without_others :
      (k : Bytes)
      → k ≢ (s.cell q).addresses.hostname
      → find k (without q s).hostname_index ≡ find k s.hostname_index
  unfolding without
  without_others k other = ground (
    arith,
    find-remove (s.cell q).addresses.hostname k s.hostname_index,
    bytes_eq_iff (s.cell q).addresses.hostname k,
  )

-- On a valid table it makes no difference which address of a station a removal names: where the MAC
-- index or the IP index finds the station `p`, removal by that address and removal by the hostname
-- of `p` give the same table and the same result.
pub remove_by_address-hostname :
    (s : ManagementService) (a : Bytes) (p : ℕ)
    → IsValid s
    → (get_by_mac_address a s ≡ some p
        → remove_by_mac_address a s ≡ remove_by_hostname (s.cell p).addresses.hostname s)
      × (get_by_ip_address a s ≡ some p
          → remove_by_ip_address a s ≡ remove_by_hostname (s.cell p).addresses.hostname s)
unfolding get_by_mac_address get_by_ip_address
remove_by_address-hostname s a p v = (
  λ e. ground (
    arith,
    remove_by_mac_address_cases a s v,
    remove_by_hostname_cases (s.cell p).addresses.hostname s v,
    v.mac_host a p e,
  ),
  λ e. ground (
    arith,
    remove_by_ip_address_cases a s v,
    remove_by_hostname_cases (s.cell p).addresses.hostname s v,
    v.ip_host a p e,
  ),
)

-- On a valid table a removal by hostname that finds no station returns false and changes nothing.
-- One that finds the station `p` returns true; then `p` is DISCONNECTED, the lookups of its three
-- addresses find nothing, and the lookup of every other hostname finds what it found before.
pub remove_by_hostname_lem :
    (s : ManagementService) (h : Bytes)
    → IsValid s
    → let (t, removed) = remove_by_hostname h s in
      ((get_by_hostname h s ≡ none) × (removed ≡ false) × (t ≡ s))
      ⊎ ((p : ℕ) × (get_by_hostname h s ≡ some p)
          × (removed ≡ true)
          × ((t.cell p).status ≡ disconnected)
          × (get_by_hostname h t ≡ none)
          × (get_by_mac_address (s.cell p).addresses.mac t ≡ none)
          × (get_by_ip_address (s.cell p).addresses.ip t ≡ none)
          × ((k : Bytes) → k ≢ h → get_by_hostname k t ≡ get_by_hostname k s))
unfolding get_by_mac_address get_by_ip_address get_by_hostname
remove_by_hostname_lem s h v = elim (remove_by_hostname_cases h s v) [
  | inl (e, r) ↦ inl (e, rw r, rw r)
  | inr (p, e, r) ↦
      let key = v.host_key h p e in
      inr (
        p,
        e,
        rw r,
        rw r (without_off p s),
        rw (r, ← key) (without_hostname p s),
        rw r (without_mac p s),
        rw r (without_ip p s),
        λ k other. rw r (without_others p s k (λ same. other (same ∙ key))),
      )
]
