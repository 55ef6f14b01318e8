-- ===== src/Evaluation/Snapshot.antt =====
-- backend/services/status_propagation_store.py: the snapshot of the reachable devices, and what it
-- answers after the flood of a recompute has set it.
use unoc_network_simulator.Prelude.{
  ℕ, ◌≡◌, ◌↔◌, Bool, true, false, Option, none, some, List, arith, Bool-cases, inl, inr,
  if◌then◌else◌, refl,
}
use unoc_network_simulator.Prelude.Sets.{contains}
use unoc_network_simulator.Model.Tables.{Tables, device_ids}
use unoc_network_simulator.Propagation.{flood_reachable}
use unoc_network_simulator.Propagation.Reach.{Conducted, flood_reachable_iff}

-- The two module variables, `none` where they are None.
pub record Snapshot : Type 0 where
  pub reachable_up : Option (List ℕ)
  pub seen_devices : Option (List ℕ)

abbrev or_self : Option (List ℕ) → List ℕ → List ℕ
or_self none up = up
or_self (some s) up = s

unfoldable pub set_snapshot : List ℕ → Option (List ℕ) → Snapshot
set_snapshot up seen = record { reachable_up = some up; seen_devices = some (or_self seen up) }

unfoldable pub clear : Snapshot
clear = record { reachable_up = none; seen_devices = none }

abbrev seen_or_all : Option (List ℕ) → ℕ → Bool
seen_or_all none i = true
seen_or_all (some s) i = contains i s

abbrev up_in : Option (List ℕ) → Bool → ℕ → Option Bool
up_in none seen i = none
up_in (some up) seen i = if seen then some (contains i up) else none

unfoldable pub snapshot_is_up : Snapshot → ℕ → Option Bool
snapshot_is_up s i = up_in s.reachable_up (seen_or_all s.seen_devices i) i

-- What a snapshot should answer for a device: nothing if it was no row of the tables, and otherwise
-- whether an anchor reaches it over conducting devices.
abbrev pub IsAnswer : ℕ → Tables → ℕ → Option Bool → Type 0
IsAnswer max_km t v o =
    ((o ≡ none) ↔ (contains v (device_ids t.devices) ≡ false))
    × ((o ≡ some true) ↔ ((contains v (device_ids t.devices) ≡ true) × Conducted max_km t v))
    × ((o ≡ some false) ↔ ((contains v (device_ids t.devices) ≡ true) × (Conducted max_km t v → ⊥)))

-- What the flood finds, as a snapshot.
pub snapshot-IsAnswer :
    (max_km : ℕ) (t : Tables)
    → (r : List ℕ) × (flood_reachable max_km t ≡ some r)
      × ((v : ℕ)
          → IsAnswer max_km t v (snapshot_is_up (set_snapshot r (some (device_ids t.devices))) v))
unfolding snapshot_is_up set_snapshot
snapshot-IsAnswer max_km t =
    let (r, ends, iff) = flood_reachable_iff max_km t in
    (
      r,
      ends,
      λ v. elim (Bool-cases (contains v (device_ids t.devices))) [
        | inr gone ↦ rw gone (
          (λ h. refl, λ h. refl),
          (λ h. absurd (ground arith), λ (row, c). absurd (ground (arith, row))),
          (λ h. absurd (ground arith), λ (row, c). absurd (ground (arith, row))),
        )
        | inl row ↦ rw row (by_flood (contains v r) (iff v))
      ],
    )
  where
    by_flood :
        {C : Type 0} (b : Bool)
        → (b ≡ true) ↔ C
        → ((some b ≡ none) ↔ (true ≡ false))
          × ((some b ≡ some true) ↔ ((true ≡ true) × C))
          × ((some b ≡ some false) ↔ ((true ≡ true) × (C → ⊥)))
    by_flood true c = (
      (λ h. absurd (ground arith), λ h. absurd (ground arith)),
      (λ h. (refl, c.0 refl), λ h. refl),
      (λ h. absurd (ground arith), λ (h, no_way). absurd (no_way (c.0 refl))),
    )
    by_flood false c = (
      (λ h. absurd (ground arith), λ h. absurd (ground arith)),
      (λ h. absurd (ground arith), λ (h, x). absurd (ground (arith, c.1 x))),
      (λ h. (refl, λ x. absurd (ground (arith, c.1 x))), λ h. refl),
    )
