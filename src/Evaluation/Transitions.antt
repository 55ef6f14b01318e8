-- ===== src/Evaluation/Transitions.antt =====
-- Which transitions a recompute reports, and the rows that it leaves.
use unoc_network_simulator.Prelude.{
  ℕ, ◌≡◌, refl, ap, sym, ◌∙◌, Bool, true, not, ◌&&◌, Option, none, some, List, [], ◌∷◌, arith,
  Bool-cases, inl, inr, ◌==◌, if◌then◌else◌, any,
}
use unoc_network_simulator.Prelude.Sets.{contains}
use unoc_network_simulator.Model.{Status, up, down, degraded, blocking, Device}
use unoc_network_simulator.Model.Tables.{get_device}
use unoc_network_simulator.Evaluation.Defs.{Resolvers, evaluate_device_status}
use unoc_network_simulator.Evaluation.Recompute.{
  Baseline, status_before, same_status, transitions, transitioned, before_of, after_of, or_status,
  or_row, settled_row, bulk_update_device_statuses, recompute_devices,
}

same_status_refl : (s : Status) → same_status s s ≡ true
same_status_refl up = refl
same_status_refl down = refl
same_status_refl degraded = refl
same_status_refl blocking = refl

abbrev pub changes : Resolvers → List Device → Baseline → Device → Bool
changes r rows b d = not (same_status (before_of r b d) (after_of r rows d))

-- A device is reported exactly if its status after the recompute differs from its baseline, or from
-- its evaluation before where the baseline has no entry.
pub contains-transitioned :
    (r : Resolvers) (rows : List Device) (b : Baseline) (ds : List Device) (i : ℕ)
    → contains i (transitioned (transitions r rows b ds))
      ≡ any (λ d. d.id == i && changes r rows b d) ds
unfolding transitions
contains-transitioned r rows b [] i = refl
contains-transitioned r rows b (d ∷ ds) i =
    elim (Bool-cases (same_status (before_of r b d) (after_of r rows d))) [
      | inl t ↦ ground (arith, contains-transitioned r rows b ds i)
      | inr f ↦ ground (arith, contains-transitioned r rows b ds i)
    ]

-- The rows given are the rows of the table, and an entry of the baseline is the row's evaluation.
abbrev pub Agrees : Resolvers → List Device → Baseline → List Device → Type 0
Agrees r rows b [] = Unit {0}
Agrees r rows b (d ∷ ds) =
    (get_device rows d.id ≡ some d)
    × ((s : Status) → status_before b d.id ≡ some s → s ≡ evaluate_device_status r none d)
    × Agrees r rows b ds

or_status-eq :
    (o : Option Status) (e : Status) → ((s : Status) → o ≡ some s → s ≡ e) → or_status o e ≡ e
or_status-eq none e h = refl
or_status-eq (some s) e h = h s refl

quiet_at :
    (r : Resolvers) (rows : List Device) (b : Baseline) (d : Device)
    → get_device rows d.id ≡ some d
    → ((s : Status) → status_before b d.id ≡ some s → s ≡ evaluate_device_status r none d)
    → before_of r b d ≡ after_of r rows d
quiet_at r rows b d cur known =
    or_status-eq (status_before b d.id) (evaluate_device_status r none d) known
    ∙ sym (ap (λ o. evaluate_device_status r none (or_row o d)) cur)

-- A recompute whose baseline agrees with the evaluation of the rows reports no transition, and so
-- does a recompute without a baseline.
pub transitions-none :
    (r : Resolvers) (rows : List Device) (b : Baseline) (ds : List Device)
    → Agrees r rows b ds
    → transitions r rows b ds ≡ []
unfolding transitions
transitions-none r rows b [] h = refl
transitions-none r rows b (d ∷ ds) (cur, known, rest) =
    let same = quiet_at r rows b d cur known in
    rw same (rw (same_status_refl (after_of r rows d)) (transitions-none r rows b ds rest))

abbrev pub written : Resolvers → List ℕ → Device → Device
written r changed d = if contains d.id changed then settled_row r d else d

written-id : (r : Resolvers) (changed : List ℕ) (d : Device) → (written r changed d).id ≡ d.id
written-id r changed d = elim (Bool-cases (contains d.id changed)) [
  | inl t ↦ rw t refl
  | inr f ↦ rw f refl
]

abbrev write_to : Resolvers → List ℕ → Option Device → Option Device
write_to r changed none = none
write_to r changed (some d) = some (written r changed d)

get_device-bulk_update :
    (r : Resolvers) (rows : List Device) (changed : List ℕ) (i : ℕ)
    → get_device (bulk_update_device_statuses r rows changed) i
      ≡ write_to r changed (get_device rows i)
unfolding bulk_update_device_statuses
get_device-bulk_update r [] changed i = refl
get_device-bulk_update r (x ∷ xs) changed i =
    rw (written-id r changed x) (elim (Bool-cases (x.id == i)) [
      | inl t ↦ rw t refl
      | inr f ↦ rw f (get_device-bulk_update r xs changed i)
    ])

-- After a recompute a device that was reported has the status that it is evaluated to, and the other
-- rows are as they were.
pub recompute_devices-rows :
    (r : Resolvers) (rows : List Device) (b : Baseline) (v : Option ℕ) (ds : List Device) (i : ℕ)
    (d : Device)
    → get_device rows i ≡ some d
    → get_device (recompute_devices r rows b v ds).rows i
      ≡ some (
          if contains d.id (transitioned (recompute_devices r rows b v ds).returned)
          then settled_row r d
          else d)
unfolding recompute_devices
recompute_devices-rows r rows b v ds i d h =
    let ts = transitions r rows b ds in
    get_device-bulk_update r rows (transitioned ts) i ∙ ap (write_to r (transitioned ts)) h
