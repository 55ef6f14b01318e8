-- ===== src/Samples/EvaluationTests.antt =====
-- The evaluation of devices and a recompute on the sample network.
use unoc_network_simulator.Prelude.{
  ◌≡◌, refl, ◌↔◌, Bool, true, false, ◌&&◌, not, none, some, [], ◌∷◌, arith, any, if◌then◌else◌,
  ◌==◌,
}
use unoc_network_simulator.Prelude.Sets.{contains}
use unoc_network_simulator.Model.{Status, up, down, active, derive_role, is_ont}
use unoc_network_simulator.Model.Tables.{get_device}
use unoc_network_simulator.Evaluation.{
  Resolvers, cached, resolved, is_dark, evaluate_device_status, active_status,
}
use unoc_network_simulator.Evaluation.Verdict.{evaluate_up_iff, evaluate_device_status-cached}
use unoc_network_simulator.Evaluation.Recompute.{
  Baseline, status_before, transitions, transitioned, recompute_devices, settled_row,
}
use unoc_network_simulator.Evaluation.Transitions.{
  contains-transitioned, transitions-none, recompute_devices-rows, changes,
}
use unoc_network_simulator.Evaluation.Snapshot.{snapshot_is_up, IsAnswer}
use unoc_network_simulator.Links.Viability.{default_max_km}
use unoc_network_simulator.Prelude.{ℕ, Bool-cases, inl, inr}
use unoc_network_simulator.Model.{is_router}
use unoc_network_simulator.Evaluation.Snapshot.{Snapshot}
use unoc_network_simulator.Evaluation.Recompute.{Recomputed}
use unoc_network_simulator.Evaluation.Dirty.{recompute_dirty}
use unoc_network_simulator.Evaluation.Reports.{Agree, AllRows}
use unoc_network_simulator.Evaluation.Answers.{snapshot_is_up-recompute_dirty}
use unoc_network_simulator.Evaluation.Silence.{recompute_dirty_silent}
use unoc_network_simulator.Samples.Network.{network, home, head}

-- Resolvers that find an anchor for everything but device 5.
abbrev resolvers : Resolvers
resolvers = record {
  eval_passive_status = λ d. some up;
  has_upstream_l3_or_anchor = λ d. some (not (d.id == 5));
  has_l3_reachability_to_anchor = λ d. some true;
}

is_active : derive_role head.type ≡ active
unfolding derive_role
is_active = refl

evaluate_up_iff_test : (evaluate_device_status resolvers none head ≡ up) ↔ (
    (true ≡ true)
    × ((is_ont head.type && is_dark head.signal_status) ≡ false)
    × (resolved resolvers head ≡ some true))
evaluate_up_iff_test = evaluate_up_iff resolvers head refl is_active

coherent : (b : Bool) → cached ((3, true) ∷ []) head.id ≡ some b → resolved resolvers head ≡ some b
coherent b h = h

evaluate_device_status-cached_test :
    evaluate_device_status resolvers (some ((3, true) ∷ [])) head
    ≡ evaluate_device_status resolvers none head
evaluate_device_status-cached_test =
    evaluate_device_status-cached resolvers head ((3, true) ∷ []) coherent

-- Device 5 was up before.
abbrev baseline : Baseline
baseline = (5, up) ∷ []

contains-transitioned_test :
    contains 5 (transitioned (transitions resolvers network.devices baseline (home ∷ [])))
    ≡ any (λ d. d.id == 5 && changes resolvers network.devices baseline d) (home ∷ [])
contains-transitioned_test = contains-transitioned resolvers network.devices baseline (home ∷ []) 5

was_down :
    (s : Status)
    → status_before ((5, down) ∷ []) 5 ≡ some s
    → s ≡ evaluate_device_status resolvers none home
unfolding evaluate_device_status active_status derive_role
was_down s h = ground arith

transitions-none_test : transitions resolvers network.devices ((5, down) ∷ []) (home ∷ []) ≡ []
transitions-none_test =
    transitions-none resolvers network.devices ((5, down) ∷ []) (home ∷ []) (refl, was_down, tt)

recompute_devices-rows_test :
    get_device (recompute_devices resolvers network.devices baseline none (home ∷ [])).rows 5
    ≡ some (
        if contains 5 (
          transitioned
            (recompute_devices resolvers network.devices baseline none (home ∷ [])).returned)
        then settled_row resolvers home
        else home)
recompute_devices-rows_test =
    recompute_devices-rows resolvers network.devices baseline none (home ∷ []) 5 home refl

-- Resolvers that find an anchor for every device.
abbrev calm : Resolvers
calm = record {
  eval_passive_status = λ d. some up;
  has_upstream_l3_or_anchor = λ d. some true;
  has_l3_reachability_to_anchor = λ d. some true;
}

agree : Agree calm
agree d role = elim (Bool-cases (is_router d.type)) [ inl t ↦ rw t refl | inr f ↦ rw f refl ]

keyed : AllRows network.devices network.devices
keyed = (refl, (refl, (refl, (refl, (refl, (refl, tt))))))

recompute_dirty_silent_example :
    (s : Snapshot) × (out : Recomputed) × (recompute_dirty calm none default_max_km network true
        (2 ∷ [])
        []
        none
        none
      ≡ some (s, out))
    × (out.returned ≡ [])
recompute_dirty_silent_example =
    recompute_dirty_silent calm none default_max_km network true (2 ∷ []) [] none agree keyed

snapshot_is_up-recompute_dirty_example :
    (s : Snapshot) × (out : Recomputed) × (recompute_dirty calm none default_max_km network true
        (2 ∷ [])
        []
        (some baseline)
        none
      ≡ some (s, out))
    × ((i : ℕ) → IsAnswer default_max_km network i (snapshot_is_up s i))
snapshot_is_up-recompute_dirty_example =
    snapshot_is_up-recompute_dirty calm default_max_km network true (2 ∷ []) [] (some baseline) none
