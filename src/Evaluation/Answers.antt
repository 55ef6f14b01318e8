-- ===== src/Evaluation/Answers.antt =====
-- The snapshot in backend/services/status_propagation_store.py after a recompute.
use unoc_network_simulator.Prelude.{ℕ, ◌≡◌, refl, Bool, Option, none, some, List, inl, inr}
use unoc_network_simulator.Prelude.Sets.{sorted}
use unoc_network_simulator.Model.Tables.{Tables, device_ids}
use unoc_network_simulator.Propagation.{reachable}
use unoc_network_simulator.Evaluation.Defs.{Resolvers}
use unoc_network_simulator.Evaluation.Recompute.{Baseline, Recomputed, recompute_devices}
use unoc_network_simulator.Evaluation.Snapshot.{
  Snapshot, set_snapshot, snapshot_is_up, IsAnswer, snapshot-IsAnswer,
}
use unoc_network_simulator.Evaluation.Dirty.{
  chosen, or_own, or_none, baseline_of, recompute_devices_status, recompute_dirty,
}
use unoc_network_simulator.Evaluation.Silence.{affected_cases}

module _ (res : Resolvers) (max_km : ℕ) (t : Tables) where
  recompute_answers :
      (is : Option (List ℕ)) (b : Baseline) (v : Option ℕ)
      → (s : Snapshot) × (out : Recomputed) × (recompute_devices_status res none max_km t is b v
          ≡ some (s, out))
        × ((i : ℕ) → IsAnswer max_km t i (snapshot_is_up s i))
  unfolding recompute_devices_status reachable
  recompute_answers is b v =
      let (r, ends, answers) = snapshot-IsAnswer max_km t in
      (
        set_snapshot r (some (device_ids t.devices)),
        recompute_devices res t.devices b v (chosen t is),
        rw ends refl,
        answers,
      )

  -- Where the Go service gives no answer, a recompute of whatever dirty rows, incremental or full,
  -- ends, and of every device the snapshot that it leaves then tells: nothing if the device is no row
  -- of the tables, that it is up if an anchor reaches it over conducting devices, and that it is not
  -- up if none does.
  pub snapshot_is_up-recompute_dirty :
      (incremental : Bool) (dd dl : List ℕ) (given : Option Baseline) (v : Option ℕ)
      → (s : Snapshot) × (out : Recomputed) × (recompute_dirty res none max_km t incremental dd dl
            given v
          ≡ some (s, out))
        × ((i : ℕ) → IsAnswer max_km t i (snapshot_is_up s i))
  unfolding recompute_dirty
  snapshot_is_up-recompute_dirty incremental dd dl given v =
      elim (affected_cases res none max_km t incremental dd dl) [
        | inl all ↦
            let (s, out, ends, answers) = recompute_answers none (or_none given) v in
            (s, out, rw (all, recompute_dirty) ends, answers)
        | inr (r, found, joined) ↦
            let is = sorted r in
            let (s, out, ends, answers) =
              recompute_answers (some is) (or_own given (baseline_of res t is)) v in
            (s, out, rw (found, recompute_dirty) ends, answers)
      ]
