-- ===== src/Evaluation/Silence.antt =====
-- `recompute_dirty` as a whole: its end, and the devices that it reports.
use unoc_network_simulator.Prelude.{
  ℕ, ◌≡◌, refl, sym, ap, subst, Bool, true, false, Option, none, some, List, [], ◌∷◌, arith,
  List-cases, inl, inr, ◌⊎◌,
}
use unoc_network_simulator.Prelude.Sets.{contains, sorted}
use unoc_network_simulator.Model.{Device}
use unoc_network_simulator.Model.Tables.{Tables, device_ids}
use unoc_network_simulator.Propagation.{all_edges, dirty_seeds, affected, reachable}
use unoc_network_simulator.Propagation.Component.{Joined, affected_component_iff}
use unoc_network_simulator.Propagation.Reach.{flood_reachable_iff}
use unoc_network_simulator.Evaluation.Defs.{Resolvers}
use unoc_network_simulator.Evaluation.Recompute.{Baseline, Recomputed, recompute_devices}
use unoc_network_simulator.Evaluation.Transitions.{Agrees, transitions-none}
use unoc_network_simulator.Evaluation.Snapshot.{Snapshot, set_snapshot}
use unoc_network_simulator.Evaluation.Dirty.{
  rows_of, chosen, baseline_of, recompute_devices_status, recompute_dirty,
}
use unoc_network_simulator.Evaluation.Reports.{Agree, AllRows, transitions_of_own_baseline}

module _ (res : Resolvers) (go : Option (List ℕ)) (max_km : ℕ) (t : Tables) where
  reachable_ends : (g : Option (List ℕ)) → (r : List ℕ) × (reachable g max_km t ≡ some r)
  unfolding reachable
  reachable_ends (some answer) = (answer, refl)
  reachable_ends none = let (r, ends, iff) = flood_reachable_iff max_km t in (r, ends)

  recompute_ends :
      (is : Option (List ℕ)) (b : Baseline) (v : Option ℕ)
      → (s : Snapshot) × (recompute_devices_status res go max_km t is b v
          ≡ some (s, recompute_devices res t.devices b v (chosen t is)))
  unfolding recompute_devices_status
  recompute_ends is b v =
      let (r, e) = reachable_ends go in (set_snapshot r (some (device_ids t.devices)), rw e refl)

  Agrees-empty : (ds : List Device) → AllRows t.devices ds → Agrees res t.devices [] ds
  Agrees-empty [] h = tt
  Agrees-empty (d ∷ ds) (cur, h) = (cur, λ s e. absurd (ground arith), Agrees-empty ds h)

  pub affected_cases :
      (incremental : Bool) (dd dl : List ℕ)
      → (affected max_km t incremental dd dl ≡ none)
        ⊎ ((r : List ℕ) × (affected max_km t incremental dd dl ≡ some (some r))
            × ((i : ℕ)
                → contains i r ≡ true
                → Joined (all_edges max_km t) (sorted (dirty_seeds t dd dl)) i))
  unfolding affected
  affected_cases false dd dl = inl refl
  affected_cases true dd dl = elim (List-cases (sorted (dirty_seeds t dd dl))) [
    | inl e ↦ inl (rw e refl)
    | inr (x, xs, e) ↦
        let (r, ends, iff) = affected_component_iff (all_edges max_km t) (x ∷ xs) in
        inr (
          r,
          rw e (ap (λ o. some o) ends),
          λ i m. subst (λ (l : List ℕ). Joined (all_edges max_km t) l i) (sym e) ((iff i).0 m),
        )
  ]

  -- Where the resolvers agree and no identifier stands twice, a recompute of dirty rows for which the
  -- caller gives no baseline ends, and reports no transition.
  pub recompute_dirty_silent :
      (incremental : Bool) (dd dl : List ℕ) (v : Option ℕ)
      → Agree res
      → AllRows t.devices t.devices
      → (s : Snapshot) × (out : Recomputed) × (recompute_dirty res go max_km t incremental dd dl
            none v
          ≡ some (s, out))
        × (out.returned ≡ [])
  unfolding recompute_dirty recompute_devices
  recompute_dirty_silent incremental dd dl v agree keyed = elim (affected_cases incremental dd dl) [
    | inl all ↦
        let (s, e) = recompute_ends none [] v in
        (
          s,
          recompute_devices res t.devices [] v t.devices,
          rw (all, recompute_dirty) e,
          transitions-none res t.devices [] t.devices (Agrees-empty t.devices keyed),
        )
    | inr (r, found, joined) ↦
        let is = sorted r in
        let (s, e) = recompute_ends (some is) (baseline_of res t is) v in
        (
          s,
          recompute_devices res t.devices (baseline_of res t is) v (rows_of t.devices is),
          rw (found, recompute_dirty) e,
          transitions_of_own_baseline res agree t is,
        )
  ]
