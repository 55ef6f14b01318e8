-- ===== src/Propagation/Component.antt =====
-- The component search of `recompute_dirty` against the paths of the graph.
use unoc_network_simulator.Prelude.{
  ℕ, ◌+◌, ◌≡◌, refl, ◌∙◌, sym, ◌↔◌, true, some, List, [], arith, length,
}
use unoc_network_simulator.Prelude.Sets.{contains}
use unoc_network_simulator.Model.Tables.{Tables}
use unoc_network_simulator.Search.Walks.{Walk, seed, step}
use unoc_network_simulator.Search.Sweep.{sweep_ends, sweep_correct, edges}
use unoc_network_simulator.Propagation.Graph.{Edge, all_edges, has_edge, all_edges_comm}
use unoc_network_simulator.Propagation.Defs.{push, sorted_targets, sources, affected_component}
use unoc_network_simulator.Propagation.Queue.{
  push-IsPush, contains-sorted_targets, sorted_targets-nil,
}

-- The devices that edges join to a seed.
pub data Joined (es : List Edge) (seeds : List ℕ) : ℕ → Type 0 where
  self : (v : ℕ) → contains v seeds ≡ true → Joined es seeds v
  along : (u v : ℕ) → Joined es seeds u → has_edge es u v ≡ true → Joined es seeds v

module _ (es : List Edge) (seeds : List ℕ) where
  to_Joined : (v : ℕ) → Walk seeds (sorted_targets es) (λ _. true) v → Joined es seeds v
  to_Joined v (seed _ m) = self v m
  to_Joined v (step u _ w edge enter) =
      along u v (to_Joined u w) (sym (contains-sorted_targets es u v) ∙ edge)

  to_Walk : (v : ℕ) → Joined es seeds v → Walk seeds (sorted_targets es) (λ _. true) v
  to_Walk v (self _ m) = seed v m
  to_Walk v (along u _ w edge) = step u v (to_Walk u w) (contains-sorted_targets es u v ∙ edge) refl

  -- The search ends, with exactly the devices that edges join to a seed.
  pub affected_component_iff :
      (r : List ℕ) × (affected_component es seeds ≡ some r)
      × ((v : ℕ) → (contains v r ≡ true) ↔ Joined es seeds v)
  unfolding affected_component
  affected_component_iff =
      let next = sorted_targets es in
      let fuel = edges next (sources es) [] + length seeds in
      let (r, ends) =
        sweep_ends next push push-IsPush (sources es) (sorted_targets-nil es) fuel
          (record { reached = []; queue = seeds }) (omega arith) in
      (
        r,
        ends,
        λ v.
            let (sound, full) =
              sweep_correct next push push-IsPush seeds fuel seeds r (λ w. refl) ends v in
            (λ m. to_Joined v (sound m), λ c. full (to_Walk v c)),
      )

-- No edge crosses the border of the affected set, in either direction, so that no device outside of
-- it has a changed neighbour.
pub affected_component_closed :
    (max_km : ℕ) (t : Tables) (seeds r : List ℕ) (u v : ℕ)
    → affected_component (all_edges max_km t) seeds ≡ some r
    → has_edge (all_edges max_km t) u v ≡ true
    → contains u r ≡ contains v r
affected_component_closed max_km t seeds r u v e edge =
    let (s, ends, iff) = affected_component_iff (all_edges max_km t) seeds in
    let there =
      λ (x y : ℕ) (h : has_edge (all_edges max_km t) x y ≡ true) (m : contains x s ≡ true).
        (iff y).1 (along x y ((iff x).0 m) h) in
    let back : has_edge (all_edges max_km t) v u ≡ true =
      sym (all_edges_comm max_km t u v) ∙ edge in
    ground (arith, ends, there u v edge, there v u back)
