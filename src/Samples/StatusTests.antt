-- ===== src/Samples/StatusTests.antt =====
-- Reachability, affected components, causal chains and layer 3 traces on the sample network.
use unoc_network_simulator.Prelude.{ℕ, ◌≡◌, refl, ◌↔◌, true, false, none, some, List, [], ◌∷◌}
use unoc_network_simulator.Prelude.Sets.{contains}
use unoc_network_simulator.Links.{is_link_passable}
use unoc_network_simulator.Links.Viability.{is_link_physically_viable, admits, default_max_km}
use unoc_network_simulator.LinkRules.{classify_link}
use unoc_network_simulator.LinkRules.Media.{allowed_media_codes_for_class}
use unoc_network_simulator.Search.Flood.{flood}
use unoc_network_simulator.Search.Sweep.{sweep, edges}
use unoc_network_simulator.Propagation.{flood_reachable, all_edges, has_edge, affected_component}
use unoc_network_simulator.Propagation.Reach.{
  Conducted, flood_reachable_iff, overridden_unreachable,
}
use unoc_network_simulator.Propagation.Component.{
  Joined, affected_component_iff, affected_component_closed,
}
use unoc_network_simulator.Propagation.Chain.{Causes, done, detect_causal_chain, dependents}
use unoc_network_simulator.Propagation.Causes.{detect_causal_chain-done}
use unoc_network_simulator.Propagation.Routes.{Routed}
use unoc_network_simulator.Upstream.{DependencyCheckResult, trace_l3_path_to_anchor}
use unoc_network_simulator.Upstream.Trace.{trace_ends, trace_ok, LeadsToGateway}
use unoc_network_simulator.Samples.Network.{network, home, head}

-- The definitions that a run of the status code goes through.
unfoldable pub status_code : Unit {0}
unfolding flood_reachable flood is_link_passable is_link_physically_viable admits classify_link
    allowed_media_codes_for_class affected_component sweep edges detect_causal_chain dependents
    trace_l3_path_to_anchor all_edges
status_code = tt

abbrev pub reached : List ℕ
reached = 5 ∷ 4 ∷ 3 ∷ 2 ∷ 1 ∷ []

pub flood_runs : flood_reachable default_max_km network ≡ some reached
unfolding status_code
flood_runs = refl

flood_reachable_iff_example :
    (r : List ℕ) × (flood_reachable default_max_km network ≡ some r)
    × ((v : ℕ) → (contains v r ≡ true) ↔ Conducted default_max_km network v)
flood_reachable_iff_example = flood_reachable_iff default_max_km network

overridden_unreachable_test : contains 6 reached ≡ false
overridden_unreachable_test =
    overridden_unreachable default_max_km network 6 reached refl flood_runs

abbrev pub component : List ℕ
component = 6 ∷ 5 ∷ 4 ∷ 3 ∷ 1 ∷ 2 ∷ []

component_runs : affected_component (all_edges default_max_km network) (2 ∷ []) ≡ some component
unfolding status_code
component_runs = refl

joined_to_core : has_edge (all_edges default_max_km network) 6 2 ≡ true
unfolding status_code
joined_to_core = refl

affected_component_closed_test : contains 6 component ≡ contains 2 component
affected_component_closed_test =
    affected_component_closed default_max_km network (2 ∷ []) component 6 2 component_runs
      joined_to_core

affected_component_iff_example :
    (r : List ℕ) × (affected_component (all_edges default_max_km network) (2 ∷ []) ≡ some r)
    × ((v : ℕ) → (contains v r ≡ true) ↔ Joined (all_edges default_max_km network) (2 ∷ []) v)
affected_component_iff_example = affected_component_iff (all_edges default_max_km network) (2 ∷ [])

detect_causal_chain-done_example :
    (r : Causes) × (detect_causal_chain network (3 ∷ []) ≡ done r)
    × ((v : ℕ) → contains v (3 ∷ []) ≡ true → contains v r.visited ≡ true)
    × ((u v : ℕ)
        → contains u r.visited ≡ true
        → contains v (dependents network u) ≡ true
        → contains v r.visited ≡ true)
    × ((v : ℕ) → contains v r.visited ≡ true → Routed network (3 ∷ []) r.paths v)
detect_causal_chain-done_example = detect_causal_chain-done network (3 ∷ [])

trace_ends_example : (r : DependencyCheckResult) × (trace_l3_path_to_anchor network home ≡ some r)
trace_ends_example = trace_ends network home

abbrev traced : DependencyCheckResult
traced = record { ok = true; reason = none; chain = 3 ∷ 2 ∷ 1 ∷ [] }

trace_runs : trace_l3_path_to_anchor network head ≡ some traced
unfolding status_code
trace_runs = refl

trace_ok_example : LeadsToGateway network head traced
trace_ok_example = trace_ok network head traced trace_runs refl
