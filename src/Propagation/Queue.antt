-- ===== src/Propagation/Queue.antt =====
-- The queue that is kept in order by `queue.sort()`, and the graph as the searches see it.
use unoc_network_simulator.Prelude.{
  ℕ, suc, ◌≡◌, refl, ◌∙◌, true, false, ◌||◌, List, [], ◌∷◌, ◌++◌, arith, ◌==◌, length,
  length-append,
}
use unoc_network_simulator.Prelude.Sets.{
  contains, contains-append, contains-sorted, length-sorted, contains-add,
}
use unoc_network_simulator.Model.{Device}
use unoc_network_simulator.Model.Tables.{device_ids, contains-device_ids}
use unoc_network_simulator.Search.Flood.{IsPush}
use unoc_network_simulator.Propagation.Graph.{Edge, targets, has_edge, contains-targets}
use unoc_network_simulator.Propagation.Defs.{push, conducts, sorted_targets, sources}

push-holds : (q : List ℕ) (v x : ℕ) → contains x (push q v) ≡ (v == x || contains x q)
unfolding push
push-holds q v x = ground (arith, contains-sorted x (q ++ v ∷ []), contains-append x q (v ∷ []))

push-grows : (q : List ℕ) (v : ℕ) → length (push q v) ≡ suc (length q)
unfolding push
push-grows q v = ground (arith, length-sorted (q ++ v ∷ []), length-append q (v ∷ []))

pub push-IsPush : IsPush push
push-IsPush = record { holds = push-holds; grows = push-grows }

pub contains-sorted_targets :
    (es : List Edge) (u v : ℕ) → contains v (sorted_targets es u) ≡ has_edge es u v
contains-sorted_targets es u v = contains-sorted v (targets es u) ∙ contains-targets es u v

-- Only a device that has a row is entered.
pub contains-conducts :
    (ds : List Device) (v : ℕ) → conducts ds v ≡ true → contains v (device_ids ds) ≡ true
unfolding conducts
contains-conducts ds v h = contains-device_ids ds v (ground arith)

targets-nil : (es : List Edge) (u : ℕ) → contains u (sources es) ≡ false → targets es u ≡ []
unfolding targets
targets-nil [] u h = refl
targets-nil (e ∷ es) u h = ground (arith, targets-nil es u, contains-add u e.from (sources es))

-- A node that is no source of an edge has no neighbours.
pub sorted_targets-nil :
    (es : List Edge) (u : ℕ) → contains u (sources es) ≡ false → sorted_targets es u ≡ []
sorted_targets-nil es u h = ground (arith, targets-nil es u)
