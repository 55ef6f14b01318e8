-- ===== src/Dependency/Defs.antt =====
-- `has_upstream_l3_or_anchor` of backend/services/dependency_resolver_core.py, with its cache.
use unoc_network_simulator.Prelude.{
  ℕ, Bool, true, false, ◌&&◌, ◌||◌, Option, none, some, List, [], ◌∷◌, ◌++◌, ltb, ◌==◌,
  if◌then◌else◌, is_some, then_get, length,
}
use unoc_network_simulator.Prelude.Sets.{sorted, pick}
use unoc_network_simulator.Prelude.Dicts.{Dict, get, put}
use unoc_network_simulator.Prelude.Sorting.{sort_by}
use unoc_network_simulator.Model.{is_router, Device}
use unoc_network_simulator.Model.Tables.{Tables, get_device}
use unoc_network_simulator.Upstream.{Reason, DependencyCheckResult, trace_l3_path_to_anchor}
use unoc_network_simulator.Pathfinding.Networkx.{Networkx}
use unoc_network_simulator.Pathfinding.{
  path_before, collect_devices, collect_links, build_logical_graph,
}

-- A reason of the trace, or one of the check itself.
pub data UpstreamReason : Type 0 where
  traced : Reason → UpstreamReason
  unknown device_not_in_graph no_router_path routers_no_l3 : UpstreamReason

pub record UpstreamL3Result : Type 0 where
  pub ok : Bool
  pub anchor : Option ℕ
  pub chain : List ℕ
  pub reasons : List UpstreamReason

-- The memo of a pass changes no answer, since the pass only reads.
unfoldable pub router_l3_chain : Tables → Device → DependencyCheckResult
router_l3_chain t d = elim (trace_l3_path_to_anchor t d) [
  | none ↦ record { ok = false; reason = none; chain = [] }
  | some r ↦ r
]

abbrev pub last_of : List ℕ → Option ℕ
last_of [] = none
last_of (x ∷ xs) = elim (last_of xs) [ none ↦ some x | some y ↦ some y ]

abbrev pub chain_or : List ℕ → ℕ → List ℕ
chain_or [] i = i ∷ []
chain_or (x ∷ xs) i = x ∷ xs

abbrev pub reason_or : Option Reason → UpstreamReason
reason_or none = unknown
reason_or (some r) = traced r

-- `chain[1:]`
abbrev pub rest_of : List ℕ → List ℕ
rest_of [] = []
rest_of (x ∷ xs) = xs

-- The key `(len(full_chain), tuple(full_chain))`.
abbrev pub chain_before : List ℕ → List ℕ → Bool
chain_before p q = ltb (length p) (length q) || length p == length q && path_before p q

abbrev pub failure : ℕ → UpstreamReason → UpstreamL3Result
failure i why = record { ok = false; anchor = none; chain = i ∷ []; reasons = why ∷ [] }

abbrev pub best_of : ℕ → List (List ℕ) → UpstreamL3Result
best_of i [] = failure i routers_no_l3
best_of i (p ∷ ps) = record { ok = true; anchor = last_of p; chain = p; reasons = [] }

unfoldable pub of_router : Tables → Device → UpstreamL3Result
of_router t d =
    let res = router_l3_chain t d in
    record {
      ok = res.ok;
      anchor = if res.ok then last_of res.chain else none;
      chain = chain_or res.chain d.id;
      reasons = if res.ok then [] else reason_or res.reason ∷ [];
    }

abbrev pub with_candidate : Option (List ℕ) → List (List ℕ) → List (List ℕ)
with_candidate none rest = rest
with_candidate (some p) rest = p ∷ rest

module _ (nx : Networkx) (strip_if0 : ℕ → Option ℕ) where
  -- The logical graph of the tables as they are.
  abbrev pub logical_graph : Tables → nx.Graph
  logical_graph t =
      build_logical_graph nx (collect_devices strip_if0 t.devices)
        (collect_links strip_if0 t t.links) false

  abbrev pub is_router_node : nx.Graph → ℕ → ℕ → Bool
  is_router_node g i n =
      (elim (nx.type_of g n) [ none ↦ false | some ty ↦ is_router ty ]) && nx.has_path g i n

  -- `full_chain`, if the router's row is there and its trace succeeds.
  unfoldable pub candidate_of : Tables → nx.Graph → ℕ → ℕ → Option (List ℕ)
  candidate_of t g i n = then_get (get_device t.devices n) λ r.
      if (router_l3_chain t r).ok
      then then_get (nx.shortest_path g i n) (λ p. some (p ++ rest_of (router_l3_chain t r).chain))
      else none

  abbrev pub candidates_of : Tables → nx.Graph → ℕ → List ℕ → List (List ℕ)
  candidates_of t g i [] = []
  candidates_of t g i (n ∷ ns) = with_candidate (candidate_of t g i n) (candidates_of t g i ns)

  abbrev pub among_routers : Tables → nx.Graph → ℕ → List ℕ → UpstreamL3Result
  among_routers t g i [] = failure i no_router_path
  among_routers t g i (n ∷ ns) = best_of i (sort_by chain_before (candidates_of t g i (n ∷ ns)))

  unfoldable pub of_other : Tables → Device → UpstreamL3Result
  of_other t d =
      let g = logical_graph t in
      if is_some (nx.type_of g d.id)
      then among_routers t g d.id (sorted (pick (is_router_node g d.id) (nx.nodes g)))
      else failure d.id device_not_in_graph

  -- The result on a miss.
  unfoldable pub compute_upstream : Tables → Device → UpstreamL3Result
  compute_upstream t d = if is_router d.type then of_router t d else of_other t d

  -- `_UPSTREAM_CACHE`
  pub record UpstreamCache : Type 0 where
    pub version : Option ℕ
    pub results : Dict UpstreamL3Result

  abbrev pub same_version : Option ℕ → ℕ → Bool
  same_version none v = false
  same_version (some w) v = w == v

  abbrev pub refreshed : ℕ → UpstreamCache → UpstreamCache
  refreshed v c = if same_version c.version v then c else record { version = some v; results = [] }

  -- `has_upstream_l3_or_anchor(session, device)`, at a version of the topology.
  unfoldable pub has_upstream_l3_or_anchor :
      ℕ → Tables → Device → UpstreamCache → UpstreamL3Result × UpstreamCache
  has_upstream_l3_or_anchor v t d c =
      let c' = refreshed v c in
      let result = compute_upstream t d in
      if is_router d.type then (result, c) else elim (get d.id c'.results) [
        | some r ↦ (r, c')
        | none ↦ (result, record c' { results = put d.id result c'.results })
      ]
