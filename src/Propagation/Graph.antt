-- ===== src/Propagation/Graph.antt =====
-- `_ensure_graph_cache` of status_recompute.py: the undirected adjacency over the links that are
-- passable and viable, and over the container edges. The cache itself is left out: it holds the value
-- that is built here for the version and override counts of its key.
use unoc_network_simulator.Prelude.{
  ℕ, ◌≡◌, refl, Bool, false, ◌&&◌, ◌||◌, Option, none, some, List, [], ◌∷◌, ◌++◌, arith,
  if◌then◌else◌, ◌==◌,
}
use unoc_network_simulator.Prelude.Sets.{contains, add, contains-add}
use unoc_network_simulator.Model.{Device, Link}
use unoc_network_simulator.Model.Tables.{Tables, device_of_interface}
use unoc_network_simulator.Links.{is_link_passable}
use unoc_network_simulator.Links.Viability.{is_link_physically_viable}

pub record Edge : Type 0 where
  pub from : ℕ
  pub to : ℕ

-- `adjacency.setdefault(a, set()).add(b); adjacency.setdefault(b, set()).add(a)`
abbrev pub both : ℕ → ℕ → List Edge → List Edge
both a b es = record { from = a; to = b } ∷ record { from = b; to = a } ∷ es

abbrev pub join : Option ℕ → Option ℕ → List Edge → List Edge
join (some a) (some b) es = both a b es
join _ _ es = es

unfoldable pub link_edges : ℕ → Tables → List Link → List Edge
link_edges max_km t [] = []
link_edges max_km t (ln ∷ lns) =
    let rest = link_edges max_km t lns in
    if is_link_passable t ln
    then (if is_link_physically_viable max_km t ln
        then join (device_of_interface t.interfaces ln.a_interface_id)
            (device_of_interface t.interfaces ln.b_interface_id) rest
        else rest)
    else rest

unfoldable pub container_edges : List Device → List Edge
container_edges [] = []
container_edges (d ∷ ds) =
    let rest = container_edges ds in
    elim d.parent_container_id [ none ↦ rest | some parent ↦ both d.id parent rest ]

unfoldable pub all_edges : ℕ → Tables → List Edge
unfolding link_edges container_edges
all_edges max_km t = link_edges max_km t t.links ++ container_edges t.devices

-- `adjacency.get(cur, ())`, a set.
unfoldable pub targets : List Edge → ℕ → List ℕ
targets [] u = []
targets (e ∷ es) u = let rest = targets es u in if e.from == u then add e.to rest else rest

-- Whether an edge leads from `u` to `v`.
abbrev pub has_edge : List Edge → ℕ → ℕ → Bool
has_edge [] u v = false
has_edge (e ∷ es) u v = (e.from == u && e.to == v) || has_edge es u v

pub contains-targets : (es : List Edge) (u v : ℕ) → contains v (targets es u) ≡ has_edge es u v
unfolding targets
contains-targets [] u v = refl
contains-targets (e ∷ es) u v =
    ground (arith, contains-targets es u v, contains-add v e.to (targets es u))

has_edge-append :
    (es fs : List Edge) (u v : ℕ) → has_edge (es ++ fs) u v ≡ (has_edge es u v || has_edge fs u v)
has_edge-append [] fs u v = refl
has_edge-append (e ∷ es) fs u v = ground (arith, has_edge-append es fs u v)

join_comm :
    (a b : Option ℕ) (es : List Edge) (u v : ℕ)
    → has_edge es u v ≡ has_edge es v u
    → has_edge (join a b es) u v ≡ has_edge (join a b es) v u
join_comm none b es u v h = h
join_comm (some a) none es u v h = h
join_comm (some a) (some b) es u v h = ground arith

link_edges_comm :
    (max_km : ℕ) (t : Tables) (lns : List Link) (u v : ℕ)
    → has_edge (link_edges max_km t lns) u v ≡ has_edge (link_edges max_km t lns) v u
unfolding link_edges
link_edges_comm max_km t [] u v = refl
link_edges_comm max_km t (ln ∷ lns) u v = ground (
  arith,
  link_edges_comm max_km t lns u v,
  join_comm (device_of_interface t.interfaces ln.a_interface_id)
      (device_of_interface t.interfaces ln.b_interface_id) (link_edges max_km t lns) u v,
)

container_edges_comm :
    (ds : List Device) (u v : ℕ)
    → has_edge (container_edges ds) u v ≡ has_edge (container_edges ds) v u
unfolding container_edges
container_edges_comm [] u v = refl
container_edges_comm (d ∷ ds) u v = ground (arith, container_edges_comm ds u v)

-- The graph is undirected.
pub all_edges_comm :
    (max_km : ℕ) (t : Tables) (u v : ℕ)
    → has_edge (all_edges max_km t) u v ≡ has_edge (all_edges max_km t) v u
unfolding all_edges
all_edges_comm max_km t u v = ground (
  arith,
  has_edge-append (link_edges max_km t t.links) (container_edges t.devices) u v,
  has_edge-append (link_edges max_km t t.links) (container_edges t.devices) v u,
  link_edges_comm max_km t t.links u v,
  container_edges_comm t.devices u v,
)
