-- ===== src/Pathfinding/Defs.antt =====
-- `_collect_devices_links` of backend/services/dependency_resolver_core.py, and the graph builders and
-- the store of backend/services/pathfinding.py. Edges carry no attributes here, since the modelled
-- code reads none.
use unoc_network_simulator.Prelude.{
  ℕ, suc, ◌+◌, Bool, true, false, not, ◌&&◌, ◌||◌, Option, none, some, List, [], ◌∷◌, ◌==◌,
  if◌then◌else◌, is_some, then_get, find,
}
use unoc_network_simulator.Prelude.Sets.{contains, add, sorted}
use unoc_network_simulator.Prelude.Sorting.{sort_by}
use unoc_network_simulator.Model.{
  DeviceType, backbone_gateway, core_router, edge_router, aon_switch, aon_cpe, olt, is_ont,
  is_passive_inline, is_up, forced_down, LinkType, fiber, p2p, Device, Link,
}
use unoc_network_simulator.Model.Tables.{Tables, device_of_interface}
use unoc_network_simulator.Search.Sweep.{edges}
use unoc_network_simulator.Pathfinding.Networkx.{Networkx}
use unoc_network_simulator.Pathfinding.Shortest.{
  entry_before, search_heap, start_state, first_target,
}

pub record DeviceRecord : Type 0 where
  pub id : ℕ
  pub type : DeviceType

-- A raw kind, or one of the classes that the builders name.
pub data LinkKind : Type 0 where
  raw : LinkType → LinkKind
  optical_segment optical_termination routed_p2p access_edge access_optical_term : LinkKind

pub record LinkRecord : Type 0 where
  pub id : ℕ
  pub a_device_id : ℕ
  pub b_device_id : ℕ
  pub kind : LinkKind

-- The inline test of `_collect_devices_links`.
abbrev pub is_passable : Link → Bool
is_passable l = elim l.admin_override_status [ none ↦ is_up l.status | some s ↦ is_up s ]

abbrev pub or_legacy : Option ℕ → Option ℕ → Option ℕ
or_legacy none o = o
or_legacy (some d) o = some d

module _ (strip_if0 : ℕ → Option ℕ) where
  -- The device of an endpoint; the name of a missing interface is cut before `-if0`.
  abbrev pub endpoint : Tables → ℕ → Option ℕ
  endpoint t i = or_legacy (device_of_interface t.interfaces i) (strip_if0 i)

  abbrev pub allowed_ids : List Device → List ℕ
  allowed_ids [] = []
  allowed_ids (d ∷ ds) =
      let rest = allowed_ids ds in if forced_down d.admin_override_status then rest else d.id ∷ rest

  abbrev pub collect_devices : List Device → List DeviceRecord
  collect_devices [] = []
  collect_devices (d ∷ ds) =
      let rest = collect_devices ds in
      if forced_down d.admin_override_status
      then rest
      else record { id = d.id; type = d.type } ∷ rest

  abbrev pub link_record : Tables → Link → Option LinkRecord
  link_record t l =
      if is_passable l
      then then_get (endpoint t l.a_interface_id) (λ a. then_get (endpoint t l.b_interface_id) λ b.
        if contains a (allowed_ids t.devices) && contains b (allowed_ids t.devices)
        then some (record { id = l.id; a_device_id = a; b_device_id = b; kind = raw l.kind })
        else none)
      else none

  unfoldable pub collect_links : Tables → List Link → List LinkRecord
  collect_links t [] = []
  collect_links t (l ∷ ls) =
      let rest = collect_links t ls in elim (link_record t l) [ none ↦ rest | some r ↦ r ∷ rest ]

-- OPTICAL_ACTIVE, OPTICAL_TERMINATORS and PASSIVE_INLINE together.
abbrev pub is_optical_type : DeviceType → Bool
is_optical_type olt = true
is_optical_type ty = is_ont ty || is_passive_inline ty

-- LOGICAL_ACTIVE
abbrev pub is_logical_type : DeviceType → Bool
is_logical_type backbone_gateway = true
is_logical_type core_router = true
is_logical_type edge_router = true
is_logical_type olt = true
is_logical_type aon_switch = true
is_logical_type aon_cpe = true
is_logical_type ty = is_ont ty

-- OPTICAL_EDGE_CLASSES and LOGICAL_EDGE_CLASSES
abbrev pub is_optical_class : LinkKind → Bool
is_optical_class optical_segment = true
is_optical_class optical_termination = true
is_optical_class _ = false

abbrev pub is_logical_class : LinkKind → Bool
is_logical_class routed_p2p = true
is_logical_class access_edge = true
is_logical_class access_optical_term = true
is_logical_class _ = false

abbrev pub is_fiber : LinkKind → Bool
is_fiber (raw fiber) = true
is_fiber _ = false

abbrev pub is_p2p : LinkKind → Bool
is_p2p (raw p2p) = true
is_p2p _ = false

abbrev pub is_olt : DeviceType → Bool
is_olt olt = true
is_olt _ = false

abbrev pub is_core : DeviceType → Bool
is_core core_router = true
is_core _ = false

-- The test of a FIBER link's two types, of the optical graph.
abbrev pub fits_optical : DeviceType → DeviceType → Bool
fits_optical a b =
    (is_olt a || is_olt b) && (is_ont a || is_ont b) || is_optical_type a && is_optical_type b

abbrev pub both {ℓ} : {A : Type ℓ} → (A → A → Bool) → Option A → Option A → Bool
both f none o = false
both f (some a) none = false
both f (some a) (some b) = f a b

module _ (nx : Networkx) where
  abbrev pub add_nodes : (DeviceType → Bool) → List DeviceRecord → nx.Graph → nx.Graph
  add_nodes q [] g = g
  add_nodes q (d ∷ ds) g = add_nodes q ds (if q d.type then nx.add_node d.id d.type g else g)

  -- One turn of the loop over the links, by the test of a link's kind and its two types.
  abbrev pub add_link :
      (LinkKind → DeviceType → DeviceType → Bool) → LinkRecord → nx.Graph → nx.Graph
  add_link q l g =
      if both (q l.kind) (nx.type_of g l.a_device_id) (nx.type_of g l.b_device_id)
      then nx.add_edge l.a_device_id l.b_device_id g
      else g

  abbrev pub add_links :
      (LinkKind → DeviceType → DeviceType → Bool) → List LinkRecord → nx.Graph → nx.Graph
  add_links q [] g = g
  add_links q (l ∷ ls) g = add_links q ls (add_link q l g)

  abbrev pub optical_test : LinkKind → DeviceType → DeviceType → Bool
  optical_test k a b = is_optical_class k || is_fiber k && fits_optical a b

  unfoldable pub build_optical_graph : List DeviceRecord → List LinkRecord → nx.Graph
  build_optical_graph ds ls = add_links optical_test ls (add_nodes is_optical_type ds nx.empty)

  abbrev pub logical_test : LinkKind → DeviceType → DeviceType → Bool
  logical_test k a b =
      is_logical_class k
      || (is_fiber k && (is_logical_type a && is_logical_type b) || not (is_fiber k) && is_p2p k)

  -- `optical_nodes`
  abbrev pub optical_nodes : List DeviceRecord → List DeviceRecord
  optical_nodes [] = []
  optical_nodes (d ∷ ds) =
      let rest = optical_nodes ds in if is_optical_type d.type then d ∷ rest else rest

  abbrev pub type_in : List DeviceRecord → ℕ → Option DeviceType
  type_in ds i = then_get (find (λ d. d.id == i) ds) λ d. some d.type

  -- `opt_adj.get(node, ())`: links of any kind between optical nodes.
  unfoldable pub optical_neighbors : List DeviceRecord → List LinkRecord → ℕ → List ℕ
  optical_neighbors ds [] i = []
  optical_neighbors ds (l ∷ ls) i =
      let rest = optical_neighbors ds ls i in
      if is_some (type_in (optical_nodes ds) l.a_device_id)
        && is_some (type_in (optical_nodes ds) l.b_device_id)
      then (let from_a = if l.a_device_id == i then add l.b_device_id rest else rest in
          if l.b_device_id == i then add l.a_device_id from_a else from_a)
      else rest

  abbrev pub is_olt_id : List DeviceRecord → ℕ → Bool
  is_olt_id ds i = elim (type_in (optical_nodes ds) i) [ none ↦ false | some ty ↦ is_olt ty ]

  abbrev pub record_ends : List LinkRecord → List ℕ
  record_ends [] = []
  record_ends (l ∷ ls) = l.a_device_id ∷ l.b_device_id ∷ record_ends ls

  abbrev pub sorted_neighbors : List DeviceRecord → List LinkRecord → ℕ → List ℕ
  sorted_neighbors ds ls i = sorted (optical_neighbors ds ls i)

  -- `_shortest_optical_path(src, olt_ids)`, of a source that is an optical node.
  unfoldable pub shortest_optical_path : List DeviceRecord → List LinkRecord → ℕ → Option (List ℕ)
  shortest_optical_path ds ls src =
      then_get
        (search_heap src (sorted_neighbors ds ls) (is_olt_id ds)
          (edges (sorted_neighbors ds ls) (record_ends ls) [] + 1) (start_state src))
        (λ s. first_target (sort_by entry_before s.targets))

  abbrev pub last_of : List ℕ → Option ℕ
  last_of [] = none
  last_of (x ∷ xs) = elim (last_of xs) [ none ↦ some x | some y ↦ some y ]

  -- One ONT of the collapse: the synthetic edge to the OLT at the end of its path.
  abbrev pub collapse_to : ℕ → Option ℕ → nx.Graph → nx.Graph
  collapse_to i none g = g
  collapse_to i (some o) g =
      if is_some (nx.type_of g i) && (is_some (nx.type_of g o) && not (nx.has_edge g i o))
      then nx.add_edge i o g
      else g

  abbrev pub long_enough : List ℕ → Option ℕ
  long_enough [] = none
  long_enough (x ∷ []) = none
  long_enough (x ∷ y ∷ rest) = last_of (x ∷ y ∷ rest)

  abbrev pub collapse_end : List DeviceRecord → List LinkRecord → ℕ → Option ℕ
  collapse_end ds ls i = then_get (shortest_optical_path ds ls i) long_enough

  abbrev pub collapse :
      List DeviceRecord → List LinkRecord → List DeviceRecord → nx.Graph → nx.Graph
  collapse ds ls [] g = g
  collapse ds ls (d ∷ rest) g =
      collapse ds ls rest
        (if is_ont d.type then collapse_to d.id (collapse_end ds ls d.id) g else g)

  -- `core_ids[0]`
  abbrev pub core_ids : nx.Graph → List ℕ → List ℕ
  core_ids g [] = []
  core_ids g (n ∷ ns) =
      let rest = core_ids g ns in
      if (elim (nx.type_of g n) [ none ↦ false | some ty ↦ is_core ty ]) then n ∷ rest else rest

  abbrev pub is_relaxed_type : DeviceType → Bool
  is_relaxed_type olt = true
  is_relaxed_type aon_switch = true
  is_relaxed_type _ = false

  abbrev pub relax_to : ℕ → List ℕ → nx.Graph → nx.Graph
  relax_to core [] g = g
  relax_to core (n ∷ ns) g = relax_to core ns (
      if (elim (nx.type_of g n) [ none ↦ false | some ty ↦ is_relaxed_type ty ])
        && not (nx.has_edge g n core)
      then nx.add_edge n core g
      else g)

  abbrev pub relax_edges : List ℕ → nx.Graph → nx.Graph
  relax_edges [] g = g
  relax_edges (core ∷ rest) g = relax_to core (nx.nodes g) g

  unfoldable pub build_logical_graph : List DeviceRecord → List LinkRecord → Bool → nx.Graph
  build_logical_graph ds ls relaxed =
      let g = add_links logical_test ls (add_nodes is_logical_type ds nx.empty) in
      let g' = collapse ds ls (optical_nodes ds) g in
      if relaxed then relax_edges (sorted (core_ids g' (nx.nodes g'))) g' else g'

  -- `PathfindingStore`
  pub record PathfindingStore : Type 0 where
    pub topo_version : ℕ
    pub optical_graph : Option nx.Graph
    pub logical_graph : Option nx.Graph
    pub relaxed_flag : Option Bool

  unfoldable pub bump_version : PathfindingStore → PathfindingStore
  bump_version s = record {
    topo_version = suc s.topo_version;
    optical_graph = none;
    logical_graph = none;
    relaxed_flag = none;
  }

  abbrev pub keep_or {ℓ} : {A : Type ℓ} → Option A → A → A
  keep_or none a = a
  keep_or (some b) a = b

  unfoldable pub get_optical_graph :
      List DeviceRecord → List LinkRecord → PathfindingStore → nx.Graph × PathfindingStore
  get_optical_graph ds ls s =
      let g = keep_or s.optical_graph (build_optical_graph ds ls) in
      (g, record s { optical_graph = some g })

  abbrev pub same_flag : Option Bool → Bool → Bool
  same_flag (some true) true = true
  same_flag (some false) false = true
  same_flag _ _ = false

  unfoldable pub get_logical_graph :
      List DeviceRecord → List LinkRecord → Bool → PathfindingStore → nx.Graph × PathfindingStore
  get_logical_graph ds ls relaxed s =
      let fresh = build_logical_graph ds ls relaxed in
      let g = if same_flag s.relaxed_flag relaxed then keep_or s.logical_graph fresh else fresh in
      (g, record s { logical_graph = some g; relaxed_flag = some relaxed })
