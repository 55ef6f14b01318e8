-- ===== src/Dependency/Access.antt =====
-- backend/services/provisioning_dependency.py: the parents of access devices, and `dependency_ok`.
use unoc_network_simulator.Prelude.{
  ℕ, ◌+◌, Bool, true, false, not, ◌&&◌, ◌||◌, Option, none, some, List, [], ◌∷◌, ◌==◌,
  if◌then◌else◌, is_some, then_get, any,
}
use unoc_network_simulator.Prelude.Sets.{sorted}
use unoc_network_simulator.Model.{
  DeviceType, backbone_gateway, olt, aon_switch, aon_cpe, is_router, is_ont, is_passive_inline,
  forced_down, Device,
}
use unoc_network_simulator.Model.Tables.{Tables, get_device}
use unoc_network_simulator.Search.Walks.{unseen}
use unoc_network_simulator.Search.Flood.Paths.{trail, start_trails}
use unoc_network_simulator.Pathfinding.Networkx.{Networkx}
use unoc_network_simulator.Pathfinding.{
  DeviceRecord, LinkRecord, collect_devices, collect_links, build_optical_graph, is_olt,
}
use unoc_network_simulator.Dependency.Defs.{
  UpstreamReason, routers_no_l3, UpstreamL3Result, compute_upstream,
}

-- `_provisioned_upstream_available(device)`
abbrev pub is_available : Option Device → Bool
is_available none = false
is_available (some d) = d.provisioned && not (forced_down d.admin_override_status)

abbrev pub is_switch : DeviceType → Bool
is_switch aon_switch = true
is_switch _ = false

abbrev pub is_cpe : DeviceType → Bool
is_cpe aon_cpe = true
is_cpe _ = false

abbrev pub is_backbone : DeviceType → Bool
is_backbone backbone_gateway = true
is_backbone _ = false

-- `allowed_nodes`
abbrev pub is_allowed : List DeviceRecord → ℕ → ℕ → Bool
is_allowed ds i x =
    any (λ d. d.id == x && (d.id == i || (is_olt d.type || is_passive_inline d.type))) ds

-- A list of candidates that is not empty.
abbrev pub has_any {ℓ} : {A : Type ℓ} → List A → Bool
has_any [] = false
has_any (x ∷ xs) = true

-- The types of the tolerant policy.
abbrev pub is_tolerant : DeviceType → Bool
is_tolerant olt = true
is_tolerant aon_switch = true
is_tolerant aon_cpe = true
is_tolerant ty = is_ont ty

-- `reasons.issubset({"routers_no_l3"})`
abbrev pub is_routers_no_l3 : UpstreamReason → Bool
is_routers_no_l3 routers_no_l3 = true
is_routers_no_l3 _ = false

abbrev pub only_no_l3 : List UpstreamReason → Bool
only_no_l3 [] = true
only_no_l3 (r ∷ rs) = is_routers_no_l3 r && only_no_l3 rs

module _ (nx : Networkx) (strip_if0 : ℕ → Option ℕ) where
  -- `_shortest_path(g, src, dst)`; the outer `none` says that the fuel ran out.
  unfoldable pub shortest_path : nx.Graph → ℕ → ℕ → Option (Option (List ℕ))
  shortest_path g src dst =
      if is_some (nx.type_of g src) && is_some (nx.type_of g dst)
      then trail (λ u. sorted (nx.neighbors g u)) dst (unseen (nx.nodes g) (src ∷ []) + 1)
          (start_trails (λ u. sorted (nx.neighbors g u)) dst src)
      else some none

  abbrev pub optical_graph : Tables → nx.Graph
  optical_graph t =
      build_optical_graph nx (collect_devices strip_if0 t.devices)
        (collect_links strip_if0 t t.links)

  abbrev pub access_graph : Tables → ℕ → nx.Graph
  access_graph t i =
      nx.subgraph (is_allowed (collect_devices strip_if0 t.devices) i) (optical_graph t)

  abbrev pub path_or_none : Option (Option (List ℕ)) → Option (List ℕ)
  path_or_none none = none
  path_or_none (some p) = p

  -- The candidate of one record; an empty path is no candidate, and there is none.
  abbrev pub olt_candidate : Tables → ℕ → DeviceRecord → Option (List ℕ)
  olt_candidate t i rec =
      if is_olt rec.type && is_available (get_device t.devices rec.id)
      then path_or_none (shortest_path (access_graph t i) i rec.id)
      else none

  abbrev pub with_path : Option (List ℕ) → List (List ℕ) → List (List ℕ)
  with_path none rest = rest
  with_path (some p) rest = p ∷ rest

  abbrev pub olt_candidates : Tables → ℕ → List DeviceRecord → List (List ℕ)
  olt_candidates t i [] = []
  olt_candidates t i (rec ∷ recs) = with_path (olt_candidate t i rec) (olt_candidates t i recs)

  -- `has_valid_provisioned_olt_path(session, device)`; the sort does not matter to the answer.
  unfoldable pub has_valid_provisioned_olt_path : Tables → Device → Bool
  has_valid_provisioned_olt_path t d =
      is_ont d.type
      && (is_some (nx.type_of (optical_graph t) d.id)
          && has_any (olt_candidates t d.id (collect_devices strip_if0 t.devices)))

  -- The other end of a link of the device.
  abbrev pub other_device : ℕ → LinkRecord → Option ℕ
  other_device i l =
      if l.a_device_id == i
      then some l.b_device_id
      else if l.b_device_id == i
      then some l.a_device_id
      else none

  abbrev pub is_open_switch : Option Device → Bool
  is_open_switch none = false
  is_open_switch (some d) = is_switch d.type && is_available (some d)

  -- `has_valid_provisioned_aon_switch_path(session, device)`
  unfoldable pub has_valid_provisioned_aon_switch_path : Tables → Device → Bool
  has_valid_provisioned_aon_switch_path t d =
      is_cpe d.type
      && any (λ l. is_open_switch (then_get (other_device d.id l) (λ o. get_device t.devices o)))
          (collect_links strip_if0 t t.links)

  -- What is left when the upstream check says no: the policy without a backbone.
  abbrev pub tolerates : Tables → Device → UpstreamL3Result → Bool
  tolerates t d res =
      not (any (λ r. is_backbone r.type) t.devices)
      && (only_no_l3 res.reasons && is_tolerant d.type)

  -- `dependency_ok(session, device)`
  unfoldable pub dependency_ok : Tables → Device → Bool
  dependency_ok t d =
      let res = compute_upstream nx strip_if0 t d in
      if is_router d.type
      then true
      else if is_ont d.type
      then has_valid_provisioned_olt_path t d
      else if is_cpe d.type
      then has_valid_provisioned_aon_switch_path t d
      else if res.ok
      then true
      else tolerates t d res
