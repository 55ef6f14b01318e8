-- ===== src/Propagation/Defs.antt =====
-- The seeds and the search of `recompute_devices_status`, and the search of `recompute_dirty`.
use unoc_network_simulator.Prelude.{
  ℕ, ◌+◌, Bool, true, false, ◌&&◌, not, Option, none, some, List, [], ◌∷◌, ◌++◌, if◌then◌else◌, ltb,
  length, any,
}
use unoc_network_simulator.Prelude.Sets.{add, union, sorted}
use unoc_network_simulator.Model.{
  Device, DeviceType, DeviceRole, active, always_online, backbone_gateway, Status, derive_role,
  is_up,
}
use unoc_network_simulator.Model.Tables.{
  Tables, get_device, get_link, device_ids, device_of_interface,
}
use unoc_network_simulator.Search.Flood.{flood}
use unoc_network_simulator.Search.Sweep.{sweep, edges}
use unoc_network_simulator.Propagation.Graph.{Edge, all_edges, targets}

abbrev pub is_backbone : DeviceType → Bool
is_backbone backbone_gateway = true
is_backbone _ = false

-- `admin_override_status is None or == UP`
abbrev pub not_overridden : Option Status → Bool
not_overridden none = true
not_overridden (some s) = is_up s

abbrev pub role_is_always_online : DeviceRole → Bool
role_is_always_online always_online = true
role_is_always_online _ = false

-- Whether a device is an anchor; `backbone` says that some gateway exists.
abbrev pub is_anchor : Bool → Device → Bool
is_anchor backbone d =
    role_is_always_online (derive_role d.type)
    && ((if backbone then is_backbone d.type else true) && not_overridden d.admin_override_status)

abbrev pub has_backbone_anchor : List Device → Bool
has_backbone_anchor ds = any (λ d. is_backbone d.type) ds

abbrev pub collect_anchors : Bool → List Device → List ℕ
collect_anchors backbone [] = []
collect_anchors backbone (d ∷ ds) =
    let rest = collect_anchors backbone ds in if is_anchor backbone d then add d.id rest else rest

unfoldable pub anchors : List Device → List ℕ
unfolding derive_role
anchors ds = collect_anchors (has_backbone_anchor ds) ds

abbrev role_conducts : DeviceRole → Bool → Bool
role_conducts active provisioned = provisioned
role_conducts _ provisioned = true

unfoldable pub is_up_candidate : Device → Bool
unfolding derive_role
is_up_candidate d =
    if not_overridden d.admin_override_status
    then role_conducts (derive_role d.type) d.provisioned
    else false

-- A neighbour is entered if its row is there and it is a candidate.
unfoldable pub conducts : List Device → ℕ → Bool
unfolding is_up_candidate
conducts ds i = elim (get_device ds i) [ none ↦ false | some d ↦ is_up_candidate d ]

-- The last element of a queue is above `v`.
abbrev last_above : List ℕ → ℕ → Bool
last_above [] v = false
last_above (x ∷ []) v = ltb v x
last_above (_ ∷ y ∷ ys) v = last_above (y ∷ ys) v

-- `queue.append(v)`, then `queue.sort()` if the last two are out of order.
unfoldable pub push : List ℕ → ℕ → List ℕ
push q v = let q' = q ++ v ∷ [] in if last_above q v then sorted q' else q'

abbrev pub sorted_targets : List Edge → ℕ → List ℕ
sorted_targets es u = sorted (targets es u)

-- The Python breadth-first flood from the anchors.
unfoldable pub flood_reachable : ℕ → Tables → Option (List ℕ)
unfolding anchors conducts push targets all_edges
flood_reachable max_km t =
    let seeds = anchors t.devices in
    flood (sorted_targets (all_edges max_km t)) (conducts t.devices) push
      (length (device_ids t.devices) + length seeds)
      (record { reached = seeds; queue = sorted seeds })

-- The reachable set of a recompute: the Go service's answer where it gave one, else the flood.
unfoldable pub reachable : Option (List ℕ) → ℕ → Tables → Option (List ℕ)
unfolding flood_reachable
reachable (some answer) max_km t = some answer
reachable none max_km t = flood_reachable max_km t

-- The sources of edges, for the fuel of the search over components.
abbrev pub sources : List Edge → List ℕ
sources [] = []
sources (e ∷ es) = add e.from (sources es)

-- `recompute_dirty`: the search for the affected component, from sorted seeds.
unfoldable pub affected_component : List Edge → List ℕ → Option (List ℕ)
unfolding push targets
affected_component es seeds =
    sweep (sorted_targets es) push (edges (sorted_targets es) (sources es) [] + length seeds)
      (record { reached = []; queue = seeds })

abbrev add_some : Option ℕ → List ℕ → List ℕ
add_some none ids = ids
add_some (some i) ids = add i ids

-- The seeds: the dirty devices and the end devices of the dirty links.
unfoldable pub dirty_seeds : Tables → List ℕ → List ℕ → List ℕ
dirty_seeds t dirty_devices [] = union [] dirty_devices
dirty_seeds t dirty_devices (l ∷ ls) =
    let rest = dirty_seeds t dirty_devices ls in
    elim (get_link t.links l) [
      | none ↦ rest
      | some ln ↦
          add_some (device_of_interface t.interfaces ln.a_interface_id)
            (add_some (device_of_interface t.interfaces ln.b_interface_id) rest)
    ]

-- The affected devices of an incremental recompute; `none` says that every device is recomputed.
unfoldable pub affected : ℕ → Tables → Bool → List ℕ → List ℕ → Option (Option (List ℕ))
unfolding dirty_seeds affected_component all_edges
affected max_km t incremental dirty_devices dirty_links =
    let seeds = sorted (dirty_seeds t dirty_devices dirty_links) in
    if not incremental
    then none
    else elim seeds [ [] ↦ none | x ∷ xs ↦ some (affected_component (all_edges max_km t) (x ∷ xs)) ]
