-- ===== src/Subscribers/Resolve.antt =====
-- `resolve_subscriber_model` of backend/services/subscriber_model.py, and the views of its result.
use unoc_network_simulator.Prelude.{
  ℕ, suc, ◌+◌, Bool, true, false, ◌&&◌, ◌||◌, Option, none, some, List, [], ◌∷◌, ◌++◌, ltb, ◌==◌,
  if◌then◌else◌, length,
}
use unoc_network_simulator.Prelude.Sets.{contains, insert, sorted}
use unoc_network_simulator.Prelude.Dicts.{Dict, get, put, get_or}
use unoc_network_simulator.Prelude.Sorting.{sort_by}
use unoc_network_simulator.Model.{DeviceType, is_ont, Device}
use unoc_network_simulator.Model.Tables.{Tables}
use unoc_network_simulator.Subscribers.Defs.{
  Domain, olt_domain, aon_domain, Reason, not_provisioned, no_direct_aon_access_port,
  no_reachable_anchor, direct_l4_cpe_access_port_1_to_1, aon_access_port_oversubscribed_1_to_1,
  Anchor, is_cpe, is_olt, is_aon_switch, trace_anchor, trace_direct_aon_anchor,
}

-- An entry of `mapping_decisions`; a key that is missing is read as `None`.
pub record SubscriberDecision : Type 0 where
  pub subscriber_id : ℕ
  pub subscriber_type : DeviceType
  pub counted : Option Bool
  pub domain : Option Domain
  pub anchor_device_id : Option ℕ
  pub anchor_interface_id : Option ℕ
  pub reason : Reason

-- An entry of `per_node`.
pub record NodeCount : Type 0 where
  pub type : DeviceType
  pub subscribers : ℕ
  pub subscriber_ids : List ℕ
  pub subscriber_domain : Option Domain

-- The variables that the two loops change.
pub record SubscriberModel : Type 0 where
  pub per_node : Dict NodeCount
  pub pon_occupancy : Dict (Dict ℕ)
  pub aon_access_occupancy : Dict (Dict ℕ)
  pub aon_port_candidates : Dict (Dict (List ℕ))
  pub decisions : List SubscriberDecision

abbrev pub empty_nodes : List Device → Dict NodeCount
empty_nodes [] = []
empty_nodes (d ∷ ds) =
    (d.id, record { type = d.type; subscribers = 0; subscriber_ids = []; subscriber_domain = none })
    ∷ empty_nodes ds

abbrev pub decide :
    Device → Option Bool → Option Domain → Option Anchor → Reason → SubscriberDecision
decide d counted domain none reason = record {
  subscriber_id = d.id;
  subscriber_type = d.type;
  counted = counted;
  domain = domain;
  anchor_device_id = none;
  anchor_interface_id = none;
  reason = reason;
}
decide d counted domain (some a) reason = record {
  subscriber_id = d.id;
  subscriber_type = d.type;
  counted = counted;
  domain = domain;
  anchor_device_id = some a.device_id;
  anchor_interface_id = some a.interface_id;
  reason = reason;
}

abbrev pub record_decision : SubscriberDecision → SubscriberModel → SubscriberModel
record_decision dec m = record m { decisions = m.decisions ++ dec ∷ [] }

-- `occupancy[anchor_id][interface_id] = v`, in a `defaultdict` of dictionaries.
abbrev pub put_port {ℓ} : {A : Type ℓ} → ℕ → ℕ → A → Dict (Dict A) → Dict (Dict A)
put_port a i v d = put a (put i v (get_or [] a d)) d

abbrev pub get_port {ℓ} : {A : Type ℓ} → A → ℕ → ℕ → Dict (Dict A) → A
get_port default a i d = get_or default i (get_or [] a d)

-- The update of a node; the key of a device is always there.
abbrev pub update_node : ℕ → (NodeCount → NodeCount) → Dict NodeCount → Dict NodeCount
update_node k f d = elim (get k d) [ none ↦ d | some n ↦ put k (f n) d ]

-- `leaf_node`: a provisioned subscriber counts itself.
abbrev pub leaf : ℕ → Domain → NodeCount → NodeCount
leaf i dom n = record n { subscribers = 1; subscriber_ids = i ∷ []; subscriber_domain = some dom }

-- `if id not in node["subscriber_ids"]: append, sort, recount, set the domain`
abbrev pub join : ℕ → Domain → NodeCount → NodeCount
join i dom n = if contains i n.subscriber_ids then n else record n {
  subscriber_ids = insert i n.subscriber_ids;
  subscribers = length (insert i n.subscriber_ids);
  subscriber_domain = some dom;
}

-- The rest of the first loop for a CPE, with the answer of `trace_direct_aon_anchor`.
unfoldable pub count_cpe : Device → Option Anchor → SubscriberModel → SubscriberModel
count_cpe d none m =
    record_decision (decide d (some false) (some aon_domain) none no_direct_aon_access_port) m
count_cpe d (some a) m =
    let waiting = get_port [] a.device_id a.interface_id m.aon_port_candidates in
    record_decision (decide d none (some aon_domain) (some a) a.reason) (record m {
      aon_port_candidates =
          put_port a.device_id a.interface_id (waiting ++ d.id ∷ []) m.aon_port_candidates;
    })

-- The rest of the first loop for an ONT, with the answer of `trace_anchor`.
unfoldable pub count_ont : Device → Option Anchor → SubscriberModel → SubscriberModel
count_ont d none m =
    record_decision (decide d (some false) (some olt_domain) none no_reachable_anchor) m
count_ont d (some a) m =
    let taken = get_port 0 a.device_id a.interface_id m.pon_occupancy in
    record_decision (decide d (some true) (some olt_domain) (some a) a.reason) (record m {
      per_node = update_node a.device_id (join d.id olt_domain) m.per_node;
      pon_occupancy = put_port a.device_id a.interface_id (suc taken) m.pon_occupancy;
    })

-- One turn of the first loop. The test for AON at its end is never reached.
unfoldable pub count_device : Tables → Device → SubscriberModel → SubscriberModel
count_device t d m =
    if is_ont d.type || is_cpe d.type
    then if d.provisioned
      then if is_ont d.type
        then count_ont d (trace_anchor olt_domain t d.id)
            (record m { per_node = update_node d.id (leaf d.id olt_domain) m.per_node })
        else count_cpe d (trace_direct_aon_anchor t d.id)
            (record m { per_node = update_node d.id (leaf d.id aon_domain) m.per_node })
      else record_decision (decide d (some false) none none not_provisioned) m
    else m

abbrev pub count_devices : Tables → List Device → SubscriberModel → SubscriberModel
count_devices t [] m = m
count_devices t (d ∷ ds) m = count_devices t ds (count_device t d m)

abbrev pub id_before : Device → Device → Bool
id_before a b = ltb a.id b.id

-- `sorted(devices, key=lambda item: item.id)`
unfoldable pub sorted_devices : List Device → List Device
sorted_devices rows = sort_by id_before rows

-- `sorted(d.items())`
unfoldable pub sorted_items {ℓ} : {A : Type ℓ} → Dict A → Dict A
sorted_items d = sort_by (λ a b. ltb a.0 b.0) d

abbrev pub is_aon : Option Domain → Bool
is_aon (some aon_domain) = true
is_aon _ = false

abbrev pub is_at : Option ℕ → ℕ → Bool
is_at none i = false
is_at (some j) i = j == i

-- The innermost loop: what becomes of one decision when a port is given to `counted_id`.
unfoldable pub settle : ℕ → ℕ → List ℕ → SubscriberDecision → SubscriberDecision
settle port winner cpes dec =
    if is_aon dec.domain && is_at dec.anchor_interface_id port
    then if dec.subscriber_id == winner
      then record dec { counted = some true; reason = direct_l4_cpe_access_port_1_to_1 }
      else if contains dec.subscriber_id cpes
      then record dec { counted = some false; reason = aon_access_port_oversubscribed_1_to_1 }
      else dec
    else dec

abbrev pub settle_all : ℕ → ℕ → List ℕ → List SubscriberDecision → List SubscriberDecision
settle_all port winner cpes [] = []
settle_all port winner cpes (dec ∷ decs) =
    settle port winner cpes dec ∷ settle_all port winner cpes decs

abbrev pub seat : ℕ → NodeCount → NodeCount
seat i n = record n {
  subscriber_ids =
      if contains i n.subscriber_ids then n.subscriber_ids else insert i n.subscriber_ids;
  subscriber_domain = some aon_domain;
}

-- The middle loop, for one port and its candidates in order; a list of candidates is never empty.
abbrev pub settle_sorted : ℕ → ℕ → List ℕ → List ℕ → SubscriberModel → SubscriberModel
settle_sorted a port cpes [] m = m
settle_sorted a port cpes (winner ∷ rest) m = record m {
  per_node = update_node a (seat winner) m.per_node;
  aon_access_occupancy = put_port a port 1 m.aon_access_occupancy;
  decisions = settle_all port winner cpes m.decisions;
}

unfoldable pub settle_port : ℕ → ℕ → List ℕ → SubscriberModel → SubscriberModel
settle_port a port cpes m = settle_sorted a port cpes (sorted cpes) m

abbrev pub settle_ports : ℕ → Dict (List ℕ) → SubscriberModel → SubscriberModel
settle_ports a [] m = m
settle_ports a ((port, cpes) ∷ ports) m = settle_ports a ports (settle_port a port cpes m)

abbrev pub recount : NodeCount → NodeCount
recount n = record n { subscribers = length n.subscriber_ids }

-- The second loop.
unfoldable pub settle_anchors : Dict (Dict (List ℕ)) → SubscriberModel → SubscriberModel
settle_anchors [] m = m
settle_anchors ((a, ports) ∷ rest) m =
    let m' = settle_ports a (sorted_items ports) m in
    settle_anchors rest (record m' { per_node = update_node a recount m'.per_node })

abbrev pub empty_model : List Device → SubscriberModel
empty_model ds = record {
  per_node = empty_nodes ds;
  pon_occupancy = [];
  aon_access_occupancy = [];
  aon_port_candidates = [];
  decisions = [];
}

unfoldable pub resolve_subscriber_model : Tables → SubscriberModel
resolve_subscriber_model t =
    let m = count_devices t (sorted_devices t.devices) (empty_model t.devices) in
    settle_anchors (sorted_items m.aon_port_candidates) m

-- `sum(node["subscribers"] for node in per_node.values() if ...)`
abbrev pub in_domain : Domain → NodeCount → Bool
in_domain olt_domain n = elim n.subscriber_domain [ some olt_domain ↦ is_olt n.type | _ ↦ false ]
in_domain aon_domain n = is_aon n.subscriber_domain && is_aon_switch n.type

unfoldable pub domain_total : Domain → Dict NodeCount → ℕ
domain_total dom [] = 0
domain_total dom ((k, n) ∷ rest) =
    (if in_domain dom n then n.subscribers else 0) + domain_total dom rest

-- `provisioned_by_type[...]`, summed over the types of a class.
abbrev pub provisioned_of : (DeviceType → Bool) → List Device → ℕ
provisioned_of q [] = 0
provisioned_of q (d ∷ ds) = (if d.provisioned && q d.type then 1 else 0) + provisioned_of q ds

-- `global["subscriber"]`
pub record GlobalCounts : Type 0 where
  pub total : ℕ
  pub provisioned_total : ℕ
  pub provisioned_olt_domain : ℕ
  pub provisioned_aon_domain : ℕ
  pub olt_domain_total : ℕ
  pub aon_domain_total : ℕ

unfoldable pub global_counts : Tables → SubscriberModel → GlobalCounts
global_counts t m =
    let o = domain_total olt_domain m.per_node in
    let a = domain_total aon_domain m.per_node in
    record {
      total = o + a;
      provisioned_total = provisioned_of is_ont t.devices + provisioned_of is_cpe t.devices;
      provisioned_olt_domain = provisioned_of is_ont t.devices;
      provisioned_aon_domain = provisioned_of is_cpe t.devices;
      olt_domain_total = o;
      aon_domain_total = a;
    }

-- `subscriber_parameters(model, device_id)`
pub record SubscriberParameters : Type 0 where
  pub total : ℕ
  pub domain : Option Domain
  pub subscriber_ids : List ℕ

unfoldable pub subscriber_parameters : SubscriberModel → ℕ → SubscriberParameters
subscriber_parameters m d = elim (get d m.per_node) [
  | none ↦ record { total = 0; domain = none; subscriber_ids = [] }
  | some n ↦ record {
    total = n.subscribers;
    domain = n.subscriber_domain;
    subscriber_ids = n.subscriber_ids;
  }
]

unfoldable pub pon_occupancy_for : SubscriberModel → ℕ → Dict ℕ
pon_occupancy_for m d = sorted_items (get_or [] d m.pon_occupancy)

unfoldable pub aon_access_occupancy_for : SubscriberModel → ℕ → Dict ℕ
aon_access_occupancy_for m d = sorted_items (get_or [] d m.aon_access_occupancy)
