-- ===== src/Subscribers/Defs.antt =====
-- `trace_anchor` and `trace_direct_aon_anchor` of backend/services/subscriber_model.py. An identifier
-- is never empty, so that the tests for an empty one have no model.
use unoc_network_simulator.Prelude.{
  ℕ, ◌+◌, Bool, true, false, ◌&&◌, ◌||◌, Option, none, some, List, [], ◌∷◌, ◌++◌, ltb, ◌==◌,
  if◌then◌else◌, length, then_get,
}
use unoc_network_simulator.Prelude.Sets.{add, sorted}
use unoc_network_simulator.Prelude.Sorting.{sort_by, keys}
use unoc_network_simulator.Model.{
  DeviceType, olt, aon_switch, aon_cpe, is_ont, is_passive_inline, Device, PortRole, pon, Interface,
  Link,
}
use unoc_network_simulator.Model.Tables.{Tables, get_device, get_interface, interfaces_of}
use unoc_network_simulator.Search.Flood.First.{first}
use unoc_network_simulator.Search.Queues.{push_back}

pub data Domain : Type 0 where
  olt_domain aon_domain : Domain

pub data Reason : Type 0 where
  not_provisioned no_direct_aon_access_port no_reachable_anchor first_reachable_olt_pon : Reason
  first_reachable_aon_switch direct_l4_cpe_access_port direct_l4_cpe_access_port_1_to_1 : Reason
  aon_access_port_oversubscribed_1_to_1 : Reason

pub record Anchor : Type 0 where
  pub device_id : ℕ
  pub interface_id : ℕ
  pub reason : Reason

-- `dev_type in CPE_TYPES`, and the other types that the code names.
abbrev pub is_cpe : DeviceType → Bool
is_cpe aon_cpe = true
is_cpe _ = false

abbrev pub is_olt : DeviceType → Bool
is_olt olt = true
is_olt _ = false

abbrev pub is_aon_switch : DeviceType → Bool
is_aon_switch aon_switch = true
is_aon_switch _ = false

abbrev pub is_pon : Option PortRole → Bool
is_pon (some pon) = true
is_pon _ = false

-- The order of `(item.device_id, item.name, item.id)`.
abbrev pub before : Interface → Interface → Bool
before a b =
    ltb a.device_id b.device_id
    || a.device_id == b.device_id && (ltb a.name b.name || a.name == b.name && ltb a.id b.id)

unfoldable pub sorted_interfaces : List Interface → List Interface
sorted_interfaces rows = sort_by before rows

abbrev pub ids : List Interface → List ℕ
ids rows = keys (λ (r : Interface). r.id) rows

-- `interfaces_by_device.get(device_id, [])`
abbrev pub interfaces_by_device : Tables → ℕ → List Interface
interfaces_by_device t d = interfaces_of (sorted_interfaces t.interfaces) d

-- `link_neighbors.get(interface_id, set())`
unfoldable pub link_neighbors : List Link → ℕ → List ℕ
link_neighbors [] i = []
link_neighbors (l ∷ ls) i =
    let rest = link_neighbors ls i in
    let from_a = if l.a_interface_id == i then add l.b_interface_id rest else rest in
    if l.b_interface_id == i then add l.a_interface_id from_a else from_a

abbrev pub others : ℕ → List ℕ → List ℕ
others i [] = []
others i (x ∷ xs) = let rest = others i xs in if x == i then rest else x ∷ rest

-- `sibling_ids(iface)`
unfoldable pub sibling_ids : Tables → Interface → List ℕ
sibling_ids t iface = elim (get_device t.devices iface.device_id) [
  | none ↦ []
  | some device ↦
      if is_passive_inline device.type || (is_ont device.type || is_cpe device.type)
      then others iface.id (ids (interfaces_by_device t iface.device_id))
      else []
]

-- The row of an interface and that of its device, if both are there.
abbrev pub port_of : Tables → ℕ → Option (Interface × Device)
port_of t i =
    then_get (get_interface t.interfaces i)
      λ iface. then_get (get_device t.devices iface.device_id) λ device. some (iface, device)

-- `next_ids` of the loop; an interface without its rows has none.
unfoldable pub next_ids : Tables → ℕ → List ℕ
next_ids t i = elim (port_of t i) [
  | none ↦ []
  | some (iface, device) ↦ sorted (link_neighbors t.links i) ++ sibling_ids t iface
]

-- The two tests of the loop.
unfoldable pub anchors_at : Domain → Interface → Device → Bool
anchors_at olt_domain iface device = is_olt device.type && is_pon iface.port_role
anchors_at aon_domain iface device = is_aon_switch device.type

abbrev pub is_anchor : Domain → Tables → ℕ → Bool
is_anchor dom t i = elim (port_of t i) [
  | none ↦ false
  | some (iface, device) ↦ anchors_at dom iface device
]

abbrev pub anchor_reason : Domain → Reason
anchor_reason olt_domain = first_reachable_olt_pon
anchor_reason aon_domain = first_reachable_aon_switch

abbrev pub ends : List Link → List ℕ
ends [] = []
ends (l ∷ ls) = l.a_interface_id ∷ l.b_interface_id ∷ ends ls

-- The identifiers that may come into the queue.
abbrev pub all_ports : Tables → List ℕ
all_ports t = ends t.links ++ ids t.interfaces

abbrev pub start_ports : Tables → ℕ → List ℕ
start_ports t d = ids (interfaces_by_device t d)

abbrev pub anchor_of : Domain → Interface → Device → Anchor
anchor_of dom iface device = record {
  device_id = device.id;
  interface_id = iface.id;
  reason = anchor_reason dom;
}

-- The loop of `trace_anchor`, on fuel.
unfoldable pub first_anchor : Domain → Tables → ℕ → Option (Option ℕ)
first_anchor dom t d =
    let own = start_ports t d in
    first (next_ids t) (λ _. true) push_back (is_anchor dom t) (length (all_ports t) + length own)
      (record { reached = own; queue = own })

-- `trace_anchor(start_device, domain)`
unfoldable pub trace_anchor : Domain → Tables → ℕ → Option Anchor
trace_anchor dom t d = elim (first_anchor dom t d) [
  | none ↦ none
  | some found ↦
      then_get found
        λ i. then_get (port_of t i) λ (iface, device). some (anchor_of dom iface device)
]

-- The inner loop of `trace_direct_aon_anchor`.
abbrev pub first_switch : Tables → List ℕ → Option Anchor
first_switch t [] = none
first_switch t (peer ∷ peers) =
    let rest = first_switch t peers in
    elim (port_of t peer) [
      | none ↦ rest
      | some (iface, device) ↦
          if is_aon_switch device.type
          then some (record {
            device_id = device.id;
            interface_id = iface.id;
            reason = direct_l4_cpe_access_port;
          })
          else rest
    ]

abbrev pub direct_from : Tables → List Interface → Option Anchor
direct_from t [] = none
direct_from t (i ∷ is) =
    let rest = direct_from t is in
    elim (first_switch t (sorted (link_neighbors t.links i.id))) [ none ↦ rest | some a ↦ some a ]

-- `trace_direct_aon_anchor(start_device)`
unfoldable pub trace_direct_aon_anchor : Tables → ℕ → Option Anchor
trace_direct_aon_anchor t d = direct_from t (interfaces_by_device t d)
