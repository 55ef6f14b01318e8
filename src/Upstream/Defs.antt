-- ===== src/Upstream/Defs.antt =====
-- `trace_l3_path_to_anchor`. The recursive `_step` is split into the hop that it chooses at a device
-- and the walk over the hops, which holds `visited` and `chain`.
use unoc_network_simulator.Prelude.{
  ℕ, zero, suc, Bool, true, false, ◌&&◌, ◌||◌, not, Option, none, some, List, [], ◌∷◌, ◌++◌,
  if◌then◌else◌, ◌==◌, ltb, length, any, select, is_some, then_get,
}
use unoc_network_simulator.Prelude.Sets.{contains}
use unoc_network_simulator.Model.{
  Device, DeviceType, core_router, edge_router, backbone_gateway, Interface, Link, Route, Net,
  AdminStatus, enabled, disabled, is_up, is_router, forced_down,
}
use unoc_network_simulator.Model.Tables.{
  Tables, get_device, get_interface, interfaces_of, peer_interface_id, endpoint_devices, device_ids,
}

pub data Reason : Type 0 where
  self_forced_down no_vrf loop forced_down_here no_interfaces no_upstream_router peer_forced_down
        no_default_route egress_admin_down no_next_hop no_eligible_route egress_missing
        peer_unresolved :
      Reason

pub record DependencyCheckResult : Type 0 where
  pub ok : Bool
  pub reason : Option Reason
  pub chain : List ℕ

abbrev pub fail : Reason → List ℕ → DependencyCheckResult
fail r chain = record { ok = false; reason = some r; chain = chain }

abbrev pub neither_down : Option (Device × Device) → Bool
neither_down none = false
neither_down (some (a, b)) =
    not (forced_down a.admin_override_status) && not (forced_down b.admin_override_status)

-- `_link_passable`: unlike `is_link_passable`, an override UP does not excuse the endpoints.
unfoldable pub link_passable : Tables → Link → Bool
link_passable t ln =
    (elim ln.admin_override_status [ some s ↦ is_up s | none ↦ is_up ln.status ])
    && neither_down (endpoint_devices t ln.a_interface_id ln.b_interface_id)

-- The passable links at an interface.
unfoldable pub links_at : Tables → ℕ → List Link
unfolding link_passable
links_at t i =
    select (link_passable t)
      (select (λ ln. ln.a_interface_id == i || ln.b_interface_id == i) t.links)

-- `sorted(links, key=id)[0]`
abbrev pub least_link : List Link → Option Link
least_link [] = none
least_link (x ∷ xs) = elim (least_link xs) [
  | none ↦ some x
  | some y ↦ if ltb y.id x.id then some y else some x
]

-- Whether the interface at the other end bears the address.
abbrev pub peer_has_ip : Tables → ℕ → ℕ → Link → Bool
peer_has_ip t i ip ln =
    any (λ a. a.interface_id == peer_interface_id ln i && a.ip == ip) t.addresses

-- The link on which the next hop answers, else the least link.
abbrev pub choose_link : Tables → ℕ → ℕ → Option Link
choose_link t i ip = elim (least_link (select (peer_has_ip t i ip) (links_at t i))) [
  | some ln ↦ some ln
  | none ↦ least_link (links_at t i)
]

-- The device behind the other end of a link.
abbrev pub peer_device : Tables → ℕ → Link → Option Device
peer_device t i ln =
    then_get (get_interface t.interfaces (peer_interface_id ln i))
      λ p. get_device t.devices p.device_id

-- `_resolve_peer_via_if`
unfoldable pub resolve_peer_via_if : Tables → ℕ → ℕ → Option Device
unfolding links_at
resolve_peer_via_if t i ip = then_get (choose_link t i ip) (peer_device t i)

-- What `_step` does next at a device.
pub data Hop : Type 0 where
  arrived : Hop
  stop : Reason → Hop
  go : Device → Hop

-- A peer that is forced down is not entered.
abbrev pub enter : Device → Hop
enter d = if forced_down d.admin_override_status then stop peer_forced_down else go d

-- The devices behind the passable links of the interfaces, in the order of the loops.
unfoldable pub peers_on : Tables → ℕ → List Link → List Device
peers_on t i [] = []
peers_on t i (ln ∷ lns) =
    let rest = peers_on t i lns in elim (peer_device t i ln) [ none ↦ rest | some d ↦ d ∷ rest ]

unfoldable pub upstream_candidates : Tables → List Interface → List Device
unfolding links_at peers_on
upstream_candidates t [] = []
upstream_candidates t (i ∷ is) = peers_on t i.id (links_at t i.id) ++ upstream_candidates t is

-- The stable sort by priority puts the first router first, else the first candidate.
abbrev pub preferred : List Device → Option Device
preferred [] = none
preferred (d ∷ ds) = if is_router d.type then some d else elim (preferred ds) [
  | none ↦ some d
  | some e ↦ if is_router e.type then some e else some d
]

unfoldable pub access_hop : Tables → Device → Hop
unfolding upstream_candidates
access_hop t dev = elim (interfaces_of t.interfaces dev.id) [
  | [] ↦ stop no_interfaces
  | i ∷ is ↦ elim (preferred (upstream_candidates t (i ∷ is))) [
    | none ↦ stop no_upstream_router
    | some d ↦ enter d
  ]
]

abbrev same_vrf : Option ℕ → ℕ → Bool
same_vrf none v = false
same_vrf (some w) v = v == w

-- `prefix == "0.0.0.0/0"`
abbrev is_default : Option Net → Bool
is_default none = false
is_default (some n) = n.address == 0 && n.prefixlen == 0

unfoldable pub default_routes : Tables → Device → List Route
default_routes t dev = select (λ r. same_vrf dev.vrf_id r.vrf_id && is_default r.prefix) t.routes

pub record Candidate : Type 0 where
  pub admin_distance : ℕ
  pub metric : ℕ
  pub id : ℕ
  pub egress : ℕ
  pub next_hop : ℕ

-- The loop over the routes either ends early with a reason, or collects the candidates.
pub data Collected : Type 0 where
  early : Reason → Collected
  all : List Candidate → Collected

abbrev is_enabled : AdminStatus → Bool
is_enabled enabled = true
is_enabled disabled = false

abbrev and_also : Candidate → Collected → Collected
and_also c (early r) = early r
and_also c (all cs) = all (c ∷ cs)

-- One route whose egress interface is on this device; `rest` is what the later routes give.
abbrev consider : Interface → Route → Collected → Collected
consider eg r rest =
    if is_enabled eg.admin_status
    then elim r.next_hop [
      | none ↦ early no_next_hop
      | some hop ↦
          and_also
            (record {
              admin_distance = r.admin_distance;
              metric = r.metric;
              id = r.id;
              egress = eg.id;
              next_hop = hop;
            })
            rest
    ]
    else early egress_admin_down

-- The egress interface of a route, if the route has one on this device.
abbrev egress_of : Tables → Device → Route → Option Interface
egress_of t dev r = then_get r.interface_id λ i.
    then_get (get_interface t.interfaces i) λ eg. if eg.device_id == dev.id then some eg else none

unfoldable pub collect_routes : Tables → Device → List Route → Collected
collect_routes t dev [] = all []
collect_routes t dev (r ∷ rs) =
    let rest = collect_routes t dev rs in
    elim (egress_of t dev r) [ none ↦ rest | some eg ↦ consider eg r rest ]

-- Order by administrative distance, metric and id.
abbrev pub before : Candidate → Candidate → Bool
before x y =
    if ltb x.admin_distance y.admin_distance
    then true
    else if ltb y.admin_distance x.admin_distance
    then false
    else if ltb x.metric y.metric
    then true
    else if ltb y.metric x.metric
    then false
    else ltb x.id y.id

-- `sorted(cand, …)[0]`
abbrev pub best : List Candidate → Option Candidate
best [] = none
best (x ∷ xs) = elim (best xs) [ none ↦ some x | some y ↦ if before y x then some y else some x ]

abbrev pub forward : Tables → Option Candidate → Hop
forward t none = stop no_eligible_route
forward t (some c) = elim (get_interface t.interfaces c.egress) [
  | none ↦ stop egress_missing
  | some eg ↦ elim (resolve_peer_via_if t eg.id c.next_hop) [
    | none ↦ stop peer_unresolved
    | some d ↦ enter d
  ]
]

abbrev pub forward_all : Tables → Collected → Hop
forward_all t (early why) = stop why
forward_all t (all cs) = forward t (best cs)

unfoldable pub router_hop : Tables → Device → Hop
unfolding default_routes collect_routes resolve_peer_via_if
router_hop t dev = elim (default_routes t dev) [
  | [] ↦ stop no_default_route
  | r ∷ rs ↦ forward_all t (collect_routes t dev (r ∷ rs))
]

-- `{CORE_ROUTER, EDGE_ROUTER}`
abbrev pub is_l3_router : DeviceType → Bool
is_l3_router core_router = true
is_l3_router edge_router = true
is_l3_router _ = false

abbrev pub is_gateway : DeviceType → Bool
is_gateway backbone_gateway = true
is_gateway _ = false

unfoldable pub hop_at : Tables → Device → Hop
unfolding access_hop router_hop
hop_at t dev =
    if forced_down dev.admin_override_status
    then stop forced_down_here
    else if is_gateway dev.type
    then arrived
    else if is_l3_router dev.type && not (is_some dev.vrf_id)
    then stop no_vrf
    else if not (is_l3_router dev.type)
    then access_hop t dev
    else router_hop t dev

-- The recursion of `_step`; `none` says that the fuel ran out.
unfoldable pub walk : Tables → ℕ → List ℕ → List ℕ → Device → Option DependencyCheckResult
unfolding hop_at
walk t zero visited chain dev = none
walk t (suc fuel) visited chain dev =
    if contains dev.id visited then some (fail loop chain) else elim (hop_at t dev) [
      | arrived ↦ some (record { ok = true; reason = none; chain = chain })
      | stop why ↦ some (fail why chain)
      | go peer ↦ walk t fuel (dev.id ∷ visited) (chain ++ peer.id ∷ []) peer
    ]

unfoldable pub trace_l3_path_to_anchor : Tables → Device → Option DependencyCheckResult
unfolding walk
trace_l3_path_to_anchor t dev =
    if forced_down dev.admin_override_status
    then some (fail self_forced_down (dev.id ∷ []))
    else if is_l3_router dev.type && not (is_some dev.vrf_id)
    then some (fail no_vrf (dev.id ∷ []))
    else walk t (suc (suc (length (device_ids t.devices)))) [] (dev.id ∷ []) dev
