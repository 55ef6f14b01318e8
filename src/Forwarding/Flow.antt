-- ===== src/Forwarding/Flow.antt =====
-- backend/services/forwarding_service.py: the next hop of a flow at a router and at a switch, and the
-- walk of `resolve_flow_path`. An empty identifier is the number 0.
use unoc_network_simulator.Prelude.{
  ℕ, zero, suc, Bool, true, false, not, ◌||◌, Option, none, some, List, [], ◌∷◌, ◌++◌, ◌==◌,
  if◌then◌else◌, find, select, then_get, is_some,
}
use unoc_network_simulator.Prelude.Sets.{contains}
use unoc_network_simulator.Model.{
  DeviceType, aon_switch, Device, Interface, Link, Route, Neighbor, is_router, is_up,
}
use unoc_network_simulator.Model.Tables.{
  Tables, get_device, get_interface, interfaces_of, peer_interface_id,
}
use unoc_network_simulator.Forwarding.Bridge.{
  BridgeDomain, MacAddressEntry, Bridges, Frame, FrameAction, no_bridge_domain, forward_to,
  flood_to, broadcast, process_frame,
}
use unoc_network_simulator.Forwarding.Decision.{
  Destination, missing, malformed, address, Decision, invalid_packet, no_route_found,
  egress_interface_unknown, next_hop_unresolved, forward_by, best_match, of_vrf, route_of,
  resolve_next_hop_mac, get_forwarding_decision,
}

pub record Flow : Type 0 where
  pub source_ip : ℕ
  pub destination_ip : Destination
  pub current_device_id : ℕ
  pub current_interface_id : Option ℕ

-- The reasons of a drop; the reason of the layer 3 decision is passed on.
pub data DropReason : Type 0 where
  device_not_found no_egress_interface l2_no_egress l2_ambiguous_flood : DropReason
  l2_no_bridge_domain unsupported_device_type ttl_exceeded unknown : DropReason
  l3_reason : Decision → DropReason

pub data MetaAction : Type 0 where
  l3_drop l3_route l2_forward l2_flood_single l2_drop error : MetaAction

-- What `_step` returns: a drop with its reason, or an egress interface and `deliver_here`.
pub data Verdict : Type 0 where
  drop : DropReason → MetaAction → Verdict
  forward : ℕ → Bool → MetaAction → Verdict

abbrev pub l3_refuse : Decision → Verdict
l3_refuse d = drop (l3_reason d) l3_drop

abbrev pub ids : List Interface → List ℕ
ids [] = []
ids (r ∷ rs) = r.id ∷ ids rs

abbrev pub or_empty : Option ℕ → ℕ
or_empty none = 0
or_empty (some i) = i

-- `dev.vrf_id or -1`, where no route has the VRF -1.
abbrev pub routes_of_vrf : List Route → Option ℕ → List Route
routes_of_vrf rows none = []
routes_of_vrf rows (some zero) = []
routes_of_vrf rows (some (suc v)) = of_vrf rows (suc v)

-- The routes of the device's VRF that leave by an interface of the device.
unfoldable pub local_routes : Tables → Device → List Route
local_routes t dev =
    select (λ r. contains (or_empty r.interface_id) (ids (interfaces_of t.interfaces dev.id)))
      (routes_of_vrf t.routes dev.vrf_id)

abbrev to_neighbor : ℕ → Option ℕ → Verdict
to_neighbor i none = l3_refuse next_hop_unresolved
to_neighbor i (some mac) = forward i false l3_route

abbrev pub by_local : List Neighbor → Option ℕ → Option ℕ → Verdict
by_local rows none nh = l3_refuse egress_interface_unknown
by_local rows (some i) none = forward i true l3_route
by_local rows (some i) (some ip) = to_neighbor i (resolve_next_hop_mac rows i ip)

abbrev pub by_local_route : List Neighbor → Option Route → Verdict
by_local_route rows none = l3_refuse no_route_found
by_local_route rows (some r) = by_local rows r.interface_id r.next_hop

-- The search of the device's own routes, when the decision leads to a foreign interface.
unfoldable pub fall_back : Tables → Device → Destination → Verdict
fall_back t dev missing = l3_refuse invalid_packet
fall_back t dev malformed = l3_refuse invalid_packet
fall_back t dev (address a) =
    by_local_route t.neighbors (route_of (best_match a (local_routes t dev) none))

-- `iface and iface.device_id == dev.id`
abbrev pub owns : Tables → Device → ℕ → Bool
owns t dev i =
    is_some (
      then_get (get_interface t.interfaces i) (λ r. if r.device_id == dev.id then some r else none))

abbrev pub by_decision : Tables → Device → Destination → Decision → Verdict
by_decision t dev dst (forward_by zero mac) = drop no_egress_interface l3_drop
by_decision t dev dst (forward_by (suc i) mac) =
    if owns t dev (suc i) then forward (suc i) (not (is_some mac)) l3_route else fall_back t dev dst
by_decision t dev dst d = l3_refuse d

unfoldable pub router_step : Tables → Device → Flow → Verdict
router_step t dev f =
    by_decision t dev f.destination_ip
      (get_forwarding_decision t f.current_device_id f.destination_ip)

abbrev pub by_frame_action : FrameAction → Verdict
by_frame_action no_bridge_domain = drop l2_no_bridge_domain l2_drop
by_frame_action (forward_to zero) = drop l2_no_egress l2_drop
by_frame_action (forward_to (suc i)) = forward (suc i) false l2_forward
by_frame_action (flood_to (i ∷ [])) = forward i false l2_flood_single
by_frame_action (flood_to ps) = drop l2_ambiguous_flood l2_drop

-- The frame with placeholder addresses, 00:00:00:00:00:00 and ff:ff:ff:ff:ff:ff.
abbrev pub placeholder : Frame
placeholder = record { source_mac = 0; destination_mac = broadcast }

abbrev is_aon_switch : DeviceType → Bool
is_aon_switch aon_switch = true
is_aon_switch _ = false

-- The tables that a walk reads; the MAC table, which the switches on the way change, is apart.
pub record Fabric : Type 0 where
  pub tables : Tables
  pub domains : List BridgeDomain

abbrev pub bridges : Fabric → Bridges
bridges w = record { domains = w.domains; ports = w.tables.interfaces }

abbrev pub frame_step : FrameAction × List MacAddressEntry → Verdict × List MacAddressEntry
frame_step (a, rows) = (by_frame_action a, rows)

abbrev pub step_at :
    Fabric → List MacAddressEntry → Flow → Option Device → Verdict × List MacAddressEntry
step_at w rows f none = (drop device_not_found error, rows)
step_at w rows f (some dev) =
    if is_router dev.type
    then (router_step w.tables dev f, rows)
    else if is_aon_switch dev.type
    then frame_step
        (process_frame (bridges w) rows dev.id (or_empty f.current_interface_id) placeholder)
    else (drop unsupported_device_type error, rows)

-- `_step`
unfoldable pub step : Fabric → List MacAddressEntry → Flow → Verdict × List MacAddressEntry
step w rows f = step_at w rows f (get_device w.tables.devices f.current_device_id)

-- The far end of a link.
pub record Peer : Type 0 where
  pub interface_id : ℕ
  pub device_id : ℕ
  pub link_id : ℕ

abbrev peer_at : Tables → ℕ → Link → Option Peer
peer_at t i ln =
    if is_up ln.status
    then then_get (get_interface t.interfaces (peer_interface_id ln i))
        (λ r. some record { interface_id = r.id; device_id = r.device_id; link_id = ln.id })
    else none

-- The first link of the table that has the interface decides.
unfoldable pub find_peer_interface : Tables → ℕ → Option Peer
find_peer_interface t i =
    then_get (find (λ ln. ln.a_interface_id == i || ln.b_interface_id == i) t.links) (peer_at t i)

-- What one turn of the loop does: it drops, it delivers, or it goes on to the far end of a link.
pub data Move : Type 0 where
  dropped : DropReason → MetaAction → Move
  delivered : ℕ → MetaAction → Move
  crosses : ℕ → MetaAction → Peer → Move

abbrev pub over_link : ℕ → MetaAction → Option Peer → Move
over_link i m none = delivered i m
over_link i m (some p) =
    if p.interface_id == 0 || p.device_id == 0 then delivered i m else crosses i m p

abbrev pub move_of : Tables → Verdict → Move
move_of t (drop r m) = dropped r m
move_of t (forward zero here m) = dropped unknown m
move_of t (forward (suc i) here m) =
    if here then delivered (suc i) m else over_link (suc i) m (find_peer_interface t (suc i))

-- One entry of `hop_metadata`.
pub record HopMetadata : Type 0 where
  pub device_id : ℕ
  pub device_type : Option DeviceType
  pub action : MetaAction
  pub egress_interface_id : Option ℕ
  pub deliver_here : Bool
  pub reason : Option DropReason
  pub link_id_to_next : Option ℕ

pub record FlowPath : Type 0 where
  pub is_delivered : Bool
  pub reason : Option DropReason
  pub hops : List Flow
  pub hop_metadata : List HopMetadata
  pub final_device_id : ℕ
  pub final_interface_id : Option ℕ

abbrev pub at_port : Flow → ℕ → Flow
at_port f i = record {
  source_ip = f.source_ip;
  destination_ip = f.destination_ip;
  current_device_id = f.current_device_id;
  current_interface_id = some i;
}

abbrev pub next_flow : Flow → Peer → Flow
next_flow f p = record {
  source_ip = f.source_ip;
  destination_ip = f.destination_ip;
  current_device_id = p.device_id;
  current_interface_id = some p.interface_id;
}

abbrev pub metadata :
    Fabric → Flow → MetaAction → Option ℕ → Bool → Option DropReason → Option ℕ → HopMetadata
metadata w f m i here r l = record {
  device_id = f.current_device_id;
  device_type = then_get (get_device w.tables.devices f.current_device_id) (λ d. some d.type);
  action = m;
  egress_interface_id = i;
  deliver_here = here;
  reason = r;
  link_id_to_next = l;
}

abbrev pub dropped_at : Flow → DropReason → List Flow → List HopMetadata → FlowPath
dropped_at f r hops ms = record {
  is_delivered = false;
  reason = some r;
  hops = hops;
  hop_metadata = ms;
  final_device_id = f.current_device_id;
  final_interface_id = f.current_interface_id;
}

abbrev pub delivered_at : Flow → ℕ → List Flow → List HopMetadata → FlowPath
delivered_at f i hops ms = record {
  is_delivered = true;
  reason = none;
  hops = hops ++ at_port f i ∷ [];
  hop_metadata = ms;
  final_device_id = f.current_device_id;
  final_interface_id = some i;
}

-- The turns that remain, the MAC table, the hops and the metadata so far, and the last hop.
unfoldable pub walk_flow :
    Fabric
    → ℕ
    → List MacAddressEntry
    → List Flow
    → List HopMetadata
    → Flow
    → FlowPath × List MacAddressEntry
walk_flow w zero rows hops ms f = (dropped_at f ttl_exceeded hops ms, rows)
walk_flow w (suc k) rows hops ms f =
    let (v, rows') = step w rows f in
    elim (move_of w.tables v) [
      | dropped r m ↦
          (dropped_at f r hops (ms ++ metadata w f m none false (some r) none ∷ []), rows')
      | delivered i m ↦
          (delivered_at f i hops (ms ++ metadata w f m (some i) true none none ∷ []), rows')
      | crosses i m p ↦
          walk_flow w k rows' (hops ++ next_flow f p ∷ [])
            (ms ++ metadata w f m (some i) false none (some p.link_id) ∷ []) (next_flow f p)
    ]

unfoldable pub resolve_flow_path :
    Fabric → List MacAddressEntry → Flow → ℕ → FlowPath × List MacAddressEntry
resolve_flow_path w rows f ttl = walk_flow w ttl rows (f ∷ []) [] f
