-- ===== src/Samples/SubscriberTests.antt =====
-- The subscriber model and the splitter's ports on the sample network.
use unoc_network_simulator.Prelude.{
  ℕ, ◌+◌, ◌*◌, ◌≤◌, ◌≡◌, refl, ◌↔◌, true, false, Option, none, some, List, [], ◌∷◌, ◌++◌, length,
  ◌==◌, ltb,
}
use unoc_network_simulator.Prelude.Sets.{contains}
use unoc_network_simulator.Prelude.Sorting.{Every}
use unoc_network_simulator.Model.{Interface, odf, aon_switch, aon_cpe}
use unoc_network_simulator.Model.Tables.{Tables}
use unoc_network_simulator.Subscribers.{
  olt_domain, trace_anchor, trace_direct_aon_anchor, resolve_subscriber_model, sorted_devices,
  sorted_interfaces, link_neighbors,
}
use unoc_network_simulator.Subscribers.Exclusive.{IsSettled}
use unoc_network_simulator.Subscribers.Access.{claims, resolve_subscriber_model-IsSettled}
use unoc_network_simulator.Subscribers.Anchors.{IsAnchorFor, trace_anchor_correct}
use unoc_network_simulator.Subscribers.Counts.{
  counted_olt, occupied, resolve_subscriber_model-occupied,
}
use unoc_network_simulator.Splitters.{
  PortNames, names_of, ensure_default_ports_for_splitter, out_ifaces, use_ports, owned_next,
  counterparts, compute_splitter_usage, onts_behind, out_interface_has_ont,
  find_out_interface_reaching,
}
use unoc_network_simulator.Splitters.Ports.{ensure_default_ports_for_splitter_correct}
use unoc_network_simulator.Splitters.Behind.{
  is_used, HasOnt, HasOntBehind, ports_with_ont, onts_behind-agrees, compute_splitter_usage_correct,
}
use unoc_network_simulator.Splitters.Reaching.{IsFirstReaching, find_out_interface_reaching_correct}
use unoc_network_simulator.Search.Sweep.{edges, visit}
use unoc_network_simulator.Search.Sweep.Gather.{gather}
use unoc_network_simulator.Samples.Network.{network, split, device, port, link, home}

trace_anchor_correct_example : IsAnchorFor olt_domain network 5 (trace_anchor olt_domain network 5)
trace_anchor_correct_example = trace_anchor_correct olt_domain network 5

resolve_subscriber_model-occupied_example :
    counted_olt (resolve_subscriber_model network).decisions
    ≡ occupied (resolve_subscriber_model network).pon_occupancy
resolve_subscriber_model-occupied_example = resolve_subscriber_model-occupied network

-- Two CPEs, 10 and 9, at port 81 of an AON switch.
abbrev shared_port : Tables
shared_port = record network {
  devices =
      device 8 aon_switch true none ∷ device 10 aon_cpe true none ∷ device 9 aon_cpe true none ∷ [];
  interfaces = port 81 8 none ∷ port 91 9 none ∷ port 101 10 none ∷ [];
  links = link 61 81 101 ∷ link 62 91 81 ∷ [];
}

resolve_subscriber_model-IsSettled_example :
    Every (IsSettled (claims shared_port) 81) (resolve_subscriber_model shared_port).decisions
resolve_subscriber_model-IsSettled_example = resolve_subscriber_model-IsSettled shared_port 81

both_claim : claims shared_port 81 ≡ 9 ∷ 10 ∷ []
unfolding sorted_devices trace_direct_aon_anchor sorted_interfaces link_neighbors
both_claim = refl

-- Port 41 of the splitter is its `in`, and the others are named as they are numbered.
abbrev port_names : PortNames
port_names = record {
  in_name = 41;
  out_name = λ n. 41 + n;
  port_id = λ d n. n + 1_000 * d;
  is_in = λ n. n == 41;
  is_out = λ n. ltb 41 n;
}

ensure_default_ports_for_splitter_correct_example :
    let rows' = ensure_default_ports_for_splitter port_names split (some 2) network.interfaces in
    ((added : List Interface) × (rows' ≡ network.interfaces ++ added))
    × (contains 41 (names_of rows' 4) ≡ true)
    × ((k : ℕ) → 1 ≤ k → k ≤ 2 → contains (41 + k) (names_of rows' 4) ≡ true)
    × (ensure_default_ports_for_splitter port_names split (some 2) rows' ≡ rows')
ensure_default_ports_for_splitter_correct_example =
    ensure_default_ports_for_splitter_correct port_names split (some 2) network.interfaces refl

onts_behind-agrees_example :
    (o : List ℕ) × (onts_behind network 42 ≡ some o)
    × (out_interface_has_ont network 42 ≡ some (is_used o))
    × ((x : ℕ) → (contains x o ≡ true) ↔ HasOnt network 42 x)
onts_behind-agrees_example = onts_behind-agrees network 42 refl

compute_splitter_usage_correct_example :
    let outs = out_ifaces port_names network 4 in
    (onts : List ℕ) × (compute_splitter_usage port_names network split
      ≡ some (length outs, ports_with_ont network outs, length onts))
    × (ports_with_ont network outs ≤ length outs)
    × ((x : ℕ) → (contains x onts ≡ true) ↔ HasOntBehind network outs x)
unfolding out_ifaces
compute_splitter_usage_correct_example =
    compute_splitter_usage_correct port_names network split refl (refl, tt)

find_out_interface_reaching_correct_example :
    (r : Option Interface) × (find_out_interface_reaching port_names network split 51 ≡ some r)
    × IsFirstReaching network 51 (out_ifaces port_names network 4) r
find_out_interface_reaching_correct_example =
    find_out_interface_reaching_correct port_names network split 51 refl

-- A distribution frame, device 7, stands between the splitter and the ONT: its ports are 71 and 72.
abbrev through_frame : Tables
through_frame = record network {
  devices = split ∷ device 7 odf false none ∷ home ∷ [];
  interfaces = port 42 4 none ∷ port 71 7 none ∷ port 72 7 none ∷ port 51 5 none ∷ [];
  links = link 61 42 71 ∷ link 62 72 51 ∷ [];
}

-- The ONT behind the frame is not found: the search goes over links only, never through a device.
frame_hides : compute_splitter_usage port_names through_frame split ≡ some (1, 0, 0)
unfolding compute_splitter_usage use_ports out_ifaces onts_behind gather edges owned_next
    counterparts visit
frame_hides = refl

used_without_frame : compute_splitter_usage port_names network split ≡ some (1, 1, 1)
unfolding compute_splitter_usage use_ports out_ifaces onts_behind gather edges owned_next
    counterparts visit
used_without_frame = refl
