-- ===== src/Samples/ForwardingTests.antt =====
-- Frames and flows on the sample network, with a switch and a neighbour.
use unoc_network_simulator.Prelude.{
  ℕ, ◌+◌, ◌≤◌, ◌≡◌, refl, ◌⊎◌, true, false, none, some, List, [], ◌∷◌, length, any, is_some,
}
use unoc_network_simulator.Prelude.Sets.{contains}
use unoc_network_simulator.Model.{enabled, Interface, Route}
use unoc_network_simulator.Model.Tables.{Tables}
use unoc_network_simulator.Forwarding.Bridge.{
  BridgeDomain, MacAddressEntry, Bridges, Frame, forward_to, process_frame, flood_ports,
}
use unoc_network_simulator.Forwarding.Learning.{
  Sighting, port_of, run_frames, IsKeyed, port_of-run_frames, run_frames-IsKeyed,
  process_frame-last_seen, contains-flood_ports,
}
use unoc_network_simulator.Forwarding.Decision.{
  address, longest_prefix_match, match_length, of_vrf, best_match, get_forwarding_decision,
}
use unoc_network_simulator.Forwarding.LongestPrefix.{IsLongest, longest_prefix_match-IsLongest}
use unoc_network_simulator.Forwarding.Flow.{
  Flow, Fabric, forward, l3_route, router_step, resolve_flow_path,
}
use unoc_network_simulator.Forwarding.Egress.{IsOwn, router_step-IsOwn}
use unoc_network_simulator.Forwarding.Paths.{
  Chained, resolve_flow_path-Chained, resolve_flow_path-le,
}
use unoc_network_simulator.Samples.Network.{network, core}

abbrev switch_port : ℕ → Interface
switch_port i = record {
  id = i;
  device_id = 9;
  name = i;
  admin_status = enabled;
  capacity = none;
  port_role = none;
  bridge_domain_id = some 7;
}

abbrev domain : BridgeDomain
domain = record { id = 7; device_id = 9; default = true }

abbrev switch : Bridges
switch = record {
  domains = domain ∷ [];
  ports = switch_port 91 ∷ switch_port 92 ∷ switch_port 93 ∷ [];
}

abbrev frame : ℕ → ℕ → Frame
frame s d = record { source_mac = s; destination_mac = d }

abbrev seen : List Sighting
seen = record { ingress = 91; frame = frame 5 6 } ∷ record { ingress = 92; frame = frame 6 5 } ∷ []

abbrev known : List MacAddressEntry
known = record { mac_address = 5; interface_id = 91; bridge_domain_id = 7 } ∷ []

port_of-run_frames_example : port_of (run_frames switch [] 9 seen) 7 6 ≡ some 92
port_of-run_frames_example = port_of-run_frames switch 9 seen [] 7 6

run_frames-IsKeyed_test : IsKeyed (run_frames switch known 9 seen)
run_frames-IsKeyed_test = run_frames-IsKeyed switch 9 domain refl seen known (refl, tt)

process_frame-last_seen_test : (process_frame switch known 9 92 (frame 6 5)).0 ≡ forward_to 91
process_frame-last_seen_test = process_frame-last_seen switch 9 domain refl known 92 (frame 6 5)

contains-flood_ports_test : contains 92 (flood_ports switch.ports 7 91) ≡ true
contains-flood_ports_test = contains-flood_ports switch.ports 7 91 92

longest_prefix_match-IsLongest_example :
    (any (λ x. is_some (match_length 42 x)) (of_vrf network.routes 1) ≡ false)
      × (longest_prefix_match network.routes 1 (address 42) ≡ none)
    ⊎ ((r : Route) × IsLongest 42 (of_vrf network.routes 1) r
        × (longest_prefix_match network.routes 1 (address 42) ≡ some r))
longest_prefix_match-IsLongest_example = longest_prefix_match-IsLongest network.routes 1 42

abbrev tables : Tables
tables = record network {
  neighbors = record { interface_id = 21; ip_address = 100; mac_address = 3 } ∷ [];
}

abbrev fabric : Fabric
fabric = record { tables = tables; domains = domain ∷ [] }

abbrev flow : Flow
flow = record {
  source_ip = 1;
  destination_ip = address 42;
  current_device_id = 2;
  current_interface_id = none;
}

router_forwards : router_step tables core flow ≡ forward 21 false l3_route
unfolding router_step get_forwarding_decision longest_prefix_match best_match
router_forwards = refl

router_step-IsOwn_example : IsOwn tables core 21
router_step-IsOwn_example = router_step-IsOwn tables core flow 21 false l3_route router_forwards

resolve_flow_path-Chained_example :
    (rest : List Flow) × ((resolve_flow_path fabric known flow 16).0.hops ≡ flow ∷ rest)
    × Chained fabric flow rest
resolve_flow_path-Chained_example = resolve_flow_path-Chained fabric known flow 16

resolve_flow_path-le_test :
    (length (resolve_flow_path fabric known flow 16).0.hops ≤ 1 + 16)
    × (length (resolve_flow_path fabric known flow 16).0.hop_metadata ≤ 16)
resolve_flow_path-le_test = resolve_flow_path-le fabric known flow 16
