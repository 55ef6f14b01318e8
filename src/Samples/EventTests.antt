-- ===== src/Samples/EventTests.antt =====
-- The event store and the replay.
use unoc_network_simulator.Prelude.{◌≡◌, refl, true, false, none, List, [], ◌∷◌, length}
use unoc_network_simulator.Prelude.Dicts.{get, sum_of}
use unoc_network_simulator.Model.{aon_cpe}
use unoc_network_simulator.Model.Tables.{Tables, get_device, get_interface, get_link}
use unoc_network_simulator.Subscribers.{
  resolve_subscriber_model, count_device, settle_anchors, sorted_devices, sorted_items,
}
use unoc_network_simulator.Subscribers.Counts.{occupied}
use unoc_network_simulator.Events.{
  EventType, EventSession, Payload, visible, event_store_snapshot, is_domain_type, append_event,
  append_domain_event, append_runtime_event, next_sequence,
}
use unoc_network_simulator.Events.Sequences.{
  Op, append, domain, ends, run_ops, IsSound, count_before, run_ops-IsSound,
  event_store_snapshot-IsSound,
}
use unoc_network_simulator.Simulation.{
  build_simulation_event_log, replay_simulation_events, replay_event, log_decision, log_assigned,
  device_payload, port_payload, link_payload,
}
use unoc_network_simulator.Simulation.Numbers.{build_simulation_event_log-IsSound}
use unoc_network_simulator.Simulation.Restores.{mapped, replay_simulation_events-restores}
use unoc_network_simulator.Simulation.Analytics.{weight, replay_simulation_events-counts}
use unoc_network_simulator.Samples.Network.{network, device}

abbrev nothing_stored : EventSession
nothing_stored = record { committed = []; pending = [] }

abbrev body : Payload
body = record { entity_id = none; timestamp = none; rest = 0 }

-- A domain event that is rolled back, one that is committed, an unknown type, and a runtime event.
abbrev some_ops : List Op
some_ops =
    domain 1 EventType.link_created 7 body none
    ∷ ends false
    ∷ domain 2 EventType.device_created 8 body none
    ∷ domain 3 (EventType.other_type 9) 8 body none
    ∷ ends true
    ∷ append 4 (EventType.other_type 9) body unoc_network_simulator.Events.EventSource.event_store
        none
    ∷ []

run_ops-IsSound_example : IsSound (run_ops some_ops nothing_stored)
run_ops-IsSound_example = run_ops-IsSound some_ops nothing_stored (tt, tt)

two_rows : length (visible (run_ops some_ops nothing_stored)) ≡ 2
unfolding append_domain_event append_event is_domain_type next_sequence
two_rows = refl

event_store_snapshot-IsSound_test :
    let s = run_ops some_ops nothing_stored in
    ((event_store_snapshot s).events ≡ visible s)
    × ((event_store_snapshot s).total_events ≡ length (visible s))
    × ((event_store_snapshot s).last_sequence ≡ count_before (visible s))
event_store_snapshot-IsSound_test =
    event_store_snapshot-IsSound (run_ops some_ops nothing_stored) run_ops-IsSound_example

build_simulation_event_log-IsSound_example :
    unoc_network_simulator.Simulation.Numbers.IsSound (build_simulation_event_log network)
build_simulation_event_log-IsSound_example = build_simulation_event_log-IsSound network

replay_simulation_events-restores_example :
    let p = (replay_simulation_events (build_simulation_event_log network).events).projections in
    (get 4 p.devices ≡ mapped device_payload (get_device network.devices 4))
    × (get 4 p.ports ≡ mapped port_payload (get_interface network.interfaces 4))
    × (get 4 p.links ≡ mapped (link_payload network) (get_link network.links 4))
replay_simulation_events-restores_example =
    replay_simulation_events-restores network (refl, (refl, (refl, (refl, (refl, (refl, tt))))))
      (refl, (refl, (refl, (refl, (refl, (refl, (refl, (refl, (refl, (refl, tt))))))))))
      (refl, (refl, (refl, (refl, (refl, tt))))) 4

replay_simulation_events-counts_example :
    let r = replay_simulation_events (build_simulation_event_log network).events in
    let m = resolve_subscriber_model network in
    (sum_of (λ n. n) r.projections.pon_ports ≡ occupied m.pon_occupancy)
    × (sum_of (λ n. n) r.projections.olt_subscribers ≡ occupied m.pon_occupancy)
    × (r.effective_subscriber_count ≡ weight (λ dom. 1) m.decisions)
replay_simulation_events-counts_example = replay_simulation_events-counts network

-- A CPE, device 8, that is not provisioned.
abbrev idle_cpe : Tables
idle_cpe = record network {
  devices = device 8 aon_cpe false none ∷ [];
  interfaces = [];
  links = [];
}

-- It is replayed as an oversubscription, though no port was asked for.
idle_is_oversubscription :
    length
      (replay_simulation_events
        (build_simulation_event_log idle_cpe).events).projections.oversubscriptions
    ≡ 1
unfolding replay_simulation_events build_simulation_event_log replay_event log_decision log_assigned
    unoc_network_simulator.Simulation.append resolve_subscriber_model count_device settle_anchors
    sorted_devices sorted_items
idle_is_oversubscription = refl
