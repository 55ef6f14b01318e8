-- ===== src/Simulation/Replay.antt =====
-- `replay_simulation_events`: the projections, and what one event does to them.
use unoc_network_simulator.Prelude.{
  ℕ, suc, Bool, true, false, Option, none, some, List, [], ◌∷◌, ◌++◌, length, if◌then◌else◌,
}
use unoc_network_simulator.Prelude.Dicts.{Dict, get_or, put}
use unoc_network_simulator.Model.{
  DeviceType, backbone_gateway, pop, core_site, core_router, edge_router, aon_switch, olt, ont,
  aon_cpe, splitter, hop, nvt, odf, business_ont,
}
use unoc_network_simulator.Subscribers.{Domain, olt_domain, aon_domain, sorted_items}
use unoc_network_simulator.Simulation.Defs.{
  DevicePayload, PortPayload, LinkPayload, AssignedPayload, BoundPayload, EventBody, device_created,
  port_connected, device_linked, cpe_provisioned, ont_assigned, service_bound, SimulationEvent,
}

-- PON_DEFAULT_CAPACITY
abbrev pub pon_default_capacity : ℕ
pon_default_capacity = 128

-- `physical`, `service`, `analytics` and `traces`. In the analytics a key may be `None`.
pub record Projections : Type 0 where
  pub devices : Dict DevicePayload
  pub ports : Dict PortPayload
  pub links : Dict LinkPayload
  pub ont_assignments : Dict AssignedPayload
  pub cpe_provisioning : Dict AssignedPayload
  pub service_bindings : List BoundPayload
  pub oversubscriptions : List AssignedPayload
  pub device_counts : Dict ℕ
  pub olt_subscribers : Dict ℕ
  pub aon_subscribers : Dict ℕ
  pub pon_ports : Dict ℕ
  pub traces : Dict (List ℕ)

-- The types as keys.
abbrev pub type_key : DeviceType → ℕ
type_key backbone_gateway = 0
type_key pop = 1
type_key core_site = 2
type_key core_router = 3
type_key edge_router = 4
type_key aon_switch = 5
type_key olt = 6
type_key ont = 7
type_key aon_cpe = 8
type_key splitter = 9
type_key hop = 10
type_key nvt = 11
type_key odf = 12
type_key business_ont = 13

-- `None` or an identifier as a key.
abbrev pub key_of : Option ℕ → ℕ
key_of none = 0
key_of (some i) = suc i

-- `d[k] += 1`, where a missing key has 0.
abbrev pub bump : ℕ → Dict ℕ → Dict ℕ
bump k d = put k (suc (get_or 0 k d)) d

-- `traces[k].append(sequence)`
abbrev pub trace : ℕ → ℕ → Dict (List ℕ) → Dict (List ℕ)
trace k n d = put k (get_or [] k d ++ n ∷ []) d

-- `if k: traces[k].append(sequence)`
abbrev pub trace_some : Option ℕ → ℕ → Dict (List ℕ) → Dict (List ℕ)
trace_some none n d = d
trace_some (some k) n d = trace k n d

-- What SERVICE_BOUND does to the counters of its domain.
abbrev pub count_bound : Option Domain → BoundPayload → Projections → Projections
count_bound (some olt_domain) b p = record p {
  olt_subscribers = bump (key_of b.anchor_device_id) p.olt_subscribers;
  pon_ports = bump (key_of b.anchor_interface_id) p.pon_ports;
}
count_bound (some aon_domain) b p = record p {
  aon_subscribers = bump (key_of b.anchor_device_id) p.aon_subscribers;
}
count_bound none b p = p

abbrev pub is_refused : Option Bool → Bool
is_refused (some false) = true
is_refused _ = false

-- One turn of the loop, on the event's number and its body.
unfoldable pub replay_event : ℕ → EventBody → Projections → Projections
replay_event n (device_created d) p = record p {
  devices = put d.device_id d p.devices;
  device_counts = bump (type_key d.device_type) p.device_counts;
  traces = trace d.device_id n p.traces;
}
replay_event n (port_connected i) p = record p {
  ports = put i.port_id i p.ports;
  traces = trace i.device_id n p.traces;
}
replay_event n (device_linked l) p = record p {
  links = put l.link_id l p.links;
  traces = trace_some l.b_device_id n (trace_some l.a_device_id n p.traces);
}
replay_event n (ont_assigned a) p = record p {
  ont_assignments = put a.subscriber_id a p.ont_assignments;
  traces = trace a.subscriber_id n p.traces;
}
replay_event n (cpe_provisioned a) p = record p {
  cpe_provisioning = put a.subscriber_id a p.cpe_provisioning;
  traces = trace a.subscriber_id n p.traces;
  oversubscriptions =
      if is_refused a.counted then p.oversubscriptions ++ a ∷ [] else p.oversubscriptions;
}
replay_event n (service_bound b) p =
    let q = count_bound b.domain b p in
    record q {
      service_bindings = p.service_bindings ++ b ∷ [];
      traces = trace_some b.anchor_device_id n (trace b.subscriber_id n p.traces);
    }

abbrev pub replay_from : List SimulationEvent → Projections → Projections
replay_from [] p = p
replay_from (e ∷ es) p = replay_from es (replay_event e.sequence e.body p)

abbrev pub empty_projections : Projections
empty_projections = record {
  devices = [];
  ports = [];
  links = [];
  ont_assignments = [];
  cpe_provisioning = [];
  service_bindings = [];
  oversubscriptions = [];
  device_counts = [];
  olt_subscribers = [];
  aon_subscribers = [];
  pon_ports = [];
  traces = [];
}

abbrev pub last_number : List SimulationEvent → Option ℕ
last_number [] = none
last_number (e ∷ es) = elim (last_number es) [ none ↦ some e.sequence | some n ↦ some n ]

-- The result; the sorted copies of the analytics, with a port's use as a count and the capacity.
pub record Replayed : Type 0 where
  pub event_count : ℕ
  pub last_sequence : Option ℕ
  pub projections : Projections
  pub sorted_device_counts : Dict ℕ
  pub sorted_olt_subscribers : Dict ℕ
  pub sorted_aon_subscribers : Dict ℕ
  pub sorted_pon_ports : Dict ℕ
  pub max_capacity : ℕ
  pub effective_subscriber_count : ℕ
  pub event_traces : Dict (List ℕ)

unfoldable pub replay_simulation_events : List SimulationEvent → Replayed
replay_simulation_events events =
    let p = replay_from events empty_projections in
    record {
      event_count = length events;
      last_sequence = last_number events;
      projections = p;
      sorted_device_counts = sorted_items p.device_counts;
      sorted_olt_subscribers = sorted_items p.olt_subscribers;
      sorted_aon_subscribers = sorted_items p.aon_subscribers;
      sorted_pon_ports = sorted_items p.pon_ports;
      max_capacity = pon_default_capacity;
      effective_subscriber_count = length p.service_bindings;
      event_traces = sorted_items p.traces;
    }
