-- ===== src/Simulation/Defs.antt =====
-- `build_simulation_event_log`: the events, and the loops that append them.
use unoc_network_simulator.Prelude.{
  ℕ, suc, ◌-◌, Bool, true, false, Option, some, List, [], ◌∷◌, ◌++◌, ltb, if◌then◌else◌,
}
use unoc_network_simulator.Prelude.Sorting.{sort_by}
use unoc_network_simulator.Model.{
  DeviceType, is_ont, Status, LinkType, PortRole, Device, Interface, Link,
}
use unoc_network_simulator.Model.Tables.{Tables, device_of_interface}
use unoc_network_simulator.Subscribers.{
  Domain, Reason, is_cpe, before, SubscriberDecision, resolve_subscriber_model,
}

pub record DevicePayload : Type 0 where
  pub device_id : ℕ
  pub device_type : DeviceType
  pub status : Status
  pub provisioned : Bool

pub record PortPayload : Type 0 where
  pub port_id : ℕ
  pub device_id : ℕ
  pub name : ℕ
  pub port_role : Option PortRole
  pub capacity : Option ℕ

pub record LinkPayload : Type 0 where
  pub link_id : ℕ
  pub a_interface_id : ℕ
  pub b_interface_id : ℕ
  pub a_device_id : Option ℕ
  pub b_device_id : Option ℕ
  pub kind : LinkType
  pub status : Status

pub record AssignedPayload : Type 0 where
  pub subscriber_id : ℕ
  pub subscriber_type : DeviceType
  pub anchor_device_id : Option ℕ
  pub anchor_interface_id : Option ℕ
  pub counted : Option Bool
  pub reason : Reason

pub record BoundPayload : Type 0 where
  pub subscriber_id : ℕ
  pub subscriber_type : DeviceType
  pub domain : Option Domain
  pub anchor_device_id : Option ℕ
  pub anchor_interface_id : Option ℕ
  pub source_event_sequence : ℕ

-- The event types of SIMULATION_EVENT_TYPES, each with its payload.
pub data EventBody : Type 0 where
  device_created : DevicePayload → EventBody
  port_connected : PortPayload → EventBody
  device_linked : LinkPayload → EventBody
  cpe_provisioned : AssignedPayload → EventBody
  ont_assigned : AssignedPayload → EventBody
  service_bound : BoundPayload → EventBody

pub record SimulationEvent : Type 0 where
  pub sequence : ℕ
  pub body : EventBody

-- `events` and `sequence`, which `append` changes.
pub record EventLog : Type 0 where
  pub events : List SimulationEvent
  pub sequence : ℕ

-- `append(event_type, payload)`
unfoldable pub append : EventBody → EventLog → EventLog
append body log = record {
  events = log.events ++ record { sequence = log.sequence; body = body } ∷ [];
  sequence = suc log.sequence;
}

abbrev pub device_payload : Device → DevicePayload
device_payload d = record {
  device_id = d.id;
  device_type = d.type;
  status = d.status;
  provisioned = d.provisioned;
}

abbrev pub port_payload : Interface → PortPayload
port_payload i = record {
  port_id = i.id;
  device_id = i.device_id;
  name = i.name;
  port_role = i.port_role;
  capacity = i.capacity;
}

abbrev pub link_payload : Tables → Link → LinkPayload
link_payload t l = record {
  link_id = l.id;
  a_interface_id = l.a_interface_id;
  b_interface_id = l.b_interface_id;
  a_device_id = device_of_interface t.interfaces l.a_interface_id;
  b_device_id = device_of_interface t.interfaces l.b_interface_id;
  kind = l.kind;
  status = l.status;
}

abbrev pub assigned_payload : SubscriberDecision → AssignedPayload
assigned_payload dec = record {
  subscriber_id = dec.subscriber_id;
  subscriber_type = dec.subscriber_type;
  anchor_device_id = dec.anchor_device_id;
  anchor_interface_id = dec.anchor_interface_id;
  counted = dec.counted;
  reason = dec.reason;
}

-- The payload of SERVICE_BOUND; `at` is `sequence - 1`, the number of the event before.
abbrev pub bound_payload : SubscriberDecision → ℕ → BoundPayload
bound_payload dec at = record {
  subscriber_id = dec.subscriber_id;
  subscriber_type = dec.subscriber_type;
  domain = dec.domain;
  anchor_device_id = dec.anchor_device_id;
  anchor_interface_id = dec.anchor_interface_id;
  source_event_sequence = at;
}

abbrev pub log_devices : List Device → EventLog → EventLog
log_devices [] log = log
log_devices (d ∷ ds) log = log_devices ds (append (device_created (device_payload d)) log)

abbrev pub log_ports : List Interface → EventLog → EventLog
log_ports [] log = log
log_ports (i ∷ is) log = log_ports is (append (port_connected (port_payload i)) log)

abbrev pub log_links : Tables → List Link → EventLog → EventLog
log_links t [] log = log
log_links t (l ∷ ls) log = log_links t ls (append (device_linked (link_payload t l)) log)

-- The first test of the last loop: CPE_PROVISIONED or ONT_ASSIGNED.
unfoldable pub log_assigned : SubscriberDecision → EventLog → EventLog
log_assigned dec log =
    if is_cpe dec.subscriber_type
    then append (cpe_provisioned (assigned_payload dec)) log
    else if is_ont dec.subscriber_type
    then append (ont_assigned (assigned_payload dec)) log
    else log

abbrev pub is_counted : Option Bool → Bool
is_counted (some true) = true
is_counted _ = false

unfoldable pub log_decision : SubscriberDecision → EventLog → EventLog
log_decision dec log =
    let log' = log_assigned dec log in
    if is_counted dec.counted
    then append (service_bound (bound_payload dec (log'.sequence - 1))) log'
    else log'

abbrev pub log_decisions : List SubscriberDecision → EventLog → EventLog
log_decisions [] log = log
log_decisions (dec ∷ decs) log = log_decisions decs (log_decision dec log)

abbrev pub by_id : Device → Device → Bool
by_id a b = ltb a.id b.id

abbrev pub by_link_id : Link → Link → Bool
by_link_id a b = ltb a.id b.id

abbrev pub by_subscriber : SubscriberDecision → SubscriberDecision → Bool
by_subscriber a b = ltb a.subscriber_id b.subscriber_id

abbrev pub empty_log : EventLog
empty_log = record { events = []; sequence = 0 }

abbrev pub sorted_decisions : Tables → List SubscriberDecision
sorted_decisions t = sort_by by_subscriber (resolve_subscriber_model t).decisions

unfoldable pub build_simulation_event_log : Tables → EventLog
build_simulation_event_log t = log_decisions (sorted_decisions t) (
    log_links t (sort_by by_link_id t.links)
      (log_ports (sort_by before t.interfaces) (log_devices (sort_by by_id t.devices) empty_log)))
