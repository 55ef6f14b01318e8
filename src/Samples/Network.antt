-- ===== src/Samples/Network.antt =====
-- The rows of the sample network.
use unoc_network_simulator.Prelude.{ℕ, Bool, true, false, Option, none, some, [], ◌∷◌}
use unoc_network_simulator.Model.{
  Device, DeviceType, backbone_gateway, core_router, edge_router, olt, splitter, ont, up, down,
  Interface, enabled, PortRole, pon, Link, fiber, smf_g652d,
}
use unoc_network_simulator.Model.Tables.{Tables}

abbrev pub device : ℕ → DeviceType → Bool → Option ℕ → Device
device i ty prov vrf = record {
  id = i;
  type = ty;
  status = up;
  provisioned = prov;
  admin_override_status = none;
  insertion_loss_db = none;
  signal_status = none;
  parent_container_id = none;
  vrf_id = vrf;
}

abbrev pub gateway : Device
gateway = device 1 backbone_gateway true (some 1)

abbrev pub core : Device
core = device 2 core_router true (some 1)

abbrev pub head : Device
head = device 3 olt true none

abbrev pub split : Device
split = device 4 splitter false none

abbrev pub home : Device
home = device 5 ont true none

abbrev pub broken : Device
broken = record (device 6 edge_router true (some 1)) { admin_override_status = some down }

abbrev pub port : ℕ → ℕ → Option PortRole → Interface
port i d role = record {
  id = i;
  device_id = d;
  name = i;
  admin_status = enabled;
  capacity = none;
  port_role = role;
  bridge_domain_id = none;
}

abbrev pub link : ℕ → ℕ → ℕ → Link
link i a b = record {
  id = i;
  a_interface_id = a;
  b_interface_id = b;
  status = up;
  kind = fiber;
  admin_override_status = none;
  length_km = some 5_000;
  physical_medium_id = none;
}

-- A link with a medium.
abbrev pub fiber_link : Link
fiber_link = record (link 53 32 41) { physical_medium_id = some 1 }

-- A link that is overridden UP beside the router that is forced down.
abbrev pub forced_link : Link
forced_link = record (link 54 23 61) { admin_override_status = some up }

abbrev pub network : Tables
network = record {
  devices = gateway ∷ core ∷ head ∷ split ∷ home ∷ broken ∷ [];
  interfaces =
      port 11 1 none
      ∷ port 21 2 none
      ∷ port 22 2 none
      ∷ port 23 2 none
      ∷ port 31 3 none
      ∷ port 32 3 (some pon)
      ∷ port 41 4 none
      ∷ port 42 4 none
      ∷ port 51 5 none
      ∷ port 61 6 none
      ∷ [];
  links = link 51 11 21 ∷ link 52 22 31 ∷ fiber_link ∷ forced_link ∷ link 55 42 51 ∷ [];
  media = record { id = 1; code = smf_g652d; is_optical = true; max_range_km = none } ∷ [];
  routes =
      record {
        id = 1;
        vrf_id = 1;
        prefix = some (record { address = 0; prefixlen = 0 });
        next_hop = some 100;
        interface_id = some 21;
        admin_distance = 1;
        metric = 0;
      }
      ∷ [];
  addresses = record { interface_id = 11; ip = 100; prefix_id = none } ∷ [];
  neighbors = [];
}
