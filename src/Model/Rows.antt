-- ===== src/Model/Rows.antt =====
-- backend/models_pkg/device.py, interface.py, link.py, l2.py, l3.py and ipam.py: enums and tables.
use unoc_network_simulator.Prelude.{ℕ, Bool, true, false, Option, none, some, if◌then◌else◌}

pub data DeviceType : Type 0 where
  backbone_gateway pop core_site core_router edge_router aon_switch olt ont aon_cpe splitter hop nvt
        odf business_ont :
      DeviceType

pub data Status : Type 0 where
  up down degraded blocking : Status

pub data DeviceRole : Type 0 where
  active passive always_online : DeviceRole

pub data SignalStatus : Type 0 where
  ok warning critical no_signal : SignalStatus

pub data LinkType : Type 0 where
  fiber p2p mgmt : LinkType

pub data PortRole : Type 0 where
  access uplink pon trunk : PortRole

pub data AdminStatus : Type 0 where
  enabled disabled : AdminStatus

-- The codes that the link rules name; any other code is `other_medium`.
pub data Medium : Type 0 where
  smf_g652d smf_g657a1 smf_g657a2 mmf_om3 mmf_om4 cat6a_utp : Medium
  other_medium : ℕ → Medium

pub record Device : Type 0 where
  pub id : ℕ
  pub type : DeviceType
  pub status : Status
  pub provisioned : Bool
  pub admin_override_status : Option Status
  pub insertion_loss_db : Option ℕ
  pub signal_status : Option SignalStatus
  pub parent_container_id : Option ℕ
  pub vrf_id : Option ℕ

pub record Interface : Type 0 where
  pub id : ℕ
  pub device_id : ℕ
  pub name : ℕ
  pub admin_status : AdminStatus
  pub capacity : Option ℕ
  pub port_role : Option PortRole
  pub bridge_domain_id : Option ℕ

pub record Link : Type 0 where
  pub id : ℕ
  pub a_interface_id : ℕ
  pub b_interface_id : ℕ
  pub status : Status
  pub kind : LinkType
  pub admin_override_status : Option Status
  pub length_km : Option ℕ
  pub physical_medium_id : Option ℕ

pub record PhysicalMedium : Type 0 where
  pub id : ℕ
  pub code : Medium
  pub is_optical : Bool
  pub max_range_km : Option ℕ

-- An IPv4 prefix as it is written: an address and a length.
pub record Net : Type 0 where
  pub address : ℕ
  pub prefixlen : ℕ

-- The prefix is a text, `none` if `ip_network` does not read it.
pub record Route : Type 0 where
  pub id : ℕ
  pub vrf_id : ℕ
  pub prefix : Option Net
  pub next_hop : Option ℕ
  pub interface_id : Option ℕ
  pub admin_distance : ℕ
  pub metric : ℕ

pub record InterfaceAddress : Type 0 where
  pub interface_id : ℕ
  pub ip : ℕ
  pub prefix_id : Option ℕ

pub record Neighbor : Type 0 where
  pub interface_id : ℕ
  pub ip_address : ℕ
  pub mac_address : ℕ

-- `self.type in {SPLITTER, HOP, NVT, ODF}`
abbrev pub is_passive_inline : DeviceType → Bool
is_passive_inline splitter = true
is_passive_inline hop = true
is_passive_inline nvt = true
is_passive_inline odf = true
is_passive_inline _ = false

-- `{CORE_ROUTER, EDGE_ROUTER, BACKBONE_GATEWAY}`
abbrev pub is_router : DeviceType → Bool
is_router backbone_gateway = true
is_router core_router = true
is_router edge_router = true
is_router _ = false

-- `{ONT, BUSINESS_ONT}`
abbrev pub is_ont : DeviceType → Bool
is_ont ont = true
is_ont business_ont = true
is_ont _ = false

abbrev is_root_container : DeviceType → Bool
is_root_container backbone_gateway = true
is_root_container pop = true
is_root_container core_site = true
is_root_container _ = false

unfoldable pub derive_role : DeviceType → DeviceRole
derive_role t =
    if is_passive_inline t then passive else if is_root_container t then always_online else active

-- `value == "UP"` and `value == "DOWN"`, as the services test a status.
abbrev pub is_up : Status → Bool
is_up up = true
is_up _ = false

abbrev pub is_down : Status → Bool
is_down down = true
is_down _ = false

-- An override that is set, and forces the row down.
abbrev pub forced_down : Option Status → Bool
forced_down none = false
forced_down (some s) = is_down s
