-- ===== src/Provisioning/Defs.antt =====
-- backend/provisioning.py: `provision_device`. The levels in dBm and dB are thousandths, those below
-- zero by their amount.
use unoc_network_simulator.Prelude.{
  ℕ, Bool, true, false, not, Option, none, some, List, [], ◌∷◌, if◌then◌else◌, any, find,
}
use unoc_network_simulator.Model.{
  DeviceType, core_router, edge_router, aon_switch, olt, ont, aon_cpe, splitter, hop, nvt, odf,
  business_ont, Device, Net,
}
use unoc_network_simulator.Addressing.Pools.{
  PoolKey, core_mgmt, access_mgmt, ont_mgmt, cpe_mgmt, IpPool, allocate,
}

-- `device_type in PROVISIONABLE`
abbrev pub is_provisionable : DeviceType → Bool
is_provisionable core_router = true
is_provisionable edge_router = true
is_provisionable olt = true
is_provisionable aon_switch = true
is_provisionable ont = true
is_provisionable business_ont = true
is_provisionable aon_cpe = true
is_provisionable _ = false

-- `POOL_KEY_MAP.get(device_type)`
abbrev pub classify_pool : DeviceType → Option PoolKey
classify_pool core_router = some core_mgmt
classify_pool edge_router = some core_mgmt
classify_pool olt = some access_mgmt
classify_pool aon_switch = some access_mgmt
classify_pool ont = some ont_mgmt
classify_pool business_ont = some ont_mgmt
classify_pool aon_cpe = some cpe_mgmt
classify_pool _ = none

-- The device type that has to be there before, of `PROVISION_MATRIX`.
abbrev pub prerequisite : DeviceType → Option DeviceType
prerequisite edge_router = some core_router
prerequisite olt = some core_router
prerequisite aon_switch = some core_router
prerequisite ont = some olt
prerequisite business_ont = some olt
prerequisite aon_cpe = some aon_switch
prerequisite _ = none

-- The types that are a prerequisite.
abbrev pub same_type : DeviceType → DeviceType → Bool
same_type core_router core_router = true
same_type olt olt = true
same_type aon_switch aon_switch = true
same_type _ _ = false

abbrev pub exists_type : List Device → DeviceType → Bool
exists_type rows ty = any (λ d. same_type ty d.type) rows

abbrev pub met : List Device → Option DeviceType → Bool
met rows none = true
met rows (some ty) = exists_type rows ty

-- `_dependency_ok`, with the two flags as they are set.
unfoldable pub dependency_ok : List Device → Device → Bool
dependency_ok rows d = met rows (prerequisite d.type)

abbrev pub same_key : PoolKey → PoolKey → Bool
same_key core_mgmt core_mgmt = true
same_key access_mgmt access_mgmt = true
same_key ont_mgmt ont_mgmt = true
same_key cpe_mgmt cpe_mgmt = true
same_key _ _ = false

-- `POOL_DEFS`: 10.250.0.0/24, 10.250.4.0/24, 10.250.1.0/24 and 10.250.3.0/24.
abbrev pub pool_def : PoolKey → Net
pool_def core_mgmt = record { address = 184_156_160; prefixlen = 24 }
pool_def access_mgmt = record { address = 184_157_184; prefixlen = 24 }
pool_def ont_mgmt = record { address = 184_156_416; prefixlen = 24 }
pool_def cpe_mgmt = record { address = 184_156_928; prefixlen = 24 }

abbrev new_pool : PoolKey → IpPool
new_pool k = record { pool_key = k; cidr = pool_def k; next_index = 1 }

abbrev pub or_new : PoolKey → Option IpPool → IpPool
or_new k none = new_pool k
or_new k (some p) = p

-- `ensure_pool`: the row of the key, or a new one.
abbrev pub ensure_pool : List IpPool → PoolKey → IpPool
ensure_pool rows k = or_new k (find (λ p. same_key p.pool_key k) rows)

-- The row of the key is written, or added.
abbrev pub write_pool : List IpPool → IpPool → List IpPool
write_pool [] p = p ∷ []
write_pool (q ∷ qs) p =
    let rest = write_pool qs p in if same_key q.pool_key p.pool_key then p ∷ qs else q ∷ rest

-- The device with the columns that only provisioning reads.
pub record Provisionee : Type 0 where
  pub row : Device
  pub tx_power_dbm : Option ℕ
  pub sensitivity_min_dbm : Option ℕ

pub data ProvisionError : Type 0 where
  invalid_provision_path already_provisioned pool_exhausted : ProvisionError

-- The pools stay as they were under an error, which rolls the session back.
pub data Provisioned : Type 0 where
  raised : ProvisionError → Provisioned
  done : Option ℕ → Provisionee → List IpPool → Provisioned

abbrev or_default : Option ℕ → ℕ → Option ℕ
or_default none x = some x
or_default (some y) x = some y

abbrev tx_default : DeviceType → Option ℕ → Option ℕ
tx_default olt o = or_default o 5_000
tx_default _ o = o

abbrev sensitivity_default : DeviceType → Option ℕ → Option ℕ
sensitivity_default ont o = or_default o 30_000
sensitivity_default business_ont o = or_default o 30_000
sensitivity_default _ o = o

abbrev loss_default : DeviceType → Option ℕ → Option ℕ
loss_default splitter o = or_default o 3_500
loss_default nvt o = or_default o 100
loss_default odf o = or_default o 500
loss_default hop o = or_default o 500
loss_default _ o = o

-- The defaults by type, and `provisioned = True`.
abbrev pub with_defaults : Provisionee → Provisionee
with_defaults d = record {
  row = record d.row {
    provisioned = true;
    insertion_loss_db = loss_default d.row.type d.row.insertion_loss_db;
  };
  tx_power_dbm = tx_default d.row.type d.tx_power_dbm;
  sensitivity_min_dbm = sensitivity_default d.row.type d.sensitivity_min_dbm;
}

abbrev pub from_pool : Provisionee → List IpPool → Option (ℕ × IpPool) → Provisioned
from_pool d pools none = raised pool_exhausted
from_pool d pools (some (ip, p)) = done (some ip) (with_defaults d) (write_pool pools p)

abbrev pub address_from : Provisionee → List IpPool → Option PoolKey → Provisioned
address_from d pools none = done none (with_defaults d) pools
address_from d pools (some k) = from_pool d pools (allocate (ensure_pool pools k))

unfoldable pub provision_device : List Device → List IpPool → Provisionee → Provisioned
provision_device rows pools d =
    if not (is_provisionable d.row.type)
    then raised invalid_provision_path
    else if d.row.provisioned
    then raised already_provisioned
    else if not (dependency_ok rows d.row)
    then raised invalid_provision_path
    else address_from d pools (classify_pool d.row.type)
