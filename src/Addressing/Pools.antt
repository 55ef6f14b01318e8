-- ===== src/Addressing/Pools.antt =====
-- `IPPool` of backend/models_pkg/ipam.py: a pool hands out the hosts of its network in order.
use unoc_network_simulator.Prelude.{ℕ, zero, suc, ◌+◌, ◌-◌, Option, none, some, ltb, if◌then◌else◌}
use unoc_network_simulator.Model.{Net}
use unoc_network_simulator.Addressing.Prefixes.{first_host, host_count}

pub data PoolKey : Type 0 where
  core_mgmt access_mgmt ont_mgmt cpe_mgmt : PoolKey

pub record IpPool : Type 0 where
  pub pool_key : PoolKey
  pub cidr : Net
  pub next_index : ℕ

abbrev pub advanced : IpPool → IpPool
advanced p = record { pool_key = p.pool_key; cidr = p.cidr; next_index = suc p.next_index }

-- `hosts[next_index - 1]`, where the index -1 is the last host.
abbrev pub host_at : Net → ℕ → Option ℕ
host_at net zero = some (first_host net + host_count net - 1)
host_at net (suc i) = if ltb i (host_count net) then some (first_host net + i) else none

abbrev pub hand_out : IpPool → Option ℕ → Option (ℕ × IpPool)
hand_out p none = none
hand_out p (some ip) = some (ip, advanced p)

-- `allocate`: `none` is the RuntimeError of an exhausted pool.
unfoldable pub allocate : IpPool → Option (ℕ × IpPool)
allocate p = hand_out p (host_at p.cidr p.next_index)
