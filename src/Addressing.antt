-- ===== src/Addressing.antt =====
-- backend/services/mac_allocator.py, backend/services/provisioning_ipam.py and the pools of
-- backend/models_pkg/ipam.py: the MAC and IP addresses that are handed out.
pub mod Mac
pub mod MacUnique
pub mod Prefixes
pub mod FreeHost
pub mod Pools
pub mod PoolRuns
