-- ===== src/Forwarding.antt =====
-- backend/services/l2_service.py, l3_service.py and forwarding_service.py: how a frame and a flow move.
pub mod Bridge
pub mod Learning
pub mod Decision
pub mod LongestPrefix
pub mod Flow
pub mod Egress
pub mod Paths
