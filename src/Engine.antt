-- ===== src/Engine.antt =====
-- The distribution engine: distribution-engine/src.
pub mod Target
pub mod Intent
pub mod Publication
pub mod Command
pub mod Media
pub mod Adapter
pub mod Access
pub mod Safety
pub mod Retry
pub mod Packet
pub mod Proxies
pub mod Delayed
pub mod Manual
pub mod Schedule
