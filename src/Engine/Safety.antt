-- ===== src/Engine/Safety.antt =====
-- What an account may do: limits, cooldowns, the guard and the warm-up of distribution-engine/src.
pub mod Limits
pub mod Cooldowns
pub mod Guard
pub mod Warmup
mod Tests
