-- ===== src/Tests.antt =====
-- The theorems at concrete inputs.
pub mod Floats
pub mod Breakers
pub mod Rules
pub mod Routing
pub mod Limits
pub mod Serving
pub mod Requests
pub mod Races
pub mod Configs
pub mod Syncs
pub mod Bodies
