-- ===== src/Config.antt =====
-- internal/config: the configuration of the gateway and what makes one valid.
pub mod Types
pub mod Check
pub mod Decode
pub mod Steps
pub mod Spec
pub mod Parts
pub mod Routes
pub mod Sound
