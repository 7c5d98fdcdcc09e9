-- ===== src/Command.antt =====
-- cmd/tokenroute: the state that a configuration is built into, and its replacement while serving.
pub mod State
pub mod Build
pub mod Install
pub mod Assemble
pub mod Resolve
pub mod Targets
pub mod Reload
pub mod Outcomes
pub mod Running
pub mod Restart
