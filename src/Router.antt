-- ===== src/Router.antt =====
-- internal/router/router.go.
pub mod Defs
pub mod Lookups
pub mod Locks
pub mod Outcomes
pub mod Readings
pub mod Record
pub mod Signals
pub mod Caps
pub mod Media
pub mod Asked
pub mod Detect
pub mod Select
pub mod Strategies
pub mod Order
pub mod Complete
pub mod Tiers
pub mod Switch
pub mod Weighted
pub mod Sticky
pub mod Pin
pub mod Pinned
pub mod Admission
pub mod Filter
pub mod Methods
pub mod Orders
pub mod Rearrange
