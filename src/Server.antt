-- ===== src/Server.antt =====
-- internal/server: the path of a request to the upstreams.
pub mod Headers
pub mod Replies
pub mod Failover
pub mod Frames
pub mod Answers
pub mod Bound
pub mod Balance
pub mod Reasons
pub mod Fallback
pub mod Rounds
pub mod Hops
pub mod Empty
pub mod Hints
pub mod Observed
pub mod Earliest
pub mod Cache
pub mod Capacity
pub mod Fusion
pub mod Race
pub mod Override
pub mod Precedence
pub mod Runes
pub mod Estimate
pub mod Counted
pub mod Judge
pub mod Quorum
pub mod Panel
pub mod Flat
pub mod Billing
pub mod Settle
pub mod Ratios
pub mod Stream
pub mod Chunks
pub mod Keys
pub mod Prepare
pub mod Entitled
pub mod Granted
