-- ===== src/RateLimit.antt =====
-- internal/ratelimit/ratelimit.go: token buckets for requests and tokens per minute.
pub mod Bucket
pub mod Registry
pub mod Burst
pub mod Isolation
