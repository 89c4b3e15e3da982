-- ===== src/Quota.antt =====
-- The enterprise quota gate (internal/quota): the usage counter, the rule snapshot, the buckets of
-- a seat and the enforcer.
pub mod Amount
pub mod Counter
pub mod Snapshot
pub mod Buckets
pub mod Enforcer
mod Examples
