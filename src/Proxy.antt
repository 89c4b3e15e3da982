-- ===== src/Proxy.antt =====
-- The request path of the proxy (internal/proxy).
pub mod PathHealth
pub mod PoolCooldown
pub mod CooldownDecision
pub mod BindingCooldown
pub mod Chain
pub mod SseModel
mod Examples
