-- ===== src/Proxy/Examples.antt =====
-- Concrete runs of the request path.
mod Paths
mod Cooldowns
mod Streams
