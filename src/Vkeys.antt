-- ===== src/Vkeys.antt =====
-- Virtual keys and the accounts behind them (internal/vkeys).
pub mod Material
pub mod Pick
mod Examples
