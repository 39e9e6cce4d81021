-- ===== src/Observations.antt =====
-- Observations: src/market_relay/domain/observations.
pub mod Models
pub mod Store
pub mod Selection
