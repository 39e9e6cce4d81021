-- ===== src/Governance.antt =====
-- Source governance: credentials, policies and consumers (src/market_relay/domain/governance).
pub mod Credentials
pub mod Models
pub mod PolicyGate
