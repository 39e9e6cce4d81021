-- ===== src/Queue/Backoff.antt =====
-- The bounded exponential backoff of src/market_relay/domain/ingestion/queue.py.
use market_relay.Prelude.{ℕ, zero, suc, ◌*◌, ◌^◌, min}

abbrev backoff_base_seconds : ℕ
backoff_base_seconds = 30

abbrev backoff_cap_seconds : ℕ
backoff_cap_seconds = 3600

unfoldable pub backoff_seconds : ℕ → ℕ
backoff_seconds zero = 0
backoff_seconds (suc n) = min (backoff_base_seconds * 2 ^ n) backoff_cap_seconds
