-- ===== src/Ingestion.antt =====
-- src/market_relay/domain/ingestion: the validation of what a provider returns (validation.py) and
-- the codes that stand for an adapter's failure (error_codes.py), with the rows and the quota of
-- src/market_relay/ports/historical.py and quota.py.
pub mod Validation
pub mod Cursor
pub mod Deadline
pub mod Runner
use market_relay.Prelude.{
  ℕ, String, List, [], ◌∷◌, Bool, true, false, not, ◌&&◌, ◌||◌, Option, none, some, ◌==◌, string_eq,
  nat_eq, if◌then◌else◌, leb,
}
use market_relay.Governance.Credentials.{Text}
use market_relay.Decimals.{Decimal, le_zero, is_finite}
use market_relay.Observations.Models.{ObservationType}
use market_relay.Action.{
  Error, Outcome, returned, raised, malformed_observation, unknown_source, provider_timeout, ◌>>=◌,
  ◌>>◌,
}

pub record RawObservation : Type 0 where
  pub external_listing_id : String
  pub session_date : ℕ
  pub observation_type : ObservationType
  pub currency : Text
  pub close : Decimal
  pub «open» : Option Decimal
  pub high : Option Decimal
  pub low : Option Decimal
  pub adjusted_close : Option Decimal

-- A port gives numbers of units that are not negative.
pub record QuotaStatus : Type 0 where
  pub source : String
  pub remaining : ℕ
  pub limit : ℕ
  pub reset_at : Option ℕ

unfoldable pub exhausted : QuotaStatus → Bool
exhausted q = leb q.remaining 0

abbrev pub is_capital : ℕ → Bool
is_capital c = leb b'A' c && leb c b'Z'

-- `^[A-Z]{3}$` with `match`: `$` also matches before a newline that ends the text.
unfoldable pub currency_matches : Text → Bool
currency_matches (a ∷ b ∷ c ∷ []) = is_capital a && (is_capital b && is_capital c)
currency_matches (a ∷ b ∷ c ∷ d ∷ []) = is_capital a && (is_capital b && (is_capital c && d == 10))
currency_matches _ = false

abbrev pub reject_if : Bool → Outcome (Unit {0})
reject_if b = if b then raised malformed_observation else returned tt

unfoldable pub validate_raw_observation : RawObservation → String → ℕ → ℕ → Outcome (Unit {0})
unfolding currency_matches le_zero is_finite
validate_raw_observation raw expected_external_listing_id expected_start expected_end =
    reject_if (not (raw.external_listing_id == expected_external_listing_id))
    >> (reject_if (not (leb expected_start raw.session_date && leb raw.session_date expected_end))
        >> (reject_if (not (currency_matches raw.currency))
            >> (le_zero raw.close >>= λ low. reject_if (low || not (is_finite raw.close)))))

unfoldable pub adapter_error_code : Error → String
adapter_error_code unknown_source = "unknown_source"
adapter_error_code provider_timeout = "provider_timeout"
adapter_error_code _ = "adapter_error"
