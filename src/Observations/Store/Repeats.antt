-- ===== src/Observations/Store/Repeats.antt =====
-- Recording an input again, and a price that is a NaN.
use market_relay.Prelude.{
  ℕ, [], ◌∷◌, ◌++◌, Bool, true, false, ◌||◌, ◌&&◌, Option, none, some, ◌≡◌, refl, ◌∙◌, nat_eq,
  string_eq, arith,
}
use market_relay.Decimals.{Decimal, finite, infinity, nan, is_nan, decimal_beq, option_decimal_beq}
use market_relay.Action.{returned}
use market_relay.Observations.Models.{
  Observation, ObservationInput, observation_type_eq, quality_eq,
}
use market_relay.Observations.Store.{
  Observations, key_of_input, current_for_key, same_value, next_revision, candidate, to_numeric,
  option_to_numeric, is_current, is_some, record_observation,
}
use market_relay.Observations.Store.Recording.{quiet_attempt}

abbrev option_is_nan : Option Decimal → Bool
option_is_nan none = false
option_is_nan (some v) = is_nan v

-- Some price of the input is a NaN.
abbrev pub has_nan : ObservationInput → Bool
has_nan d =
    is_nan d.close
    || (option_is_nan d.«open»
        || (option_is_nan d.high || (option_is_nan d.low || option_is_nan d.adjusted_close)))

-- Every price of the input is stored as it is: the columns keep its value, and it is no NaN.
abbrev pub keeps_prices : ObservationInput → Bool
keeps_prices d =
    decimal_beq (to_numeric d.close) d.close
    && (option_decimal_beq (option_to_numeric d.«open») d.«open»
        && (option_decimal_beq (option_to_numeric d.high) d.high
            && (option_decimal_beq (option_to_numeric d.low) d.low
                && option_decimal_beq (option_to_numeric d.adjusted_close) d.adjusted_close)))

equal_is_number : (a v : Decimal) → is_nan v ≡ true → decimal_beq a v ≡ false
unfolding decimal_beq
equal_is_number (finite m c s) nan h = refl
equal_is_number (infinity m) nan h = refl
equal_is_number nan nan h = refl
equal_is_number a (finite n d t) h = cc
equal_is_number a (infinity n) h = cc

equal_option_is_number :
    (o v : Option Decimal) → option_is_nan v ≡ true → option_decimal_beq o v ≡ false
equal_option_is_number o none h = cc
equal_option_is_number none (some v) h = refl
equal_option_is_number (some a) (some v) h = equal_is_number a v h

nan_is_new :
    (o : Option Observation) (d : ObservationInput) → has_nan d ≡ true → is_current o d ≡ none
unfolding same_value
nan_is_new none d h = refl
nan_is_new (some row) d h = ground (
  arith,
  h,
  equal_is_number row.close d.close,
  equal_option_is_number row.«open» d.«open»,
  equal_option_is_number row.high d.high,
  equal_option_is_number row.low d.low,
  equal_option_is_number row.adjusted_close d.adjusted_close,
)

-- A NaN price is never recognised as stored already: whatever the history, each time such an input
-- is recorded a new row with the next revision is added.
record-nan_duplicates :
    (uuid utcnow : ℕ) (d : ObservationInput) (rows : Observations)
    → has_nan d ≡ true
    → let current = current_for_key (key_of_input d) rows in
      let new_row = candidate uuid utcnow (next_revision current) d in
      record_observation [] uuid utcnow d rows ≡ (
        returned
            (record { observation = new_row; created = true; is_correction = is_some current }),
        rows ++ new_row ∷ [],
      )
unfolding record_observation
record-nan_duplicates uuid utcnow d rows h =
    quiet_attempt 7 uuid utcnow [] d rows refl
    ∙ rw (nan_is_new (current_for_key (key_of_input d) rows) d h) refl
