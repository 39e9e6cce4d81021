-- ===== src/Tests/Recordings.antt =====
-- Observations that are recorded, again and against other writers, and what is then planned.
use market_relay.Prelude.{
  ℕ, map, ◌≤◌, ◌<◌, List, [], ◌∷◌, ◌++◌, none, some, false, ◌≡◌, ◌⊎◌, refl, arith, if◌then◌else◌,
}
use market_relay.Action.{returned, raised, malformed_observation, overflow_error}
use market_relay.Governance.Credentials.{codes}
use market_relay.Decimals.{finite, decimal_beq}
use market_relay.Catalog.{fund}
use market_relay.Observations.Models.{Observation, ObservationInput, eod_close}
use market_relay.Observations.Store.{
  Observations, RecordOutcome, record_observation, record_attempts, current_for_key, key_of_input,
  next_revision, candidate, taken, same_value, upper,
}
use market_relay.Observations.Store.Recording.{record-alone}
use market_relay.Observations.Store.Races.{record-append_only}
use market_relay.Planning.{
  MarketCalendarPort, RecoveryLimits, RecoveryPlan, SessionCheck, expected_published,
  waiting_for_publication, no_session, plan, nothing_to_plan, max_ordinal,
}
use market_relay.Planning.Plans.{IsPlan, IsStart, LeavesRange, plan-IsPlan}
use market_relay.Ingestion.{RawObservation, validate_raw_observation}
use market_relay.Ingestion.Validation.{validate_raw_observation-exact, is_wanted}
use market_relay.Tests.Data.{input_at, stored, ten}

abbrev eleven_input : Observation
eleven_input = candidate 60 70 2 (input_at (finite false 11 0))

record-alone_example :
    (o : RecordOutcome) × ((record_observation [] 60 70 (input_at ten) (stored ∷ [])).0
      ≡ returned o)
    × ((record_observation [] 60 70 (input_at ten) (stored ∷ [])).1
        ≡ (stored ∷ []) ++ (if o.created then o.observation ∷ [] else []))
    × (current_for_key
          (key_of_input (input_at ten))
          (record_observation [] 60 70 (input_at ten) (stored ∷ [])).1
        ≡ some o.observation)
    × ((o.created ≡ false)
        ⊎ (o.observation.revision
            ≡ next_revision (current_for_key (key_of_input (input_at ten)) (stored ∷ []))))
record-alone_example = record-alone 60 70 (input_at ten) (stored ∷ [])

-- 1.234567891 is stored as 1.23456789, is not recognised, and is stored again.
abbrev nine_decimals : ObservationInput
nine_decimals = input_at (finite false 1_234_567_891 9)

abbrev rounded_twice : Observations
rounded_twice =
    (record_observation [] 61 71 nine_decimals (record_observation [] 60 70 nine_decimals []).1).1

rounded :
    map (λ (row : Observation). row.close) rounded_twice
    ≡ finite false 123_456_789 8 ∷ finite false 123_456_789 8 ∷ []
unfolding record_observation candidate current_for_key taken same_value decimal_beq upper
rounded = refl

-- The race for revision 1 is lost to another writer, and the correction gets revision 2.
lost_race :
    (record_observation ((stored ∷ []) ∷ []) 60 70 (input_at (finite false 11 0)) []).1
    ≡ stored ∷ eleven_input ∷ []
unfolding record_observation candidate current_for_key taken same_value decimal_beq upper
lost_race = refl

record-append_only_example :
    (extra : Observations) × ((record_attempts 8
        ((stored ∷ []) ∷ [])
        60
        70
        (input_at (finite false 11 0))
        []).1
      ≡ [] ++ extra)
record-append_only_example =
    record-append_only 8 ((stored ∷ []) ∷ []) 60 70 (input_at (finite false 11 0)) []

abbrev week : List SessionCheck
week =
    record { session_date = 102; expectation = expected_published }
    ∷ record { session_date = 101; expectation = no_session }
    ∷ record { session_date = 103; expectation = waiting_for_publication }
    ∷ []

abbrev calendar : MarketCalendarPort
calendar asset_class venue mic start end = returned week

abbrev limits : RecoveryLimits
limits = record { max_lookback_days = 30; max_sessions_per_chunk = 2 }

plan-IsPlan_example :
    let out = plan calendar limits fund "XETR" none (some 100) 103 in
    ((out ≡ raised overflow_error) × LeavesRange limits (some 100) 103)
    ⊎ ((start : ℕ) × IsStart limits (some 100) 103 start
        × (((103 < start) × (out ≡ returned (nothing_to_plan (some 100))))
            ⊎ ((start ≤ 103)
                × ((p : RecoveryPlan) × (out ≡ returned p) × IsPlan limits (some 100) week p))))
plan-IsPlan_example =
    plan-IsPlan calendar 30 1 fund "XETR" none (some 100) 103 (λ start. week)
      (λ start begins le. (refl, omega arith))

-- The listing is up to date, and the last session is the last date.
up_to_date :
    plan calendar limits fund "XETR" none (some 103) 103 ≡ returned (nothing_to_plan (some 103))
unfolding plan
up_to_date = refl

last_date : plan calendar limits fund "XETR" none (some max_ordinal) 103 ≡ raised overflow_error
unfolding plan
last_date = refl

abbrev raw_row : RawObservation
raw_row = record {
  external_listing_id = "X";
  session_date = 20;
  observation_type = eod_close;
  currency = codes "EUR";
  close = ten;
  «open» = none;
  high = none;
  low = none;
  adjusted_close = none;
}

validate_raw_observation-exact_example :
    validate_raw_observation raw_row "X" 21 30 ≡ raised malformed_observation
unfolding is_wanted
validate_raw_observation-exact_example = validate_raw_observation-exact raw_row "X" 21 30 refl
