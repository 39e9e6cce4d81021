-- ===== src/Status.antt =====
-- src/market_relay/api/routers/status.py, after the guard of its routes, with the answers of
-- src/market_relay/api/schemas.py. Instants and ages are microseconds; the threshold and the age
-- that is answered are seconds.
use Prim.Native.Nat.{◌/◌}
use market_relay.Prelude.{ℕ, String, Bool, false, Option, none, some, ℤ, pos, negsuc, ltb}
use market_relay.Action.{Outcome, returned, ◌>>=◌}
use market_relay.Queue.{Jobs}
use market_relay.Queue.Counts.{depth}
use market_relay.Queue.Ages.{oldest_pending_age_seconds, microseconds}
use market_relay.Planning.{MarketCalendarPort}
use market_relay.Observations.Models.{ObservationType}
use market_relay.View.{
  World, ListingRef, is_ok, find_latest_observation, latest_publishable_session_date,
}

pub record OperationalStatusOut : Type 0 where
  pub environment : String
  pub pending_jobs : ℕ
  pub oldest_pending_seconds : Option ℕ
  pub stalled : Bool

-- max(int(age), 0)
abbrev pub at_least_zero : ℤ → ℕ
at_least_zero (pos n) = n / microseconds
at_least_zero (negsuc n) = 0

abbrev pub whole_age : Option ℤ → Option ℕ
whole_age none = none
whole_age (some age) = some (at_least_zero age)

abbrev pub is_over : ℕ → Option ℕ → Bool
is_over threshold none = false
is_over threshold (some seconds) = ltb threshold seconds

unfoldable pub operational_status : String → ℕ → ℕ → Jobs → OperationalStatusOut
unfolding depth oldest_pending_age_seconds
operational_status environment stalled_job_threshold_seconds now jobs =
    let oldest_pending_seconds = whole_age (oldest_pending_age_seconds now jobs) in
    record {
      environment = environment;
      pending_jobs = depth none jobs;
      oldest_pending_seconds = oldest_pending_seconds;
      stalled = is_over stalled_job_threshold_seconds oldest_pending_seconds;
    }

pub record DataStatusOut : Type 0 where
  pub listing_id : ℕ
  pub observation_type : ObservationType
  pub last_effective_date : Option ℕ
  pub has_publishable_data : Bool

-- After the listing was found. What the route of its calendar comes to is given, and the world with
-- the calendar that was routed to.
unfoldable pub data_status :
    (MarketCalendarPort → World)
    → ListingRef
    → Outcome MarketCalendarPort
    → ObservationType
    → ℕ
    → Outcome DataStatusOut
unfolding latest_publishable_session_date find_latest_observation
data_status world listing route type today = do
  calendar ← route
  let w = world calendar
  latest ← find_latest_observation w listing type today
  returned (record {
    listing_id = listing.id;
    observation_type = type;
    last_effective_date = latest_publishable_session_date w listing type;
    has_publishable_data = is_ok latest.availability;
  })
