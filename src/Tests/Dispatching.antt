-- ===== src/Tests/Dispatching.antt =====
-- A listing with one session to fetch and one that waits for its publication.
use market_relay.Prelude.{ℕ, [], ◌∷◌, none, some}
use market_relay.Action.{returned}
use market_relay.Catalog.{fund}
use market_relay.Queue.{Jobs}
use market_relay.Observations.Models.{nav}
use market_relay.Planning.{MarketCalendarPort, expected_published, waiting_for_publication}
use market_relay.Dispatch.{Target, plan_and_enqueue}
use market_relay.Tests.Ingesting.{codec}

abbrev target : Target
target = record {
  listing_id = 7;
  asset_class = fund;
  venue = "XETRA";
  mic = none;
  source = "fake";
  credential_scope = "default";
  external_listing_id = "X";
  observation_type = nav;
}

abbrev calendar : MarketCalendarPort
calendar asset_class venue mic start end = returned (
    record { session_date = start; expectation = expected_published }
    ∷ record { session_date = end; expectation = waiting_for_publication }
    ∷ [])

abbrev counted : ℕ → ℕ
counted i = i

abbrev stored_jobs : Jobs
stored_jobs = (plan_and_enqueue codec calendar none target (some 798) counted 5 800 5 60 []).1
