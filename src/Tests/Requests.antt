-- ===== src/Tests/Requests.antt =====
-- Requests to the API and to the catalog.
use market_relay.Prelude.{
  ℕ, List, [], ◌∷◌, ◌++◌, Option, none, some, true, ◌≡◌, ◌⊎◌, inl, refl, arith, String, All, Bool,
}
use market_relay.Action.{returned, raised, type_error, http_exception, no_eligible_observation}
use market_relay.Governance.Credentials.{Text, codes}
use market_relay.Consumers.{
  ConsumerCredential, ConsumerIdentity, require_scope, extract_bearer_token, has_scope,
  bearer_prefix, is_ascii,
}
use market_relay.Consumers.Authentication.{IsGranted, require_scope-IsGranted}
use market_relay.Consumers.Rejections.{require_scope-non_ascii}
use market_relay.Catalog.{Catalog, Instrument, ListingSearchCriteria, equity}
use market_relay.Observations.Models.{Observation, eod_close}
use market_relay.Observations.Selection.{SelectionResult, SourcePriorityPolicy, select}
use market_relay.Observations.Selection.Publishable.{IsAllowed, select-publishable}
use market_relay.Observations.Selection.Choice.{select-exact, IsChoice, IsAbsent}
use market_relay.Planning.{MarketCalendarPort, SessionExpectation}
use market_relay.View.{
  World, ListingRef, ObservationOut, build_observation_out, find_latest_observation,
  session_expectation,
}
use market_relay.View.Values.{IsHonest}
use market_relay.View.Totality.{
  CalendarAnswers, IsLatest, build_observation_out-IsHonest, find_latest_observation-IsLatest,
}
use market_relay.Tests.Data.{stored, approvals}

abbrev environ : String → Option Text
environ name = some (codes "s3cret")

abbrev credentials : List ConsumerCredential
credentials = record { consumer_id = "holdria"; env_var = "KEY"; scopes = "catalog:read" ∷ [] } ∷ []

abbrev holdria : ConsumerIdentity
holdria = record { consumer_id = "holdria"; scopes = "catalog:read" ∷ [] }

let_through :
    require_scope environ credentials "catalog:read" (some (codes "Bearer s3cret"))
    ≡ returned holdria
unfolding require_scope
let_through = refl

require_scope-IsGranted_example :
    IsGranted environ (codes "s3cret") credentials holdria
    × (has_scope holdria "catalog:read" ≡ true)
unfolding extract_bearer_token
require_scope-IsGranted_example =
    require_scope-IsGranted environ credentials "catalog:read" (some (codes "Bearer s3cret"))
      holdria let_through

require_scope-non_ascii_example :
    require_scope environ credentials "catalog:read" (some (bearer_prefix ++ 233 ∷ []))
    ≡ raised type_error
unfolding is_ascii require_scope
require_scope-non_ascii_example =
    require_scope-non_ascii environ credentials "catalog:read" (233 ∷ []) refl
      (inl (codes "s3cret", refl))

wrong_key :
    require_scope environ credentials "catalog:read" (some (codes "Bearer guess"))
    ≡ raised (http_exception 401)
unfolding require_scope
wrong_key = refl

wrong_scope :
    require_scope environ credentials "operations:metrics" (some (codes "Bearer s3cret"))
    ≡ raised (http_exception 403)
unfolding require_scope
wrong_scope = refl

abbrev sap : Instrument
sap = record {
  id = 1;
  asset_class = equity;
  name = "SAP SE";
  isin = some "DE0007164600";
  figi = none;
}

abbrev catalog : Catalog
catalog = record { instruments = sap ∷ []; listings = []; external_identities = [] }

abbrev by_isin : ListingSearchCriteria
by_isin = record {
  isin = some "DE0007164600";
  figi = none;
  ticker = none;
  mic = none;
  venue = none;
  currency = none;
  asset_class = none;
}

abbrev IsStoredRow : Observation → Type 0
IsStoredRow row = row.revision ≡ 1

abbrev may_show : String → Bool
may_show source = true

abbrev policy : SourcePriorityPolicy
policy = record { name = "configured-sources"; ordered_sources = "other" ∷ "fake" ∷ [] }

abbrev selection : SelectionResult
selection = record { selected = stored; policy_name = "configured-sources"; alternatives = [] }

selects : select may_show 7 20 eod_close policy (stored ∷ []) ≡ returned selection
unfolding select
selects = refl

select-publishable_example :
    IsAllowed IsStoredRow may_show 7 20 eod_close stored
    × All (IsAllowed IsStoredRow may_show 7 20 eod_close) []
select-publishable_example =
    select-publishable IsStoredRow may_show 7 20 eod_close policy (stored ∷ []) selection (refl, tt)
      selects

select-exact_example :
    ((r : SelectionResult) × (select may_show 7 20 eod_close policy (stored ∷ []) ≡ returned r)
      × IsChoice may_show 7 20 eod_close (stored ∷ []) ("other" ∷ "fake" ∷ []) r.selected)
    ⊎ ((select may_show 7 20 eod_close policy (stored ∷ []) ≡ raised no_eligible_observation)
        × All (IsAbsent may_show 7 20 eod_close (stored ∷ [])) ("other" ∷ "fake" ∷ []))
select-exact_example = select-exact may_show 7 20 eod_close policy (stored ∷ [])

abbrev calendar : MarketCalendarPort
calendar asset_class venue mic start end =
    returned (record { session_date = start; expectation = SessionExpectation.no_session } ∷ [])

abbrev world : World
world = record {
  observations = stored ∷ [];
  decisions = approvals;
  enabled_sources = "fake" ∷ [];
  calendar = calendar;
}

abbrev listing : ListingRef
listing = record { id = 7; asset_class = equity; venue = "XETR"; mic = none }

classifies : (d : ℕ) → CalendarAnswers world listing d
unfolding session_expectation
classifies d = (SessionExpectation.no_session, refl)

build_observation_out-IsHonest_example :
    (out : ObservationOut) × (build_observation_out world listing 20 eod_close ≡ returned out)
    × IsHonest IsStoredRow world listing eod_close 20 out
build_observation_out-IsHonest_example =
    build_observation_out-IsHonest IsStoredRow world listing eod_close 20 (refl, tt) (classifies 20)

find_latest_observation-IsLatest_example :
    (out : ObservationOut) × (find_latest_observation world listing eod_close 23 ≡ returned out)
    × IsLatest world listing eod_close IsStoredRow 23 out
find_latest_observation-IsLatest_example =
    find_latest_observation-IsLatest IsStoredRow world listing eod_close 23 (refl, tt) (omega arith)
      (λ d le. classifies d)
