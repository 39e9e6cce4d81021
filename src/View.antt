-- ===== src/View.antt =====
-- src/market_relay/api/services/observation_view.py: what the API answers about observations.
-- Of the settings only the list of enabled sources is read; the calendar is a parameter.
pub mod Values
pub mod Range
pub mod Totality
use market_relay.Prelude.{
  ℕ, zero, suc, ◌+◌, ◌-◌, String, List, [], ◌∷◌, ◌++◌, Bool, true, false, ◌&&◌, Option, none, some,
  if◌then◌else◌, ◌==◌, nat_eq, string_eq, is_in, leb,
}
use Prim.Native.String.{◌++◌ as ◌<>◌}
use market_relay.Table.{select_where, max_of}
use market_relay.Governance.Credentials.{Text}
use market_relay.Governance.PolicyGate.{Decisions, is_publication_authorized, requires_attribution}
use market_relay.Action.{
  Error, Outcome, returned, raised, no_eligible_observation, index_error, ◌>>=◌,
}
use market_relay.Decimals.{Decimal}
use market_relay.Catalog.{AssetClass}
use market_relay.Planning.{
  MarketCalendarPort, SessionCheck, SessionExpectation, minus_days, next_day,
}
use market_relay.Observations.Models.{Observation, ObservationType, observation_type_eq}
use market_relay.Observations.Store.{Observations, session_of}
use market_relay.Observations.Selection.{
  SourcePriorityPolicy, SelectionResult, has_discrepancy, select,
}

pub data ObservationAvailability : Type 0 where
  ok no_session waiting_for_publication unavailable : ObservationAvailability

pub record ObservationValueOut : Type 0 where
  pub observation_type : ObservationType
  pub currency : Text
  pub close : Decimal
  pub source : String
  pub revision : ℕ
  pub retrieved_at : ℕ
  pub requires_attribution : Bool
  pub attribution : Option String
  pub has_discrepancy : Bool

pub record ObservationOut : Type 0 where
  pub listing_id : ℕ
  pub session_date : ℕ
  pub availability : ObservationAvailability
  pub value : Option ObservationValueOut

-- The listing that is asked about, with the asset class of its instrument.
pub record ListingRef : Type 0 where
  pub id : ℕ
  pub asset_class : AssetClass
  pub venue : String
  pub mic : Option String

-- What the functions below share: the database's tables, the settings and the calendar.
pub record World : Type 0 where
  pub observations : Observations
  pub decisions : Decisions
  pub enabled_sources : List String
  pub calendar : MarketCalendarPort

abbrev pub availability_by_expectation : SessionExpectation → ObservationAvailability
availability_by_expectation SessionExpectation.no_session = no_session
availability_by_expectation SessionExpectation.waiting_for_publication = waiting_for_publication
availability_by_expectation SessionExpectation.expected_published = unavailable

unfoldable pub priority_policy : List String → SourcePriorityPolicy
priority_policy enabled_sources = record {
  name = "configured-sources";
  ordered_sources = enabled_sources;
}

abbrev pub first_expectation : List SessionCheck → Outcome SessionExpectation
first_expectation [] = raised index_error
first_expectation (c ∷ cs) = returned c.expectation

unfoldable pub session_expectation :
    MarketCalendarPort → ListingRef → ℕ → Outcome SessionExpectation
session_expectation calendar listing session_date =
    calendar listing.asset_class listing.venue listing.mic session_date session_date
    >>= first_expectation

unfoldable pub attribution_for : Decisions → String → Bool × Option String
unfolding requires_attribution
attribution_for decisions source =
    let requires = requires_attribution source decisions in
    (requires, if requires then some (("Source: " <> source) <> ".") else none)

unfoldable pub value_out : Decisions → SelectionResult → ObservationValueOut
unfolding attribution_for has_discrepancy
value_out decisions result =
    let observation = result.selected in
    let (requires, attribution) = attribution_for decisions observation.source in
    record {
      observation_type = observation.observation_type;
      currency = observation.currency;
      close = observation.close;
      source = observation.source;
      revision = observation.revision;
      retrieved_at = observation.retrieved_at;
      requires_attribution = requires;
      attribution = attribution;
      has_discrepancy = has_discrepancy result;
    }

abbrev pub absent_out : ListingRef → ℕ → SessionExpectation → ObservationOut
absent_out listing session_date expectation = record {
  listing_id = listing.id;
  session_date = session_date;
  availability = availability_by_expectation expectation;
  value = none;
}

abbrev pub present_out : ListingRef → ℕ → ObservationValueOut → ObservationOut
present_out listing session_date value = record {
  listing_id = listing.id;
  session_date = session_date;
  availability = ok;
  value = some value;
}

-- The value of the `try`, and its handler.
unfoldable pub answer : World → ListingRef → ℕ → Outcome SelectionResult → Outcome ObservationOut
unfolding session_expectation value_out
answer w listing session_date (returned result) =
    returned (present_out listing session_date (value_out w.decisions result))
answer w listing session_date (raised no_eligible_observation) = do
  expectation ← session_expectation w.calendar listing session_date
  returned (absent_out listing session_date expectation)
answer w listing session_date (raised e) = raised e

abbrev pub authorized_in : World → String → Bool
authorized_in w source = is_publication_authorized source w.decisions

unfoldable pub build_observation_out :
    World → ListingRef → ℕ → ObservationType → Outcome ObservationOut
unfolding answer select priority_policy is_publication_authorized
build_observation_out w listing session_date type = answer w listing session_date (
    select (authorized_in w) listing.id session_date type (priority_policy w.enabled_sources)
      w.observations)

abbrev pub is_ok : ObservationAvailability → Bool
is_ok ok = true
is_ok no_session = false
is_ok waiting_for_publication = false
is_ok unavailable = false

abbrev pub latest_lookback_days : ℕ
latest_lookback_days = 10

-- The loop over the offsets; the first number is the rounds left.
unfoldable pub look_back : ℕ → ℕ → World → ListingRef → ObservationType → ℕ → Outcome ObservationOut
unfolding build_observation_out minus_days
look_back zero offset w listing type today = build_observation_out w listing today type
look_back (suc rounds) offset w listing type today = do
  candidate_date ← minus_days today offset
  out ← build_observation_out w listing candidate_date type
  let earlier = look_back rounds (offset + 1) w listing type today
  if is_ok out.availability then returned out else earlier

unfoldable pub find_latest_observation :
    World → ListingRef → ObservationType → ℕ → Outcome ObservationOut
unfolding look_back
find_latest_observation w listing type today =
    look_back (latest_lookback_days + 1) 0 w listing type today

abbrev pub is_publishable_row : World → ListingRef → ObservationType → Observation → Bool
is_publishable_row w listing type row =
    row.listing_id == listing.id
    && (row.observation_type == type
        && is_in row.source (select_where (authorized_in w) w.enabled_sources))

-- The early return for no authorized source is kept beside the query, which then finds nothing.
unfoldable pub latest_publishable_session_date : World → ListingRef → ObservationType → Option ℕ
unfolding max_of select_where is_publication_authorized
latest_publishable_session_date w listing type =
    elim (select_where (authorized_in w) w.enabled_sources) [
      | [] ↦ none
      | source ∷ sources ↦
          max_of session_of (select_where (is_publishable_row w listing type) w.observations)
    ]

-- The loop over the dates; the number is the rounds left, which the dates of the range bound.
unfoldable pub range_loop :
    ℕ → World → ListingRef → ObservationType → ℕ → ℕ → Outcome (List ObservationOut)
unfolding build_observation_out next_day
range_loop zero w listing type current end = returned []
range_loop (suc rounds) w listing type current end =
    if leb current end
    then (do
      out ← build_observation_out w listing current type
      next ← next_day current
      rest ← range_loop rounds w listing type next end
      returned (out ∷ rest))
    else returned []

unfoldable pub build_observation_range :
    World → ListingRef → ObservationType → ℕ → ℕ → Outcome (List ObservationOut)
unfolding range_loop
build_observation_range w listing type start end =
    range_loop (end + 1 - start) w listing type start end
