-- ===== src/Api.antt =====
-- The routes of src/market_relay/api/routers/catalog.py, observations.py and status.py, with the
-- consumers of src/market_relay/api/app.py: each passes the guard of its scope first. The parsing of a
-- request and the form of a response are the framework's.
pub mod Guards
pub mod Range
use market_relay.Prelude.{
  ℕ, ◌+◌, ◌-◌, String, List, [], ◌∷◌, Bool, Option, none, some, if◌then◌else◌, ltb,
}
use market_relay.Governance.Credentials.{Text}
use market_relay.Governance.PolicyGate.{Decisions}
use market_relay.Action.{Outcome, returned, raised, http_exception, attribute_error, ◌>>=◌, Action}
use market_relay.Catalog.{
  AssetClass, Catalog, Instrument, Listing, ListingSearchCriteria, find_listings, get_instrument,
}
use market_relay.Catalog as CatalogService
use market_relay.Consumers.{require_scope}
use market_relay.Settings.{Settings, environment_value, build_consumer_credentials}
use market_relay.Observations.Models.{ObservationType}
use market_relay.Observations.Store.{Observations}
use market_relay.Queue.{Jobs}
use market_relay.Planning.{MarketCalendarPort}
use market_relay.Ingestion.Runner.{QuotaPort, and_then}
use market_relay.Scheduler.{SchedulerRun}
use market_relay.Metrics.{SchedulerMetricsSnapshot, collect_scheduler_metrics}
use market_relay.Adapters.{get_port, quota}
use market_relay.Adapters.Routes.{Adapters, calendar_for}
use market_relay.View.{
  World, ListingRef, ObservationOut, find_latest_observation, build_observation_range,
}
use market_relay.Status.{OperationalStatusOut, DataStatusOut, operational_status, data_status}

-- What the application holds and what a request's session reads.
pub record Application (P : Type 0) : Type 0 where
  pub environ : String → Option Text
  pub settings : Settings
  pub adapters : Adapters P
  pub catalog : Catalog
  pub observations : Observations
  pub decisions : Decisions
  pub jobs : Jobs

pub record InstrumentOut : Type 0 where
  pub instrument_id : ℕ
  pub asset_class : AssetClass
  pub name : String
  pub isin : Option String
  pub figi : Option String

pub record ListingOut : Type 0 where
  pub listing_id : ℕ
  pub instrument : InstrumentOut
  pub venue : String
  pub mic : Option String
  pub ticker : String
  pub currency : Text

pub record ObservationRangeResponse : Type 0 where
  pub listing_id : ℕ
  pub observation_type : ObservationType
  pub start : ℕ
  pub end : ℕ
  pub observations : List ObservationOut

abbrev pub max_range_days : ℕ
max_range_days = 366

-- `InstrumentOut.from_model` and `ListingOut.from_model`; a listing without its instrument, which the
-- foreign key excludes, would be an AttributeError.
unfoldable pub instrument_from_model : Instrument → InstrumentOut
instrument_from_model i = record {
  instrument_id = i.id;
  asset_class = i.asset_class;
  name = i.name;
  isin = i.isin;
  figi = i.figi;
}

unfoldable pub listing_from_model : Option Instrument → Listing → Outcome ListingOut
unfolding instrument_from_model
listing_from_model none l = raised attribute_error
listing_from_model (some i) l = returned (record {
  listing_id = l.id;
  instrument = instrument_from_model i;
  venue = l.venue;
  mic = l.mic;
  ticker = l.ticker;
  currency = l.currency;
})

abbrev pub or_not_found {ℓ} : {A : Type ℓ} → Option A → Outcome A
or_not_found none = raised (http_exception 404)
or_not_found (some a) = returned a

-- A listing with the asset class of its instrument.
abbrev pub ref_to : Instrument → Listing → ListingRef
ref_to i l = record { id = l.id; asset_class = i.asset_class; venue = l.venue; mic = l.mic }

abbrev pub ref_of : Option Instrument → Listing → Outcome ListingRef
ref_of none l = raised attribute_error
ref_of (some i) l = returned (ref_to i l)

module _ {P : Type 0} (app : Application P) where
  abbrev pub world_with : MarketCalendarPort → World
  world_with calendar = record {
    observations = app.observations;
    decisions = app.decisions;
    enabled_sources = app.settings.enabled_sources;
    calendar = calendar;
  }

  -- Depends(require_scope(...))
  abbrev pub guarded {ℓ} : {A : Type ℓ} → String → Option Text → Outcome A → Outcome A
  guarded scope authorization answer =
      require_scope app.environ (build_consumer_credentials app.settings.consumer_credentials) scope
        authorization
      >>= λ identity. answer

  unfoldable pub listing_out : Listing → Outcome ListingOut
  unfolding get_instrument listing_from_model
  listing_out l = listing_from_model (get_instrument l.instrument_id app.catalog) l

  -- [ListingOut.from_model(listing) for listing in listings]
  unfoldable pub listings_out : List Listing → Outcome (List ListingOut)
  unfolding listing_out
  listings_out [] = returned []
  listings_out (l ∷ ls) = do out ← listing_out l; outs ← listings_out ls; returned (out ∷ outs)

  unfoldable pub search_instruments :
      Option Text → ListingSearchCriteria → Outcome (List ListingOut)
  unfolding require_scope build_consumer_credentials listings_out find_listings
  search_instruments authorization criteria =
      guarded "catalog:read" authorization (listings_out (find_listings criteria app.catalog))

  unfoldable pub resolve_listing : ℕ → Outcome Listing
  unfolding CatalogService.get_listing
  resolve_listing listing_id = or_not_found (CatalogService.get_listing listing_id app.catalog)

  unfoldable pub get_listing_route : Option Text → ℕ → Outcome ListingOut
  unfolding require_scope build_consumer_credentials listing_out resolve_listing
  get_listing_route authorization listing_id =
      guarded "catalog:read" authorization (resolve_listing listing_id >>= listing_out)

  abbrev pub listing_ref : Listing → Outcome ListingRef
  listing_ref l = ref_of (get_instrument l.instrument_id app.catalog) l

  unfoldable pub latest_observation : Option Text → ℕ → ObservationType → ℕ → Outcome ObservationOut
  unfolding require_scope build_consumer_credentials resolve_listing find_latest_observation
  latest_observation authorization listing_id type today =
      guarded "observations:read" authorization (do
        listing ← resolve_listing listing_id
        calendar ← calendar_for app.adapters listing
        ref ← listing_ref listing
        find_latest_observation (world_with calendar) ref type today)

  abbrev pub check_range : ℕ → ℕ → Outcome (Unit {0})
  check_range start end =
      if ltb end start
      then raised (http_exception 422)
      else if ltb max_range_days (end - start)
      then raised (http_exception 422)
      else returned tt

  unfoldable pub range_response : ℕ → ℕ → ℕ → ObservationType → Outcome ObservationRangeResponse
  unfolding resolve_listing build_observation_range
  range_response listing_id start end type = do
    listing ← resolve_listing listing_id
    calendar ← calendar_for app.adapters listing
    ref ← listing_ref listing
    observations ← build_observation_range (world_with calendar) ref type start end
    returned (record {
      listing_id = listing_id;
      observation_type = type;
      start = start;
      «end» = end;
      observations = observations;
    })

  unfoldable pub observation_range :
      Option Text → ℕ → ℕ → ℕ → ObservationType → Outcome ObservationRangeResponse
  unfolding require_scope build_consumer_credentials range_response
  observation_range authorization listing_id start end type =
      guarded "observations:read" authorization
        (check_range start end >>= λ ok. range_response listing_id start end type)

  unfoldable pub operational_status_route : Option Text → ℕ → Outcome OperationalStatusOut
  unfolding require_scope build_consumer_credentials operational_status
  operational_status_route authorization now = guarded "operations:read" authorization (
      returned (
        operational_status (environment_value app.settings.environment)
          app.settings.stalled_job_threshold_seconds now app.jobs))

  unfoldable pub data_status_route : Option Text → ℕ → ObservationType → ℕ → Outcome DataStatusOut
  unfolding require_scope build_consumer_credentials resolve_listing data_status
  data_status_route authorization listing_id type today = guarded "catalog:read" authorization (do
    listing ← resolve_listing listing_id
    ref ← listing_ref listing
    data_status world_with ref (calendar_for app.adapters listing) type today)

-- `scheduler_metrics`, over the runs and what the quota adapters keep.
module _ {P S : Type 0} (app : Application P) (quota_of : P → QuotaPort S)
    (runs : List SchedulerRun) where
  abbrev quota_port_of : String → Outcome (QuotaPort S)
  quota_port_of source =
      get_port quota source app.adapters.registry >>= λ adapter. returned (quota_of adapter)

  unfoldable pub scheduler_metrics : Option Text → ℕ → Action S SchedulerMetricsSnapshot
  unfolding require_scope build_consumer_credentials get_port collect_scheduler_metrics
  scheduler_metrics authorization now =
      and_then
        (λ s. (
          require_scope app.environ (build_consumer_credentials app.settings.consumer_credentials)
              "operations:metrics" authorization,
          s,
        ))
        (λ identity s.
          let r =
            collect_scheduler_metrics quota_port_of now app.settings.stalled_job_threshold_seconds
              app.settings.enabled_sources app.jobs runs s in
          (returned r.0, r.1))

-- The requests of the API, and what answers them.
pub data Request : Type 0 where
  search_request : ListingSearchCriteria → Request
  listing_request : ℕ → Request
  latest_request : ℕ → ObservationType → Request
  range_request : ℕ → ℕ → ℕ → ObservationType → Request
  operations_request : Request
  metrics_request : Request
  data_status_request : ℕ → ObservationType → Request

pub data Response : Type 0 where
  search_response : List ListingOut → Response
  listing_response : ListingOut → Response
  latest_response : ObservationOut → Response
  range_response_of : ObservationRangeResponse → Response
  operations_response : OperationalStatusOut → Response
  metrics_response : SchedulerMetricsSnapshot → Response
  data_status_response : DataStatusOut → Response

abbrev pub scope_of : Request → String
scope_of (search_request criteria) = "catalog:read"
scope_of (listing_request listing_id) = "catalog:read"
scope_of (latest_request listing_id type) = "observations:read"
scope_of (range_request listing_id start end type) = "observations:read"
scope_of operations_request = "operations:read"
scope_of metrics_request = "operations:metrics"
scope_of (data_status_request listing_id type) = "catalog:read"

abbrev pub as_response {ℓ} : {A : Type ℓ} → (A → Response) → Outcome A → Outcome Response
as_response f m = m >>= λ a. returned (f a)

-- The routers of the API: at an instant, on its date. The metrics ask the quota adapters.
module _ {P S : Type 0} (app : Application P) (quota_of : P → QuotaPort S)
    (runs : List SchedulerRun) (now today : ℕ) where
  unfoldable pub respond : Option Text → Request → Action S Response
  unfolding search_instruments get_listing_route latest_observation observation_range
      operational_status_route data_status_route scheduler_metrics
  respond authorization (search_request criteria) s =
      (as_response search_response (search_instruments app authorization criteria), s)
  respond authorization (listing_request listing_id) s =
      (as_response listing_response (get_listing_route app authorization listing_id), s)
  respond authorization (latest_request listing_id type) s =
      (as_response latest_response (latest_observation app authorization listing_id type today), s)
  respond authorization (range_request listing_id start end type) s = (
    as_response range_response_of (observation_range app authorization listing_id start end type),
    s,
  )
  respond authorization operations_request s =
      (as_response operations_response (operational_status_route app authorization now), s)
  respond authorization metrics_request s =
      let r = scheduler_metrics app quota_of runs authorization now s in
      (as_response metrics_response r.0, r.1)
  respond authorization (data_status_request listing_id type) s = (
    as_response data_status_response (data_status_route app authorization listing_id type today),
    s,
  )
