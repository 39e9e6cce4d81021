-- ===== src/Scheduler/Refresh.antt =====
-- `refresh_and_dispatch` of src/market_relay/domain/ingestion/scheduler_service.py. It reads the
-- catalog and the observations and writes jobs; an error of the database itself is not modelled.
use Prim.Native.String.{◌++◌}
use market_relay.Prelude.{
  ℕ, suc, ◌+◌, String, List, [], ◌∷◌, ◌++◌ as ◌<>◌, Bool, true, ◌&&◌, ◌||◌, Option, none, some,
  ◌==◌, if◌then◌else◌, leb, ltb, take, string_eq, nat_eq,
}
use market_relay.Table.{select_where, count_where}
use market_relay.Action.{Outcome, returned, raised, Error, attribute_error, ◌>>=◌}
use market_relay.Catalog.{
  AssetClass, equity, etf, fund, crypto, Catalog, Instrument, Listing, ExternalIdentity,
  get_listing, get_instrument,
}
use market_relay.Observations.Models.{ObservationType, eod_close, nav}
use market_relay.Observations.Store.{Observations, last_completed_session}
use market_relay.Planning.{MarketCalendarPort, RecoveryLimits}
use market_relay.Queue.{Jobs, EnqueueResult}
use market_relay.Ingestion.{adapter_error_code}
use market_relay.Ingestion.Cursor.{Codec}
use market_relay.Adapters.Routes.{Adapters, calendar_for}
use market_relay.Adapters.{historical, quota, get_port, get_calendar_for_listing}
use market_relay.Dispatch.{Target, DispatchResult, plan_and_enqueue}

abbrev pub default_credential_scope : String
default_credential_scope = "default"

abbrev pub observation_type_for : AssetClass → ObservationType
observation_type_for equity = eod_close
observation_type_for etf = eod_close
observation_type_for fund = nav
observation_type_for crypto = eod_close

pub record RefreshOutcome : Type 0 where
  pub listings_considered : ℕ
  pub jobs_enqueued : ℕ
  pub refresh_errors : List String

-- The adapters, the tables that are read, the identifiers of the rows that are enqueued for the identity with that number, and the clock.
pub record RefreshWorld (P : Type 0) : Type 0 where
  pub codec : Codec
  pub adapters : Adapters P
  pub catalog : Catalog
  pub observations : Observations
  pub uuid : ℕ → ℕ → ℕ
  pub utcnow : ℕ

abbrev pub is_open : ℕ → Option ℕ → Bool
is_open today none = true
is_open today (some valid_to) = leb today valid_to

abbrev pub is_identity_of : String → ℕ → ExternalIdentity → Bool
is_identity_of source today identity = identity.source == source && is_open today identity.valid_to

-- order_by(ExternalIdentity.listing_id, ExternalIdentity.valid_from)
abbrev pub identity_before : ExternalIdentity → ExternalIdentity → Bool
identity_before a b =
    ltb a.listing_id b.listing_id || (a.listing_id == b.listing_id && leb a.valid_from b.valid_from)

unfoldable pub insert_identity : ExternalIdentity → List ExternalIdentity → List ExternalIdentity
insert_identity a [] = a ∷ []
insert_identity a (b ∷ bs) =
    let rest = insert_identity a bs in if identity_before a b then a ∷ b ∷ bs else b ∷ rest

unfoldable pub sort_identities : List ExternalIdentity → List ExternalIdentity
unfolding insert_identity
sort_identities [] = []
sort_identities (a ∷ rows) = insert_identity a (sort_identities rows)

unfoldable pub identities_of : String → ℕ → ℕ → List ExternalIdentity → List ExternalIdentity
unfolding select_where sort_identities
identities_of source today max_listings_per_source rows =
    take max_listings_per_source (sort_identities (select_where (is_identity_of source today) rows))

abbrev pub target_of : AssetClass → Listing → ExternalIdentity → String → Target
target_of asset_class listing identity source = record {
  listing_id = listing.id;
  asset_class = asset_class;
  venue = listing.venue;
  mic = listing.mic;
  source = source;
  credential_scope = default_credential_scope;
  external_listing_id = identity.external_id;
  observation_type = observation_type_for asset_class;
}

abbrev pub nothing_refreshed : RefreshOutcome
nothing_refreshed = record { listings_considered = 0; jobs_enqueued = 0; refresh_errors = [] }

abbrev pub is_created : EnqueueResult → Bool
is_created result = result.created

abbrev pub waiting_created : Option EnqueueResult → ℕ
waiting_created none = 0
waiting_created (some result) = if result.created then 1 else 0

unfoldable pub created_by : DispatchResult → ℕ
unfolding count_where
created_by dispatch =
    count_where is_created dispatch.enqueued + waiting_created dispatch.waiting_job

-- f"{source}: {adapter_error_code(exc)}"
abbrev pub error_of : String → Error → List String
error_of source e = (source ++ ": " ++ adapter_error_code e) ∷ []

-- The outcome of the rest of a loop, and of what comes before it.
abbrev pub plus : RefreshOutcome → RefreshOutcome → RefreshOutcome
plus a b = record {
  listings_considered = a.listings_considered + b.listings_considered;
  jobs_enqueued = a.jobs_enqueued + b.jobs_enqueued;
  refresh_errors = a.refresh_errors <> b.refresh_errors;
}

-- After the `try`, for one identity that is considered.
unfoldable pub account : String → Outcome DispatchResult × Jobs → RefreshOutcome × Jobs
unfolding adapter_error_code created_by
account source (raised e, jobs) = (
  record { listings_considered = 1; jobs_enqueued = 0; refresh_errors = error_of source e },
  jobs,
)
account source (returned dispatch, jobs) = (
  record { listings_considered = 1; jobs_enqueued = created_by dispatch; refresh_errors = [] },
  jobs,
)

module _ {P : Type 0} (w : RefreshWorld P) where
  abbrev pub last_of_target : Target → Option ℕ
  last_of_target t =
      last_completed_session t.source t.credential_scope t.external_listing_id t.observation_type
        w.observations

  -- The two lookups of the `try` of a source.
  abbrev pub ports_of : String → Outcome P
  ports_of source = get_port historical source w.adapters.registry >>= λ _.
      get_port quota source w.adapters.registry

-- `today` is `now.date()`.
module _ {P : Type 0} (w : RefreshWorld P) (limits : Option RecoveryLimits) (now : ℕ) (today : ℕ)
    (waiting_retry_seconds : ℕ) where
  -- plan_and_enqueue, with what `get_calendar_for_listing` came to among its arguments.
  unfoldable pub dispatch_with :
      ℕ → Target → Outcome MarketCalendarPort → Jobs → Outcome DispatchResult × Jobs
  unfolding plan_and_enqueue last_completed_session
  dispatch_with i t (raised e) jobs = (raised e, jobs)
  dispatch_with i t (returned calendar) jobs =
      plan_and_enqueue w.codec calendar limits t (last_of_target w t) (w.uuid i) w.utcnow today now
        waiting_retry_seconds jobs

  -- The body of the `try`: a listing without an instrument would be an AttributeError.
  unfoldable pub dispatch_listing :
      ℕ
      → String
      → ExternalIdentity
      → Listing
      → Option Instrument
      → Jobs
      → Outcome DispatchResult × Jobs
  unfolding dispatch_with get_calendar_for_listing
  dispatch_listing i source identity listing none jobs = (raised attribute_error, jobs)
  dispatch_listing i source identity listing (some instrument) jobs =
      dispatch_with i (target_of instrument.asset_class listing identity source)
        (calendar_for w.adapters listing) jobs

  unfoldable pub consider :
      ℕ → String → ExternalIdentity → Option Listing → Jobs → RefreshOutcome × Jobs
  unfolding dispatch_listing account get_instrument
  consider i source identity none jobs =
      (record nothing_refreshed { listings_considered = 1 }, jobs)
  consider i source identity (some listing) jobs = account source (
      dispatch_listing i source identity listing (get_instrument listing.instrument_id w.catalog)
        jobs)

  -- The loop over the identities of a source; the number counts them.
  unfoldable pub consider_each : ℕ → String → List ExternalIdentity → Jobs → RefreshOutcome × Jobs
  unfolding consider get_listing
  consider_each i source [] jobs = (nothing_refreshed, jobs)
  consider_each i source (identity ∷ identities) jobs =
      let own = consider i source identity (get_listing identity.listing_id w.catalog) jobs in
      let rest = consider_each (suc i) source identities own.1 in (plus own.0 rest.0, rest.1)

  unfoldable pub refresh_source : ℕ → ℕ → String → Outcome P → Jobs → RefreshOutcome × Jobs
  unfolding consider_each identities_of adapter_error_code
  refresh_source max_listings_per_source i source (raised e) jobs =
      (record nothing_refreshed { refresh_errors = error_of source e }, jobs)
  refresh_source max_listings_per_source i source (returned port) jobs =
      consider_each i source
        (identities_of source today max_listings_per_source w.catalog.external_identities) jobs

  unfoldable pub refresh_from : ℕ → ℕ → List String → Jobs → RefreshOutcome × Jobs
  unfolding refresh_source get_port
  refresh_from max_listings_per_source i [] jobs = (nothing_refreshed, jobs)
  refresh_from max_listings_per_source i (source ∷ sources) jobs =
      let own = refresh_source max_listings_per_source i source (ports_of w source) jobs in
      let rest =
        refresh_from max_listings_per_source (i + own.0.listings_considered) sources own.1 in
      (plus own.0 rest.0, rest.1)

  unfoldable pub refresh_and_dispatch : ℕ → List String → Jobs → RefreshOutcome × Jobs
  unfolding refresh_from
  refresh_and_dispatch max_listings_per_source enabled_sources jobs =
      refresh_from max_listings_per_source 0 enabled_sources jobs
