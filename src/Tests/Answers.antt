-- ===== src/Tests/Answers.antt =====
-- Requests to the application, its settings and its metrics.
use market_relay.Prelude.{
  ℕ, ◌+◌, ◌-◌, ◌≤◌, String, [], ◌∷◌, true, false, none, some, Option, ◌≡◌, ◌⊎◌, refl, arith, pos,
  if◌then◌else◌, ◌==◌, string_eq, length,
}
use market_relay.Governance.Credentials.{Text, codes}
use market_relay.Action.{Error, Outcome, returned, raised, http_exception, unknown_source}
use market_relay.Catalog.{equity, get_listing, get_instrument}
use market_relay.Queue.{Jobs}
use market_relay.Consumers.{ConsumerIdentity, has_scope, extract_bearer_token, require_scope}
use market_relay.Consumers.Authentication.{IsGrantedFor}
use market_relay.Observations.Models.{Observation, eod_close}
use market_relay.View.{ListingRef}
use market_relay.View.Range.{Answers, dates_from}
use market_relay.Ingestion.Runner.{QuotaPort}
use market_relay.Settings.{
  default_settings, validate, build_consumer_credentials, ConsumerCredentialConfig,
}
use market_relay.Adapters.{view_set, get_calendar_for_listing}
use market_relay.Adapters.Fake.{QuotaBook, sessions_in_range, quota_port}
use market_relay.Adapters.Fake.Sessions.{fake-CalendarAnswers}
use market_relay.Metrics.{collect_scheduler_metrics}
use market_relay.Metrics.Agreement.{collect_scheduler_metrics-operational_status, is_empty}
use market_relay.Status.{operational_status, whole_age}
use market_relay.Api.{
  Application, Request, Response, ObservationRangeResponse, listing_request, range_request,
  metrics_request, respond, observation_range, world_with,
}
use market_relay.Api.Guards.{guard, respond-IsGrantedFor}
use market_relay.Api.Range.{InRange, observation_range-Answers}
use market_relay.Tests.Data.{first_job, second_job, stored, approvals}
use market_relay.Tests.Providers.{book}
use market_relay.Tests.Scheduling.{adapters, catalog}

defaults : validate default_settings ≡ returned tt
unfolding validate
defaults = refl

abbrev environ : String → Option Text
environ name = some (codes "s3cret")

abbrev app : Application ℕ
app = record {
  environ = environ;
  settings = default_settings;
  adapters = adapters;
  catalog = catalog;
  observations = stored ∷ [];
  decisions = approvals;
  jobs = first_job ∷ second_job ∷ [];
}

abbrev bearer : Option Text
bearer = some (codes "Bearer s3cret")

-- The two consumers share the key: the later one is taken.
shared_key :
    respond app (λ adapter. quota_port) [] 9 20 bearer (listing_request 7) book
    ≡ (raised (http_exception 403), book)
unfolding respond build_consumer_credentials
shared_key = refl

abbrev holdria : ConsumerCredentialConfig
holdria = record { consumer_id = "holdria"; env_var = "KEY"; scopes = "observations:read" ∷ [] }

abbrev holdria_only : Application ℕ
holdria_only = record app {
  settings = record default_settings { consumer_credentials = holdria ∷ [] };
}

abbrev asked : Request
asked = range_request 7 18 21 eod_close

respond-IsGrantedFor_example :
    let out = respond holdria_only (λ adapter. quota_port) [] 9 20 bearer asked book in
    ((e : Error) → guard holdria_only bearer asked ≡ raised e → out ≡ (raised e, book))
    × ((response : Response)
        → out.0 ≡ returned response
        → (identity : ConsumerIdentity) × IsGrantedFor environ
            (build_consumer_credentials (holdria ∷ []))
            identity
            (extract_bearer_token bearer)
          × (has_scope identity "observations:read" ≡ true))
respond-IsGrantedFor_example =
    respond-IsGrantedFor holdria_only (λ adapter. quota_port) [] 9 20 bearer asked book

-- The metrics have a scope of their own.
no_metrics :
    respond holdria_only (λ adapter. quota_port) [] 9 20 bearer metrics_request book
    ≡ (raised (http_exception 403), book)
unfolding respond build_consumer_credentials
no_metrics = refl

abbrev IsStored : Observation → Type 0
IsStored row = row.revision ≡ 1

abbrev ref : ListingRef
ref = record { id = 7; asset_class = equity; venue = "XETR"; mic = some "XETR" }

observation_range-Answers_example :
    (¬ InRange 18 21
      × (observation_range holdria_only bearer 7 18 21 eod_close ≡ raised (http_exception 422)))
    ⊎ (InRange 18 21
        × (r : ObservationRangeResponse) × (observation_range holdria_only bearer 7 18 21 eod_close
            ≡ returned r)
        × (length r.observations ≤ 367)
        × Answers IsStored
            (world_with holdria_only sessions_in_range)
            ref
            eod_close
            (dates_from 18 (21 + 1 - 18))
            r.observations)
unfolding require_scope build_consumer_credentials get_listing get_instrument
    get_calendar_for_listing view_set
observation_range-Answers_example =
    observation_range-Answers holdria_only bearer 7 eod_close IsStored 18 21 _ _ _ sessions_in_range
      (refl, tt) refl refl refl refl (omega arith)
      (λ d le.
        fake-CalendarAnswers (world_with holdria_only sessions_in_range) ref d (omega (arith, le)))

too_long : observation_range holdria_only bearer 7 18 385 eod_close ≡ raised (http_exception 422)
unfolding observation_range
too_long = refl

backwards : observation_range holdria_only bearer 7 18 17 eod_close ≡ raised (http_exception 422)
unfolding observation_range
backwards = refl

abbrev quota_of_fake : String → Outcome (QuotaPort QuotaBook)
quota_of_fake source = if source == "fake" then returned quota_port else raised unknown_source

abbrev queue : Jobs
queue =
    record first_job { created_at = 10_000_000 }
    ∷ record second_job { source = "other"; created_at = 40_000_000 }
    ∷ []

collect_scheduler_metrics-operational_status_example :
    let m =
      (collect_scheduler_metrics quota_of_fake 100_000_000 80
        ("fake" ∷ "other" ∷ [])
        queue
        []
        book).0 in
    let o = operational_status "local" 80 100_000_000 queue in
    (m.pending_jobs ≡ o.pending_jobs)
    × (whole_age m.oldest_pending_seconds ≡ o.oldest_pending_seconds)
    × (o.stalled ≡ true → is_empty m.stalled_sources ≡ false)
    × (is_empty m.stalled_sources ≡ false
        → (o.stalled ≡ true) ⊎ (o.oldest_pending_seconds ≡ some 80))
collect_scheduler_metrics-operational_status_example =
    collect_scheduler_metrics-operational_status quota_of_fake "local" 80 100_000_000
      ("fake" ∷ "other" ∷ []) queue [] book

-- Half a second over the threshold, the metrics name a stalled source and the status is not stalled.
stalled_metrics :
    (collect_scheduler_metrics quota_of_fake 90_500_000 80 [] queue [] book).0.stalled_sources
    ≡ "fake" ∷ []
unfolding collect_scheduler_metrics
stalled_metrics = refl

not_stalled_status : (operational_status "local" 80 90_500_000 queue).stalled ≡ false
unfolding operational_status
not_stalled_status = refl

snapshot :
    (collect_scheduler_metrics quota_of_fake 100_000_000 80 ("fake" ∷ "other" ∷ []) queue [] book).0
    ≡ record {
      pending_jobs = 2;
      pending_jobs_by_source = ("other", 1) ∷ ("fake", 1) ∷ [];
      oldest_pending_seconds = some (pos 90_000_000);
      done_jobs = 0;
      failed_jobs_by_source = [];
      quota_by_source =
          record {
            source = "fake";
            remaining = some 3;
            limit = some 5;
            exhausted = false;
            error = none;
          }
          ∷ record {
            source = "other";
            remaining = none;
            limit = none;
            exhausted = false;
            error = some "unknown_source";
          }
          ∷ [];
      stalled_sources = "fake" ∷ [];
      scheduler_success_count = 0;
      worker_success_count = 0;
    }
unfolding collect_scheduler_metrics quota_port
snapshot = refl
