-- ===== src/Api/Guards.antt =====
-- No route answers a request that its guard refuses.
use market_relay.Prelude.{ℕ, List, Option, true, ◌≡◌, refl, sym, ap, ◌∙◌, inl, inr}
use market_relay.Governance.Credentials.{Text}
use market_relay.Action.{Error, Outcome, Outcome-cases, returned, raised}
use market_relay.Consumers.{ConsumerIdentity, require_scope, has_scope, extract_bearer_token}
use market_relay.Consumers.Authentication.{IsGrantedFor, require_scope-IsGranted}
use market_relay.Ingestion.Runner.{QuotaPort}
use market_relay.Scheduler.{SchedulerRun}
use market_relay.Settings.{build_consumer_credentials}
use market_relay.Api.{
  Application, Request, Response, search_request, listing_request, latest_request, range_request,
  operations_request, metrics_request, data_status_request, scope_of, respond, search_instruments,
  get_listing_route, latest_observation, observation_range, operational_status_route,
  data_status_route, scheduler_metrics,
}

abbrev pub guard : {P : Type 0} → Application P → Option Text → Request → Outcome ConsumerIdentity
guard app authorization request =
    require_scope app.environ (build_consumer_credentials app.settings.consumer_credentials)
      (scope_of request) authorization

module _ {P S : Type 0} (app : Application P) (quota_of : P → QuotaPort S)
    (runs : List SchedulerRun) (now today : ℕ) (authorization : Option Text) where
  refused :
      (request : Request) (s : S) (e : Error)
      → guard app authorization request ≡ raised e
      → respond app quota_of runs now today authorization request s ≡ (raised e, s)
  unfolding respond search_instruments get_listing_route latest_observation observation_range
      operational_status_route data_status_route scheduler_metrics
  refused (search_request criteria) s e h = rw h refl
  refused (listing_request listing_id) s e h = rw h refl
  refused (latest_request listing_id type) s e h = rw h refl
  refused (range_request listing_id start end type) s e h = rw h refl
  refused operations_request s e h = rw h refl
  refused metrics_request s e h = rw h refl
  refused (data_status_request listing_id type) s e h = rw h refl

  -- Whatever is stored, a request to any route of the routers whose guard refuses it raises what the
  -- guard raises and asks no quota adapter, and a request that is answered came from a consumer whose
  -- key is configured, matches the presented one, and has the scope of the request.
  pub respond-IsGrantedFor :
      (request : Request) (s : S)
      → let out = respond app quota_of runs now today authorization request s in
        ((e : Error) → guard app authorization request ≡ raised e → out ≡ (raised e, s))
        × ((response : Response)
            → out.0 ≡ returned response
            → (identity : ConsumerIdentity) × IsGrantedFor app.environ
                (build_consumer_credentials app.settings.consumer_credentials)
                identity
                (extract_bearer_token authorization)
              × (has_scope identity (scope_of request) ≡ true))
  respond-IsGrantedFor request s = (
    refused request s,
    λ response h. elim (Outcome-cases (guard app authorization request)) [
      | inl (identity, passed) ↦
          let (granted, scoped) =
            require_scope-IsGranted app.environ
              (build_consumer_credentials app.settings.consumer_credentials) (scope_of request)
              authorization identity passed in
          (identity, granted, scoped)
      | inr (e, stopped) ↦
          absurd
            (cc (sym (ap (λ (r : Outcome Response × S). r.0) (refused request s e stopped)) ∙ h))
    ],
  )
