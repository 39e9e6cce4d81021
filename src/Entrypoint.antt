-- ===== src/Entrypoint.antt =====
-- src/market_relay/entrypoints/scheduler.py, with `session_scope` of src/market_relay/db/session.py: one
-- cycle over the phases of Scheduler/Refresh and Scheduler/Batch, from the tables as they are committed
-- to the tables as they are committed.
pub mod Runs
use market_relay.Prelude.{ℕ, String, List, Option, none}
use market_relay.Action.{Outcome, returned, raised, Action}
use market_relay.Catalog.{Catalog}
use market_relay.Queue.{Jobs, claim_next}
use market_relay.Observations.Store.{Observations}
use market_relay.Ingestion.{RawObservation}
use market_relay.Ingestion.Cursor.{Codec}
use market_relay.Ingestion.Deadline.{Call}
use market_relay.Ingestion.Runner.{QuotaPort, State, Surroundings}
use market_relay.Adapters.Routes.{Adapters}
use market_relay.Settings.{Settings}
use market_relay.Scheduler.{Session, Contents, Phase, commit, rollback, run_scheduler_cycle}
use market_relay.Scheduler.Refresh.{RefreshWorld, RefreshOutcome, refresh_and_dispatch}
use market_relay.Scheduler.Batch.{BatchWorld, ProcessOutcome, claim_and_process}

abbrev pub scheduler_worker_id : String
scheduler_worker_id = "scheduler"

abbrev pub max_listings_refreshed_per_source : ℕ
max_listings_refreshed_per_source = 200

-- What a run gets from elsewhere: the adapters with the methods of what they hold, the catalog, JSON
-- and dates as texts, the identifiers of new rows, the clock, and what the runner gets for each job. When a processing is
-- rolled back, `others_commit` is what other processes committed in the meantime to the tables as they
-- were committed here.
pub record RunWorld (P S : Type 0) : Type 0 where
  pub codec : Codec
  pub adapters : Adapters P
  pub catalog : Catalog
  pub uuid : ℕ → ℕ → ℕ
  pub fetch_range_of : P → String → ℕ → ℕ → Call (List RawObservation)
  pub quota_of : P → QuotaPort S
  pub around : ℕ → Surroundings S
  pub utcnow : ℕ
  pub others_commit : State S → State S

-- The end of a session: `commit` on success, `rollback` and the exception again on a failure.
abbrev pub close_session : {W A : Type 0} → Outcome A → Session W → Outcome A × Contents W
close_session (returned a) s = (returned a, (commit s).durable)
close_session (raised e) s = (raised e, (rollback s).durable)

-- `with session_scope(...) as session`: from what is stored to what is stored.
unfoldable pub session_scope : {W A : Type 0} → Action (Session W) A → Action (Contents W) A
session_scope body stored =
    let out = body (record { durable = stored; working = stored }) in close_session out.0 out.1

module _ {P S : Type 0} (w : RunWorld P S) where
  abbrev pub refresh_world : Observations → RefreshWorld P
  refresh_world observations = record {
    codec = w.codec;
    adapters = w.adapters;
    catalog = w.catalog;
    observations = observations;
    uuid = w.uuid;
    utcnow = w.utcnow;
  }

  abbrev pub batch_world : BatchWorld P S
  batch_world = record {
    registry = w.adapters.registry;
    fetch_range_of = w.fetch_range_of;
    quota_of = w.quota_of;
    around = w.around;
    utcnow = w.utcnow;
  }

module _ {P S : Type 0} (w : RunWorld P S) (settings : Settings) (now today : ℕ) where
  -- Commits nothing: `run_scheduler_cycle` does.
  unfoldable pub refresh_phase : Phase (State S) RefreshOutcome
  unfolding refresh_and_dispatch
  refresh_phase (durable, working) =
      let r =
        refresh_and_dispatch (refresh_world w working.observations) none now today
          settings.waiting_publication_retry_seconds max_listings_refreshed_per_source
          settings.enabled_sources working.jobs in
      (returned r.0, (durable, record working { jobs = r.1 }))

  -- The jobs when `claim_next` ends, which commits its recoveries, its promotions and each claim.
  abbrev pub claimed_jobs : State S → Jobs
  unfolding claim_next
  claimed_jobs s =
      (claim_next scheduler_worker_id now w.utcnow none settings.scheduler_batch_size
        settings.job_lease_seconds s.jobs).1

  -- Nothing after the last commit of `claim_next` is committed here. The quota is kept by the adapters,
  -- not by the session.
  unfoldable pub process_phase : Phase (State S) ProcessOutcome
  unfolding claim_and_process claim_next
  process_phase (durable, working) =
      let r =
        claim_and_process (batch_world w) scheduler_worker_id now settings.scheduler_batch_size
          settings.job_lease_seconds working in
      (
        r.0,
        (w.others_commit (record working { jobs = claimed_jobs working; quota = r.1.quota }), r.1),
      )

  -- What is returned is what `run` logs.
  unfoldable pub run : Action (Contents (State S)) (RefreshOutcome × ProcessOutcome)
  unfolding session_scope run_scheduler_cycle refresh_phase process_phase
  run = session_scope (run_scheduler_cycle w.utcnow refresh_phase process_phase now)
