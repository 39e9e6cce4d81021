-- ===== src/Tests/Runs.antt =====
-- Runs of the entry point over a catalog of one listing and the deterministic provider's calendar.
use market_relay.Prelude.{ℕ, ◌+◌, ◌≤◌, [], none, some, ◌≡◌, ◌≢◌, ◌⊎◌, refl, arith, length, All}
use market_relay.Table.{Unique}
use market_relay.Action.{returned, raised, stale_job_claim}
use market_relay.Decimals.{decimal_beq}
use market_relay.Observations.Store.{current_for_key, taken, candidate, same_value}
use market_relay.Jobs.{Job}
use market_relay.Queue.{get_job, claim_next}
use market_relay.Queue.Steps.{id_of}
use market_relay.Ingestion.{adapter_error_code}
use market_relay.Ingestion.Runner.{State}
use market_relay.Adapters.{view_set}
use market_relay.Adapters.Fake.{sessions_in_range}
use market_relay.Settings.{default_settings}
use market_relay.Scheduler.{Contents, new_run, run_success, run_failure}
use market_relay.Scheduler.Cycle.{ended_run}
use market_relay.Scheduler.Batch.{ProcessOutcome}
use market_relay.Scheduler.Tallies.{Ends, counted}
use market_relay.Scheduler.Released.{still_held}
use market_relay.Entrypoint.{RunWorld, run, scheduler_worker_id}
use market_relay.Entrypoint.Runs.{
  refreshed_by, between, rolled_back, processed_by, run-Ends, run-succeeds,
}
use market_relay.Tests.Ingesting.{codec, surroundings}
use market_relay.Tests.Scheduling.{adapters, catalog, two_due}

abbrev run_world : RunWorld ℕ ℕ
run_world = record {
  codec = codec;
  adapters = adapters;
  catalog = catalog;
  uuid = λ i j. 500 + (i + j);
  fetch_range_of = λ adapter. surroundings.fetch_range;
  quota_of = λ adapter. surroundings.quota;
  around = λ i. surroundings;
  utcnow = 70;
  others_commit = λ tables. tables;
}

abbrev stored : Contents (State ℕ)
stored = record { work = two_due; run = new_run 0 }

run-Ends_example :
    let out = run run_world default_settings 70 739_995 stored in
    Ends
      (λ r.
        (r.0 ≡ (refreshed_by run_world default_settings 70 739_995 two_due).0)
        × (counted r.1 ≤ r.1.jobs_claimed)
        × (r.1.jobs_claimed ≤ 50))
      out.0
    × ((out.1.work ≡ (processed_by run_world default_settings 70 739_995 two_due).1)
          × (out.1.run ≡ ended_run 70 70 run_success run_success none)
        ⊎ (out.0 ≡ raised stale_job_claim)
          × (out.1.work ≡ rolled_back run_world default_settings 70 739_995 two_due)
          × (out.1.run
              ≡ ended_run 70 70 run_success run_failure
                  (some (adapter_error_code stale_job_claim))))
    × ((i : ℕ) (r : Job)
        → get_job i two_due.jobs ≡ some r
        → get_job i (between run_world default_settings 70 739_995 two_due).jobs ≡ some r)
run-Ends_example = run-Ends run_world default_settings 70 739_995 stored (omega arith)

run-succeeds_example :
    let batch =
      claim_next scheduler_worker_id 70 70 none 50 300
        (between run_world default_settings 70 739_995 two_due).jobs in
    let out = run run_world default_settings 70 739_995 stored in
    ((o : ProcessOutcome) × (out.0
        ≡ returned ((refreshed_by run_world default_settings 70 739_995 two_due).0, o))
      × (o.jobs_claimed ≡ length batch.0)
      × (still_held out.1.work.jobs batch.0 + counted o ≡ o.jobs_claimed))
    × (out.1.run ≡ ended_run 70 70 run_success run_success none)
    × ((j : ℕ) → All (λ x. j ≢ x.id) batch.0 → get_job j out.1.work.jobs ≡ get_job j batch.1)
    × Unique id_of out.1.work.jobs
run-succeeds_example =
    run-succeeds run_world default_settings 70 739_995 (λ i jobs. refl) stored (omega arith)

-- One job is enqueued, and the two that were due are done with it.
first_run :
    (run run_world default_settings 70 739_995 stored).0
    ≡ returned (
      record { listings_considered = 1; jobs_enqueued = 1; refresh_errors = [] },
      record {
        jobs_claimed = 3;
        jobs_done = 3;
        jobs_waiting = 0;
        jobs_deferred_quota = 0;
        jobs_failed_terminal = 0;
        jobs_retrying = 0;
      },
    )
unfolding run view_set sessions_in_range current_for_key taken candidate same_value decimal_beq
first_run = refl

-- In the next run nothing is left to do.
abbrev after_run : Contents (State ℕ)
after_run = (run run_world default_settings 70 739_995 stored).1

second_run :
    (run run_world default_settings 80 739_995 after_run).0
    ≡ returned (
      record { listings_considered = 1; jobs_enqueued = 0; refresh_errors = [] },
      record {
        jobs_claimed = 0;
        jobs_done = 0;
        jobs_waiting = 0;
        jobs_deferred_quota = 0;
        jobs_failed_terminal = 0;
        jobs_retrying = 0;
      },
    )
unfolding run view_set sessions_in_range current_for_key taken candidate same_value decimal_beq
second_run = refl
