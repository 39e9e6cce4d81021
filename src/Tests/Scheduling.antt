-- ===== src/Tests/Scheduling.antt =====
-- The phases of a cycle over a catalog of one listing and the deterministic provider.
use market_relay.Prelude.{
  ℕ, zero, suc, ◌+◌, ◌≤◌, String, List, [], ◌∷◌, map, false, none, some, ◌≡◌, refl, arith, ◌==◌,
  nat_eq, if◌then◌else◌,
}
use market_relay.Governance.Credentials.{codes}
use market_relay.Action.{returned, raised, stale_job_claim}
use market_relay.Catalog.{Catalog, equity}
use market_relay.Jobs.{Job, claimed}
use market_relay.Queue.{Jobs}
use market_relay.Decimals.{decimal_beq}
use market_relay.Observations.Store.{current_for_key, taken, candidate, same_value}
use market_relay.Planning.{RecoveryLimits}
use market_relay.Ingestion.Runner.{State, Surroundings, nothing_expired}
use market_relay.Adapters.{view_set}
use market_relay.Adapters.Fake.{sessions_in_range}
use market_relay.Adapters.Routes.{Adapters}
use market_relay.Scheduler.Refresh.{RefreshWorld, refresh_and_dispatch}
use market_relay.Scheduler.Settling.{IsQuiet}
use market_relay.Scheduler.Repeats.{later, refresh_and_dispatch-idempotent}
use market_relay.Dispatch.Extending.{Extends}
use market_relay.Scheduler.Additions.{refresh_and_dispatch-Extends}
use market_relay.Scheduler.Batch.{BatchWorld, claim_and_process}
use market_relay.Scheduler.Tallies.{Ends, counted, claim_and_process-Ends}
use market_relay.Tests.Data.{first_job, second_job, approvals}
use market_relay.Tests.Ingesting.{codec, surroundings}
use market_relay.Tests.Providers.{empty, every}

abbrev pub adapters : Adapters ℕ
adapters = record {
  registry = view_set every "fake" 0 empty;
  calendar_of = λ adapter. sessions_in_range;
  calendar_routes = (codes "*", "fake") ∷ [];
  upper = λ t. t;
}

abbrev pub catalog : Catalog
catalog = record {
  instruments =
      record { id = 1; asset_class = equity; name = "SAP SE"; isin = none; figi = none } ∷ [];
  listings =
      record {
        id = 7;
        instrument_id = 1;
        mic = some "XETR";
        venue = "XETR";
        ticker = "SAP";
        currency = codes "EUR";
      }
      ∷ [];
  external_identities =
      record {
        id = 3;
        listing_id = 7;
        source = "fake";
        external_id = "X";
        valid_from = 1;
        valid_to = none;
      }
      ∷ [];
}

abbrev world : RefreshWorld ℕ
world = record {
  codec = codec;
  adapters = adapters;
  catalog = catalog;
  observations = [];
  uuid = λ i j. i + j;
  utcnow = 3;
}

abbrev pub two_due : State ℕ
two_due = record {
  jobs = first_job ∷ second_job ∷ [];
  observations = [];
  quota = 5;
  decisions = approvals;
  expired = nothing_expired;
}

abbrev limits : RecoveryLimits
limits = record { max_lookback_days = 1; max_sessions_per_chunk = 20 }

abbrev sources : List String
sources = "fake" ∷ []

-- Two days with a session are one job.
refreshed :
    (refresh_and_dispatch world (some limits) 4 739_995 60 200 sources []).0
    ≡ record { listings_considered = 1; jobs_enqueued = 1; refresh_errors = [] }
unfolding refresh_and_dispatch view_set sessions_in_range
refreshed = refl

abbrev jobs_after : Jobs
jobs_after = (refresh_and_dispatch world (some limits) 4 739_995 60 200 sources []).1

refresh_and_dispatch-idempotent_example : IsQuiet jobs_after (
    refresh_and_dispatch
      (later (λ i j. 500 + j) 9 world)
      (some limits)
      8
      739_995
      60
      200
      sources
      jobs_after)
unfolding refresh_and_dispatch view_set sessions_in_range
refresh_and_dispatch-idempotent_example =
    refresh_and_dispatch-idempotent world (some limits) 739_995 200 sources 4 8 60 60 9
      (λ i j. 500 + j) [] refl

refresh_and_dispatch-Extends_example :
    Extends two_due.jobs
      (refresh_and_dispatch world (some limits) 4 739_995 60 200 sources two_due.jobs).1
refresh_and_dispatch-Extends_example =
    refresh_and_dispatch-Extends world (some limits) 4 739_995 60 200 sources two_due.jobs

-- A source that is not registered is an error of its own.
unknown :
    (refresh_and_dispatch world (some limits) 4 739_995 60 200 ("other" ∷ "fake" ∷ []) []).0
    ≡ record {
      listings_considered = 1;
      jobs_enqueued = 1;
      refresh_errors = "other: unknown_source" ∷ [];
    }
unfolding refresh_and_dispatch view_set sessions_in_range
unknown = refl

abbrev batch_world : (ℕ → Surroundings ℕ) → BatchWorld ℕ ℕ
batch_world around = record {
  registry = view_set every "fake" 0 empty;
  fetch_range_of = λ adapter. surroundings.fetch_range;
  quota_of = λ adapter. surroundings.quota;
  around = around;
  utcnow = 70;
}

abbrev quiet : BatchWorld ℕ ℕ
quiet = batch_world (λ i. surroundings)

claim_and_process-Ends_example :
    Ends
      (λ o. (counted o ≤ o.jobs_claimed) × (o.jobs_claimed ≤ 50))
      (claim_and_process quiet "scheduler" 70 50 300 two_due).0
claim_and_process-Ends_example =
    claim_and_process-Ends quiet "scheduler" 70 50 300 two_due (omega arith)

both_done :
    (claim_and_process quiet "scheduler" 70 50 300 two_due).0
    ≡ returned (record {
      jobs_claimed = 2;
      jobs_done = 2;
      jobs_waiting = 0;
      jobs_deferred_quota = 0;
      jobs_failed_terminal = 0;
      jobs_retrying = 0;
    })
unfolding claim_and_process view_set current_for_key taken candidate same_value decimal_beq
both_done = refl

-- While the first job is fetched, another process recovers the second one's claim and makes its own.
abbrev claimed_again : Job → Job
claimed_again job =
    if job.id == 2
    then record job { status = claimed; claimed_by = some "scheduler"; generation = 2 }
    else job

abbrev taken_meanwhile : ℕ → Surroundings ℕ
taken_meanwhile i = record surroundings { meanwhile = map claimed_again }

abbrev other_source : State ℕ
other_source = record two_due { jobs = first_job ∷ record second_job { source = "other" } ∷ [] }

-- The second job fails before its copy is read again: the handler's own refusal ends the batch.
escaped :
    (claim_and_process (batch_world taken_meanwhile) "scheduler" 70 50 300 other_source).0
    ≡ raised stale_job_claim
unfolding claim_and_process view_set current_for_key taken candidate same_value decimal_beq
escaped = refl

-- Both claims are taken, and the first job's failure is refused: every copy expires, and the second
-- job is read again with the generation of the other claim, under the same worker's name.
abbrev all_taken : Job → Job
all_taken job = record job { claimed_by = some "scheduler"; generation = 2 }

abbrev refused_first : ℕ → Surroundings ℕ
refused_first zero = record surroundings { meanwhile = map all_taken; pickles = λ raws. false }
refused_first (suc i) = surroundings

taken_over :
    (claim_and_process (batch_world refused_first) "scheduler" 70 50 300 two_due).0
    ≡ returned (record {
      jobs_claimed = 2;
      jobs_done = 1;
      jobs_waiting = 0;
      jobs_deferred_quota = 0;
      jobs_failed_terminal = 0;
      jobs_retrying = 0;
    })
unfolding claim_and_process view_set current_for_key taken candidate same_value decimal_beq
taken_over = refl
