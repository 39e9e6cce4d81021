-- ===== src/Metrics.antt =====
-- src/market_relay/domain/ingestion/metrics.py: the snapshot for operators. `S` is what the quota
-- adapters keep; the registry is a function.
-- Instants and ages are microseconds; the threshold is seconds.
pub mod Agreement
use Prim.Native.Nat.{Ordering}
use Prim.Native.String.{compare}
use market_relay.Prelude.{
  ℕ, ◌+◌, ◌*◌, String, List, [], ◌∷◌, map, Bool, true, false, not, Option, none, some,
  if◌then◌else◌, ℤ, pos, leb_ℤ,
}
use market_relay.Table.{select_where, count_where}
use market_relay.Dict.{Dict}
use market_relay.Action.{Outcome, returned, raised}
use market_relay.Queue.{Jobs}
use market_relay.Queue.Counts.{pending_by_source, failed_by_source, done_count, sum_values}
use market_relay.Queue.Ages.{oldest_pending_age_by_source, max_values, microseconds}
use market_relay.Ingestion.{QuotaStatus, exhausted, adapter_error_code}
use market_relay.Ingestion.Runner.{QuotaPort, and_then}
use market_relay.Scheduler.{SchedulerRun, SchedulerRunStatus, run_success, run_failure}

pub record SourceQuotaSnapshot : Type 0 where
  pub source : String
  pub remaining : Option ℕ
  pub limit : Option ℕ
  pub exhausted : Bool
  pub error : Option String

pub record SchedulerMetricsSnapshot : Type 0 where
  pub pending_jobs : ℕ
  pub pending_jobs_by_source : Dict String ℕ
  pub oldest_pending_seconds : Option ℤ
  pub done_jobs : ℕ
  pub failed_jobs_by_source : Dict String ℕ
  pub quota_by_source : List SourceQuotaSnapshot
  pub stalled_sources : List String
  pub scheduler_success_count : ℕ
  pub worker_success_count : ℕ

-- `try: status = ... except Exception`
unfoldable pub quota_snapshot : String → Outcome QuotaStatus → SourceQuotaSnapshot
unfolding exhausted adapter_error_code
quota_snapshot source (raised e) = record {
  source = source;
  remaining = none;
  limit = none;
  exhausted = false;
  error = some (adapter_error_code e);
}
quota_snapshot source (returned status) = record {
  source = source;
  remaining = some status.remaining;
  limit = some status.limit;
  exhausted = exhausted status;
  error = none;
}

-- Strings compare by their code points.
abbrev pub string_leb : String → String → Bool
string_leb a b = elim (compare a b) [ Ordering.gt ↦ false | _ ↦ true ]

-- sorted(...)
unfoldable pub insert_string : String → List String → List String
insert_string s [] = s ∷ []
insert_string s (t ∷ ts) =
    let rest = insert_string s ts in if string_leb s t then s ∷ t ∷ ts else t ∷ rest

unfoldable pub sort_strings : List String → List String
unfolding insert_string
sort_strings [] = []
sort_strings (s ∷ ss) = insert_string s (sort_strings ss)

-- age > stalled_threshold_seconds
abbrev pub is_stalled : ℕ → String × ℤ → Bool
is_stalled threshold entry = not (leb_ℤ entry.1 (pos (threshold * microseconds)))

unfoldable pub stalled_sources : ℕ → Dict String ℤ → List String
unfolding select_where sort_strings leb_ℤ
stalled_sources threshold ages =
    sort_strings (map (λ x. x.0) (select_where (is_stalled threshold) ages))

abbrev pub is_success : Option SchedulerRunStatus → Bool
is_success none = false
is_success (some run_success) = true
is_success (some run_failure) = false

unfoldable pub count_runs_with_status :
    (SchedulerRun → Option SchedulerRunStatus) → List SchedulerRun → ℕ
unfolding count_where
count_runs_with_status status_column runs = count_where (λ run. is_success (status_column run)) runs

module _ {S : Type 0} (get_quota_port : String → Outcome (QuotaPort S)) where
  abbrev pub check_quota : String → Outcome (QuotaPort S) → S → Outcome QuotaStatus × S
  check_quota source (raised e) s = (raised e, s)
  check_quota source (returned port) s = port.check source s

  -- The loop over the sources.
  unfoldable pub quota_snapshots : List String → S → List SourceQuotaSnapshot × S
  unfolding quota_snapshot
  quota_snapshots [] s = ([], s)
  quota_snapshots (source ∷ sources) s =
      let status = check_quota source (get_quota_port source) s in
      let rest = quota_snapshots sources status.1 in
      (quota_snapshot source status.0 ∷ rest.0, rest.1)

  unfoldable pub collect_scheduler_metrics :
      ℕ → ℕ → List String → Jobs → List SchedulerRun → S → SchedulerMetricsSnapshot × S
  unfolding pending_by_source failed_by_source done_count sum_values oldest_pending_age_by_source
      max_values quota_snapshots stalled_sources count_runs_with_status
  collect_scheduler_metrics now stalled_threshold_seconds sources jobs runs s =
      let by_source = pending_by_source jobs in
      let ages = oldest_pending_age_by_source now jobs in
      let quota = quota_snapshots sources s in
      (
        record {
          pending_jobs = sum_values by_source;
          pending_jobs_by_source = by_source;
          oldest_pending_seconds = max_values ages;
          done_jobs = done_count jobs;
          failed_jobs_by_source = failed_by_source jobs;
          quota_by_source = quota.0;
          stalled_sources = stalled_sources stalled_threshold_seconds ages;
          scheduler_success_count = count_runs_with_status (λ run. run.scheduler_status) runs;
          worker_success_count = count_runs_with_status (λ run. run.worker_status) runs;
        },
        quota.1,
      )
