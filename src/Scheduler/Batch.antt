-- ===== src/Scheduler/Batch.antt =====
-- `claim_and_process` of src/market_relay/domain/ingestion/scheduler_service.py, over the queue's claims
-- and the runner. The jobs that were claimed are copies of their rows, read again once the session
-- has expired them.
use market_relay.Prelude.{
  ℕ, suc, ◌+◌, String, List, [], ◌∷◌, Bool, true, false, ◌||◌, none, if◌then◌else◌, ◌==◌, length,
  string_eq,
}
use market_relay.Governance.Credentials.{codes}
use market_relay.Action.{Outcome, returned, raised, Error, stale_job_claim, Action}
use market_relay.Jobs.{
  Job, JobStatus, pending, claimed, running, waiting_for_publication, done, failed,
}
use market_relay.Queue.{Jobs, claim_next}
use market_relay.Queue.Transitions.{mark_failed}
use market_relay.Ingestion.{RawObservation, adapter_error_code}
use market_relay.Ingestion.Deadline.{Call}
use market_relay.Ingestion.Runner.{
  Surroundings, State, QuotaPort, JobOutcome, Expired, nothing_expired, job_expired, all_expired,
  and_then, on_owned,
}
use market_relay.Ingestion.Runner.Process.{process, reread, claim_of}
use market_relay.Adapters.{Registry, historical, quota, get_port}

pub record ProcessOutcome : Type 0 where
  pub jobs_claimed : ℕ
  pub jobs_done : ℕ
  pub jobs_waiting : ℕ
  pub jobs_deferred_quota : ℕ
  pub jobs_failed_terminal : ℕ
  pub jobs_retrying : ℕ

-- The registry with the methods of what it holds, and for the job with that number what the runner
-- gets from elsewhere besides the provider and the quota.
pub record BatchWorld (P S : Type 0) : Type 0 where
  pub registry : Registry P
  pub fetch_range_of : P → String → ℕ → ℕ → Call (List RawObservation)
  pub quota_of : P → QuotaPort S
  pub around : ℕ → Surroundings S
  pub utcnow : ℕ

abbrev pub nothing_processed : ProcessOutcome
nothing_processed = record {
  jobs_claimed = 0;
  jobs_done = 0;
  jobs_waiting = 0;
  jobs_deferred_quota = 0;
  jobs_failed_terminal = 0;
  jobs_retrying = 0;
}

-- The counters after one job, and with those of the jobs after it.
abbrev pub plus : ProcessOutcome → ProcessOutcome → ProcessOutcome
plus a b = record {
  jobs_claimed = a.jobs_claimed + b.jobs_claimed;
  jobs_done = a.jobs_done + b.jobs_done;
  jobs_waiting = a.jobs_waiting + b.jobs_waiting;
  jobs_deferred_quota = a.jobs_deferred_quota + b.jobs_deferred_quota;
  jobs_failed_terminal = a.jobs_failed_terminal + b.jobs_failed_terminal;
  jobs_retrying = a.jobs_retrying + b.jobs_retrying;
}

-- The job's status after the handler of an unforeseen failure.
abbrev pub tally_failure : JobStatus → ProcessOutcome
tally_failure failed = record nothing_processed { jobs_failed_terminal = 1 }
tally_failure pending = record nothing_processed { jobs_retrying = 1 }
tally_failure _ = nothing_processed

-- The job's status after `process`.
abbrev pub tally_status : JobStatus → ProcessOutcome
tally_status done = record nothing_processed { jobs_done = 1 }
tally_status waiting_for_publication = record nothing_processed { jobs_waiting = 1 }
tally_status failed = record nothing_processed { jobs_failed_terminal = 1 }
tally_status pending = record nothing_processed { jobs_retrying = 1 }
tally_status claimed = nothing_processed
tally_status running = nothing_processed

abbrev pub is_stale : Error → Bool
is_stale stale_job_claim = true
is_stale _ = false

-- The attributes of the job's copy after `process` raised.
abbrev pub copy_after : Expired → Job → Jobs → Job
copy_after nothing_expired job jobs = job
copy_after job_expired job jobs = reread job jobs
copy_after all_expired job jobs = reread job jobs

abbrev pub is_all : Expired → Bool
is_all nothing_expired = false
is_all job_expired = false
is_all all_expired = true

module _ {P S : Type 0} (w : BatchWorld P S) (worker_id : String) (now : ℕ) where
  abbrev pub runner_with : ℕ → P → P → Surroundings S
  runner_with i historical_port quota_port = record (w.around i) {
    fetch_range = w.fetch_range_of historical_port;
    quota = w.quota_of quota_port;
  }

  abbrev pub with_quota : ℕ → Job → P → Outcome P → Action (State S) JobOutcome
  with_quota i job historical_port (raised e) s = (raised e, s)
  with_quota i job historical_port (returned quota_port) s =
      process (runner_with i historical_port quota_port) worker_id now job s

  abbrev pub with_historical : ℕ → Job → Outcome P → Action (State S) JobOutcome
  with_historical i job (raised e) s = (raised e, s)
  with_historical i job (returned historical_port) s =
      with_quota i job historical_port (get_port quota job.source w.registry) s

  -- The body of the `try`.
  unfoldable pub attempt : ℕ → Job → Action (State S) JobOutcome
  unfolding get_port process
  attempt i job s = with_historical i job (get_port historical job.source w.registry) s

  -- `except Exception`
  unfoldable pub fail_unforeseen : Job → Error → Action (State S) ProcessOutcome
  unfolding mark_failed adapter_error_code
  fail_unforeseen job e s =
      let copy = copy_after s.expired job s.jobs in
      and_then
        (on_owned (
          mark_failed (claim_of worker_id copy) copy.attempt_count copy.max_attempts
            (codes (adapter_error_code e)) now))
        (λ _ s'. (returned (tally_failure (reread copy s'.jobs).status), s')) s

  -- What follows the body, by what it came to.
  unfoldable pub account_for : Job → Outcome JobOutcome × State S → Outcome ProcessOutcome × State S
  unfolding fail_unforeseen
  account_for job (returned result, s) = (
    returned (
        if result.detail == "quota_exhausted"
        then record nothing_processed { jobs_deferred_quota = 1 }
        else tally_status (reread job s.jobs).status),
    s,
  )
  account_for job (raised e, s) =
      if is_stale e then (returned nothing_processed, s) else fail_unforeseen job e s

  -- One round of the loop. `stale` says that everything was expired since the jobs were claimed.
  unfoldable pub process_one : ℕ → Bool → Job → Action (State S) ProcessOutcome
  unfolding account_for attempt
  process_one i stale job s =
      let copy = if stale then reread job s.jobs else job in
      account_for copy (attempt i copy (record s { expired = nothing_expired }))

  -- An exception that escapes ends the loop.
  unfoldable pub process_each : ℕ → Bool → List Job → Action (State S) ProcessOutcome
  unfolding process_one
  process_each i stale [] s = (returned nothing_processed, s)
  process_each i stale (job ∷ jobs) s =
      and_then (process_one i stale job)
        (λ own s'.
          and_then (process_each (suc i) (stale || is_all s'.expired) jobs)
            (λ rest s''. (returned (plus own rest), s'')) s')
        s

  unfoldable pub claim_and_process : ℕ → ℕ → Action (State S) ProcessOutcome
  unfolding claim_next process_each
  claim_and_process batch_size lease_seconds s =
      let (jobs, rows) = claim_next worker_id now w.utcnow none batch_size lease_seconds s.jobs in
      and_then (process_each 0 false jobs)
        (λ outcome s'. (returned (record outcome { jobs_claimed = length jobs }), s'))
        (record s { jobs = rows })
