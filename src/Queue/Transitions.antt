-- ===== src/Queue/Transitions.antt =====
-- The owner's transitions of src/market_relay/domain/ingestion/queue.py: each is an UPDATE that
-- also asks for the claim's owner and generation, and raises when it did not change one row.
use market_relay.Prelude.{
  ℕ, ◌+◌, String, List, [], ◌∷◌, Bool, ◌&&◌, Option, none, some, if◌then◌else◌, ◌==◌, leb, is_in,
  option_beq, take, nat_eq, string_eq,
}
use market_relay.Table.{update_where, count_where}
use market_relay.Governance.Credentials.{Text, sanitize_message}
use market_relay.Action.{returned, raised, stale_job_claim, Action}
use market_relay.Jobs.{
  Job, JobStatus, pending, claimed, running, waiting_for_publication, done, failed, job_status_eq,
}
use market_relay.Queue.Backoff.{backoff_seconds}

-- What the caller holds of a job after its claim: the attributes that the calls below read.
pub record Claim : Type 0 where
  pub job : ℕ
  pub worker_id : String
  pub generation : ℕ

abbrev pub is_owned : Claim → List JobStatus → Job → Bool
is_owned c allowed row =
    row.id == c.job
    && (is_in row.status allowed
        && (option_beq row.claimed_by (some c.worker_id) && row.generation == c.generation))

unfoldable pub owned_transition :
    Claim → List JobStatus → (Job → Job) → Action (List Job) (Unit {0})
unfolding update_where count_where
owned_transition c allowed values jobs =
    let jobs' = update_where (is_owned c allowed) values jobs in
    if count_where (is_owned c allowed) jobs == 1
    then (returned tt, jobs')
    else (raised stale_job_claim, jobs')

abbrev pub active : List JobStatus
active = claimed ∷ running ∷ []

unfoldable pub assert_owned : Claim → Action (List Job) (Unit {0})
unfolding count_where
assert_owned c jobs =
    if count_where (is_owned c active) jobs == 0
    then (raised stale_job_claim, jobs)
    else (returned tt, jobs)

abbrev pub run_values : ℕ → Job → Job
run_values utcnow row = record row { status = running; updated_at = utcnow }

unfoldable pub mark_running : Claim → ℕ → Action (List Job) (Unit {0})
unfolding owned_transition
mark_running c utcnow = owned_transition c (claimed ∷ []) (run_values utcnow)

abbrev pub done_values : ℕ → Job → Job
done_values now row = record row { status = done; last_error = none; updated_at = now }

unfoldable pub mark_done : Claim → ℕ → Action (List Job) (Unit {0})
unfolding owned_transition
mark_done c now = owned_transition c (running ∷ []) (done_values now)

abbrev pub waiting_values : ℕ → ℕ → Job → Job
waiting_values retry_at utcnow row = record row {
  status = waiting_for_publication;
  next_run_at = retry_at;
  claimed_by = none;
  claimed_at = none;
  last_error = none;
  updated_at = utcnow;
}

unfoldable pub mark_waiting_for_publication : Claim → ℕ → ℕ → Action (List Job) (Unit {0})
unfolding owned_transition
mark_waiting_for_publication c retry_at utcnow =
    owned_transition c active (waiting_values retry_at utcnow)

abbrev pub default_quota_defer_seconds : ℕ
default_quota_defer_seconds = 3600

abbrev pub reset_or_default : Option ℕ → ℕ → ℕ
reset_or_default none now = now + default_quota_defer_seconds
reset_or_default (some reset_at) now = reset_at

abbrev pub defer_values : Option ℕ → ℕ → ℕ → Job → Job
defer_values reset_at now utcnow row = record row {
  status = pending;
  next_run_at = reset_or_default reset_at now;
  claimed_by = none;
  claimed_at = none;
  last_error = none;
  updated_at = utcnow;
}

unfoldable pub defer_for_quota : Claim → Option ℕ → ℕ → ℕ → Action (List Job) (Unit {0})
unfolding owned_transition
defer_for_quota c reset_at now utcnow = owned_transition c active (defer_values reset_at now utcnow)

-- `attempt_count` and `max_attempts` are read from the caller's copy of the job.
abbrev pub failed_values : ℕ → ℕ → Text → ℕ → Job → Job
failed_values attempt_count max_attempts error now row = record row {
  status = if leb max_attempts (attempt_count + 1) then failed else pending;
  attempt_count = attempt_count + 1;
  next_run_at = now + backoff_seconds (attempt_count + 1);
  claimed_by = none;
  claimed_at = none;
  last_error = some (take 1024 (sanitize_message error []));
  updated_at = now;
}

unfoldable pub mark_failed : Claim → ℕ → ℕ → Text → ℕ → Action (List Job) (Unit {0})
unfolding owned_transition
mark_failed c attempt_count max_attempts error now =
    owned_transition c active (failed_values attempt_count max_attempts error now)
