-- ===== src/Queue.antt =====
-- src/market_relay/domain/ingestion/queue.py: the persistent job queue. The table is the list of
-- the job rows; each UPDATE of the source is one `update_where`, which is atomic. Enqueueing,
-- promotion, recovery and claims stand here, the transitions of an owner and the counts in the
-- children of those names.
pub mod Backoff
pub mod Transitions
pub mod Locks
pub mod Counts
pub mod Ages
pub mod Order
pub mod DueOrder
pub mod Steps
pub mod Ownership
pub mod Fencing
pub mod Claiming
pub mod Batch
pub mod ClaimLoop
pub mod Filling
pub mod Retries
use market_relay.Prelude.{
  ℕ, zero, suc, ◌+◌, ◌*◌, String, List, [], ◌∷◌, ◌++◌, map, Bool, true, false, ◌&&◌, ◌||◌, Option,
  none, some, if◌then◌else◌, ◌==◌, leb, is_in, take, nat_eq, string_eq, length,
}
use market_relay.Table.{select_where, update_where, count_where, find_where}
use market_relay.Governance.Credentials.{codes}
use market_relay.Action.{Outcome, returned, raised, stale_job_claim, integrity_error, Action}
use market_relay.Jobs.{
  Job, JobStatus, pending, claimed, running, waiting_for_publication, failed, job_status_eq,
}
use market_relay.Queue.Order.{sort_due}

abbrev pub Jobs : Type 0
Jobs = List Job

-- session.get(Job, id)
abbrev pub has_id : ℕ → Job → Bool
has_id i job = job.id == i

abbrev pub has_dedupe_key : String → Job → Bool
has_dedupe_key key job = job.dedupe_key == key

unfoldable pub get_job : ℕ → Jobs → Option Job
unfolding find_where
get_job i jobs = find_where (has_id i) jobs

pub record EnqueueResult : Type 0 where
  pub job : Job
  pub created : Bool

-- The flush of a new row: the primary key and `uq_jobs_dedupe_key` are unique.
unfoldable pub insert_job : Job → Action Jobs (Unit {0})
unfolding count_where
insert_job job jobs =
    if count_where (λ r. has_id job.id r || has_dedupe_key job.dedupe_key r) jobs == 0
    then (returned tt, jobs ++ job ∷ [])
    else (raised integrity_error, jobs)

-- The row that is enqueued, with the identifier and the instant that its defaults give it.
unfoldable pub new_job : ℕ → ℕ → String → String → String → Option ℕ → Option String → ℕ → ℕ → Job
new_job uuid utcnow job_type source dedupe_key listing_id cursor run_at max_attempts = record {
  id = uuid;
  job_type = job_type;
  dedupe_key = dedupe_key;
  source = source;
  listing_id = listing_id;
  status = pending;
  cursor = cursor;
  attempt_count = 0;
  max_attempts = max_attempts;
  next_run_at = run_at;
  claimed_by = none;
  claimed_at = none;
  generation = 0;
  last_error = none;
  created_at = utcnow;
  updated_at = utcnow;
}

unfoldable pub enqueue_idempotent : Job → Action Jobs EnqueueResult
unfolding insert_job find_where
enqueue_idempotent job jobs =
    let (outcome, jobs') = insert_job job jobs in
    elim outcome [
      | returned u ↦ (returned (record { job = job; created = true }), jobs')
      | raised e ↦ elim (find_where (has_dedupe_key job.dedupe_key) jobs') [
        | some existing ↦ (returned (record { job = existing; created = false }), jobs')
        | none ↦ (raised e, jobs')
      ]
    ]

abbrev pub is_due_waiting : ℕ → Job → Bool
is_due_waiting now job = job.status == waiting_for_publication && leb job.next_run_at now

abbrev pub promote : ℕ → Job → Job
promote now job = record job { status = pending; updated_at = now }

unfoldable pub promote_due_waiting : ℕ → Jobs → ℕ × Jobs
unfolding update_where count_where
promote_due_waiting now jobs =
    (count_where (is_due_waiting now) jobs, update_where (is_due_waiting now) (promote now) jobs)

-- `claimed_at <= now - lease_seconds`; a NULL compares to nothing.
abbrev pub lease_over : ℕ → ℕ → Option ℕ → Bool
lease_over now lease_seconds none = false
lease_over now lease_seconds (some t) = leb (t + lease_seconds) now

abbrev pub is_expired : ℕ → ℕ → Job → Bool
is_expired now lease_seconds job =
    is_in job.status (claimed ∷ running ∷ []) && lease_over now lease_seconds job.claimed_at

abbrev pub recover : ℕ → Job → Job
recover now job = record job {
  status = if leb job.max_attempts (job.attempt_count + 1) then failed else pending;
  attempt_count = job.attempt_count + 1;
  next_run_at = now;
  claimed_by = none;
  claimed_at = none;
  generation = job.generation + 1;
  last_error = some (codes "claim_lease_expired");
  updated_at = now;
}

unfoldable pub recover_expired : ℕ → ℕ → Jobs → ℕ × Jobs
unfolding update_where count_where
recover_expired now lease_seconds jobs = (
  count_where (is_expired now lease_seconds) jobs,
  update_where (is_expired now lease_seconds) (recover now) jobs,
)

abbrev pub is_claimable : ℕ → Job → Bool
is_claimable i job = has_id i job && job.status == pending

-- `updated_at` is written by its `onupdate`.
abbrev pub claim : String → ℕ → ℕ → Job → Job
claim worker_id now utcnow job = record job {
  status = claimed;
  claimed_by = some worker_id;
  claimed_at = some now;
  generation = job.generation + 1;
  updated_at = utcnow;
}

unfoldable pub try_claim_one : ℕ → String → ℕ → ℕ → Jobs → Option Job × Jobs
unfolding update_where count_where get_job
try_claim_one i worker_id now utcnow jobs =
    let jobs' = update_where (is_claimable i) (claim worker_id now utcnow) jobs in
    if count_where (is_claimable i) jobs == 1 then (get_job i jobs', jobs') else (none, jobs')

unfoldable pub claim_job : ℕ → String → ℕ → ℕ → Action Jobs Job
unfolding try_claim_one
claim_job i worker_id now utcnow jobs =
    let (won, jobs') = try_claim_one i worker_id now utcnow jobs in
    elim won [ none ↦ (raised stale_job_claim, jobs') | some job ↦ (returned job, jobs') ]

abbrev pub source_matches : Option String → Job → Bool
source_matches none job = true
source_matches (some source) job = job.source == source

abbrev pub is_candidate : ℕ → Option String → Job → Bool
is_candidate now source job =
    (job.status == pending && leb job.next_run_at now) && source_matches source job

unfoldable pub candidate_ids : ℕ → Option String → ℕ → Jobs → List ℕ
unfolding select_where sort_due
candidate_ids now source limit jobs =
    map (λ (job : Job). job.id)
      (take (limit * 5) (sort_due (select_where (is_candidate now source) jobs)))

-- The loop over the candidates; `room` is `limit - len(claimed)`.
unfoldable pub claim_each : List ℕ → ℕ → String → ℕ → ℕ → Jobs → List Job × Jobs
unfolding try_claim_one
claim_each [] room worker_id now utcnow jobs = ([], jobs)
claim_each (i ∷ ids) zero worker_id now utcnow jobs = ([], jobs)
claim_each (i ∷ ids) (suc room) worker_id now utcnow jobs =
    let (won, jobs') = try_claim_one i worker_id now utcnow jobs in
    elim won [
      | none ↦ claim_each ids (suc room) worker_id now utcnow jobs'
      | some job ↦
          let rest = claim_each ids room worker_id now utcnow jobs' in (job ∷ rest.0, rest.1)
    ]

unfoldable pub claim_next : String → ℕ → ℕ → Option String → ℕ → ℕ → Jobs → List Job × Jobs
unfolding recover_expired promote_due_waiting candidate_ids claim_each
claim_next worker_id now utcnow source limit lease_seconds jobs =
    let recovered = (recover_expired now lease_seconds jobs).1 in
    let due = (promote_due_waiting now recovered).1 in
    claim_each (candidate_ids now source limit due) limit worker_id now utcnow due
