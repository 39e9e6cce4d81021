-- ===== src/Scheduler/Released.antt =====
-- What a batch owes its jobs: each is let go, or is not counted.
use market_relay.Prelude.{
  ℕ, suc, ◌+◌, String, List, [], ◌∷◌, none, some, ◌≡◌, ◌≢◌, refl, arith, ◌==◌, if◌then◌else◌,
  nat_eq, string_eq, Bool-cases, inl, inr, All, length, is_in, true, ◌⊎◌, leb,
}
use market_relay.Table.{Unique}
use market_relay.Governance.Credentials.{Text}
use market_relay.Action.{Outcome, returned}
use market_relay.Jobs.{Job, JobStatus, pending, done, failed, job_status_eq}
use market_relay.Queue.{Jobs, get_job}
use market_relay.Queue.Steps.{id_of}
use market_relay.Queue.Transitions.{active, failed_values}
use market_relay.Queue.Ownership.{found_id}
use market_relay.Ingestion.Runner.{State, Expired, nothing_expired, job_expired, all_expired}
use market_relay.Ingestion.Runner.Process.{reread, claim_of}
use market_relay.Scheduler.Batch.{
  ProcessOutcome, nothing_processed, plus, tally_status, tally_failure, copy_after,
}
use market_relay.Scheduler.Tallies.{counted}
use market_relay.Scheduler.Held.{IsHeld, KeepsOthers}

-- 1 for a job that is claimed or running, and 0 for another.
abbrev held_count : Jobs → Job → ℕ
held_count jobs job = elim (get_job job.id jobs) [
  | some row ↦ if is_in row.status active then 1 else 0
  | none ↦ 0
]

-- The jobs of a batch that are claimed or running.
abbrev pub still_held : Jobs → List Job → ℕ
still_held jobs [] = 0
still_held jobs (job ∷ batch) = held_count jobs job + still_held jobs batch

-- It returns, with the rows of the other jobs as before, and counts the job exactly when it is let go.
abbrev pub Settles : {S : Type 0} → String → Job → Jobs → Outcome ProcessOutcome × State S → Type 0
Settles worker_id job before out =
    ((o : ProcessOutcome) × (out.0 ≡ returned o) × (held_count out.1.jobs job + counted o ≡ 1))
    × KeepsOthers (claim_of worker_id job) before out.1.jobs

pub held_count-held :
    (worker_id : String) (job : Job) (before jobs : Jobs)
    → IsHeld (claim_of worker_id job) before jobs
    → held_count jobs job ≡ 1
held_count-held worker_id job before jobs (row, found, held) =
    let status : is_in row.status active ≡ true = ground (arith, held) in
    rw (found, held_count, status) refl

pub held_count-row :
    (jobs : Jobs) (job row : Job)
    → get_job job.id jobs ≡ some row
    → ((row.status ≡ done) ⊎ ((row.status ≡ pending) ⊎ (row.status ≡ failed)))
    → held_count jobs job ≡ 0
held_count-row jobs job row found (inl e) = rw (found, held_count, e) refl
held_count-row jobs job row found (inr (inl e)) = rw (found, held_count, e) refl
held_count-row jobs job row found (inr (inr e)) = rw (found, held_count, e) refl

pub held_or_counted : (held count : ℕ) → held ≡ 0 → count ≡ 1 → held + count ≡ 1
held_or_counted held count none_held one = omega (arith, none_held, one)

pub both_count :
    (held later rest : ℕ) (o o' : ProcessOutcome) (n : ℕ)
    → later ≡ held
    → held + counted o ≡ 1
    → rest + counted o' ≡ n
    → later + rest + counted (plus o o') ≡ suc n
both_count held later rest o o' n same one le = omega (arith, same, one, le)

pub held_count-same :
    (job : Job) (s t : Jobs)
    → get_job job.id s ≡ get_job job.id t
    → held_count s job ≡ held_count t job
held_count-same job s t e = rw (held_count, e) refl

-- The loop returns, counts the jobs that it let go, and leaves the rows of the jobs that it
-- was not given; identifiers are unique.
abbrev pub SettleAll : {S : Type 0} → List Job → Jobs → Outcome ProcessOutcome × State S → Type 0
SettleAll jobs before out =
    ((o : ProcessOutcome) × (out.0 ≡ returned o)
      × (still_held out.1.jobs jobs + counted o ≡ length jobs))
    × ((j : ℕ) → All (λ x. j ≢ x.id) jobs → get_job j out.1.jobs ≡ get_job j before)
    × Unique id_of out.1.jobs

pub final_status :
    {d : Type 0} (row : Job)
    → (d × (row.status ≡ done))
      ⊎ (((row.status ≡ pending) ⊎ (row.status ≡ failed)) × (row.claimed_by ≡ none))
    → (row.status ≡ done) ⊎ ((row.status ≡ pending) ⊎ (row.status ≡ failed))
final_status row (inl (says, e)) = inl e
final_status row (inr (e, free)) = inr e

tally_status_one :
    (status : JobStatus)
    → ((status ≡ done) ⊎ ((status ≡ pending) ⊎ (status ≡ failed)))
    → counted (tally_status status) ≡ 1
tally_status_one status (inl e) = rw e refl
tally_status_one status (inr (inl e)) = rw e refl
tally_status_one status (inr (inr e)) = rw e refl

pub tally_failure_one :
    (status : JobStatus)
    → ((status ≡ pending) ⊎ (status ≡ failed))
    → counted (tally_failure status) ≡ 1
tally_failure_one status (inl e) = rw e refl
tally_failure_one status (inr e) = rw e refl

pub counted_one :
    (detail : String) (status : JobStatus)
    → ((status ≡ done) ⊎ ((status ≡ pending) ⊎ (status ≡ failed)))
    → counted (
        if detail == "quota_exhausted"
        then record nothing_processed { jobs_deferred_quota = 1 }
        else tally_status status)
      ≡ 1
counted_one detail status final = elim (Bool-cases (detail == "quota_exhausted")) [
  | inl t ↦ rw t refl
  | inr f ↦ rw f (tally_status_one status final)
]

-- A copy that was read again is the same claim while the claim is held.
reread-claim :
    (worker_id : String) (job : Job) (before jobs : Jobs)
    → IsHeld (claim_of worker_id job) before jobs
    → claim_of worker_id (reread job jobs) ≡ claim_of worker_id job
reread-claim worker_id job before jobs (row, found, held) =
    let same_id = found_id job.id jobs row found in
    let same_generation : row.generation ≡ job.generation =
      ground (arith, held, nat_eq.equals_iff row.generation job.generation) in
    rw (found, reread, same_id, same_generation) refl

pub copy_after-claim :
    (worker_id : String) (e : Expired) (job : Job) (before jobs : Jobs)
    → IsHeld (claim_of worker_id job) before jobs
    → claim_of worker_id (copy_after e job jobs) ≡ claim_of worker_id job
copy_after-claim worker_id nothing_expired job before jobs held = refl
copy_after-claim worker_id job_expired job before jobs held =
    reread-claim worker_id job before jobs held
copy_after-claim worker_id all_expired job before jobs held =
    reread-claim worker_id job before jobs held

-- A job whose attempt failed waits for the next one or is given up.
pub failed_values-status :
    (attempt_count max_attempts now : ℕ) (error : Text) (row : Job)
    → let status = (failed_values attempt_count max_attempts error now row).status in
      (status ≡ pending) ⊎ (status ≡ failed)
failed_values-status attempt_count max_attempts now error row =
    elim (Bool-cases (leb max_attempts (attempt_count + 1))) [
      | inl t ↦ rw t (inr refl)
      | inr f ↦ rw f (inl refl)
    ]
