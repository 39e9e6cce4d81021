-- ===== src/Ingestion/Runner/Finished.antt =====
-- What `process` returns says of its job.
use market_relay.Prelude.{
  ℕ, String, ◌≡◌, refl, subst, ◌==◌, nat_eq, Bool-cases, inl, inr, Option-cases,
}
use market_relay.Table.{Unique}
use market_relay.Action.{Outcome-cases, returned, raised, stale_job_claim}
use market_relay.Jobs.{Job, pending, job_status_eq}
use market_relay.Queue.{Jobs, claim_job, try_claim_one}
use market_relay.Queue.Steps.{id_of}
use market_relay.Queue.Claiming.{Won, Won-claim, Unique-claim}
use market_relay.Queue.Ownership.{found_id}
use market_relay.Ingestion.Runner.{Surroundings, State, and_then, on_jobs}
use market_relay.Ingestion.Runner.Settled.{IsSettled, process_claimed-IsSettled}
use market_relay.Ingestion.Runner.Process.{process_claimed, process}

-- The claim that `process` begins with, when the copy it is given is pending.
claim_job-won :
    (i : ℕ) (worker_id : String) (now utcnow : ℕ) (jobs : Jobs) (won : Job)
    → Unique id_of jobs
    → (claim_job i worker_id now utcnow jobs).0 ≡ returned won
    → (won.id ≡ i) × Unique id_of (claim_job i worker_id now utcnow jobs).1
unfolding claim_job Won
claim_job-won i worker_id now utcnow jobs won u h =
    elim (Option-cases (try_claim_one i worker_id now utcnow jobs).0) [
      | inl e ↦
          let stopped : (claim_job i worker_id now utcnow jobs).0 ≡ raised stale_job_claim =
            rw (e, claim_job) refl in
          absurd (cc (h, stopped))
      | inr (found, e) ↦
          let (r, here_before, waits, taken, there) =
            Won-claim i worker_id now utcnow jobs found u e in
          let went : (claim_job i worker_id now utcnow jobs).0 ≡ returned found =
            rw (e, claim_job) refl in
          let same : won ≡ found = cc (h, went) in
          (
            cc (same, found_id i _ found there),
            rw (e, claim_job) (Unique-claim i worker_id now utcnow jobs u),
          )
    ]

claimed-IsSettled :
    {S : Type 0} (w : Surroundings S) (worker_id : String) (now : ℕ) (job : Job) (s : State S)
    → Unique id_of s.jobs
    → ((jobs : Jobs) → Unique id_of jobs → Unique id_of (w.meanwhile jobs))
    → IsSettled job.id (
        and_then
          (on_jobs (claim_job job.id worker_id now w.utcnow))
          (process_claimed w worker_id now)
          s)
claimed-IsSettled w worker_id now job s u keep =
    let r = claim_job job.id worker_id now w.utcnow s.jobs in
    elim (Outcome-cases r.0) [
      | inr (e, h) ↦ rw h tt
      | inl (won, h) ↦
          let (own, u') = claim_job-won job.id worker_id now w.utcnow s.jobs won u h in
          rw h (
            subst (λ i. IsSettled i (process_claimed w worker_id now won (record s { jobs = r.1 })))
              own (process_claimed-IsSettled w worker_id now won (record s { jobs = r.1 }) u' keep))
    ]

-- When `process` returns, its outcome states the status of the job's row, and either the job is done
-- and the outcome says so, or the job is pending again or failed and no worker holds it: no job is
-- left claimed or running. Identifiers are unique, whatever others commit meanwhile.
pub process-IsSettled :
    {S : Type 0} (w : Surroundings S) (worker_id : String) (now : ℕ) (job : Job) (s : State S)
    → Unique id_of s.jobs
    → ((jobs : Jobs) → Unique id_of jobs → Unique id_of (w.meanwhile jobs))
    → IsSettled job.id (process w worker_id now job s)
unfolding process
process-IsSettled w worker_id now job s u keep = elim (Bool-cases (job.status == pending)) [
  | inr taken ↦ rw taken (process_claimed-IsSettled w worker_id now job s u keep)
  | inl waiting ↦ rw waiting (claimed-IsSettled w worker_id now job s u keep)
]
