-- ===== src/Ingestion/Runner/Fenced.antt =====
-- A worker whose claim another worker holds by now.
use market_relay.Prelude.{
  ℕ, Option-cases, Option, if◌then◌else◌, String, [], ◌∷◌, false, ◌≡◌, refl, ◌==◌, nat_eq, some,
  arith, Bool-cases, inl, inr,
}
use market_relay.Table.{Unique}
use market_relay.Action.{Action, Outcome, returned, raised, Error, stale_job_claim}
use market_relay.Governance.Credentials.{Text}
use market_relay.Governance.PolicyGate.{IngestionAuthorization}
use market_relay.Jobs.{Job, pending, claimed, job_status_eq}
use market_relay.Queue.{get_job}
use market_relay.Queue.Steps.{id_of}
use market_relay.Queue.Transitions.{
  Claim, active, mark_failed, mark_running, defer_for_quota, failed_values, run_values,
  defer_values,
}
use market_relay.Queue.Ownership.{holds, owned_transition-stale}
use market_relay.Ingestion.{exhausted, QuotaStatus}
use market_relay.Ingestion.Cursor.{FetchCursor}
use market_relay.Ingestion.Runner.{Surroundings, State, JobOutcome, and_then, resume, on_owned}
use market_relay.Ingestion.Runner.Process.{
  is_invalid_cursor, caught_policy, Counts, claim_of, conclude, nothing_counted, fail_job, fetch,
  spend, with_cursor, with_authorization, process_claimed, process,
}

module _ {S : Type 0} where
  -- An exception, and every job and every observation as before.
  abbrev pub IsRefused : State S → Outcome JobOutcome × State S → Type 0
  IsRefused s out =
      ((e : Error) × (out.0 ≡ raised e))
      × (out.1.jobs ≡ s.jobs)
      × (out.1.observations ≡ s.observations)

  module _ (w : Surroundings S) (worker_id : String) (now : ℕ) (c : Claim) (s : State S) (row : Job)
      (u : Unique id_of s.jobs) (found : get_job c.job s.jobs ≡ some row)
      (lost : holds c active row ≡ false) where
    fail_job-IsRefused :
        (job : Job) (error : Text) (n : Counts) (detail : String)
        → IsRefused s (fail_job w worker_id now c job error n detail s)
    unfolding fail_job mark_failed
    fail_job-IsRefused job error n detail =
        rw
          (owned_transition-stale c active
            (failed_values job.attempt_count job.max_attempts error now) s.jobs row u found lost)
          ((stale_job_claim, refl), refl, refl)

    fetch-IsRefused :
        (job : Job) (cursor : FetchCursor) (authorization : IngestionAuthorization)
        → IsRefused s (fetch w worker_id now c job cursor authorization s)
    unfolding fetch mark_running
    fetch-IsRefused job cursor authorization =
        let not_claimed : holds c (claimed ∷ []) row ≡ false = ground (arith, lost) in
        rw
          (owned_transition-stale c (claimed ∷ []) (run_values w.utcnow) s.jobs row u found
            not_claimed)
          ((stale_job_claim, refl), refl, refl)

    defer-IsRefused :
        (job : Job) (reset_at : Option ℕ) (k : Unit {0} → Action (State S) JobOutcome)
        → IsRefused s (and_then (on_owned (defer_for_quota c reset_at now w.utcnow)) k s)
    unfolding defer_for_quota
    defer-IsRefused job reset_at k =
        rw
          (owned_transition-stale c active (defer_values reset_at now w.utcnow) s.jobs row u found
            lost)
          ((stale_job_claim, refl), refl, refl)

  module _ (w : Surroundings S) (worker_id : String) (now : ℕ) (c : Claim) (s : State S) (row : Job)
      (u : Unique id_of s.jobs) (found : get_job c.job s.jobs ≡ some row)
      (lost : holds c active row ≡ false) where
    checked-IsRefused :
        (job : Job) (cursor : FetchCursor) (authorization : IngestionAuthorization) (quota : S)
        (q : Outcome QuotaStatus)
        → IsRefused s (
            resume
              (λ q.
                if exhausted q
                then and_then (on_owned (defer_for_quota c q.reset_at now w.utcnow)) (λ _.
                  conclude w worker_id now job (nothing_counted w worker_id now) "quota_exhausted")
                else fetch w worker_id now c job cursor authorization)
              q
              (record s { quota = quota }))
    checked-IsRefused job cursor authorization quota (raised e) = ((e, refl), refl, refl)
    checked-IsRefused job cursor authorization quota (returned q) =
        elim (Bool-cases (exhausted q)) [
          | inl e ↦ rw e (
              defer-IsRefused w worker_id now c (record s { quota = quota }) row u found lost job
                q.reset_at _)
          | inr e ↦ rw e (
              fetch-IsRefused w worker_id now c (record s { quota = quota }) row u found lost job
                cursor authorization)
        ]

    spend-IsRefused :
        (job : Job) (cursor : FetchCursor) (authorization : IngestionAuthorization)
        → IsRefused s (spend w worker_id now c job cursor authorization s)
    unfolding spend
    spend-IsRefused job cursor authorization =
        let r = w.quota.check job.source s.quota in
        checked-IsRefused job cursor authorization r.1 r.0

    with_cursor-IsRefused :
        (job : Job) (authorization : IngestionAuthorization) (o : Outcome FetchCursor)
        → IsRefused s (with_cursor w worker_id now c job authorization o s)
    unfolding with_cursor
    with_cursor-IsRefused job authorization (returned cursor) =
        spend-IsRefused job cursor authorization
    with_cursor-IsRefused job authorization (raised e) = elim (Bool-cases (is_invalid_cursor e)) [
      | inl caught ↦
          rw (caught, with_cursor)
            (fail_job-IsRefused w worker_id now c s row u found lost job _ _ _)
      | inr other ↦ rw (other, with_cursor) ((e, refl), refl, refl)
    ]

    with_authorization-IsRefused :
        (job : Job) (o : Outcome IngestionAuthorization)
        → IsRefused s (with_authorization w worker_id now c job o s)
    unfolding with_authorization
    with_authorization-IsRefused job (returned authorization) =
        with_cursor-IsRefused job authorization _
    with_authorization-IsRefused job (raised e) = elim (Option-cases (caught_policy e)) [
      | inr (refused, caught) ↦
          rw (caught, with_authorization)
            (fail_job-IsRefused w worker_id now c s row u found lost job _ _ _)
      | inl other ↦ rw (other, with_authorization) ((e, refl), refl, refl)
    ]

-- A worker whose copy of a claimed job no longer is the claim that the table holds, since the job
-- was recovered, claimed again or finished, gets an exception and changes no job and no
-- observation, whatever the provider, the policy and the quota say.
pub process-stale :
    {S : Type 0} (w : Surroundings S) (worker_id : String) (now : ℕ) (job row : Job) (s : State S)
    → Unique id_of s.jobs
    → (job.status == pending) ≡ false
    → get_job job.id s.jobs ≡ some row
    → holds (claim_of worker_id job) active row ≡ false
    → IsRefused s (process w worker_id now job s)
unfolding process process_claimed
process-stale w worker_id now job row s u taken found lost =
    rw taken (
      with_authorization-IsRefused w worker_id now (claim_of worker_id job) s row u found lost job
        _)
