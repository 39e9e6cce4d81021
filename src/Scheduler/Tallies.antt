-- ===== src/Scheduler/Tallies.antt =====
-- How a batch ends, and what its counters say.
use market_relay.Prelude.{
  ℕ, suc, ◌+◌, ◌≤◌, String, List, [], ◌∷◌, Bool, false, ◌||◌, none, ◌≡◌, refl, arith, ◌==◌, nat_eq,
  string_eq, length, Bool-cases, inl, inr, if◌then◌else◌,
}
use market_relay.Table.{Unique, count_where}
use market_relay.Governance.Credentials.{Text}
use market_relay.Action.{Outcome, returned, raised, Error, stale_job_claim, Action}
use market_relay.Jobs.{
  Job, JobStatus, pending, claimed, running, waiting_for_publication, done, failed,
}
use market_relay.Queue.{Jobs, claim_next}
use market_relay.Queue.Transitions.{Claim, mark_failed, owned_transition, is_owned, active}
use market_relay.Queue.Steps.{id_of}
use market_relay.Queue.Batch.{claim_next-claims}
use market_relay.Ingestion.Runner.{State, JobOutcome, resume, nothing_expired}
use market_relay.Ingestion.Runner.Process.{reread, claim_of}
use market_relay.Scheduler.Batch.{
  BatchWorld, ProcessOutcome, tally_failure, tally_status, is_stale, attempt, fail_unforeseen,
  account_for, process_one, process_each, claim_and_process, copy_after, is_all,
}

-- The jobs that the counters speak of.
abbrev pub counted : ProcessOutcome → ℕ
counted o =
    o.jobs_done
    + (o.jobs_waiting + (o.jobs_deferred_quota + (o.jobs_failed_terminal + o.jobs_retrying)))

-- It returns such a value, or the claim was found to be stale.
abbrev pub Ends {ℓ} : {A : Type ℓ} → (A → Type 0) → Outcome A → Type 0
Ends P (returned a) = P a
Ends P (raised e) = e ≡ stale_job_claim

mark_failed-Ends :
    (c : Claim) (attempt_count max_attempts : ℕ) (error : Text) (now : ℕ) (jobs : Jobs)
    → Ends (λ _. Unit) (mark_failed c attempt_count max_attempts error now jobs).0
unfolding mark_failed owned_transition
mark_failed-Ends c attempt_count max_attempts error now jobs =
    elim (Bool-cases (count_where (is_owned c active) jobs == 1)) [
      | inl t ↦ rw t tt
      | inr f ↦ rw f refl
    ]

module _ {S A B : Type 0} (P : A → Type 0) (Q : B → Type 0) where
  resume-Ends :
      (k : A → Action S B) (o : Outcome A) (s : S)
      → Ends P o
      → ((a : A) → P a → Ends Q (k a s).0)
      → Ends Q (resume k o s).0
  resume-Ends k (returned a) s h next = next a h
  resume-Ends k (raised e) s h next = h

tally_failure-le : (status : JobStatus) → counted (tally_failure status) ≤ 1
tally_failure-le pending = omega arith
tally_failure-le claimed = omega arith
tally_failure-le running = omega arith
tally_failure-le waiting_for_publication = omega arith
tally_failure-le done = omega arith
tally_failure-le failed = omega arith

tally_status-le : (status : JobStatus) → counted (tally_status status) ≤ 1
tally_status-le pending = omega arith
tally_status-le claimed = omega arith
tally_status-le running = omega arith
tally_status-le waiting_for_publication = omega arith
tally_status-le done = omega arith
tally_status-le failed = omega arith

module _ {P S : Type 0} (w : BatchWorld P S) (worker_id : String) (now : ℕ) where
  fail_unforeseen-Ends :
      (job : Job) (e : Error) (s : State S)
      → Ends (λ o. counted o ≤ 1) (fail_unforeseen w worker_id now job e s).0
  unfolding fail_unforeseen
  fail_unforeseen-Ends job e s =
      let copy = copy_after s.expired job s.jobs in
      resume-Ends (λ _. Unit) (λ o. counted o ≤ 1) _ _ _
        (mark_failed-Ends (claim_of worker_id copy) _ _ _ now s.jobs) (λ _ _. tally_failure-le _)

  account_for-Ends :
      (job : Job) (r : Outcome JobOutcome × State S)
      → Ends (λ o. counted o ≤ 1) (account_for w worker_id now job r).0
  unfolding account_for
  account_for-Ends job (returned result, s) =
      elim (Bool-cases (result.detail == "quota_exhausted")) [
        | inl t ↦ rw t (omega arith)
        | inr f ↦ rw f (tally_status-le (reread job s.jobs).status)
      ]
  account_for-Ends job (raised e, s) = elim (Bool-cases (is_stale e)) [
    | inl t ↦ rw t (omega arith)
    | inr f ↦ rw f (fail_unforeseen-Ends job e s)
  ]

  process_one-Ends :
      (i : ℕ) (stale : Bool) (job : Job) (s : State S)
      → Ends (λ o. counted o ≤ 1) (process_one w worker_id now i stale job s).0
  unfolding process_one
  process_one-Ends i stale job s =
      let copy = if stale then reread job s.jobs else job in
      account_for-Ends copy
        (attempt w worker_id now i copy (record s { expired = nothing_expired }))

  process_each-Ends :
      (i : ℕ) (stale : Bool) (jobs : List Job) (s : State S)
      → Ends (λ o. counted o ≤ length jobs) (process_each w worker_id now i stale jobs s).0
  unfolding process_each
  process_each-Ends i stale [] s = omega arith
  process_each-Ends i stale (job ∷ jobs) s =
      let own = process_one w worker_id now i stale job s in
      let stale' = stale || is_all own.1.expired in
      resume-Ends (λ o. counted o ≤ 1) (λ o. counted o ≤ suc (length jobs)) _ own.0 own.1
        (process_one-Ends i stale job s)
        (λ o le.
          resume-Ends (λ rest. counted rest ≤ length jobs) (λ o. counted o ≤ suc (length jobs)) _ _
            _ (process_each-Ends (suc i) stale' jobs own.1) (λ rest le'. omega (arith, le, le')))

  -- A batch that starts from jobs with different identifiers returns or raises StaleJobClaimError, and
  -- nothing else, whatever its providers, quota adapters and policies raise. When it returns, it
  -- claimed at most as many jobs as the batch allows, and its counters speak of at most one outcome
  -- for each of them.
  pub claim_and_process-Ends :
      (batch_size lease_seconds : ℕ) (s : State S)
      → Unique id_of s.jobs
      → Ends
          (λ o. (counted o ≤ o.jobs_claimed) × (o.jobs_claimed ≤ batch_size))
          (claim_and_process w worker_id now batch_size lease_seconds s).0
  unfolding claim_and_process
  claim_and_process-Ends batch_size lease_seconds s u =
      let (jobs, rows) = claim_next worker_id now w.utcnow none batch_size lease_seconds s.jobs in
      let bounded =
        (claim_next-claims worker_id now w.utcnow none batch_size lease_seconds s.jobs u).0 in
      resume-Ends (λ o. counted o ≤ length jobs) _ _ _ _
        (process_each-Ends 0 false jobs (record s { jobs = rows })) (λ o le. (le, bounded))
