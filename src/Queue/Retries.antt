-- ===== src/Queue/Retries.antt =====
-- A job whose attempts fail: the worker fails it, or it stops and its lease ends.
use market_relay.Prelude.{
  ℕ, ◌+◌, String, List, [], ◌∷◌, true, false, some, none, ◌≡◌, inl, inr, refl, sym, ap, subst, ◌∙◌,
  arith, length, min, leb, ltb, if◌then◌else◌, ◌==◌, nat_eq, ==-refl, Bool-cases, Option-cases,
  string_eq,
}
use market_relay.Table.{Unique}
use market_relay.Governance.Credentials.{Text}
use market_relay.Action.{Outcome, returned, raised, stale_job_claim}
use market_relay.Jobs.{Job, pending, failed, job_status_eq}
use market_relay.Queue.{
  Jobs, get_job, try_claim_one, claim_job, claim, recover_expired, is_expired, recover,
}
use market_relay.Queue.Transitions.{Claim, mark_failed, failed_values, active}
use market_relay.Queue.Ownership.{holds, owned_transition-exact, found_id}
use market_relay.Queue.Steps.{id_of, Step, Reach-Unique, here, next, get_job-update_where}
use market_relay.Queue.Claiming.{try_claim_one-outcome, get_job-claim, Unique-claim}

-- One attempt: by a worker that claims the job and fails it, or by one that claims it and stops, so
-- that its claim is recovered when the lease ends.
pub data Attempt : Type 0 where
  fails : (worker_id : String) (now utcnow : ℕ) (error : Text) → Attempt
  stops : (worker_id : String) (now utcnow lease_seconds : ℕ) → Attempt

abbrev claim_with : String → Job → Claim
claim_with worker_id job = record {
  job = job.id;
  worker_id = worker_id;
  generation = job.generation;
}

abbrev fail_claimed : String → ℕ → Text → Outcome Job × Jobs → Jobs
fail_claimed worker_id now error (returned job, jobs) =
    (mark_failed (claim_with worker_id job) job.attempt_count job.max_attempts error now jobs).1
fail_claimed worker_id now error (raised e, jobs) = jobs

unfoldable pub attempt_once : ℕ → Attempt → Jobs → Jobs
unfolding claim_job mark_failed recover_expired
attempt_once i (fails worker_id now utcnow error) jobs =
    fail_claimed worker_id now error (claim_job i worker_id now utcnow jobs)
attempt_once i (stops worker_id now utcnow lease_seconds) jobs =
    (recover_expired (now + lease_seconds) lease_seconds
      (claim_job i worker_id now utcnow jobs).1).1

unfoldable pub attempt_all : ℕ → List Attempt → Jobs → Jobs
unfolding attempt_once
attempt_all i [] jobs = jobs
attempt_all i (a ∷ attempts) jobs = attempt_all i attempts (attempt_once i a jobs)

-- The row of a job that has failed so often.
abbrev pub HasFailed : ℕ → ℕ → ℕ → Jobs → Type 0
HasFailed i failures most jobs =
    (row : Job) × (get_job i jobs ≡ some row)
    × (row.max_attempts ≡ most)
    × (row.attempt_count ≡ min failures most)
    × (row.status ≡ (if ltb failures most then pending else failed))

module _ (i : ℕ) (worker_id : String) (now utcnow : ℕ) (jobs : Jobs) (row : Job)
    (u : Unique id_of jobs) (found : get_job i jobs ≡ some row) where
  won-pending :
      row.status ≡ pending
      → (claim_job i worker_id now utcnow jobs ≡ (
        returned (claim worker_id now utcnow row),
        (try_claim_one i worker_id now utcnow jobs).1,
      ))
        × (get_job i (try_claim_one i worker_id now utcnow jobs).1
            ≡ some (claim worker_id now utcnow row))
  unfolding claim_job
  won-pending waits =
      let won : (try_claim_one i worker_id now utcnow jobs).0
          ≡ some (claim worker_id now utcnow row) =
        try_claim_one-outcome i worker_id now utcnow jobs u ∙ rw (found, waits) refl in
      (
        rw (won, claim_job) refl,
        get_job-claim i i worker_id now utcnow jobs row found
            ∙ rw (found_id i jobs row found, ==-refl i, waits) refl,
      )

  lost-failed :
      row.status ≡ failed
      → (claim_job i worker_id now utcnow jobs
          ≡ (raised stale_job_claim, (try_claim_one i worker_id now utcnow jobs).1))
        × (get_job i (try_claim_one i worker_id now utcnow jobs).1 ≡ some row)
  unfolding claim_job
  lost-failed over =
      let lost : (try_claim_one i worker_id now utcnow jobs).0 ≡ none =
        try_claim_one-outcome i worker_id now utcnow jobs u ∙ rw (found, over) refl in
      (
        rw (lost, claim_job) refl,
        get_job-claim i i worker_id now utcnow jobs row found
            ∙ rw (found_id i jobs row found, ==-refl i, over) refl,
      )

-- What an attempt leaves of a job: a pending one has failed once more, a failed one is as it was.
abbrev AfterAttempt : ℕ → Job → Jobs → Type 0
AfterAttempt i row jobs =
    (row' : Job) × (get_job i jobs ≡ some row')
    × (row'.max_attempts ≡ row.max_attempts)
    × (row'.attempt_count ≡ row.attempt_count + 1)
    × (row'.status ≡ (if leb row.max_attempts (row.attempt_count + 1) then failed else pending))

module _ (i : ℕ) (jobs : Jobs) (row : Job) (u : Unique id_of jobs)
    (found : get_job i jobs ≡ some row) where
  fails-pending :
      (worker_id : String) (now utcnow : ℕ) (error : Text)
      → row.status ≡ pending
      → AfterAttempt i row (attempt_once i (fails worker_id now utcnow error) jobs)
  unfolding attempt_once mark_failed
  fails-pending worker_id now utcnow error waits =
      let (won, stored) = won-pending i worker_id now utcnow jobs row u found waits in
      let job = claim worker_id now utcnow row in
      let own = found_id i jobs row found in
      let after = (try_claim_one i worker_id now utcnow jobs).1 in
      let c = claim_with worker_id job in
      let values = failed_values job.attempt_count job.max_attempts error now in
      let held : holds c active job ≡ true =
        rw (==-refl worker_id, ==-refl (row.generation + 1)) refl in
      let same : (row.id == i) ≡ true = rw own (==-refl i) in
      let written =
        (owned_transition-exact c active values after job
            (Unique-claim i worker_id now utcnow jobs u) (λ x. refl)
            (subst (λ j. get_job j after ≡ some job) (sym own) stored)).1
          i in
      (
        values job,
        ap (λ r. get_job i (fail_claimed worker_id now error r)) won
            ∙ written
            ∙ rw (same, held) refl,
        refl,
        refl,
        refl,
      )

  stops-pending :
      (worker_id : String) (now utcnow lease_seconds : ℕ)
      → row.status ≡ pending
      → AfterAttempt i row (attempt_once i (stops worker_id now utcnow lease_seconds) jobs)
  unfolding attempt_once recover_expired
  stops-pending worker_id now utcnow lease_seconds waits =
      let (won, stored) = won-pending i worker_id now utcnow jobs row u found waits in
      let job = claim worker_id now utcnow row in
      let after = (try_claim_one i worker_id now utcnow jobs).1 in
      let recovered =
        get_job-update_where i (is_expired (now + lease_seconds) lease_seconds)
          (recover (now + lease_seconds)) after (λ x. refl) in
      let expired : is_expired (now + lease_seconds) lease_seconds job ≡ true = ground arith in
      (
        recover (now + lease_seconds) job,
        ap (λ r. get_job i (recover_expired (now + lease_seconds) lease_seconds r.1).1) won
            ∙ recovered
            ∙ rw (stored, expired) refl,
        refl,
        refl,
        refl,
      )

  fails-failed :
      (worker_id : String) (now utcnow : ℕ) (error : Text)
      → row.status ≡ failed
      → get_job i (attempt_once i (fails worker_id now utcnow error) jobs) ≡ some row
  unfolding attempt_once
  fails-failed worker_id now utcnow error over =
      let (lost, stored) = lost-failed i worker_id now utcnow jobs row u found over in
      ap (λ r. get_job i (fail_claimed worker_id now error r)) lost ∙ stored

  stops-failed :
      (worker_id : String) (now utcnow lease_seconds : ℕ)
      → row.status ≡ failed
      → get_job i (attempt_once i (stops worker_id now utcnow lease_seconds) jobs) ≡ some row
  unfolding attempt_once recover_expired
  stops-failed worker_id now utcnow lease_seconds over =
      let (lost, stored) = lost-failed i worker_id now utcnow jobs row u found over in
      let after = (try_claim_one i worker_id now utcnow jobs).1 in
      let recovered =
        get_job-update_where i (is_expired (now + lease_seconds) lease_seconds)
          (recover (now + lease_seconds)) after (λ x. refl) in
      let rests : is_expired (now + lease_seconds) lease_seconds row ≡ false = rw over refl in
      ap (λ r. get_job i (recover_expired (now + lease_seconds) lease_seconds r.1).1) lost
      ∙ recovered
      ∙ rw (stored, rests) refl

  attempt-pending :
      (a : Attempt) → row.status ≡ pending → AfterAttempt i row (attempt_once i a jobs)
  attempt-pending (fails worker_id now utcnow error) = fails-pending worker_id now utcnow error
  attempt-pending (stops worker_id now utcnow lease_seconds) =
      stops-pending worker_id now utcnow lease_seconds

  attempt-failed :
      (a : Attempt) → row.status ≡ failed → get_job i (attempt_once i a jobs) ≡ some row
  attempt-failed (fails worker_id now utcnow error) = fails-failed worker_id now utcnow error
  attempt-failed (stops worker_id now utcnow lease_seconds) =
      stops-failed worker_id now utcnow lease_seconds

-- An attempt is made of the queue's statements.
claim_job-table :
    (i : ℕ) (worker_id : String) (now utcnow : ℕ) (jobs : Jobs)
    → (claim_job i worker_id now utcnow jobs).1 ≡ (try_claim_one i worker_id now utcnow jobs).1
unfolding claim_job
claim_job-table i worker_id now utcnow jobs =
    elim (Option-cases (try_claim_one i worker_id now utcnow jobs).0) [
      | inl n ↦ rw (n, claim_job) refl
      | inr (job, won) ↦ rw (won, claim_job) refl
    ]

fail_claimed-Unique :
    (worker_id : String) (now : ℕ) (error : Text) (o : Outcome Job) (jobs : Jobs)
    → Unique id_of jobs
    → Unique id_of (fail_claimed worker_id now error (o, jobs))
fail_claimed-Unique worker_id now error (raised e) jobs u = u
fail_claimed-Unique worker_id now error (returned job) jobs u =
    Reach-Unique u (
      next here (Step.fail (claim_with worker_id job) job.attempt_count job.max_attempts error now))

attempt-Unique :
    (i : ℕ) (a : Attempt) (jobs : Jobs) → Unique id_of jobs → Unique id_of (attempt_once i a jobs)
unfolding attempt_once
attempt-Unique i (fails worker_id now utcnow error) jobs u =
    fail_claimed-Unique worker_id now error _ _ (
      subst (Unique id_of) (sym (claim_job-table i worker_id now utcnow jobs))
        (Unique-claim i worker_id now utcnow jobs u))
attempt-Unique i (stops worker_id now utcnow lease_seconds) jobs u =
    Reach-Unique
      (subst (Unique id_of) (sym (claim_job-table i worker_id now utcnow jobs))
        (Unique-claim i worker_id now utcnow jobs u))
      (next here (Step.recover (now + lease_seconds) lease_seconds))

attempt-HasFailed :
    (i : ℕ) (a : Attempt) (failures most : ℕ) (jobs : Jobs)
    → Unique id_of jobs
    → HasFailed i failures most jobs
    → HasFailed i (failures + 1) most (attempt_once i a jobs)
attempt-HasFailed i a failures most jobs u (row, found, same, count, status) =
    elim (Bool-cases (ltb failures most)) [
      | inl more ↦
          let (row', found', same', count', status') =
            attempt-pending i jobs row u found a (status ∙ rw more refl) in
          (
            row',
            found',
            same' ∙ same,
            ground (arith, count', count, more),
            status' ∙ ground (arith, same, count, more),
          )
      | inr over ↦ (
        row,
        attempt-failed i jobs row u found a (status ∙ rw over refl),
        same,
        ground (arith, count, over),
        status ∙ ground (arith, over),
      )
    ]

-- A job is attempted again and again, by workers that fail it or that stop and leave it to the
-- recovery of their lease: after each of the first attempts it is pending and counts one attempt more,
-- and from `max_attempts` attempts on it is failed and no later attempt changes that.
pub attempt_all-HasFailed :
    (i : ℕ) (attempts : List Attempt) (failures most : ℕ) (jobs : Jobs)
    → Unique id_of jobs
    → HasFailed i failures most jobs
    → HasFailed i (failures + length attempts) most (attempt_all i attempts jobs)
unfolding attempt_all
attempt_all-HasFailed i [] failures most jobs u h =
    subst (λ n. HasFailed i n most jobs) (omega arith) h
attempt_all-HasFailed i (a ∷ attempts) failures most jobs u h =
    subst (λ n. HasFailed i n most (attempt_all i attempts (attempt_once i a jobs))) (omega arith)
      (attempt_all-HasFailed i attempts (failures + 1) most (attempt_once i a jobs)
        (attempt-Unique i a jobs u) (attempt-HasFailed i a failures most jobs u h))
