-- ===== src/Scheduler/Alone.antt =====
-- A batch that runs while no other process writes to the jobs.
use market_relay.Prelude.{
  ℕ, suc, ◌+◌, String, List, [], ◌∷◌, Bool, true, false, none, some, ◌≡◌, ◌≢◌, refl, sym, ◌∙◌,
  arith, ◌==◌, ◌||◌, if◌then◌else◌, nat_eq, string_eq, Bool-cases, inl, inr, ==-refl, All, All-mono,
  All-both, length, subst, ap,
}
use market_relay.Table.{Unique}
use market_relay.Governance.Credentials.{codes}
use market_relay.Action.{Outcome, Outcome-cases, returned, raised, Error}
use market_relay.Jobs.{Job, pending, job_status_eq}
use market_relay.Queue.{Jobs, get_job, claim_next}
use market_relay.Queue.Steps.{id_of}
use market_relay.Queue.Transitions.{Claim, active, owned_transition, mark_failed, failed_values}
use market_relay.Queue.Ownership.{holds, owned_transition-held, owned_transition-exact}
use market_relay.Queue.Batch.{IsDue, prepared, claim_next-claims, Unique-claim_next}
use market_relay.Queue.ClaimLoop.{IsClaimed}
use market_relay.Ingestion.{adapter_error_code}
use market_relay.Ingestion.Runner.{State, JobOutcome, nothing_expired}
use market_relay.Ingestion.Runner.Process.{reread, claim_of}
use market_relay.Adapters.{historical, quota, get_port}
use market_relay.Scheduler.Batch.{
  BatchWorld, ProcessOutcome, attempt, runner_with, fail_unforeseen, account_for, process_one, plus,
  tally_failure, process_each, claim_and_process, copy_after, is_all, is_stale,
}
use market_relay.Ingestion.Runner.Settled.{IsSettled}
use market_relay.Ingestion.Runner.Finished.{process-IsSettled}
use market_relay.Scheduler.Tallies.{counted}
use market_relay.Scheduler.Held.{IsHeld, KeepsOthers, IsOrderly, transition-KeepsOthers}
use market_relay.Scheduler.Undisturbed.{process-IsOrderly}
use market_relay.Scheduler.Released.{
  failed_values-status, still_held, Settles, SettleAll, held_count-held, held_count-row,
  copy_after-claim, counted_one, tally_failure_one, both_count, held_or_counted, held_count-same,
  final_status,
}

module _ {P S : Type 0} (w : BatchWorld P S) (worker_id : String) (now : ℕ)
    (alone : (i : ℕ) (jobs : Jobs) → (w.around i).meanwhile jobs ≡ jobs) where
  module _ (job : Job) (before : Jobs) where
    fail_unforeseen-Settles :
        (e : Error) (s : State S)
        → KeepsOthers (claim_of worker_id job) before s.jobs
        → IsHeld (claim_of worker_id job) before s.jobs
        → Settles worker_id job before (fail_unforeseen w worker_id now job e s)
    unfolding fail_unforeseen mark_failed
    fail_unforeseen-Settles e s keeps (row, found, held) =
        let copy = copy_after s.expired job s.jobs in
        let f =
          failed_values copy.attempt_count copy.max_attempts (codes (adapter_error_code e)) now in
        let kept =
          transition-KeepsOthers (claim_of worker_id job) before active f s.jobs (λ x. refl)
            keeps in
        let (made_then, after) =
          owned_transition-exact (claim_of worker_id job) active f s.jobs row keeps.1 (λ x. refl)
            found in
        let row' : get_job job.id (owned_transition (claim_of worker_id job) active f s.jobs).1
            ≡ some (f row) =
          after job.id ∙ rw (held, ==-refl job.id) refl in
        let later =
          failed_values-status copy.attempt_count copy.max_attempts now
            (codes (adapter_error_code e)) row in
        let none_held =
          held_count-row (owned_transition (claim_of worker_id job) active f s.jobs).1 job (f row)
            row' (inr later) in
        let same_id : copy.id ≡ job.id =
          ap (λ (c : Claim). c.job)
            (copy_after-claim worker_id s.expired job before s.jobs (row, found, held)) in
        let status : (reread copy
              (owned_transition (claim_of worker_id job) active f s.jobs).1).status
            ≡ (f row).status =
          rw (same_id, row', reread) refl in
        let one : counted (
              tally_failure
                (reread copy (owned_transition (claim_of worker_id job) active f s.jobs).1).status)
            ≡ 1 =
          rw status (tally_failure_one _ later) in
        let made =
          owned_transition-held (claim_of worker_id job) active f s.jobs row keeps.1 found held in
        rw (copy_after-claim worker_id s.expired job before s.jobs (row, found, held), made)
          ((_, refl, held_or_counted _ _ (rw made at none_held) (rw made at one)), rw made at kept)

    account_for-Settles :
        (r : Outcome JobOutcome × State S)
        → IsOrderly (claim_of worker_id job) before r
        → IsSettled job.id r
        → Settles worker_id job before (account_for w worker_id now job r)
    unfolding account_for
    account_for-Settles (returned result, s) (keeps, held) (row, found, same, final) =
        let none_held = held_count-row s.jobs job row found (final_status row final) in
        (
          (
            _,
            refl,
            held_or_counted _ _ none_held (
                rw (found, reread) (counted_one result.detail row.status (final_status row final))),
          ),
          keeps,
        )
    account_for-Settles (raised e, s) (keeps, held) settled = elim (Bool-cases (is_stale e)) [
      | inl t ↦ rw t (
        (_, refl, omega (arith, held_count-held worker_id job before s.jobs (held e refl))),
        keeps,
      )
      | inr f ↦ rw f (fail_unforeseen-Settles e s keeps (held e refl))
    ]

    attempt-IsSettled :
        (i : ℕ) (s : State S)
        → Unique id_of s.jobs
        → IsSettled job.id (attempt w worker_id now i job s)
    unfolding attempt
    attempt-IsSettled i s u = elim (Outcome-cases (get_port historical job.source w.registry)) [
      | inr (e, h) ↦ rw h tt
      | inl (p, h) ↦ rw h (elim (Outcome-cases (get_port quota job.source w.registry)) [
        | inr (e, h') ↦ rw h' tt
        | inl (q, h') ↦ rw h' (
            process-IsSettled (runner_with w worker_id now i p q) worker_id now job s u
              (λ jobs u'. subst (Unique id_of) (sym (alone i jobs)) u'))
      ])
    ]

    attempt-IsOrderly :
        (i : ℕ) (s : State S)
        → (job.status == pending) ≡ false
        → KeepsOthers (claim_of worker_id job) before s.jobs
        → IsHeld (claim_of worker_id job) before s.jobs
        → IsOrderly (claim_of worker_id job) before (attempt w worker_id now i job s)
    unfolding attempt
    attempt-IsOrderly i s taken keeps held =
        elim (Outcome-cases (get_port historical job.source w.registry)) [
          | inr (e, h) ↦ rw h (keeps, λ x same. held)
          | inl (p, h) ↦ rw h (elim (Outcome-cases (get_port quota job.source w.registry)) [
            | inr (e, h') ↦ rw h' (keeps, λ x same. held)
            | inl (q, h') ↦ rw h' (
                process-IsOrderly (runner_with w worker_id now i p q) worker_id now job before s
                  (alone i) taken keeps held)
          ])
        ]

  -- What the loop knows of a job that it has not reached: the copy is the row, and the worker's.
  abbrev IsMine : Jobs → Job → Type 0
  IsMine jobs job =
      (get_job job.id jobs ≡ some job)
      × ((job.status == pending) ≡ false)
      × (holds (claim_of worker_id job) active job ≡ true)

  process_one-Settles :
      (i : ℕ) (stale : Bool) (job : Job) (s : State S)
      → Unique id_of s.jobs
      → IsMine s.jobs job
      → Settles worker_id job s.jobs (process_one w worker_id now i stale job s)
  unfolding process_one
  process_one-Settles i stale job s u (found, taken, held) =
      let copy : (if stale then reread job s.jobs else job) ≡ job = elim (Bool-cases stale) [
        | inl t ↦ rw (t, found, reread) refl
        | inr f ↦ rw f refl
      ] in
      rw copy (
        account_for-Settles job s.jobs _
          (attempt-IsOrderly job s.jobs i (record s { expired = nothing_expired }) taken
            (λ j ne. refl, u) (job, found, held))
          (attempt-IsSettled job s.jobs i (record s { expired = nothing_expired }) u))

  process_each-returns :
      (i : ℕ) (stale : Bool) (jobs : List Job) (s : State S)
      → Unique id_of s.jobs
      → Unique id_of jobs
      → All (IsMine s.jobs) jobs
      → SettleAll jobs s.jobs (process_each w worker_id now i stale jobs s)
  unfolding process_each
  process_each-returns i stale [] s u distinct mine = ((_, refl, refl), λ j none_of. refl, u)
  process_each-returns i stale (job ∷ jobs) s u (apart, distinct) (own, mine) =
      let r = process_one w worker_id now i stale job s in
      let ((o, h, one), (others, u')) = process_one-Settles i stale job s u own in
      let mine' =
        All-mono
          (λ x ((found, taken, held), ne). (others x.id (λ same. ne same) ∙ found, taken, held))
          jobs (All-both _ _ jobs mine apart) in
      let ((o', h', rest), later, u'') =
        process_each-returns (suc i) (stale || is_all r.1.expired) jobs r.1 u' distinct mine' in
      let kept = later job.id (All-mono (λ x ne same. ne (sym same)) jobs apart) in
      let out = process_each w worker_id now (suc i) (stale || is_all r.1.expired) jobs r.1 in
      let same : process_each w worker_id now i stale (job ∷ jobs) s
          ≡ (returned (plus o o'), out.1) =
        rw (h, h') refl in
      subst (SettleAll (job ∷ jobs) s.jobs) (sym same) (
        (_, refl, both_count _ _ _ o o' _ (held_count-same job _ _ kept) one rest),
        λ j (ne, none_of). later j none_of ∙ others j ne,
        u'',
      )

  IsClaimed-IsMine :
      (due final : Jobs) (x : Job)
      → IsClaimed worker_id now w.utcnow (IsDue now none) due final x
      → IsMine final x
  IsClaimed-IsMine due final x (r, there, due_then, same, found) = (
    found,
    subst (λ y. (y.status == pending) ≡ false) (sym same) refl,
    subst (λ y. holds (claim_of worker_id y) active y ≡ true) (sym same)
        (rw (==-refl worker_id, ==-refl (r.generation + 1)) refl),
  )

  -- Unless another process writes to the jobs while a provider works, `claim_and_process` returns,
  -- whatever its providers, quota adapters and policies raise. Its count of claimed jobs is that of
  -- the batch; of these, exactly those that are still claimed or running are left out by its other
  -- counters; and every other job is left as `claim_next` left it. Identifiers
  -- that are unique stay so.
  pub claim_and_process-returns :
      (batch_size lease_seconds : ℕ) (s : State S)
      → Unique id_of s.jobs
      → let batch = claim_next worker_id now w.utcnow none batch_size lease_seconds s.jobs in
        let out = claim_and_process w worker_id now batch_size lease_seconds s in
        ((o : ProcessOutcome) × (out.0 ≡ returned o)
          × (o.jobs_claimed ≡ length batch.0)
          × (still_held out.1.jobs batch.0 + counted o ≡ o.jobs_claimed))
        × ((j : ℕ) → All (λ x. j ≢ x.id) batch.0 → get_job j out.1.jobs ≡ get_job j batch.1)
        × Unique id_of out.1.jobs
  unfolding claim_and_process
  claim_and_process-returns batch_size lease_seconds s u =
      let batch = claim_next worker_id now w.utcnow none batch_size lease_seconds s.jobs in
      let (bounded, distinct, rows) =
        claim_next-claims worker_id now w.utcnow none batch_size lease_seconds s.jobs u in
      let ((o, h, le), others, u') =
        process_each-returns 0 false batch.0 (record s { jobs = batch.1 })
          (Unique-claim_next worker_id now w.utcnow none batch_size lease_seconds s.jobs u) distinct
          (All-mono (IsClaimed-IsMine (prepared now lease_seconds s.jobs) batch.1) batch.0 rows) in
      rw h ((_, refl, refl, le), others, u')
