-- ===== src/Scheduler/Undisturbed.antt =====
-- A job that a worker holds, processed while no other process writes: what the runner leaves of the
-- table, whatever the provider, the quota adapter and the policies do.
use market_relay.Prelude.{
  ℕ, String, List, [], ◌∷◌, false, ◌≡◌, refl, ◌==◌, ◌&&◌, nat_eq, string_eq, Bool-cases,
  Option-cases, inl, inr, ltb, length,
}
use market_relay.Governance.Credentials.{Text}
use market_relay.Governance.PolicyGate.{IngestionAuthorization}
use market_relay.Action.{Outcome, returned, raised}
use market_relay.Jobs.{Job, pending, claimed, running, job_status_eq}
use market_relay.Queue.{Jobs}
use market_relay.Queue.Transitions.{
  Claim, active, owned_transition, mark_failed, mark_running, mark_done, defer_for_quota,
  run_values, done_values, failed_values, defer_values,
}
use market_relay.Ingestion.{RawObservation, exhausted}
use market_relay.Ingestion.Cursor.{FetchCursor}
use market_relay.Ingestion.Runner.{Surroundings, State}
use market_relay.Ingestion.Runner.Process.{
  claim_of, Counts, nothing_counted, fail_job, verdict, store_fetched, take_rows, fetch, spend,
  with_cursor, with_authorization, process_claimed, process, is_invalid_cursor, caught_policy,
}
use market_relay.Scheduler.Held.{
  IsHeld, KeepsOthers, IsOrderly, transition-IsOrderly, quota-IsOrderly, observations-IsOrderly,
  assert_owned-IsOrderly, run-IsHeld,
}

module _ {S : Type 0} (w : Surroundings S) (worker_id : String) (now : ℕ) (c : Claim)
    (before : Jobs) where
  fail_job-IsOrderly :
      (copy : Job) (error : Text) (n : Counts) (detail : String) (s : State S)
      → KeepsOthers c before s.jobs
      → IsHeld c before s.jobs
      → IsOrderly c before (fail_job w worker_id now c copy error n detail s)
  unfolding fail_job mark_failed
  fail_job-IsOrderly copy error n detail s keeps held =
      transition-IsOrderly c before active
        (failed_values copy.attempt_count copy.max_attempts error now) _ s (λ x. refl) keeps held
        (λ kept. (kept, λ e h. absurd (cc h)))

  verdict-IsOrderly :
      (copy : Job) (received : ℕ) (n : Counts) (s : State S)
      → KeepsOthers c before s.jobs
      → IsHeld c before s.jobs
      → IsOrderly c before (verdict w worker_id now c copy received n s)
  unfolding verdict mark_done
  verdict-IsOrderly copy received n s keeps held =
      elim (Bool-cases (ltb 0 n.rejected && n.recorded == 0)) [
        | inl t ↦ rw t (fail_job-IsOrderly copy _ n _ s keeps held)
        | inr f ↦ rw f (
            transition-IsOrderly c before (running ∷ []) (done_values now) _ s (λ x. refl) keeps
              held (λ kept. (kept, λ e h. absurd (cc h))))
      ]

  store_fetched-IsOrderly :
      (copy : Job) (cursor : FetchCursor) (authorization : IngestionAuthorization)
      (o : Outcome (List RawObservation)) (s : State S)
      → KeepsOthers c before s.jobs
      → IsHeld c before s.jobs
      → IsOrderly c before (store_fetched w worker_id now c copy cursor authorization o s)
  unfolding store_fetched
  store_fetched-IsOrderly copy cursor authorization (raised e) s keeps held =
      fail_job-IsOrderly copy _ _ _ s keeps held
  store_fetched-IsOrderly copy cursor authorization (returned raws) s keeps held =
      assert_owned-IsOrderly c before _ s keeps held (
        quota-IsOrderly c before (w.quota.consume copy.source 1) _ s keeps held λ q quota.
          observations-IsOrderly c before
            (take_rows w worker_id now copy cursor authorization 0 raws
              (nothing_counted w worker_id now))
            _ (record s { quota = quota }) keeps held
            λ n rows.
              verdict-IsOrderly copy (length raws) n
                (record s { quota = quota; observations = rows }) keeps held)

  module _ (alone : (jobs : Jobs) → w.meanwhile jobs ≡ jobs) where
    fetch-IsOrderly :
        (copy : Job) (cursor : FetchCursor) (authorization : IngestionAuthorization) (s : State S)
        → KeepsOthers c before s.jobs
        → IsHeld c before s.jobs
        → IsOrderly c before (fetch w worker_id now c copy cursor authorization s)
    unfolding fetch mark_running
    fetch-IsOrderly copy cursor authorization s keeps held =
        transition-IsOrderly c before (claimed ∷ []) (run_values w.utcnow) _ s (λ x. refl) keeps
          held
          (λ kept.
            let same = alone (owned_transition c (claimed ∷ []) (run_values w.utcnow) s.jobs).1 in
            rw same (
              store_fetched-IsOrderly _ cursor authorization _ _ kept
                (run-IsHeld c before w.utcnow s.jobs held)))

    spend-IsOrderly :
        (copy : Job) (cursor : FetchCursor) (authorization : IngestionAuthorization) (s : State S)
        → KeepsOthers c before s.jobs
        → IsHeld c before s.jobs
        → IsOrderly c before (spend w worker_id now c copy cursor authorization s)
    unfolding spend defer_for_quota
    spend-IsOrderly copy cursor authorization s keeps held =
        quota-IsOrderly c before (w.quota.check copy.source) _ s keeps held λ q quota.
          elim (Bool-cases (exhausted q)) [
            | inl e ↦ rw e (
                transition-IsOrderly c before active (defer_values q.reset_at now w.utcnow) _
                  (record s { quota = quota }) (λ x. refl) keeps held
                  (λ kept. (kept, λ e h. absurd (cc h))))
            | inr e ↦
                rw e (
                  fetch-IsOrderly copy cursor authorization (record s { quota = quota }) keeps held)
          ]

    with_cursor-IsOrderly :
        (copy : Job) (authorization : IngestionAuthorization) (o : Outcome FetchCursor)
        (s : State S)
        → KeepsOthers c before s.jobs
        → IsHeld c before s.jobs
        → IsOrderly c before (with_cursor w worker_id now c copy authorization o s)
    unfolding with_cursor
    with_cursor-IsOrderly copy authorization (returned cursor) s keeps held =
        spend-IsOrderly copy cursor authorization s keeps held
    with_cursor-IsOrderly copy authorization (raised e) s keeps held =
        elim (Bool-cases (is_invalid_cursor e)) [
          | inl caught ↦ rw (caught, with_cursor) (fail_job-IsOrderly copy _ _ _ s keeps held)
          | inr other ↦ rw (other, with_cursor) (keeps, λ x h. held)
        ]

    with_authorization-IsOrderly :
        (copy : Job) (o : Outcome IngestionAuthorization) (s : State S)
        → KeepsOthers c before s.jobs
        → IsHeld c before s.jobs
        → IsOrderly c before (with_authorization w worker_id now c copy o s)
    unfolding with_authorization
    with_authorization-IsOrderly copy (returned authorization) s keeps held =
        with_cursor-IsOrderly copy authorization _ s keeps held
    with_authorization-IsOrderly copy (raised e) s keeps held =
        elim (Option-cases (caught_policy e)) [
          | inr (refused, caught) ↦
              rw (caught, with_authorization) (fail_job-IsOrderly copy _ _ _ s keeps held)
          | inl other ↦ rw (other, with_authorization) (keeps, λ x h. held)
        ]

-- The processing of a job that the worker claimed before, alone.
pub process-IsOrderly :
    {S : Type 0} (w : Surroundings S) (worker_id : String) (now : ℕ) (job : Job) (before : Jobs)
    (s : State S)
    → ((jobs : Jobs) → w.meanwhile jobs ≡ jobs)
    → (job.status == pending) ≡ false
    → KeepsOthers (claim_of worker_id job) before s.jobs
    → IsHeld (claim_of worker_id job) before s.jobs
    → IsOrderly (claim_of worker_id job) before (process w worker_id now job s)
unfolding process process_claimed
process-IsOrderly w worker_id now job before s alone taken keeps held = rw taken (
    with_authorization-IsOrderly w worker_id now (claim_of worker_id job) before alone job _ s keeps
      held)
