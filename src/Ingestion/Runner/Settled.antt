-- ===== src/Ingestion/Runner/Settled.antt =====
-- The state that a processed job is left in.
use market_relay.Prelude.{
  ℕ, ==-refl, String, List, [], ◌∷◌, ◌≡◌, ◌⊎◌, refl, sym, ap, subst, ◌∙◌, ◌==◌, ◌&&◌, nat_eq, some,
  none, arith, Bool-cases, inl, inr, Option-cases, if◌then◌else◌, ltb, length,
}
use market_relay.Table.{Unique, count_where}
use market_relay.Action.{Action, Outcome, returned, raised, Error, stale_job_claim, WhenReturned}
use market_relay.Governance.Credentials.{Text}
use market_relay.Governance.PolicyGate.{IngestionAuthorization}
use market_relay.Jobs.{Job, JobStatus, pending, running, done, failed, job_status_eq}
use market_relay.Queue.{Jobs, get_job}
use market_relay.Queue.Steps.{id_of, Step, Reach-Unique, here, next}
use market_relay.Queue.Transitions.{
  Claim, is_owned, active, owned_transition, mark_failed, mark_running, mark_done, defer_for_quota,
  failed_values, defer_values, done_values, assert_owned,
}
use market_relay.Queue.Ownership.{holds, owned_transition-exact, rowcount-owned, found_id}
use market_relay.Observations.Store.{Observations}
use market_relay.Ingestion.{exhausted, QuotaStatus, RawObservation}
use market_relay.Ingestion.Deadline.{run_with_deadline}
use market_relay.Ingestion.Cursor.{FetchCursor}
use market_relay.Ingestion.Runner.{
  on_quota, on_observations, Surroundings, State, JobOutcome, and_then, resume, on_owned,
  expired_by,
}
use market_relay.Ingestion.Runner.Process.{
  reread, is_invalid_cursor, caught_policy, Counts, claim_of, conclude, nothing_counted, fail_job,
  verdict, store_fetched, take_rows, fetch, spend, with_cursor, with_authorization, process_claimed,
}

-- Returned, or an exception.
owned_transition-done :
    (c : Claim) (allowed : List JobStatus) (f : Job → Job) (jobs : Jobs)
    → Unique id_of jobs
    → ((x : Job) → (f x).id ≡ x.id)
    → let after = owned_transition c allowed f jobs in
      ((e : Error) × (after.0 ≡ raised e))
      ⊎ ((r : Job) × (after.0 ≡ returned tt) × (get_job c.job after.1 ≡ some (f r)))
unfolding owned_transition
owned_transition-done c allowed f jobs u keep = elim (Option-cases (get_job c.job jobs)) [
  | inl e ↦ inl (stale_job_claim, rw (rowcount-owned c allowed jobs u, e) refl)
  | inr (r, e) ↦
      let (outcome, row) = owned_transition-exact c allowed f jobs r u keep e in
      elim (Bool-cases (holds c allowed r)) [
        | inl held ↦ inr (r, outcome ∙ rw held refl, row c.job ∙ rw (held, ==-refl c.job) refl)
        | inr lost ↦ inl (stale_job_claim, outcome ∙ rw lost refl)
      ]
]

module _ {S : Type 0} where
  -- What is returned speaks of the job's row: the job is done, or it waits for a retry or has failed,
  -- and no worker holds it.
  abbrev pub IsSettled : ℕ → Outcome JobOutcome × State S → Type 0
  IsSettled i out =
      WhenReturned
        (λ o.
          (row : Job) × (get_job i out.1.jobs ≡ some row)
          × (o.status ≡ row.status)
          × (((o.detail ≡ "done") × (row.status ≡ done))
              ⊎ (((row.status ≡ pending) ⊎ (row.status ≡ failed)) × (row.claimed_by ≡ none))))
        out.0

  module _ (w : Surroundings S) (worker_id : String) (now : ℕ) (c : Claim) where
    -- An owner's transition that ends a job.
    transition-IsSettled :
        (allowed : List JobStatus) (f : Job → Job) (job : Job) (n : Counts) (detail : String)
        (s : State S)
        → Unique id_of s.jobs
        → c.job ≡ job.id
        → ((x : Job) → (f x).id ≡ x.id)
        → ((x : Job)
            → ((detail ≡ "done") × ((f x).status ≡ done))
              ⊎ ((((f x).status ≡ pending) ⊎ ((f x).status ≡ failed)) × ((f x).claimed_by ≡ none)))
        → IsSettled job.id (
            and_then
              (on_owned (owned_transition c allowed f))
              (λ _. conclude w worker_id now job n detail)
              s)
    transition-IsSettled allowed f job n detail s u same keep h =
        elim (owned_transition-done c allowed f s.jobs u keep) [
          | inl (e, stopped) ↦ rw stopped tt
          | inr (r, went, row) ↦
              let row' : get_job job.id (owned_transition c allowed f s.jobs).1 ≡ some (f r) =
                ap (λ i. get_job i (owned_transition c allowed f s.jobs).1) (sym same) ∙ row in
              rw (went, row') (f r, refl, rw (reread, row') refl, h r)
        ]

    fail_job-IsSettled :
        (job : Job) (error : Text) (n : Counts) (detail : String) (s : State S)
        → Unique id_of s.jobs
        → c.job ≡ job.id
        → IsSettled job.id (fail_job w worker_id now c job error n detail s)
    unfolding fail_job mark_failed
    fail_job-IsSettled job error n detail s u same =
        transition-IsSettled active (failed_values job.attempt_count job.max_attempts error now) job
          n detail s u same (λ x. refl) (λ x. inr (ground arith, refl))

    verdict-IsSettled :
        (job : Job) (received : ℕ) (n : Counts) (s : State S)
        → Unique id_of s.jobs
        → c.job ≡ job.id
        → IsSettled job.id (verdict w worker_id now c job received n s)
    unfolding verdict mark_done
    verdict-IsSettled job received n s u same =
        elim (Bool-cases (ltb 0 n.rejected && n.recorded == 0)) [
          | inl bad ↦ rw bad (fail_job-IsSettled job _ n "all_malformed" s u same)
          | inr good ↦ rw good (
              transition-IsSettled (running ∷ []) (done_values now) job n "done" s u same
                (λ x. refl) (λ x. inl (refl, refl)))
        ]

    -- An action on another part of the state comes before.
    before-IsSettled :
        {A : Type 0} (i : ℕ) (o : Outcome A) (k : A → Action (State S) JobOutcome) (s : State S)
        → ((a : A) → IsSettled i (k a s))
        → IsSettled i (resume k o s)
    before-IsSettled i (returned a) k s h = h a
    before-IsSettled i (raised e) k s h = tt

    quota-IsSettled :
        {A : Type 0} (i : ℕ) (m : Action S A) (k : A → Action (State S) JobOutcome) (s : State S)
        → ((a : A) (q : S) → IsSettled i (k a (record s { quota = q })))
        → IsSettled i (and_then (on_quota m) k s)
    quota-IsSettled i m k s h =
        let r = m s.quota in before-IsSettled i r.0 k (record s { quota = r.1 }) λ a. h a r.1

    observations-IsSettled :
        {A : Type 0} (i : ℕ) (m : Action Observations A) (k : A → Action (State S) JobOutcome)
        (s : State S)
        → ((a : A) (rows : Observations) → IsSettled i (k a (record s { observations = rows })))
        → IsSettled i (and_then (on_observations m) k s)
    observations-IsSettled i m k s h =
        let r = m s.observations in
        before-IsSettled i r.0 k (record s { observations = r.1 }) λ a. h a r.1

    store_fetched-IsSettled :
        (job : Job) (cursor : FetchCursor) (authorization : IngestionAuthorization)
        (reply : Outcome (List RawObservation)) (s : State S)
        → Unique id_of s.jobs
        → c.job ≡ job.id
        → IsSettled job.id (store_fetched w worker_id now c job cursor authorization reply s)
    unfolding store_fetched assert_owned
    store_fetched-IsSettled job cursor authorization (raised e) s u same =
        fail_job-IsSettled job _ _ _ s u same
    store_fetched-IsSettled job cursor authorization (returned raws) s u same =
        elim (Bool-cases (count_where (is_owned c active) s.jobs == 0)) [
          | inl lost ↦ rw lost tt
          | inr held ↦ rw held (
              quota-IsSettled job.id (w.quota.consume job.source 1) _ s λ _ q.
                observations-IsSettled job.id
                  (take_rows w worker_id now job cursor authorization 0 raws
                    (nothing_counted w worker_id now))
                  (verdict w worker_id now c job (length raws)) (record s { quota = q })
                  λ n rows.
                    verdict-IsSettled job (length raws) n
                      (record s { quota = q; observations = rows }) u same)
        ]

    reread-id : (job : Job) (jobs : Jobs) → (reread job jobs).id ≡ job.id
    reread-id job jobs = elim (Option-cases (get_job job.id jobs)) [
      | inl e ↦ rw (reread, e) refl
      | inr (row, e) ↦ rw (reread, e) (found_id job.id jobs row e)
    ]

    module _ (keep : (jobs : Jobs) → Unique id_of jobs → Unique id_of (w.meanwhile jobs)) where
      fetch-IsSettled :
          (job : Job) (cursor : FetchCursor) (authorization : IngestionAuthorization) (s : State S)
          → Unique id_of s.jobs
          → c.job ≡ job.id
          → IsSettled job.id (fetch w worker_id now c job cursor authorization s)
      unfolding fetch
      fetch-IsSettled job cursor authorization s u same =
          let r = mark_running c w.utcnow s.jobs in
          let jobs = w.meanwhile r.1 in
          let again = reread-id job jobs in
          before-IsSettled job.id r.0 _ (record s { jobs = r.1; expired = expired_by r.0 })
            λ went.
              subst
                (λ i. IsSettled i (
                  store_fetched w worker_id now c (reread job jobs) cursor authorization
                    (run_with_deadline w.pickles w.fits
                      (w.fetch_range cursor.external_listing_id cursor.start cursor.«end»))
                    (record s { jobs = jobs; expired = expired_by r.0 })))
                again
                (store_fetched-IsSettled (reread job jobs) cursor authorization _
                  (record s { jobs = jobs; expired = expired_by r.0 })
                  (keep r.1 (Reach-Unique u (next here (Step.run c w.utcnow)))) (same ∙ sym again))

      checked-IsSettled :
          (job : Job) (cursor : FetchCursor) (authorization : IngestionAuthorization) (s : State S)
          (q : QuotaStatus)
          → Unique id_of s.jobs
          → c.job ≡ job.id
          → IsSettled job.id (
              (if exhausted q
                  then and_then (on_owned (defer_for_quota c q.reset_at now w.utcnow)) (λ _.
                    conclude w worker_id now job
                      (nothing_counted w worker_id now)
                      "quota_exhausted")
                  else fetch w worker_id now c job cursor authorization)
                s)
      unfolding defer_for_quota
      checked-IsSettled job cursor authorization s q u same = elim (Bool-cases (exhausted q)) [
        | inl none_left ↦ rw none_left (
            transition-IsSettled active (defer_values q.reset_at now w.utcnow) job _
              "quota_exhausted" s u same (λ x. refl) (λ x. inr (inl refl, refl)))
        | inr some_left ↦ rw some_left (fetch-IsSettled job cursor authorization s u same)
      ]

      spend-IsSettled :
          (job : Job) (cursor : FetchCursor) (authorization : IngestionAuthorization) (s : State S)
          → Unique id_of s.jobs
          → c.job ≡ job.id
          → IsSettled job.id (spend w worker_id now c job cursor authorization s)
      unfolding spend
      spend-IsSettled job cursor authorization s u same =
          quota-IsSettled job.id (w.quota.check job.source) _ s λ q quota.
            checked-IsSettled job cursor authorization (record s { quota = quota }) q u same

      with_cursor-IsSettled :
          (job : Job) (authorization : IngestionAuthorization) (o : Outcome FetchCursor)
          (s : State S)
          → Unique id_of s.jobs
          → c.job ≡ job.id
          → IsSettled job.id (with_cursor w worker_id now c job authorization o s)
      unfolding with_cursor
      with_cursor-IsSettled job authorization (returned cursor) s u same =
          spend-IsSettled job cursor authorization s u same
      with_cursor-IsSettled job authorization (raised e) s u same =
          elim (Bool-cases (is_invalid_cursor e)) [
            | inl caught ↦ rw (caught, with_cursor) (fail_job-IsSettled job _ _ _ s u same)
            | inr other ↦ rw (other, with_cursor) tt
          ]

      with_authorization-IsSettled :
          (job : Job) (o : Outcome IngestionAuthorization) (s : State S)
          → Unique id_of s.jobs
          → c.job ≡ job.id
          → IsSettled job.id (with_authorization w worker_id now c job o s)
      unfolding with_authorization
      with_authorization-IsSettled job (returned authorization) s u same =
          with_cursor-IsSettled job authorization _ s u same
      with_authorization-IsSettled job (raised e) s u same = elim (Option-cases (caught_policy e)) [
        | inr (refused, caught) ↦
            rw (caught, with_authorization) (fail_job-IsSettled job _ _ _ s u same)
        | inl other ↦ rw (other, with_authorization) tt
      ]

  pub process_claimed-IsSettled :
      (w : Surroundings S) (worker_id : String) (now : ℕ) (job : Job) (s : State S)
      → Unique id_of s.jobs
      → ((jobs : Jobs) → Unique id_of jobs → Unique id_of (w.meanwhile jobs))
      → IsSettled job.id (process_claimed w worker_id now job s)
  unfolding process_claimed
  process_claimed-IsSettled w worker_id now job s u keep =
      with_authorization-IsSettled w worker_id now (claim_of worker_id job) keep job _ s u refl
