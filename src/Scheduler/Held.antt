-- ===== src/Scheduler/Held.antt =====
-- The steps of the runner while the worker's claim is held and no other process writes to the jobs.
use market_relay.Prelude.{
  ℕ, List, [], ◌∷◌, true, some, ◌≡◌, ◌≢◌, refl, ◌∙◌, arith, ◌==◌, nat_eq, string_eq, Bool-cases,
  inl, inr, ==-refl,
}
use market_relay.Table.{Unique, count_where}
use market_relay.Table.Laws.{Unique-update_where}
use market_relay.Action.{Action, Outcome, returned, raised, Error}
use market_relay.Jobs.{Job, JobStatus, claimed, job_status_eq}
use market_relay.Queue.{Jobs, get_job}
use market_relay.Queue.Steps.{id_of, owned_transition-table}
use market_relay.Queue.Transitions.{
  Claim, is_owned, active, owned_transition, assert_owned, run_values,
}
use market_relay.Queue.Ownership.{holds, other_row, owned_transition-exact}
use market_relay.Queue.Steps.{get_job-update_where}
use market_relay.Observations.Store.{Observations}
use market_relay.Ingestion.Runner.{
  State, and_then, resume, on_jobs, on_owned, expired_by, on_quota, on_observations,
}

module _ (c : Claim) (before : Jobs) where
  -- The claim's row is there, with its owner and its generation.
  abbrev pub IsHeld : Jobs → Type 0
  IsHeld jobs = (row : Job) × (get_job c.job jobs ≡ some row) × (holds c active row ≡ true)

  -- The rows of the other jobs are as before.
  abbrev pub KeepsOthers : Jobs → Type 0
  KeepsOthers jobs = ((i : ℕ) → i ≢ c.job → get_job i jobs ≡ get_job i before) × Unique id_of jobs

  -- The other rows are as before, and after an exception the worker still holds the job.
  abbrev pub IsOrderly : {S A : Type 0} → Outcome A × State S → Type 0
  IsOrderly out = KeepsOthers out.1.jobs × ((e : Error) → out.0 ≡ raised e → IsHeld out.1.jobs)

  pub transition-KeepsOthers :
      (allowed : List JobStatus) (f : Job → Job) (jobs : Jobs)
      → ((x : Job) → (f x).id ≡ x.id)
      → KeepsOthers jobs
      → KeepsOthers (owned_transition c allowed f jobs).1
  transition-KeepsOthers allowed f jobs keep (others, u) =
      rw (owned_transition-table c allowed f jobs) (
        λ i ne. other_row c allowed f jobs i keep ne ∙ others i ne,
        Unique-update_where id_of (is_owned c allowed) f jobs keep u,
      )

  -- A transition that is refused leaves the claim with its owner.
  transition-IsHeld :
      (allowed : List JobStatus) (f : Job → Job) (jobs : Jobs) (e : Error)
      → ((x : Job) → (f x).id ≡ x.id)
      → Unique id_of jobs
      → IsHeld jobs
      → (owned_transition c allowed f jobs).0 ≡ raised e
      → IsHeld (owned_transition c allowed f jobs).1
  transition-IsHeld allowed f jobs e keep u (row, found, held) h =
      let (made, after) = owned_transition-exact c allowed f jobs row u keep found in
      elim (Bool-cases (holds c allowed row)) [
        | inl t ↦ absurd (cc (rw t at made, h))
        | inr lost ↦ (row, after c.job ∙ rw (lost, ==-refl c.job) found, held)
      ]

  resume-IsOrderly :
      {S A B : Type 0} (o : Outcome A) (k : A → Action (State S) B) (s : State S)
      → KeepsOthers s.jobs
      → ((e : Error) → o ≡ raised e → IsHeld s.jobs)
      → ((a : A) → o ≡ returned a → IsOrderly (k a s))
      → IsOrderly (resume k o s)
  resume-IsOrderly (returned a) k s keeps held go = go a refl
  resume-IsOrderly (raised e) k s keeps held go = (keeps, λ x same. held x (cc same))

  -- An owner's transition, and what follows it when it was made.
  pub transition-IsOrderly :
      {S B : Type 0} (allowed : List JobStatus) (f : Job → Job) (k : Unit {0} → Action (State S) B)
      (s : State S)
      → ((x : Job) → (f x).id ≡ x.id)
      → KeepsOthers s.jobs
      → IsHeld s.jobs
      → (let r = owned_transition c allowed f s.jobs in
          KeepsOthers r.1 → IsOrderly (k tt (record s { jobs = r.1; expired = expired_by r.0 })))
      → IsOrderly (and_then (on_owned (owned_transition c allowed f)) k s)
  transition-IsOrderly allowed f k s keep keeps held go =
      let kept = transition-KeepsOthers allowed f s.jobs keep keeps in
      resume-IsOrderly _ k _ kept (λ e h. transition-IsHeld allowed f s.jobs e keep keeps.1 held h)
        (λ a h. go kept)

  pub quota-IsOrderly :
      {S A B : Type 0} (m : Action S A) (k : A → Action (State S) B) (s : State S)
      → KeepsOthers s.jobs
      → IsHeld s.jobs
      → ((a : A) (quota : S) → IsOrderly (k a (record s { quota = quota })))
      → IsOrderly (and_then (on_quota m) k s)
  quota-IsOrderly m k s keeps held go =
      let r = m s.quota in
      resume-IsOrderly r.0 k (record s { quota = r.1 }) keeps (λ e h. held) (λ a h. go a r.1)

  pub observations-IsOrderly :
      {S A B : Type 0} (m : Action Observations A) (k : A → Action (State S) B) (s : State S)
      → KeepsOthers s.jobs
      → IsHeld s.jobs
      → ((a : A) (rows : Observations) → IsOrderly (k a (record s { observations = rows })))
      → IsOrderly (and_then (on_observations m) k s)
  observations-IsOrderly m k s keeps held go =
      let r = m s.observations in
      resume-IsOrderly r.0 k (record s { observations = r.1 }) keeps (λ e h. held) (λ a h. go a r.1)

  pub assert_owned-IsOrderly :
      {S B : Type 0} (k : Unit {0} → Action (State S) B) (s : State S)
      → KeepsOthers s.jobs
      → IsHeld s.jobs
      → IsOrderly (k tt s)
      → IsOrderly (and_then (on_jobs (assert_owned c)) k s)
  unfolding assert_owned
  assert_owned-IsOrderly k s keeps held go =
      elim (Bool-cases (count_where (is_owned c active) s.jobs == 0)) [
        | inl t ↦ rw t (keeps, λ e h. held)
        | inr f ↦ rw f go
      ]

  -- `mark_running` leaves the claim with its owner.
  pub run-IsHeld :
      (utcnow : ℕ) (jobs : Jobs)
      → IsHeld jobs
      → IsHeld (owned_transition c (claimed ∷ []) (run_values utcnow) jobs).1
  run-IsHeld utcnow jobs (row, found, held) =
      let table = owned_transition-table c (claimed ∷ []) (run_values utcnow) jobs in
      let at =
        get_job-update_where c.job (is_owned c (claimed ∷ [])) (run_values utcnow) jobs
          (λ x. refl) in
      elim (Bool-cases (is_owned c (claimed ∷ []) row)) [
        | inl t ↦ (run_values utcnow row, rw table (at ∙ rw (found, t) refl), ground (arith, held))
        | inr f ↦ (row, rw table (at ∙ rw (found, f) refl), held)
      ]
