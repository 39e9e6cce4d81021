-- ===== src/Dispatch/Idempotence.antt =====
-- A plan that is enqueued again.
use market_relay.Prelude.{
  ==-refl, ◌⊎◌, ℕ, suc, String, List, [], ◌∷◌, ◌++◌, Bool, true, false, none, some, ◌≡◌, refl, sym,
  subst, ap, ◌∙◌, ◌==◌, ◌||◌, nat_eq, string_eq, arith, Bool-cases, Option-cases, inl, inr, All,
}
use market_relay.Table.{find_where, count_where}
use market_relay.Table.Laws.{find_where-append}
use market_relay.Action.{Outcome, Outcome-cases, returned, raised, integrity_error}
use market_relay.Jobs.{Job}
use market_relay.Queue.{
  Jobs, EnqueueResult, enqueue_idempotent, insert_job, new_job, has_dedupe_key, has_id,
}
use market_relay.Planning.{RecoveryChunk}
use market_relay.Ingestion.Cursor.{Codec}
use market_relay.Dispatch.{Target, chunk_key, fetch_job, enqueue_chunks}

-- A job with that key is stored.
abbrev pub HasKey : Jobs → String → Type 0
HasKey jobs key = (r : Job) × (find_where (has_dedupe_key key) jobs ≡ some r)

count_where-found :
    (i : ℕ) (key : String) (jobs : Jobs) (r : Job)
    → find_where (has_dedupe_key key) jobs ≡ some r
    → (count_where (λ r. has_id i r || has_dedupe_key key r) jobs == 0) ≡ false
unfolding find_where count_where
count_where-found i key [] r h = absurd (cc h)
count_where-found i key (x ∷ jobs) r h = elim (Bool-cases (has_dedupe_key key x)) [
  | inl own ↦ ground (arith, own)
  | inr other ↦ ground (arith, other, count_where-found i key jobs r (ground (arith, other, h)))
]

-- Whether no row has the identifier or the key of a job.
abbrev pub is_free : Job → Jobs → Bool
is_free job jobs = count_where (λ r. has_id job.id r || has_dedupe_key job.dedupe_key r) jobs == 0

insert_job-free :
    (job : Job) (jobs : Jobs)
    → is_free job jobs ≡ true
    → insert_job job jobs ≡ (returned tt, jobs ++ job ∷ [])
unfolding insert_job
insert_job-free job jobs h = rw (h, insert_job) refl

insert_job-taken :
    (job : Job) (jobs : Jobs)
    → is_free job jobs ≡ false
    → insert_job job jobs ≡ (raised integrity_error, jobs)
unfolding insert_job
insert_job-taken job jobs h = rw (h, insert_job) refl

-- What follows the insertion.
abbrev enqueue_with : Job → Outcome (Unit {0}) → Jobs → Outcome EnqueueResult × Jobs
enqueue_with job (returned u) jobs = (returned (record { job = job; created = true }), jobs)
enqueue_with job (raised e) jobs = elim (find_where (has_dedupe_key job.dedupe_key) jobs) [
  | some existing ↦ (returned (record { job = existing; created = false }), jobs)
  | none ↦ (raised e, jobs)
]

enqueue_with-insert :
    (job : Job) (jobs : Jobs) (r : Outcome (Unit {0}) × Jobs)
    → insert_job job jobs ≡ r
    → enqueue_idempotent job jobs ≡ enqueue_with job r.0 r.1
unfolding enqueue_idempotent
enqueue_with-insert job jobs r h =
    subst (λ x. enqueue_idempotent job jobs ≡ enqueue_with job x.0 x.1) h
      (by_cases (insert_job job jobs) refl)
  where
    by_cases :
        (x : Outcome (Unit {0}) × Jobs)
        → insert_job job jobs ≡ x
        → enqueue_idempotent job jobs
          ≡ enqueue_with job (insert_job job jobs).0 (insert_job job jobs).1
    by_cases (returned u, jobs') e =
        rw (ap (λ (y : Outcome (Unit {0}) × Jobs). y.0) e, enqueue_idempotent, enqueue_with) refl
    by_cases (raised x, jobs') e =
        rw (ap (λ (y : Outcome (Unit {0}) × Jobs). y.0) e, enqueue_idempotent, enqueue_with) refl

pub enqueue-free :
    (job : Job) (jobs : Jobs)
    → is_free job jobs ≡ true
    → enqueue_idempotent job jobs
      ≡ (returned (record { job = job; created = true }), jobs ++ job ∷ [])
enqueue-free job jobs h = enqueue_with-insert job jobs _ (insert_job-free job jobs h)

pub enqueue-stored :
    (job : Job) (jobs : Jobs) (r : Job)
    → is_free job jobs ≡ false
    → find_where (has_dedupe_key job.dedupe_key) jobs ≡ some r
    → enqueue_idempotent job jobs ≡ (returned (record { job = r; created = false }), jobs)
enqueue-stored job jobs r h e =
    enqueue_with-insert job jobs _ (insert_job-taken job jobs h) ∙ rw (enqueue_with, e) refl

pub enqueue-refused :
    (job : Job) (jobs : Jobs)
    → is_free job jobs ≡ false
    → find_where (has_dedupe_key job.dedupe_key) jobs ≡ none
    → enqueue_idempotent job jobs ≡ (raised integrity_error, jobs)
enqueue-refused job jobs h e =
    enqueue_with-insert job jobs _ (insert_job-taken job jobs h) ∙ rw (enqueue_with, e) refl

-- With a job under its key, an enqueued job is that one, and nothing is written.
pub enqueue_again :
    (job : Job) (jobs : Jobs) (r : Job)
    → find_where (has_dedupe_key job.dedupe_key) jobs ≡ some r
    → enqueue_idempotent job jobs ≡ (returned (record { job = r; created = false }), jobs)
enqueue_again job jobs r h =
    enqueue-stored job jobs r (count_where-found job.id job.dedupe_key jobs r h) h

-- What an enqueued job comes to: the keys stay, and when it returns its own is there.
pub enqueue-HasKey :
    (job : Job) (jobs : Jobs)
    → ((key : String) → HasKey jobs key → HasKey (enqueue_idempotent job jobs).1 key)
      × ((result : EnqueueResult)
          → (enqueue_idempotent job jobs).0 ≡ returned result
          → HasKey (enqueue_idempotent job jobs).1 job.dedupe_key)
enqueue-HasKey job jobs = elim (Bool-cases (is_free job jobs)) [
  | inl free ↦ rw (enqueue-free job jobs free) (
    λ key (r, h). (r, find_where-append (has_dedupe_key key) jobs job ∙ rw h refl),
    λ result h. new_key (Option-cases (find_where (has_dedupe_key job.dedupe_key) jobs)),
  )
  | inr old ↦ elim (Option-cases (find_where (has_dedupe_key job.dedupe_key) jobs)) [
    | inl e ↦ rw (enqueue-refused job jobs old e) (λ key k. k, λ result h. absurd (cc h))
    | inr (r, e) ↦ rw (enqueue-stored job jobs r old e) (λ key k. k, λ result h. (r, e))
  ]
]
  where
    new_key :
        (find_where (has_dedupe_key job.dedupe_key) jobs ≡ none)
          ⊎ ((r : Job) × (find_where (has_dedupe_key job.dedupe_key) jobs ≡ some r))
        → HasKey (jobs ++ job ∷ []) job.dedupe_key
    new_key (inr (r, e)) =
        (r, find_where-append (has_dedupe_key job.dedupe_key) jobs job ∙ rw e refl)
    new_key (inl e) = (
      job,
      find_where-append (has_dedupe_key job.dedupe_key) jobs job
          ∙ rw (e, ==-refl job.dedupe_key) refl,
    )

module _ (codec : Codec) (t : Target) where
  abbrev pub HasChunk : Jobs → RecoveryChunk → Type 0
  HasChunk jobs c = HasKey jobs (chunk_key codec t c.start c.«end»)

  -- The keys that are stored stay stored.
  pub enqueue_chunks-keeps :
      (uuid : ℕ → ℕ) (utcnow now i : ℕ) (chunks : List RecoveryChunk) (jobs : Jobs) (key : String)
      → HasKey jobs key
      → HasKey (enqueue_chunks codec t uuid utcnow now i chunks jobs).1 key
  unfolding enqueue_chunks
  enqueue_chunks-keeps uuid utcnow now i [] jobs key h = h
  enqueue_chunks-keeps uuid utcnow now i (c ∷ chunks) jobs key h =
      let job =
        fetch_job codec t (uuid (suc i)) utcnow (chunk_key codec t c.start c.«end») c.start c.«end»
          now in
      let r = enqueue_idempotent job jobs in
      let kept = (enqueue-HasKey job jobs).0 key h in
      elim (Outcome-cases r.0) [
        | inr (e, stopped) ↦ rw stopped kept
        | inl (result, went) ↦
            let rest = enqueue_chunks codec t uuid utcnow now (suc i) chunks r.1 in
            let kept' = enqueue_chunks-keeps uuid utcnow now (suc i) chunks r.1 key kept in
            elim (Outcome-cases rest.0) [
              | inr (e, stopped) ↦ rw (went, stopped) kept'
              | inl (results, done) ↦ rw (went, done) kept'
            ]
      ]

  -- When every chunk is enqueued, every chunk's key is stored.
  pub enqueue_chunks-stores :
      (uuid : ℕ → ℕ) (utcnow now i : ℕ) (chunks : List RecoveryChunk) (jobs : Jobs)
      (results : List EnqueueResult)
      → (enqueue_chunks codec t uuid utcnow now i chunks jobs).0 ≡ returned results
      → All (HasChunk (enqueue_chunks codec t uuid utcnow now i chunks jobs).1) chunks
  unfolding enqueue_chunks new_job
  enqueue_chunks-stores uuid utcnow now i [] jobs results h = tt
  enqueue_chunks-stores uuid utcnow now i (c ∷ chunks) jobs results h =
      let job =
        fetch_job codec t (uuid (suc i)) utcnow (chunk_key codec t c.start c.«end») c.start c.«end»
          now in
      let r = enqueue_idempotent job jobs in
      elim (Outcome-cases r.0) [
        | inr (e, stopped) ↦ absurd (cc (rw stopped at h))
        | inl (result, went) ↦
            let rest = enqueue_chunks codec t uuid utcnow now (suc i) chunks r.1 in
            let own = (enqueue-HasKey job jobs).1 result went in
            elim (Outcome-cases rest.0) [
              | inr (e, stopped) ↦ absurd (cc (rw (went, stopped) at h))
              | inl (more, done) ↦
                  let same : (enqueue_chunks codec t uuid utcnow now i (c ∷ chunks) jobs).1
                      ≡ rest.1 =
                    rw (went, done) refl in
                  subst (λ js. All (HasChunk js) (c ∷ chunks)) (sym same)
                    (
                      enqueue_chunks-keeps uuid utcnow now (suc i) chunks r.1 _ own,
                      enqueue_chunks-stores uuid utcnow now (suc i) chunks r.1 more done,
                    )
            ]
      ]

  -- With every chunk's key stored, nothing is created and nothing is written.
  pub enqueue_chunks_again :
      (uuid : ℕ → ℕ) (utcnow now i : ℕ) (chunks : List RecoveryChunk) (jobs : Jobs)
      → All (HasChunk jobs) chunks
      → (results : List EnqueueResult) × (enqueue_chunks codec t uuid utcnow now i chunks jobs
          ≡ (returned results, jobs))
        × All (λ (r : EnqueueResult). r.created ≡ false) results
  unfolding enqueue_chunks new_job
  enqueue_chunks_again uuid utcnow now i [] jobs a = ([], refl, tt)
  enqueue_chunks_again uuid utcnow now i (c ∷ chunks) jobs a =
      let job =
        fetch_job codec t (uuid (suc i)) utcnow (chunk_key codec t c.start c.«end») c.start c.«end»
          now in
      let (row, found) = a.0 in
      let stored = enqueue_again job jobs row found in
      let (results, rest, old) = enqueue_chunks_again uuid utcnow now (suc i) chunks jobs a.1 in
      (
        record { job = row; created = false } ∷ results,
        rw (enqueue_chunks, stored, rest) refl,
        (refl, old),
      )
