-- ===== src/Dispatch/Stored.antt =====
-- The jobs of a plan that was enqueued stay stored, and with them nothing is enqueued again.
use market_relay.Prelude.{
  ℕ, ◌+◌, String, List, [], ◌∷◌, false, Option, none, some, ◌≡◌, refl, ◌∙◌, if◌then◌else◌,
  Bool-cases, inl, inr, All, All-mono,
}
use market_relay.Table.Laws.{find_where-update_where}
use market_relay.Action.{Outcome-cases, returned}
use market_relay.Queue.{Jobs, EnqueueResult, enqueue_idempotent, new_job, has_dedupe_key, has_id}
use market_relay.Planning.{RecoveryPlan, last_of}
use market_relay.Ingestion.Cursor.{Codec}
use market_relay.Dispatch.{
  Target, DispatchResult, waiting_key, fetch_job, enqueue_chunks, enqueue_waiting, mark_waiting,
  set_waiting, enqueue_plan,
}
use market_relay.Dispatch.Idempotence.{
  HasKey, HasChunk, enqueue_again, enqueue-HasKey, enqueue_chunks-stores, enqueue_chunks-keeps,
  enqueue_chunks_again,
}

mark_waiting-HasKey :
    (utcnow : ℕ) (result : EnqueueResult) (jobs : Jobs) (key : String)
    → HasKey jobs key
    → HasKey (mark_waiting utcnow result jobs).1 key
mark_waiting-HasKey utcnow result jobs key (r, h) = elim (Bool-cases result.created) [
  | inr old ↦ rw (old, mark_waiting) (r, h)
  | inl new ↦
      let written =
        find_where-update_where (has_dedupe_key key) (has_id result.job.id) (set_waiting utcnow)
          jobs (λ x. refl)
        ∙ rw h refl in
      rw (new, mark_waiting) (if has_id result.job.id r then set_waiting utcnow r else r, written)
]

-- The job of the result was not created.
abbrev pub IsOld : Option EnqueueResult → Type 0
IsOld none = Unit
IsOld (some result) = result.created ≡ false

-- The keys of one table are those of another, too.
abbrev pub KeepsKeys : Jobs → Jobs → Type 0
KeepsKeys jobs jobs' = (key : String) → HasKey jobs key → HasKey jobs' key

module _ (codec : Codec) (t : Target) where
  -- The job of the dates that wait for publication is stored, when there are such dates.
  abbrev pub HasWaiting : Jobs → List ℕ → Type 0
  HasWaiting jobs [] = Unit
  HasWaiting jobs (first ∷ dates) = HasKey jobs (waiting_key codec t first (last_of first dates))

  enqueue_waiting-stores :
      (uuid : ℕ → ℕ) (utcnow run_at : ℕ) (dates : List ℕ) (jobs : Jobs)
      → ((key : String)
          → HasKey jobs key
          → HasKey (enqueue_waiting codec t uuid utcnow run_at dates jobs).1 key)
        × ((result : Option EnqueueResult)
            → (enqueue_waiting codec t uuid utcnow run_at dates jobs).0 ≡ returned result
            → HasWaiting (enqueue_waiting codec t uuid utcnow run_at dates jobs).1 dates)
  unfolding enqueue_waiting new_job
  enqueue_waiting-stores uuid utcnow run_at [] jobs = (λ key h. h, λ result h. tt)
  enqueue_waiting-stores uuid utcnow run_at (first ∷ dates) jobs =
      let last = last_of first dates in
      let job =
        fetch_job codec t (uuid 0) utcnow (waiting_key codec t first last) first last run_at in
      let r = enqueue_idempotent job jobs in
      let (keeps, stores) = enqueue-HasKey job jobs in
      elim (Outcome-cases r.0) [
        | inr (e, stopped) ↦ rw stopped (keeps, λ result h. absurd (cc h))
        | inl (result, went) ↦ rw went (
          λ key h. mark_waiting-HasKey utcnow result r.1 key (keeps key h),
          λ _ h. mark_waiting-HasKey utcnow result r.1 _ (stores result went),
        )
      ]

  enqueue_waiting_again :
      (uuid : ℕ → ℕ) (utcnow run_at : ℕ) (dates : List ℕ) (jobs : Jobs)
      → HasWaiting jobs dates
      → (result : Option EnqueueResult) × (enqueue_waiting codec t uuid utcnow run_at dates jobs
          ≡ (returned result, jobs))
        × IsOld result
  unfolding enqueue_waiting new_job
  enqueue_waiting_again uuid utcnow run_at [] jobs h = (none, refl, tt)
  enqueue_waiting_again uuid utcnow run_at (first ∷ dates) jobs (row, found) =
      let last = last_of first dates in
      let job =
        fetch_job codec t (uuid 0) utcnow (waiting_key codec t first last) first last run_at in
      let stored = enqueue_again job jobs row found in
      (some (record { job = row; created = false }), rw (enqueue_waiting, stored) refl, refl)

  -- The jobs of a plan are stored.
  abbrev pub IsStored : RecoveryPlan → Jobs → Type 0
  IsStored p jobs = All (HasChunk codec t jobs) p.chunks × HasWaiting jobs p.waiting_for_publication

  HasWaiting-kept :
      (dates : List ℕ) (jobs jobs' : Jobs)
      → KeepsKeys jobs jobs'
      → HasWaiting jobs dates
      → HasWaiting jobs' dates
  HasWaiting-kept [] jobs jobs' k h = tt
  HasWaiting-kept (first ∷ dates) jobs jobs' k h = k _ h

  pub IsStored-kept :
      (p : RecoveryPlan) (jobs jobs' : Jobs)
      → KeepsKeys jobs jobs'
      → IsStored p jobs
      → IsStored p jobs'
  IsStored-kept p jobs jobs' k (chunks, waits) = (
    All-mono (λ c. k _) p.chunks chunks,
    HasWaiting-kept p.waiting_for_publication jobs jobs' k waits,
  )

  pub enqueue_plan-stores :
      (p : RecoveryPlan) (uuid : ℕ → ℕ) (utcnow now retry : ℕ) (jobs : Jobs)
      → let r = enqueue_plan codec t uuid utcnow now retry p jobs in
        KeepsKeys jobs r.1 × ((d : DispatchResult) → r.0 ≡ returned d → IsStored p r.1)
  unfolding enqueue_plan
  enqueue_plan-stores p uuid utcnow now retry jobs =
      let chunks = enqueue_chunks codec t uuid utcnow now 0 p.chunks jobs in
      let waits =
        enqueue_waiting codec t uuid utcnow (now + retry) p.waiting_for_publication chunks.1 in
      let kept : KeepsKeys jobs chunks.1 =
        enqueue_chunks-keeps codec t uuid utcnow now 0 p.chunks jobs in
      let (keeps, stores) =
        enqueue_waiting-stores uuid utcnow (now + retry) p.waiting_for_publication chunks.1 in
      elim (Outcome-cases chunks.0) [
        | inr (e, stopped) ↦ rw stopped (kept, λ d h. absurd (cc h))
        | inl (results, went) ↦ elim (Outcome-cases waits.0) [
          | inr (e, stopped) ↦
              rw (went, stopped) (λ key h. keeps key (kept key h), λ d h. absurd (cc h))
          | inl (waiting, done) ↦
              rw (went, done)
                (
                  λ key h. keeps key (kept key h),
                  λ d h. (
                    All-mono (λ c. keeps _) p.chunks
                        (enqueue_chunks-stores codec t uuid utcnow now 0 p.chunks jobs results
                          went),
                    stores waiting done,
                  ),
                )
        ]
      ]

  pub enqueue_stored_again :
      (p : RecoveryPlan) (uuid : ℕ → ℕ) (utcnow now retry : ℕ) (jobs : Jobs)
      → IsStored p jobs
      → (d : DispatchResult) × (enqueue_plan codec t uuid utcnow now retry p jobs
          ≡ (returned d, jobs))
        × All (λ (r : EnqueueResult). r.created ≡ false) d.enqueued
        × IsOld d.waiting_job
  unfolding enqueue_plan
  enqueue_stored_again p uuid utcnow now retry jobs (chunks, waits) =
      let (results, again, old) =
        enqueue_chunks_again codec t uuid utcnow now 0 p.chunks jobs chunks in
      let (waiting, again', old') =
        enqueue_waiting_again uuid utcnow (now + retry) p.waiting_for_publication jobs waits in
      (
        record { plan = p; enqueued = results; waiting_job = waiting },
        rw (again, again') refl,
        old,
        old',
      )
