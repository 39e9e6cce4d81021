-- ===== src/Dispatch/Extending.antt =====
-- What planning and enqueueing leave of the jobs that were there.
use market_relay.Prelude.{
  ℕ, suc, ◌+◌, List, [], ◌∷◌, ◌++◌, true, false, some, ◌≡◌, refl, ◌∙◌, nat_eq, arith, Bool-cases,
  Option-cases, inl, inr, All, All-mono, ||-false, ==→≡, Option,
}
use market_relay.Table.{Unique, update_where, find_where}
use market_relay.Table.Laws.{
  count_where-none, find_where-append, All-find_where, Unique-append, Unique-update_where,
}
use market_relay.Action.{Action, Outcome, Outcome-cases, returned, raised}
use market_relay.Jobs.{Job}
use market_relay.Queue.{Jobs, EnqueueResult, get_job, has_id, has_dedupe_key, enqueue_idempotent}
use market_relay.Queue.Steps.{id_of, get_job-update_where}
use market_relay.Planning.{MarketCalendarPort, RecoveryLimits, RecoveryPlan, RecoveryChunk, plan}
use market_relay.Ingestion.Cursor.{Codec}
use market_relay.Ingestion.Runner.{and_then, resume}
use market_relay.Dispatch.{
  Target, DispatchResult, chunk_key, fetch_job, enqueue_chunks, set_waiting, mark_waiting,
  enqueue_waiting, enqueue_plan, plan_and_enqueue, or_default_limits,
}
use market_relay.Dispatch.Idempotence.{is_free, enqueue-free, enqueue-stored, enqueue-refused}

-- Every job of the first table is in the second as it was, and identifiers stay unique.
abbrev pub Extends : Jobs → Jobs → Type 0
Extends s t =
    (Unique id_of s → Unique id_of t)
    × ((i : ℕ) (r : Job) → get_job i s ≡ some r → get_job i t ≡ some r)

pub Extends-refl : (s : Jobs) → Extends s s
Extends-refl s = (λ u. u, λ i r h. h)

pub Extends-trans : (s t u : Jobs) → Extends s t → Extends t u → Extends s u
Extends-trans s t u (a, b) (c, d) = (λ h. c (a h), λ i r h. d i r (b i r h))

pub and_then-Extends :
    {A B : Type 0} (m : Action Jobs A) (k : A → Action Jobs B) (jobs : Jobs)
    → Extends jobs (m jobs).1
    → ((a : A) (jobs' : Jobs) → Extends jobs' (k a jobs').1)
    → Extends jobs (and_then m k jobs).1
and_then-Extends {A} {B} m k jobs own later = go (m jobs).0 (m jobs).1 own
  where
    go : (o : Outcome A) (t : Jobs) → Extends jobs t → Extends jobs (resume k o t).1
    go (returned a) t h = Extends-trans jobs t _ h (later a t)
    go (raised e) t h = h

absent :
    (job : Job) (jobs : Jobs) → is_free job jobs ≡ true → All (λ r. has_id job.id r ≡ false) jobs
absent job jobs free =
    All-mono (λ r no_match. (||-false _ _ no_match).0) jobs (count_where-none _ jobs (==→≡ free))

append-Extends :
    (job : Job) (jobs : Jobs)
    → All (λ r. has_id job.id r ≡ false) jobs
    → Extends jobs (jobs ++ job ∷ [])
unfolding get_job
append-Extends job jobs free = (
  λ u.
      Unique-append id_of jobs job u
        (All-mono (λ r no_match same. ground (arith, nat_eq.equals_iff r.id job.id)) jobs free),
  λ i r h. find_where-append (has_id i) jobs job ∙ rw h refl,
)

-- The row that is new is changed once more.
write_new-Extends :
    (job : Job) (f : Job → Job) (jobs : Jobs)
    → All (λ r. has_id job.id r ≡ false) jobs
    → ((r : Job) → (f r).id ≡ r.id)
    → Extends jobs (update_where (has_id job.id) f (jobs ++ job ∷ []))
unfolding get_job
write_new-Extends job f jobs free keep =
    let (u, found) = append-Extends job jobs free in
    (
      λ h. Unique-update_where id_of (has_id job.id) f _ keep (u h),
      λ i r h.
          get_job-update_where i (has_id job.id) f (jobs ++ job ∷ []) keep
          ∙ rw (found i r h, other i r h) refl,
    )
  where
    other : (i : ℕ) (r : Job) → get_job i jobs ≡ some r → has_id job.id r ≡ false
    other i r h = All-find_where (λ x. has_id job.id x ≡ false) (has_id i) jobs free h

module _ (job : Job) (jobs : Jobs) where
  enqueue-Extends : Extends jobs (enqueue_idempotent job jobs).1
  enqueue-Extends = elim (Bool-cases (is_free job jobs)) [
    | inl free ↦ rw (enqueue-free job jobs free) (append-Extends job jobs (absent job jobs free))
    | inr old ↦ elim (Option-cases (find_where (has_dedupe_key job.dedupe_key) jobs)) [
      | inl e ↦ rw (enqueue-refused job jobs old e) (Extends-refl jobs)
      | inr (r, e) ↦ rw (enqueue-stored job jobs r old e) (Extends-refl jobs)
    ]
  ]

  enqueue_then_wait-Extends :
      (utcnow : ℕ) → Extends jobs (and_then (enqueue_idempotent job) (mark_waiting utcnow) jobs).1
  enqueue_then_wait-Extends utcnow = elim (Bool-cases (is_free job jobs)) [
    | inl free ↦
        rw (enqueue-free job jobs free)
          (write_new-Extends job (set_waiting utcnow) jobs (absent job jobs free) (λ r. refl))
    | inr old ↦ elim (Option-cases (find_where (has_dedupe_key job.dedupe_key) jobs)) [
      | inl e ↦ rw (enqueue-refused job jobs old e) (Extends-refl jobs)
      | inr (r, e) ↦ rw (enqueue-stored job jobs r old e) (Extends-refl jobs)
    ]
  ]

module _ (codec : Codec) (t : Target) (uuid : ℕ → ℕ) (utcnow : ℕ) where
  enqueue_chunks-Extends :
      (now i : ℕ) (chunks : List RecoveryChunk) (jobs : Jobs)
      → Extends jobs (enqueue_chunks codec t uuid utcnow now i chunks jobs).1
  unfolding enqueue_chunks
  enqueue_chunks-Extends now i [] jobs = Extends-refl jobs
  enqueue_chunks-Extends now i (c ∷ chunks) jobs =
      let job =
        fetch_job codec t (uuid (suc i)) utcnow (chunk_key codec t c.start c.«end») c.start c.«end»
          now in
      let rest = enqueue_chunks codec t uuid utcnow now (suc i) chunks in
      and_then-Extends (enqueue_idempotent job)
        (λ result. and_then rest (λ results jobs'. (returned (result ∷ results), jobs'))) jobs
        (enqueue-Extends job jobs)
        λ result jobs'.
          and_then-Extends rest (λ results jobs''. (returned (result ∷ results), jobs'')) jobs'
            (enqueue_chunks-Extends now (suc i) chunks jobs')
            (λ results jobs''. Extends-refl jobs'')

  enqueue_waiting-Extends :
      (run_at : ℕ) (dates : List ℕ) (jobs : Jobs)
      → Extends jobs (enqueue_waiting codec t uuid utcnow run_at dates jobs).1
  unfolding enqueue_waiting
  enqueue_waiting-Extends run_at [] jobs = Extends-refl jobs
  enqueue_waiting-Extends run_at (first ∷ dates) jobs = enqueue_then_wait-Extends _ jobs utcnow

  enqueue_plan-Extends :
      (now retry : ℕ) (p : RecoveryPlan) (jobs : Jobs)
      → Extends jobs (enqueue_plan codec t uuid utcnow now retry p jobs).1
  unfolding enqueue_plan
  enqueue_plan-Extends now retry p jobs =
      let waits = enqueue_waiting codec t uuid utcnow (now + retry) p.waiting_for_publication in
      let finish : List EnqueueResult → Option EnqueueResult → Action Jobs DispatchResult =
        λ enqueued waiting_job s.
          (returned (record { plan = p; enqueued = enqueued; waiting_job = waiting_job }), s) in
      and_then-Extends (enqueue_chunks codec t uuid utcnow now 0 p.chunks)
        (λ enqueued. and_then waits (finish enqueued)) jobs
        (enqueue_chunks-Extends now 0 p.chunks jobs)
        λ enqueued jobs'.
          and_then-Extends waits (finish enqueued) jobs'
            (enqueue_waiting-Extends (now + retry) p.waiting_for_publication jobs')
            (λ waiting jobs''. Extends-refl jobs'')

-- `plan_and_enqueue` only adds jobs, whatever the plan and the calendar: each job that was there is
-- there as it was, and identifiers that are unique stay unique.
pub plan_and_enqueue-Extends :
    (codec : Codec) (calendar : MarketCalendarPort) (limits : Option RecoveryLimits) (t : Target)
    (last : Option ℕ) (uuid : ℕ → ℕ) (utcnow today now retry : ℕ) (jobs : Jobs)
    → Extends jobs
        (plan_and_enqueue codec calendar limits t last uuid utcnow today now retry jobs).1
unfolding plan_and_enqueue
plan_and_enqueue-Extends codec calendar limits t last uuid utcnow today now retry jobs =
    elim (Outcome-cases
      (plan calendar (or_default_limits limits) t.asset_class t.venue t.mic last today)) [
        | inl (p, h) ↦
            rw (h, plan_and_enqueue) (enqueue_plan-Extends codec t uuid utcnow now retry p jobs)
        | inr (e, h) ↦ rw (h, plan_and_enqueue) (Extends-refl jobs)
      ]
