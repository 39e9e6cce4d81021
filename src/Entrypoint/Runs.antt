-- ===== src/Entrypoint/Runs.antt =====
-- How a run of the scheduler ends.
use market_relay.Prelude.{
  ℕ, ◌+◌, ◌≤◌, List, [], ◌∷◌, none, some, ◌≡◌, ◌≢◌, ◌⊎◌, refl, ◌∙◌, ap, inl, inr, All, length,
}
use market_relay.Table.{Unique}
use market_relay.Action.{Outcome, Outcome-cases, returned, raised, stale_job_claim}
use market_relay.Queue.{Jobs, get_job, claim_next}
use market_relay.Queue.Steps.{id_of}
use market_relay.Jobs.{Job}
use market_relay.Ingestion.{adapter_error_code}
use market_relay.Ingestion.Runner.{State}
use market_relay.Settings.{Settings}
use market_relay.Scheduler.{Contents, run_success, run_failure, run_scheduler_cycle}
use market_relay.Scheduler.Cycle.{ended_run}
use market_relay.Scheduler.Refresh.{RefreshOutcome, refresh_and_dispatch}
use market_relay.Scheduler.Batch.{ProcessOutcome, claim_and_process}
use market_relay.Scheduler.Additions.{refresh_and_dispatch-Extends}
use market_relay.Scheduler.Tallies.{Ends, counted, claim_and_process-Ends}
use market_relay.Scheduler.Released.{still_held}
use market_relay.Scheduler.Alone.{claim_and_process-returns}
use market_relay.Entrypoint.{
  RunWorld, session_scope, run, refresh_world, batch_world, refresh_phase, process_phase,
  scheduler_worker_id, max_listings_refreshed_per_source, claimed_jobs,
}

-- What a run stores and returns, given how its processing ends and what that had committed itself.
abbrev stored_by :
    {S : Type 0}
    → ℕ
    → ℕ
    → RefreshOutcome
    → State S
    → Outcome ProcessOutcome
    → State S
    → Outcome (RefreshOutcome × ProcessOutcome) × Contents (State S)
stored_by now utcnow refreshed tables (returned processed) after = (
  returned (refreshed, processed),
  record { work = after; run = ended_run now utcnow run_success run_success none },
)
stored_by now utcnow refreshed tables (raised e) after = (
  raised e,
  record {
    work = tables;
    run = ended_run now utcnow run_success run_failure (some (adapter_error_code e));
  },
)

stored_by-Ends :
    {S : Type 0} (now utcnow batch_size : ℕ) (refreshed : RefreshOutcome) (tables : State S)
    (o : Outcome ProcessOutcome) (after : State S)
    → Ends (λ p. (counted p ≤ p.jobs_claimed) × (p.jobs_claimed ≤ batch_size)) o
    → let out = stored_by now utcnow refreshed tables o after in
      Ends
        (λ r.
          (r.0 ≡ refreshed) × (counted r.1 ≤ r.1.jobs_claimed) × (r.1.jobs_claimed ≤ batch_size))
        out.0
      × ((out.1.work ≡ after) × (out.1.run ≡ ended_run now utcnow run_success run_success none)
          ⊎ (out.0 ≡ raised stale_job_claim)
            × (out.1.work ≡ tables)
            × (out.1.run
                ≡ ended_run now utcnow run_success run_failure
                    (some (adapter_error_code stale_job_claim))))
stored_by-Ends now utcnow batch_size refreshed tables (returned p) after h =
    ((refl, h.0, h.1), inl (refl, refl))
stored_by-Ends now utcnow batch_size refreshed tables (raised e) after h = (
  h,
  inr (
    ap raised h,
    refl,
    ap (λ x. ended_run now utcnow run_success run_failure (some (adapter_error_code x))) h,
  ),
)

module _ {P S : Type 0} (w : RunWorld P S) (settings : Settings) (now today : ℕ) where
  -- The refresh of a run.
  abbrev pub refreshed_by : State S → RefreshOutcome × Jobs
  refreshed_by tables =
      refresh_and_dispatch (refresh_world w tables.observations) none now today
        settings.waiting_publication_retry_seconds max_listings_refreshed_per_source
        settings.enabled_sources tables.jobs

  -- The tables between its phases.
  abbrev pub between : State S → State S
  between tables = record tables { jobs = (refreshed_by tables).1 }

  -- Its processing.
  abbrev pub processed_by : State S → Outcome ProcessOutcome × State S
  processed_by tables =
      claim_and_process (batch_world w) scheduler_worker_id now settings.scheduler_batch_size
        settings.job_lease_seconds (between tables)

  -- What is stored when its processing is rolled back: expired leases recovered, due jobs promoted and
  -- the batch claimed, with what other processes committed in the meantime.
  abbrev pub rolled_back : State S → State S
  rolled_back tables = w.others_commit (record (between tables) {
    jobs = claimed_jobs w settings now today (between tables);
    quota = (processed_by tables).1.quota;
  })

  run_lem :
      (stored : Contents (State S))
      → run w settings now today stored
        ≡ stored_by now w.utcnow
            (refreshed_by stored.work).0
            (rolled_back stored.work)
            (processed_by stored.work).0
            (processed_by stored.work).1
  unfolding run session_scope run_scheduler_cycle refresh_phase process_phase
  run_lem stored = elim (Outcome-cases (processed_by stored.work).0) [
    | inl (o, h) ↦ rw h refl
    | inr (e, h) ↦ rw h refl
  ]

  -- A run that begins with different identifiers either returns, with both phases stored and
  -- recorded as successes, or raises StaleJobClaimError from its processing. Then the jobs are stored
  -- as `claim_next` left them, which commits its recoveries, promotions and claims itself, the other
  -- tables are stored as they were, the quota, which the adapters keep, is as the processing left it,
  -- all of this but for what other processes committed in the meantime, and the run is recorded with a
  -- success and a failure. In both cases the refresh before the claims changed no job that was there.
  pub run-Ends :
      (stored : Contents (State S))
      → Unique id_of stored.work.jobs
      → let out = run w settings now today stored in
        Ends
          (λ r.
            (r.0 ≡ (refreshed_by stored.work).0)
            × (counted r.1 ≤ r.1.jobs_claimed)
            × (r.1.jobs_claimed ≤ settings.scheduler_batch_size))
          out.0
        × ((out.1.work ≡ (processed_by stored.work).1)
              × (out.1.run ≡ ended_run now w.utcnow run_success run_success none)
            ⊎ (out.0 ≡ raised stale_job_claim)
              × (out.1.work ≡ rolled_back stored.work)
              × (out.1.run
                  ≡ ended_run now w.utcnow run_success run_failure
                      (some (adapter_error_code stale_job_claim))))
        × ((i : ℕ) (r : Job)
            → get_job i stored.work.jobs ≡ some r
            → get_job i (between stored.work).jobs ≡ some r)
  run-Ends stored u =
      let (unique, kept) =
        refresh_and_dispatch-Extends (refresh_world w stored.work.observations) none now today
          settings.waiting_publication_retry_seconds max_listings_refreshed_per_source
          settings.enabled_sources stored.work.jobs in
      let ends =
        claim_and_process-Ends (batch_world w) scheduler_worker_id now settings.scheduler_batch_size
          settings.job_lease_seconds (between stored.work) (unique u) in
      let (ended, tables) =
        stored_by-Ends now w.utcnow settings.scheduler_batch_size (refreshed_by stored.work).0
          (rolled_back stored.work) (processed_by stored.work).0 (processed_by stored.work).1
          ends in
      rw (run_lem stored) (ended, tables, kept)

  -- A run returns, and both of its phases are recorded as successes, unless another process writes to
  -- the jobs while a provider works, and whatever providers, quota adapters, policies, calendars and
  -- routes raise. Its counters account for the batch: the jobs of it that are left claimed or running
  -- and those that the counters speak of are together as many as it claimed. Every other job is as the
  -- claims left it, and identifiers stay unique.
  pub run-succeeds :
      ((i : ℕ) (jobs : Jobs) → (w.around i).meanwhile jobs ≡ jobs)
      → (stored : Contents (State S)) → Unique id_of stored.work.jobs
      → let batch =
          claim_next scheduler_worker_id now w.utcnow none settings.scheduler_batch_size
            settings.job_lease_seconds
            (between stored.work).jobs in
        let out = run w settings now today stored in
        ((o : ProcessOutcome) × (out.0 ≡ returned ((refreshed_by stored.work).0, o))
          × (o.jobs_claimed ≡ length batch.0)
          × (still_held out.1.work.jobs batch.0 + counted o ≡ o.jobs_claimed))
        × (out.1.run ≡ ended_run now w.utcnow run_success run_success none)
        × ((j : ℕ) → All (λ x. j ≢ x.id) batch.0 → get_job j out.1.work.jobs ≡ get_job j batch.1)
        × Unique id_of out.1.work.jobs
  run-succeeds alone stored u =
      let (unique, kept) =
        refresh_and_dispatch-Extends (refresh_world w stored.work.observations) none now today
          settings.waiting_publication_retry_seconds max_listings_refreshed_per_source
          settings.enabled_sources stored.work.jobs in
      let ((o, h, claimed, held), others, unique') =
        claim_and_process-returns (batch_world w) scheduler_worker_id now alone
          settings.scheduler_batch_size settings.job_lease_seconds (between stored.work)
          (unique u) in
      let whole : run w settings now today stored
          ≡ stored_by now w.utcnow (refreshed_by stored.work).0 (rolled_back stored.work)
              (returned o) (processed_by stored.work).1 =
        run_lem stored ∙ rw h refl in
      rw whole ((o, refl, claimed, held), refl, others, unique')

-- One call of the entry point: what it gets from elsewhere, its settings and its instant.
pub record Invocation (P S : Type 0) : Type 0 where
  pub world : RunWorld P S
  pub settings : Settings
  pub now : ℕ
  pub today : ℕ

-- Calls one after the other, as a cron job makes them.
unfoldable pub run_each :
    {P S : Type 0}
    → List (Invocation P S)
    → Contents (State S)
    → List (Outcome (RefreshOutcome × ProcessOutcome)) × Contents (State S)
unfolding run
run_each [] stored = ([], stored)
run_each (c ∷ calls) stored =
    let out = run c.world c.settings c.now c.today stored in
    let rest = run_each calls out.1 in (out.0 ∷ rest.0, rest.1)

abbrev pub IsAlone : {P S : Type 0} → Invocation P S → Type 0
IsAlone c = (i : ℕ) (jobs : Jobs) → (c.world.around i).meanwhile jobs ≡ jobs

abbrev pub HasReturned : Outcome (RefreshOutcome × ProcessOutcome) → Type 0
HasReturned out = (r : RefreshOutcome × ProcessOutcome) × (out ≡ returned r)

-- Runs one after the other, none of which another process disturbs, all return, with any settings and
-- at any instants, and whatever their providers, quota adapters, policies, calendars and routes raise;
-- identifiers stay unique.
pub run_each-return :
    {P S : Type 0} (calls : List (Invocation P S)) (stored : Contents (State S))
    → All IsAlone calls
    → Unique id_of stored.work.jobs
    → All HasReturned (run_each calls stored).0 × Unique id_of (run_each calls stored).1.work.jobs
unfolding run_each
run_each-return [] stored alone u = (tt, u)
run_each-return (c ∷ calls) stored (own, alone) u =
    let out = run c.world c.settings c.now c.today stored in
    let ((o, h, claimed, held), recorded, others, u') =
      run-succeeds c.world c.settings c.now c.today own stored u in
    let (returns, unique) = run_each-return calls out.1 alone u' in (((_, h), returns), unique)
