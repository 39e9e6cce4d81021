-- ===== src/Scheduler/Cycle.antt =====
-- What is committed when a cycle ends.
use market_relay.Prelude.{ℕ, String, Option, none, some, ◌≡◌, refl}
use market_relay.Action.{Outcome, returned, raised}
use market_relay.Ingestion.{adapter_error_code}
use market_relay.Scheduler.{
  SchedulerRun, SchedulerRunStatus, Session, Phase, Contents, run_success, run_failure,
  run_scheduler_cycle, start_run, record_scheduler_result, record_worker_result, after_refresh,
  new_run, finish_cycle,
}

-- The row of a run that ended.
abbrev pub ended_run :
    ℕ → ℕ → SchedulerRunStatus → SchedulerRunStatus → Option String → SchedulerRun
ended_run now utcnow scheduler worker error_code = record {
  started_at = now;
  finished_at = some utcnow;
  scheduler_status = some scheduler;
  worker_status = some worker;
  error_code = error_code;
}

-- The row of a run that refreshed.
abbrev scheduled_run : ℕ → SchedulerRun
scheduled_run now = record (new_run now) { scheduler_status = some run_success }

module _ {W R P : Type 0} where
  -- How a cycle ends that refreshed, given how its processing does.
  abbrev pub Processed : ℕ → ℕ → R → Outcome P × (W × W) → Outcome (R × P) → Contents W → Type 0
  Processed now utcnow refreshed (raised e, (durable, working)) result kept =
      (result ≡ raised e)
      × (kept.work ≡ durable)
      × (kept.run ≡ ended_run now utcnow run_success run_failure (some (adapter_error_code e)))
  Processed now utcnow refreshed (returned processed, (durable, working)) result kept =
      (result ≡ returned (refreshed, processed))
      × (kept.work ≡ working)
      × (kept.run ≡ ended_run now utcnow run_success run_success none)

  -- How a cycle ends, given how its phases do: what each returns or raises, with what is then
  -- committed and at work.
  abbrev pub Ends : ℕ → ℕ → Outcome R × (W × W) → Phase W P → Outcome (R × P) → Contents W → Type 0
  Ends now utcnow (raised e, (durable, working)) process result kept =
      (result ≡ raised e)
      × (kept.work ≡ durable)
      × (kept.run ≡ ended_run now utcnow run_failure run_failure (some (adapter_error_code e)))
  Ends now utcnow (returned refreshed, (durable, working)) process result kept =
      Processed now utcnow refreshed (process (working, working)) result kept

  finish_cycle-Processed :
      (now utcnow : ℕ) (refreshed : R) (p : Outcome P × (W × W))
      → let out = finish_cycle utcnow refreshed (
        p.0,
        record {
          durable = record { work = p.1.0; run = scheduled_run now };
          working = record { work = p.1.1; run = scheduled_run now };
        },
      ) in
        (out.1.working ≡ out.1.durable) × Processed now utcnow refreshed p out.0 out.1.durable
  unfolding record_worker_result
  finish_cycle-Processed now utcnow refreshed (raised e, (d, k)) = (refl, (refl, refl, refl))
  finish_cycle-Processed now utcnow refreshed (returned x, (d, k)) = (refl, (refl, refl, refl))

  after_refresh-Ends :
      (now utcnow : ℕ) (r : Outcome R × (W × W)) (process : Phase W P)
      → let out = after_refresh utcnow process (
        r.0,
        record {
          durable = record { work = r.1.0; run = new_run now };
          working = record { work = r.1.1; run = new_run now };
        },
      ) in
        (out.1.working ≡ out.1.durable) × Ends now utcnow r process out.0 out.1.durable
  unfolding record_scheduler_result record_worker_result
  after_refresh-Ends now utcnow (raised e, (d, k)) process = (refl, (refl, refl, refl))
  after_refresh-Ends now utcnow (returned x, (d, k)) process =
      finish_cycle-Processed now utcnow x (process (k, k))

  -- Whatever its phases do, a cycle ends with nothing uncommitted, and with its run's row finished.
  -- When the refresh raises, only what it had committed itself is kept, the processing is not begun,
  -- and the row has two failures and the bounded code. When it returns, its work is committed before
  -- the processing begins; when the processing raises, only what it had committed itself is added to
  -- that, and the row has a success, a failure and the code; otherwise the work of both is
  -- committed, and the row has two successes and no code.
  pub run_scheduler_cycle-Ends :
      (refresh : Phase W R) (process : Phase W P) (now utcnow : ℕ) (s : Session W)
      → let out = run_scheduler_cycle utcnow refresh process now s in
        (out.1.working ≡ out.1.durable)
        × Ends now utcnow (refresh (s.working.work, s.working.work)) process out.0 out.1.durable
  unfolding run_scheduler_cycle start_run
  run_scheduler_cycle-Ends refresh process now utcnow s =
      after_refresh-Ends now utcnow (refresh (s.working.work, s.working.work)) process
