-- ===== src/Scheduler.antt =====
-- `run_scheduler_cycle` of src/market_relay/domain/ingestion/scheduler_service.py and the recorder of
-- src/market_relay/domain/ingestion/scheduler_runs.py, over a session with what is committed and what
-- is at work. The two phases are arguments: whatever they write, commit themselves, return or raise.
pub mod Refresh
pub mod Settling
pub mod Repeats
pub mod Additions
pub mod Batch
pub mod Tallies
pub mod Held
pub mod Undisturbed
pub mod Released
pub mod Alone
pub mod Cycle
use market_relay.Prelude.{ℕ, String, Option, none, some}
use market_relay.Action.{Outcome, returned, raised, Action, Error}
use market_relay.Ingestion.{adapter_error_code}

pub data SchedulerRunStatus : Type 0 where
  run_success run_failure : SchedulerRunStatus

pub record SchedulerRun : Type 0 where
  pub started_at : ℕ
  pub finished_at : Option ℕ
  pub scheduler_status : Option SchedulerRunStatus
  pub worker_status : Option SchedulerRunStatus
  pub error_code : Option String

-- The tables that the phases write, and the row of this run.
pub record Contents (W : Type 0) : Type 0 where
  pub work : W
  pub run : SchedulerRun

pub record Session (W : Type 0) : Type 0 where
  pub durable : Contents W
  pub working : Contents W

-- A phase reads and writes what is committed and what is at work. It leaves the run's row alone, and
-- that row has no uncommitted change while a phase is at work.
abbrev pub Phase : Type 0 → Type 0 → Type 0
Phase W A = Action (W × W) A

abbrev pub new_run : ℕ → SchedulerRun
new_run now = record {
  started_at = now;
  finished_at = none;
  scheduler_status = none;
  worker_status = none;
  error_code = none;
}

abbrev pub code_or : Option String → Option String → Option String
code_or none old = old
code_or (some code) old = some code

module _ {W : Type 0} where
  abbrev pub commit : Session W → Session W
  commit s = record { durable = s.working; working = s.working }

  abbrev pub rollback : Session W → Session W
  rollback s = record { durable = s.durable; working = s.durable }

  abbrev pub write_run : (SchedulerRun → SchedulerRun) → Session W → Session W
  write_run f s = record s { working = record s.working { run = f s.working.run } }

  -- `start`: the row of the run is new.
  unfoldable pub start_run : ℕ → Session W → Session W
  start_run now s = commit (write_run (λ _. new_run now) s)

  unfoldable pub record_scheduler_result :
      SchedulerRunStatus → Option String → Session W → Session W
  record_scheduler_result status error_code s = commit (
      write_run
        (λ run. record run {
          scheduler_status = some status;
          error_code = code_or error_code run.error_code;
        })
        s)

  unfoldable pub record_worker_result :
      SchedulerRunStatus → Option String → ℕ → Session W → Session W
  record_worker_result status error_code utcnow s = commit (
      write_run
        (λ run. record run {
          worker_status = some status;
          finished_at = some utcnow;
          error_code = code_or error_code run.error_code;
        })
        s)

  abbrev pub in_phase : {A : Type 0} → Phase W A → Action (Session W) A
  in_phase phase s =
      let r = phase (s.durable.work, s.working.work) in
      (
        r.0,
        record {
          durable = record s.durable { work = r.1.0 };
          working = record s.working { work = r.1.1 };
        },
      )

  module _ {R P : Type 0} (utcnow : ℕ) where
    -- After the processing phase.
    abbrev pub finish_cycle : R → Outcome P × Session W → Outcome (R × P) × Session W
    finish_cycle refresh (raised e, s) = (
      raised e,
      record_worker_result run_failure (some (adapter_error_code e)) utcnow (rollback s),
    )
    finish_cycle refresh (returned processed, s) =
        (returned (refresh, processed), record_worker_result run_success none utcnow (commit s))

    -- After the refresh phase.
    abbrev pub after_refresh : Phase W P → Outcome R × Session W → Outcome (R × P) × Session W
    after_refresh process (raised e, s) = (
      raised e,
      record_worker_result run_failure none utcnow
          (record_scheduler_result run_failure (some (adapter_error_code e)) (rollback s)),
    )
    after_refresh process (returned refresh, s) =
        finish_cycle refresh
          (in_phase process (record_scheduler_result run_success none (commit s)))

    unfoldable pub run_scheduler_cycle : Phase W R → Phase W P → ℕ → Action (Session W) (R × P)
    unfolding start_run record_scheduler_result record_worker_result adapter_error_code
    run_scheduler_cycle refresh process now s =
        after_refresh process (in_phase refresh (start_run now s))
