-- ===== src/Tests/Cycles.antt =====
-- A cycle whose refresh writes one entry and whose processing fails with a second one uncommitted.
use market_relay.Prelude.{ℕ, List, [], ◌∷◌, some, ◌≡◌, refl}
use market_relay.Action.{returned, raised, unknown_source}
use market_relay.Scheduler.{Session, Phase, run_scheduler_cycle, new_run, run_success, run_failure}
use market_relay.Scheduler.Cycle.{run_scheduler_cycle-Ends, Ends, ended_run}

abbrev refresh : Phase (List ℕ) ℕ
refresh (durable, working) = (returned 1, (durable, 1 ∷ working))

abbrev failing : Phase (List ℕ) ℕ
failing (durable, working) = (raised unknown_source, (durable, 2 ∷ working))

abbrev empty : Session (List ℕ)
empty = record {
  durable = record { work = []; run = new_run 0 };
  working = record { work = []; run = new_run 0 };
}

run_scheduler_cycle-Ends_example :
    ((run_scheduler_cycle 9 refresh failing 5 empty).1.working
      ≡ (run_scheduler_cycle 9 refresh failing 5 empty).1.durable)
    × Ends 5 9
        (refresh ([], []))
        failing
        (run_scheduler_cycle 9 refresh failing 5 empty).0
        (run_scheduler_cycle 9 refresh failing 5 empty).1.durable
run_scheduler_cycle-Ends_example = run_scheduler_cycle-Ends refresh failing 5 9 empty

kept_work : (run_scheduler_cycle 9 refresh failing 5 empty).1.durable ≡ (record {
  work = 1 ∷ [];
  run = ended_run 5 9 run_success run_failure (some "unknown_source");
})
unfolding run_scheduler_cycle
kept_work = refl
