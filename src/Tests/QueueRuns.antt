-- ===== src/Tests/QueueRuns.antt =====
-- Claims, recovery and owners' transitions on a table of two jobs.
use market_relay.Prelude.{
  ℕ, ◌⊎◌, leb, if◌then◌else◌, List, map, take, ◌<◌, ◌≤◌, [], ◌∷◌, some, ◌≡◌, refl, arith, length,
  All,
}
use market_relay.Table.{Unique}
use market_relay.Action.{Outcome, operational_error, returned, raised, stale_job_claim}
use market_relay.Jobs.{Job, claimed}
use market_relay.Queue.{Jobs, try_claim_one, claim, recover, recover_expired, claim_next, get_job}
use market_relay.Queue.Transitions.{Claim, mark_done, owned_transition, run_values}
use market_relay.Queue.Locks.{
  retry_on_lock, retry_on_lock-exact, IsFirstFree, AreLocked, lock_retry_attempts,
}
use market_relay.Queue.Steps.{id_of, Step, here, next}
use market_relay.Queue.Fencing.{IsFenced, recovered_claim-IsFenced}
use market_relay.Queue.Claiming.{second_claim-fences-first}
use market_relay.Queue.Ownership.{owned_transition-exact}
use market_relay.Queue.ClaimLoop.{IsClaimed}
use market_relay.Queue.Batch.{claim_next-claims, IsDue, prepared}
use market_relay.Queue.Filling.{claim_next-takes_first, IsQueueOf}
use market_relay.Queue.Retries.{
  Attempt, fails, stops, attempt_all, HasFailed, attempt_all-HasFailed,
}
use market_relay.Tests.Data.{first_job, second_job}

abbrev table : Jobs
table = first_job ∷ second_job ∷ []

table-Unique : Unique id_of table
table-Unique = omega arith

abbrev after_claim : Jobs
after_claim = (try_claim_one 1 "a" 10 10 table).1

abbrev after_recovery : Jobs
after_recovery = (recover_expired 1000 300 after_claim).1

abbrev first_claim : Job
first_claim = claim "a" 10 10 first_job

abbrev second_claim : Job
second_claim = claim "b" 1001 1001 (recover 1000 first_claim)

won_first : (try_claim_one 1 "a" 10 10 table).0 ≡ some first_claim
unfolding try_claim_one
won_first = refl

won_second : (try_claim_one 1 "b" 1001 1001 after_recovery).0 ≡ some second_claim
unfolding try_claim_one recover_expired
won_second = refl

second_claim-fences-first_example :
    (first_claim.generation < second_claim.generation)
    × IsFenced
        (record { job = 1; worker_id = "a"; generation = 1 })
        (try_claim_one 1 "b" 1001 1001 after_recovery).1
second_claim-fences-first_example =
    second_claim-fences-first 1 "a" "b" 10 1001 10 1001 table after_recovery first_claim
      second_claim table-Unique won_first (next here (Step.recover 1000 300)) won_second

claimed-Unique : Unique id_of after_claim
unfolding try_claim_one
claimed-Unique = omega arith

found_claim : get_job 1 after_claim ≡ some first_claim
unfolding try_claim_one get_job
found_claim = refl

recovered_claim-IsFenced_example :
    IsFenced (record { job = 1; worker_id = "a"; generation = 1 }) after_recovery
recovered_claim-IsFenced_example =
    recovered_claim-IsFenced (record { job = 1; worker_id = "a"; generation = 1 }) 1000 300
      after_claim after_recovery first_claim claimed-Unique found_claim refl refl here

claim_next-claims_example :
    (length (claim_next "a" 10 10 (some "fake") 1 300 table).0 ≤ 1)
    × Unique id_of (claim_next "a" 10 10 (some "fake") 1 300 table).0
    × All
        (IsClaimed "a" 10 10
          (IsDue 10 (some "fake"))
          (prepared 10 300 table)
          (claim_next "a" 10 10 (some "fake") 1 300 table).1)
        (claim_next "a" 10 10 (some "fake") 1 300 table).0
claim_next-claims_example = claim_next-claims "a" 10 10 (some "fake") 1 300 table table-Unique

claimed_one : (claim_next "a" 10 10 (some "fake") 1 300 table).0 ≡ first_claim ∷ []
unfolding claim_next
claimed_one = refl

abbrev own : Claim
own = record { job = 1; worker_id = "a"; generation = 1 }

owned_transition-exact_example :
    (owned_transition own (claimed ∷ []) (run_values 11) after_claim).0 ≡ returned tt
owned_transition-exact_example =
    (owned_transition-exact own (claimed ∷ []) (run_values 11) after_claim first_claim
      claimed-Unique (λ x. refl) found_claim).0

finish_early : mark_done own 12 after_claim ≡ (raised stale_job_claim, after_claim)
unfolding try_claim_one mark_done
finish_early = refl

claim_next-takes_first_example :
    (ds : List Job) × IsQueueOf 10 (some "fake") (prepared 10 300 table) ds
    × ((claim_next "a" 10 10 (some "fake") 1 300 table).0 ≡ map (claim "a" 10 10) (take 1 ds))
claim_next-takes_first_example =
    claim_next-takes_first "a" 10 10 (some "fake") 1 300 table table-Unique

-- The lock lets the third attempt through.
abbrev attempts : ℕ → Outcome ℕ
attempts i = if leb i 1 then raised operational_error else returned i

retry_on_lock-exact_example :
    ((k : ℕ) × (k < lock_retry_attempts)
      × IsFirstFree attempts 0 k
      × (retry_on_lock attempts ≡ attempts k))
    ⊎ (AreLocked attempts 0 lock_retry_attempts
        × (retry_on_lock attempts ≡ raised operational_error))
retry_on_lock-exact_example = retry_on_lock-exact attempts

third_attempt : retry_on_lock attempts ≡ returned 2
unfolding retry_on_lock
third_attempt = refl

-- Six attempts at a job that may fail five times; one worker stops.
abbrev five_and_one : List Attempt
five_and_one =
    fails "a" 10 10 []
    ∷ stops "b" 20 20 300
    ∷ fails "a" 400 400 []
    ∷ fails "c" 500 500 []
    ∷ fails "a" 600 600 []
    ∷ fails "a" 700 700 []
    ∷ []

attempt_all-HasFailed_example :
    HasFailed 1 6 5 (attempt_all 1 five_and_one (first_job ∷ second_job ∷ []))
unfolding get_job
attempt_all-HasFailed_example =
    attempt_all-HasFailed 1 five_and_one 0 5 (first_job ∷ second_job ∷ []) (omega arith)
      (first_job, refl, refl, refl, refl)
