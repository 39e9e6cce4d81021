-- ===== src/Dispatch.antt =====
-- src/market_relay/domain/ingestion/dispatch.py: the jobs of a recovery plan. The identifiers of new
-- rows and the instant that their defaults give are arguments.
pub mod Idempotence
pub mod Stored
pub mod Replanning
pub mod Extending
use Prim.Native.String.{◌++◌}
use market_relay.Prelude.{
  ℕ, suc, ◌+◌, String, List, [], ◌∷◌, Bool, true, false, Option, none, some, if◌then◌else◌, ◌==◌,
  nat_eq,
}
use market_relay.Table.{update_where}
use market_relay.Action.{Outcome, returned, raised, Action}
use market_relay.Catalog.{AssetClass}
use market_relay.Jobs.{Job, waiting_for_publication}
use market_relay.Queue.{Jobs, EnqueueResult, new_job, enqueue_idempotent, has_id}
use market_relay.Observations.Models.{ObservationType}
use market_relay.Planning.{
  MarketCalendarPort, RecoveryLimits, RecoveryChunk, RecoveryPlan, default_limits, plan, last_of,
}
use market_relay.Ingestion.Cursor.{FetchCursor, Codec, serialize, observation_type_value}
use market_relay.Ingestion.Runner.{and_then}

abbrev pub job_type_fetch_range : String
job_type_fetch_range = "fetch_range"

abbrev pub max_attempts_default : ℕ
max_attempts_default = 5

pub record DispatchResult : Type 0 where
  pub plan : RecoveryPlan
  pub enqueued : List EnqueueResult
  pub waiting_job : Option EnqueueResult

-- What the jobs of one call have in common.
pub record Target : Type 0 where
  pub listing_id : ℕ
  pub asset_class : AssetClass
  pub venue : String
  pub mic : Option String
  pub source : String
  pub credential_scope : String
  pub external_listing_id : String
  pub observation_type : ObservationType

-- `a:b:...`
abbrev pub join_colon : List String → String
join_colon [] = ""
join_colon (s ∷ []) = s
join_colon (s ∷ t ∷ rest) = s ++ ":" ++ join_colon (t ∷ rest)

unfoldable pub chunk_key : Codec → Target → ℕ → ℕ → String
chunk_key codec t start end = join_colon (
    job_type_fetch_range
    ∷ t.source
    ∷ t.credential_scope
    ∷ t.external_listing_id
    ∷ observation_type_value t.observation_type
    ∷ codec.isoformat start
    ∷ codec.isoformat end
    ∷ [])

unfoldable pub waiting_key : Codec → Target → ℕ → ℕ → String
waiting_key codec t first last = join_colon (
    job_type_fetch_range
    ∷ t.source
    ∷ t.credential_scope
    ∷ t.external_listing_id
    ∷ observation_type_value t.observation_type
    ∷ "waiting"
    ∷ codec.isoformat first
    ∷ codec.isoformat last
    ∷ [])

abbrev pub cursor_of : Target → ℕ → ℕ → FetchCursor
cursor_of t start last = record {
  external_listing_id = t.external_listing_id;
  credential_scope = t.credential_scope;
  observation_type = t.observation_type;
  start = start;
  «end» = last;
}

abbrev pub fetch_job : Codec → Target → ℕ → ℕ → String → ℕ → ℕ → ℕ → Job
fetch_job codec t uuid utcnow key start last run_at =
    new_job uuid utcnow job_type_fetch_range t.source key (some t.listing_id)
      (some (serialize codec (cursor_of t start last))) run_at max_attempts_default

unfoldable pub enqueue_chunks :
    Codec → Target → (ℕ → ℕ) → ℕ → ℕ → ℕ → List RecoveryChunk → Action Jobs (List EnqueueResult)
unfolding chunk_key new_job serialize enqueue_idempotent
enqueue_chunks codec t uuid utcnow now i [] jobs = (returned [], jobs)
enqueue_chunks codec t uuid utcnow now i (chunk ∷ chunks) jobs =
    and_then
      (enqueue_idempotent (
        fetch_job codec t (uuid (suc i)) utcnow (chunk_key codec t chunk.start chunk.«end»)
          chunk.start chunk.«end» now))
      (λ result.
        and_then (enqueue_chunks codec t uuid utcnow now (suc i) chunks)
          (λ results jobs'. (returned (result ∷ results), jobs')))
      jobs

-- `waiting_job.job.status = WAITING_FOR_PUBLICATION`, as it is flushed.
abbrev pub set_waiting : ℕ → Job → Job
set_waiting utcnow job = record job { status = waiting_for_publication; updated_at = utcnow }

abbrev pub mark_waiting : ℕ → EnqueueResult → Action Jobs (Option EnqueueResult)
mark_waiting utcnow result jobs =
    if result.created
    then (
      returned (some (record result { job = set_waiting utcnow result.job })),
      update_where (has_id result.job.id) (set_waiting utcnow) jobs,
    )
    else (returned (some result), jobs)

unfoldable pub enqueue_waiting :
    Codec → Target → (ℕ → ℕ) → ℕ → ℕ → List ℕ → Action Jobs (Option EnqueueResult)
unfolding waiting_key new_job serialize enqueue_idempotent update_where
enqueue_waiting codec t uuid utcnow run_at [] jobs = (returned none, jobs)
enqueue_waiting codec t uuid utcnow run_at (first ∷ dates) jobs =
    let last = last_of first dates in
    and_then
      (enqueue_idempotent
        (fetch_job codec t (uuid 0) utcnow (waiting_key codec t first last) first last run_at))
      (mark_waiting utcnow) jobs

abbrev pub or_default_limits : Option RecoveryLimits → RecoveryLimits
or_default_limits none = default_limits
or_default_limits (some limits) = limits

unfoldable pub enqueue_plan :
    Codec → Target → (ℕ → ℕ) → ℕ → ℕ → ℕ → RecoveryPlan → Action Jobs DispatchResult
unfolding enqueue_chunks enqueue_waiting
enqueue_plan codec t uuid utcnow now waiting_retry_seconds p =
    and_then (enqueue_chunks codec t uuid utcnow now 0 p.chunks) λ enqueued.
      and_then
        (enqueue_waiting codec t uuid utcnow (now + waiting_retry_seconds)
          p.waiting_for_publication)
        λ waiting_job jobs.
          (returned (record { plan = p; enqueued = enqueued; waiting_job = waiting_job }), jobs)

unfoldable pub plan_and_enqueue :
    Codec
    → MarketCalendarPort
    → Option RecoveryLimits
    → Target
    → Option ℕ
    → (ℕ → ℕ)
    → ℕ
    → ℕ
    → ℕ
    → ℕ
    → Action Jobs DispatchResult
unfolding plan enqueue_plan
plan_and_enqueue codec calendar limits t last_completed_session uuid utcnow today now
      waiting_retry_seconds jobs =
    elim (plan calendar (or_default_limits limits) t.asset_class t.venue t.mic
      last_completed_session today) [
        | returned p ↦ enqueue_plan codec t uuid utcnow now waiting_retry_seconds p jobs
        | raised e ↦ (raised e, jobs)
      ]
