-- ===== src/Ingestion/Runner.antt =====
-- src/market_relay/domain/ingestion/runner.py: one job, from its claim to a final or a retry state.
-- A caller's copy of a job is a row as it was read; the copy is read again where the session has
-- expired it. What the program gets from elsewhere is a record of arguments, `Surroundings`.
pub mod Process
pub mod Fenced
pub mod Settled
pub mod Finished
pub mod Recorded
pub mod Provenance
use market_relay.Prelude.{
  ℕ, suc, ◌+◌, String, List, [], ◌∷◌, ◌++◌, Bool, true, false, ◌&&◌, Option, none, some, ◌==◌,
  nat_eq, if◌then◌else◌, leb, length,
}
use market_relay.Governance.Credentials.{Text, codes, sanitize_message}
use market_relay.Governance.Models.{
  PolicyCapability, PolicyStatus, retrieve, store, display, redistribute, attribute, retain,
  approved, denied, unresolved,
}
use market_relay.Governance.PolicyGate.{Decisions, IngestionAuthorization, authorize_ingestion}
use market_relay.Action.{
  Outcome, returned, raised, Error, policy_not_authorized, invalid_cursor, malformed_observation,
  assertion_error, Action,
}
use market_relay.Jobs.{Job, JobStatus, pending, job_status_eq}
use market_relay.Queue.{Jobs, get_job, claim_job}
use market_relay.Queue.Transitions.{
  Claim, assert_owned, mark_running, mark_done, mark_failed, defer_for_quota,
}
use market_relay.Observations.Models.{ObservationInput, quality_ok}
use market_relay.Observations.Store.{Observations, RecordOutcome, record_observation}
use market_relay.Ingestion.{
  RawObservation, QuotaStatus, exhausted, validate_raw_observation, adapter_error_code,
}
use market_relay.Ingestion.Cursor.{FetchCursor, Codec, parse}
use market_relay.Ingestion.Deadline.{Call, run_with_deadline}

-- src/market_relay/ports/quota.py
pub record QuotaPort (S : Type 0) : Type 0 where
  pub check : String → Action S QuotaStatus
  pub consume : String → ℕ → Action S QuotaStatus

-- What the session has expired since a job's processing began: nothing, the job's copy, or everything.
pub data Expired : Type 0 where
  nothing_expired job_expired all_expired : Expired

pub record State (S : Type 0) : Type 0 where
  pub jobs : Jobs
  pub observations : Observations
  pub quota : S
  pub decisions : Decisions
  pub expired : Expired

-- The provider and its process, the quota's port, Python's texts of an InvalidCursorError and of a
-- number, the clock, the identifier of the row recorded for each raw observation, and what other
-- processes commit: to the jobs while the provider works, and to the observations in the attempts to
-- record each raw observation.
pub record Surroundings (S : Type 0) : Type 0 where
  pub quota : QuotaPort S
  pub codec : Codec
  pub fetch_range : String → ℕ → ℕ → Call (List RawObservation)
  pub pickles : List RawObservation → Bool
  pub fits : List RawObservation → Bool
  pub cursor_error : Option String → Text
  pub str_int : ℕ → Text
  pub utcnow : ℕ
  pub uuid : ℕ → ℕ
  pub meanwhile : Jobs → Jobs
  pub others : ℕ → List Observations

pub record JobOutcome : Type 0 where
  pub status : JobStatus
  pub observations_recorded : ℕ
  pub observations_rejected : ℕ
  pub detail : String

abbrev pub capability_value : PolicyCapability → Text
capability_value retrieve = codes "RETRIEVE"
capability_value store = codes "STORE"
capability_value display = codes "DISPLAY"
capability_value redistribute = codes "REDISTRIBUTE"
capability_value attribute = codes "ATTRIBUTE"
capability_value retain = codes "RETAIN"

abbrev pub status_value : PolicyStatus → Text
status_value approved = codes "APPROVED"
status_value denied = codes "DENIED"
status_value unresolved = codes "UNRESOLVED"

abbrev pub blocking_details : List (PolicyCapability × PolicyStatus) → Text
blocking_details [] = []
blocking_details ((c, p) ∷ []) = capability_value c ++ codes "=" ++ status_value p
blocking_details ((c, p) ∷ b ∷ bs) =
    capability_value c ++ codes "=" ++ status_value p ++ codes ", " ++ blocking_details (b ∷ bs)

-- `str` of a PolicyNotAuthorizedError.
unfoldable pub policy_message : String → List (PolicyCapability × PolicyStatus) → Text
policy_message source blocking =
    codes "Source '" ++ codes source ++ codes "' not authorized: " ++ blocking_details blocking

abbrev pub resume {ℓ} : {S A B : Type ℓ} → (A → Action S B) → Outcome A → Action S B
resume k (returned a) s = k a s
resume k (raised e) s = (raised e, s)

abbrev pub and_then {ℓ} : {S A B : Type ℓ} → Action S A → (A → Action S B) → Action S B
and_then m k s = let r = m s in resume k r.0 r.1

-- An owner's transition expires the job when it is made, and all copies when it is refused.
abbrev pub expired_by {ℓ} : {A : Type ℓ} → Outcome A → Expired
expired_by (returned a) = job_expired
expired_by (raised e) = all_expired

module _ {S : Type 0} where
  abbrev pub on_jobs : {A : Type 0} → Action Jobs A → Action (State S) A
  on_jobs m s = let r = m s.jobs in (r.0, record s { jobs = r.1 })

  abbrev pub on_owned : {A : Type 0} → Action Jobs A → Action (State S) A
  on_owned m s = let r = m s.jobs in (r.0, record s { jobs = r.1; expired = expired_by r.0 })

  abbrev pub on_observations : {A : Type 0} → Action Observations A → Action (State S) A
  on_observations m s = let r = m s.observations in (r.0, record s { observations = r.1 })

  abbrev pub on_quota : {A : Type 0} → Action S A → Action (State S) A
  on_quota m s = let r = m s.quota in (r.0, record s { quota = r.1 })
