-- ===== src/Ingestion/Runner/Process.antt =====
-- `IngestionRunner.process` of src/market_relay/domain/ingestion/runner.py.
use market_relay.Prelude.{
  ℕ, suc, ◌+◌, String, List, [], ◌∷◌, ◌++◌, Bool, true, false, ◌&&◌, Option, none, some, ◌==◌,
  nat_eq, if◌then◌else◌, length, ltb,
}
use market_relay.Governance.Credentials.{Text, codes, sanitize_message}
use market_relay.Governance.PolicyGate.{Statuses, IngestionAuthorization, authorize_ingestion}
use market_relay.Action.{
  Outcome, returned, raised, Error, policy_not_authorized, invalid_cursor, malformed_observation,
  assertion_error, Action,
}
use market_relay.Jobs.{Job, pending, job_status_eq}
use market_relay.Queue.{Jobs, get_job, claim_job}
use market_relay.Queue.Transitions.{
  Claim, assert_owned, mark_running, mark_done, mark_failed, defer_for_quota,
}
use market_relay.Observations.Models.{ObservationInput, quality_ok}
use market_relay.Observations.Store.{Observations, RecordOutcome, record_observation}
use market_relay.Ingestion.{RawObservation, exhausted, validate_raw_observation, adapter_error_code}
use market_relay.Ingestion.Cursor.{FetchCursor, parse}
use market_relay.Ingestion.Deadline.{run_with_deadline}
use market_relay.Ingestion.Runner.{
  Surroundings, State, JobOutcome, policy_message, and_then, on_jobs, on_owned, on_observations,
  on_quota,
}

-- The attributes of a job once the session has expired its copy. Nothing deletes jobs.
abbrev pub reread : Job → Jobs → Job
reread job jobs = elim (get_job job.id jobs) [ some row ↦ row | none ↦ job ]

abbrev pub claim_of : String → Job → Claim
claim_of worker_id job = record { job = job.id; worker_id = worker_id; generation = job.generation }

-- Which exceptions the handlers catch.
abbrev pub caught_policy : Error → Option (String × Statuses)
caught_policy (policy_not_authorized source blocking) = some (source, blocking)
caught_policy _ = none

abbrev pub is_invalid_cursor : Error → Bool
is_invalid_cursor invalid_cursor = true
is_invalid_cursor _ = false

abbrev pub is_malformed : Error → Bool
is_malformed malformed_observation = true
is_malformed _ = false

pub record Counts : Type 0 where
  pub recorded : ℕ
  pub rejected : ℕ

abbrev pub count_created : Counts → RecordOutcome → Counts
count_created n o = record n { recorded = if o.created then n.recorded + 1 else n.recorded }

abbrev pub input_of :
    Job → FetchCursor → IngestionAuthorization → ℕ → ℕ → RawObservation → ObservationInput
input_of job cursor authorization now listing_id raw = record {
  listing_id = listing_id;
  source = job.source;
  credential_scope = cursor.credential_scope;
  external_listing_id = raw.external_listing_id;
  session_date = raw.session_date;
  observation_type = raw.observation_type;
  currency = raw.currency;
  close = raw.close;
  «open» = raw.«open»;
  high = raw.high;
  low = raw.low;
  adjusted_close = raw.adjusted_close;
  quality_status = quality_ok;
  retrieved_at = now;
  retrieval_policy_decision_id = some authorization.retrieval_decision.id;
  storage_policy_decision_id = some authorization.storage_decision.id;
}

module _ {S : Type 0} (w : Surroundings S) (worker_id : String) (now : ℕ) where
  -- The end of every branch: the status is read from the row, for the copy has expired.
  abbrev pub conclude : Job → Counts → String → Action (State S) JobOutcome
  conclude job n detail s = (
    returned (record {
      status = (reread job s.jobs).status;
      observations_recorded = n.recorded;
      observations_rejected = n.rejected;
      detail = detail;
    }),
    s,
  )

  abbrev pub nothing_counted : Counts
  nothing_counted = record { recorded = 0; rejected = 0 }

  unfoldable pub fail_job : Claim → Job → Text → Counts → String → Action (State S) JobOutcome
  unfolding mark_failed
  fail_job c job error n detail =
      and_then (on_owned (mark_failed c job.attempt_count job.max_attempts error now))
        λ _. conclude job n detail

  -- One raw observation: `validated` is what its validation came to.
  unfoldable pub take_row :
      Job
      → FetchCursor
      → IngestionAuthorization
      → ℕ
      → RawObservation
      → Counts
      → Outcome (Unit {0})
      → Action Observations Counts
  unfolding record_observation
  take_row job cursor authorization i raw n (raised e) rows =
      if is_malformed e
      then (returned (record n { rejected = n.rejected + 1 }), rows)
      else (raised e, rows)
  take_row job cursor authorization i raw n (returned _) rows = elim job.listing_id [
    | none ↦ (raised assertion_error, rows)
    | some listing_id ↦
        and_then
          (record_observation (w.others i) (w.uuid i) w.utcnow
            (input_of job cursor authorization now listing_id raw))
          (λ o rows'. (returned (count_created n o), rows')) rows
  ]

  unfoldable pub take_rows :
      Job
      → FetchCursor
      → IngestionAuthorization
      → ℕ
      → List RawObservation
      → Counts
      → Action Observations Counts
  unfolding take_row validate_raw_observation
  take_rows job cursor authorization i [] n rows = (returned n, rows)
  take_rows job cursor authorization i (raw ∷ raws) n rows =
      and_then
        (take_row job cursor authorization i raw n
          (validate_raw_observation raw cursor.external_listing_id cursor.start cursor.«end»))
        (take_rows job cursor authorization (suc i) raws) rows

  unfoldable pub verdict : Claim → Job → ℕ → Counts → Action (State S) JobOutcome
  unfolding fail_job mark_done
  verdict c job received n =
      if ltb 0 n.rejected && n.recorded == 0
      then fail_job c job
          (w.str_int n.rejected
            ++ codes " malformed observations out of "
            ++ w.str_int received
            ++ codes " received.")
          n "all_malformed"
      else and_then (on_owned (mark_done c now)) λ _. conclude job n "done"

  -- After the provider's call.
  unfoldable pub store_fetched :
      Claim
      → Job
      → FetchCursor
      → IngestionAuthorization
      → Outcome (List RawObservation)
      → Action (State S) JobOutcome
  unfolding fail_job take_rows verdict assert_owned
  store_fetched c job cursor authorization (raised e) =
      fail_job c job (codes (adapter_error_code e)) nothing_counted "fetch_error"
  store_fetched c job cursor authorization (returned raws) =
      and_then (on_jobs (assert_owned c)) λ _.
        and_then (on_quota (w.quota.consume job.source 1)) λ _.
          and_then (on_observations (take_rows job cursor authorization 0 raws nothing_counted))
            (verdict c job (length raws))

  -- Others write while the provider works; the copy expired with `mark_running`.
  unfoldable pub fetch :
      Claim → Job → FetchCursor → IngestionAuthorization → Action (State S) JobOutcome
  unfolding store_fetched mark_running run_with_deadline
  fetch c job cursor authorization = and_then (on_owned (mark_running c w.utcnow)) λ _ s.
      let jobs = w.meanwhile s.jobs in
      let reply =
        run_with_deadline w.pickles w.fits
          (w.fetch_range cursor.external_listing_id cursor.start cursor.«end») in
      store_fetched c (reread job jobs) cursor authorization reply (record s { jobs = jobs })

  unfoldable pub spend :
      Claim → Job → FetchCursor → IngestionAuthorization → Action (State S) JobOutcome
  unfolding fetch exhausted defer_for_quota
  spend c job cursor authorization = and_then (on_quota (w.quota.check job.source)) λ q.
      if exhausted q
      then and_then (on_owned (defer_for_quota c q.reset_at now w.utcnow))
          (λ _. conclude job nothing_counted "quota_exhausted")
      else fetch c job cursor authorization

  unfoldable pub with_cursor :
      Claim → Job → IngestionAuthorization → Outcome FetchCursor → Action (State S) JobOutcome
  unfolding spend fail_job
  with_cursor c job authorization (returned cursor) = spend c job cursor authorization
  with_cursor c job authorization (raised e) =
      if is_invalid_cursor e
      then fail_job c job (sanitize_message (w.cursor_error job.cursor) []) nothing_counted
          "invalid_cursor"
      else λ s. (raised e, s)

  unfoldable pub with_authorization :
      Claim → Job → Outcome IngestionAuthorization → Action (State S) JobOutcome
  unfolding with_cursor parse fail_job policy_message
  with_authorization c job (returned authorization) =
      with_cursor c job authorization (parse w.codec job.cursor)
  with_authorization c job (raised e) = elim (caught_policy e) [
    | some refused ↦
        fail_job c job (sanitize_message (policy_message refused.0 refused.1) []) nothing_counted
          "policy_not_authorized"
    | none ↦ λ s. (raised e, s)
  ]

  unfoldable pub process_claimed : Job → Action (State S) JobOutcome
  unfolding with_authorization authorize_ingestion
  process_claimed job s =
      with_authorization (claim_of worker_id job) job (authorize_ingestion job.source s.decisions) s

  unfoldable pub process : Job → Action (State S) JobOutcome
  unfolding process_claimed claim_job
  process job =
      if job.status == pending
      then and_then (on_jobs (claim_job job.id worker_id now w.utcnow)) process_claimed
      else process_claimed job
