-- ===== src/Ingestion/Runner/Provenance.antt =====
-- Where the rows that a job adds come from.
use market_relay.Prelude.{
  ℕ, ◌≤◌, String, [], ◌∷◌, true, ◌≡◌, refl, sym, ap, ◌∙◌, some, inl, inr, Bool-cases, Option-cases,
  All, if◌then◌else◌,
}
use market_relay.Action.{Outcome, returned, raised}
use market_relay.Governance.PolicyGate.{Decisions, IngestionAuthorization, authorize_ingestion}
use market_relay.Decimals.{Decimal}
use market_relay.Jobs.{Job, claimed}
use market_relay.Queue.{Jobs, get_job}
use market_relay.Queue.Steps.{get_job-update_where, owned_transition-table}
use market_relay.Queue.Transitions.{Claim, mark_running, run_values, is_owned, defer_for_quota}
use market_relay.Observations.Models.{Observation}
use market_relay.Observations.Store.{candidate, to_numeric}
use market_relay.Ingestion.{RawObservation, QuotaStatus, exhausted, validate_raw_observation}
use market_relay.Ingestion.Validation.{validate_raw_observation-passed, is_positive}
use market_relay.Ingestion.Cursor.{FetchCursor, Codec, parse}
use market_relay.Ingestion.Runner.{Surroundings, State, and_then, on_owned, expired_by}
use market_relay.Ingestion.Runner.Recorded.{
  Every, before-Every, ended-Every, fail_job-Every, store_fetched-Every,
}
use market_relay.Ingestion.Runner.Process.{
  reread, is_invalid_cursor, caught_policy, input_of, claim_of, conclude, nothing_counted, fetch,
  spend, with_cursor, with_authorization, process_claimed,
}

-- A row that comes from a job: under its cursor, of its source and listing, in the window, at what
-- the column makes of a positive price, and with the decisions that authorized the ingestion.
abbrev pub IsIngested : Codec → Decisions → ℕ → Job → Observation → Type 0
IsIngested codec decisions now job row =
    (cursor : FetchCursor) × (authorization : IngestionAuthorization) × (parse codec job.cursor
      ≡ returned cursor)
    × (authorize_ingestion job.source decisions ≡ returned authorization)
    × (row.source ≡ job.source)
    × (job.listing_id ≡ some row.listing_id)
    × (row.credential_scope ≡ cursor.credential_scope)
    × (row.external_listing_id ≡ cursor.external_listing_id)
    × (cursor.start ≤ row.session_date)
    × (row.session_date ≤ cursor.«end»)
    × ((price : Decimal) × (is_positive price ≡ true) × (row.close ≡ to_numeric price))
    × (row.retrieved_at ≡ now)
    × (row.retrieval_policy_decision_id ≡ some authorization.retrieval_decision.id)
    × (row.storage_policy_decision_id ≡ some authorization.storage_decision.id)

-- Nobody changes the source or the listing of a job.
abbrev pub KeepsOrigin : (Jobs → Jobs) → Type 0
KeepsOrigin f =
    (jobs : Jobs) (i : ℕ) (r : Job)
    → get_job i jobs ≡ some r
    → (r' : Job) × (get_job i (f jobs) ≡ some r')
      × (r'.source ≡ r.source)
      × (r'.listing_id ≡ r.listing_id)

mark_running-origin :
    (c : Claim) (utcnow i : ℕ) (jobs : Jobs) (r : Job)
    → get_job i jobs ≡ some r
    → (r' : Job) × (get_job i (mark_running c utcnow jobs).1 ≡ some r')
      × (r'.source ≡ r.source)
      × (r'.listing_id ≡ r.listing_id)
unfolding mark_running
mark_running-origin c utcnow i jobs r e =
    let written =
      ap (get_job i) (owned_transition-table c (claimed ∷ []) (run_values utcnow) jobs)
      ∙ get_job-update_where i (is_owned c (claimed ∷ [])) (run_values utcnow) jobs (λ x. refl) in
    elim (Bool-cases (is_owned c (claimed ∷ []) r)) [
      | inl own ↦ (run_values utcnow r, written ∙ rw (e, own) refl, refl, refl)
      | inr other ↦ (r, written ∙ rw (e, other) refl, refl, refl)
    ]

module _ {S : Type 0} (w : Surroundings S) (worker_id : String) (now : ℕ) (P : Observation → Type 0)
    (others : (i : ℕ) → All (All P) (w.others i)) (keep : KeepsOrigin w.meanwhile) (c : Claim)
    (decisions : Decisions) (job : Job)
    (ingested : (row : Observation) → IsIngested w.codec decisions now job row → P row) where
  module _ (cursor : FetchCursor) (authorization : IngestionAuthorization)
      (read : parse w.codec job.cursor ≡ returned cursor)
      (allowed : authorize_ingestion job.source decisions ≡ returned authorization) where
    new_row :
        (again : Job)
        → again.source ≡ job.source
        → again.listing_id ≡ job.listing_id
        → (i listing_id revision : ℕ) (raw : RawObservation) → again.listing_id ≡ some listing_id
        → validate_raw_observation raw cursor.external_listing_id cursor.start cursor.«end»
          ≡ returned tt
        → P (
            candidate
              (w.uuid i)
              w.utcnow
              revision
              (input_of again cursor authorization now listing_id raw))
    unfolding candidate
    new_row again source listing i listing_id revision raw has valid =
        let (own, from_start, to_end, price) =
          validate_raw_observation-passed raw cursor.external_listing_id cursor.start cursor.«end»
            valid in
        ingested _ (
          cursor,
          authorization,
          read,
          allowed,
          source,
          sym listing ∙ has,
          refl,
          own,
          from_start,
          to_end,
          (raw.close, price, refl),
          refl,
          refl,
          refl,
        )

    fetch-Every :
        (s : State S)
        → get_job job.id s.jobs ≡ some job
        → All P s.observations
        → Every w worker_id now P others (fetch w worker_id now c job cursor authorization s)
    unfolding fetch
    fetch-Every s found a =
        let r = mark_running c w.utcnow s.jobs in
        let jobs = w.meanwhile r.1 in
        let (row, there, source, listing) =
          mark_running-origin c w.utcnow job.id s.jobs job found in
        let (again, there', source', listing') = keep r.1 job.id row there in
        let same : reread job jobs ≡ again = rw (reread, there') refl in
        before-Every w worker_id now P others r.0 _
          (record s { jobs = r.1; expired = expired_by r.0 }) a
          λ _.
            store_fetched-Every w worker_id now P others c (reread job jobs) cursor authorization _
              (record s { jobs = jobs; expired = expired_by r.0 })
              (new_row (reread job jobs) (ap (λ (x : Job). x.source) same ∙ source' ∙ source)
                (ap (λ (x : Job). x.listing_id) same ∙ listing' ∙ listing))
              a

    checked-Every :
        (s : State S) (q : QuotaStatus)
        → get_job job.id s.jobs ≡ some job
        → All P s.observations
        → Every w worker_id now P others (
            (if exhausted q
                then and_then (on_owned (defer_for_quota c q.reset_at now w.utcnow)) (λ _.
                  conclude w worker_id now job (nothing_counted w worker_id now) "quota_exhausted")
                else fetch w worker_id now c job cursor authorization)
              s)
    checked-Every s q found a = elim (Bool-cases (exhausted q)) [
      | inl none_left ↦ rw none_left (
          ended-Every w worker_id now P others (defer_for_quota c q.reset_at now w.utcnow) job _ _ s
            a)
      | inr some_left ↦ rw some_left (fetch-Every s found a)
    ]

    spend-Every :
        (s : State S)
        → get_job job.id s.jobs ≡ some job
        → All P s.observations
        → Every w worker_id now P others (spend w worker_id now c job cursor authorization s)
    unfolding spend
    spend-Every s found a =
        let r = w.quota.check job.source s.quota in
        before-Every w worker_id now P others r.0 _ (record s { quota = r.1 }) a
          λ q. checked-Every (record s { quota = r.1 }) q found a

  with_cursor-Every :
      (authorization : IngestionAuthorization) (o : Outcome FetchCursor) (s : State S)
      → parse w.codec job.cursor ≡ o
      → authorize_ingestion job.source decisions ≡ returned authorization
      → get_job job.id s.jobs ≡ some job
      → All P s.observations
      → Every w worker_id now P others (with_cursor w worker_id now c job authorization o s)
  unfolding with_cursor
  with_cursor-Every authorization (returned cursor) s read allowed found a =
      spend-Every cursor authorization read allowed s found a
  with_cursor-Every authorization (raised e) s read allowed found a =
      elim (Bool-cases (is_invalid_cursor e)) [
        | inl caught ↦
            rw (caught, with_cursor) (fail_job-Every w worker_id now P others c job _ _ _ s a)
        | inr other ↦ rw (other, with_cursor) a
      ]

  with_authorization-Every :
      (o : Outcome IngestionAuthorization) (s : State S)
      → authorize_ingestion job.source decisions ≡ o
      → get_job job.id s.jobs ≡ some job
      → All P s.observations
      → Every w worker_id now P others (with_authorization w worker_id now c job o s)
  unfolding with_authorization
  with_authorization-Every (returned authorization) s allowed found a =
      with_cursor-Every authorization _ s refl allowed found a
  with_authorization-Every (raised e) s allowed found a = elim (Option-cases (caught_policy e)) [
    | inr (refused, caught) ↦
        rw (caught, with_authorization) (fail_job-Every w worker_id now P others c job _ _ _ s a)
    | inl other ↦ rw (other, with_authorization) a
  ]

-- Whatever holds of the stored rows, of the rows that others write and of every row that comes from
-- the job, holds of all rows after the job was processed: a row that is new to the table, and not
-- another process's, carries the job's source and listing and its cursor's identity, lies in the
-- cursor's window, has a positive price as its column rounds it, and names the decisions that authorized its retrieval and
-- its storage. The worker's copy is the row of the job, and nobody changes its source or listing.
pub process_claimed-Every :
    {S : Type 0} (w : Surroundings S) (worker_id : String) (now : ℕ) (P : Observation → Type 0)
    (job : Job) (s : State S)
    → KeepsOrigin w.meanwhile
    → get_job job.id s.jobs ≡ some job
    → ((row : Observation) → IsIngested w.codec s.decisions now job row → P row)
    → ((i : ℕ) → All (All P) (w.others i))
    → All P s.observations
    → All P (process_claimed w worker_id now job s).1.observations
unfolding process_claimed
process_claimed-Every w worker_id now P job s keep found ingested others a =
    with_authorization-Every w worker_id now P others keep (claim_of worker_id job) s.decisions job
      ingested _ s refl found a
