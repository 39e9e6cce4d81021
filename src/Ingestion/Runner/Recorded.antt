-- ===== src/Ingestion/Runner/Recorded.antt =====
-- The rows that a job adds to the observations.
use market_relay.Prelude.{
  string_eq, leb, ℕ, suc, String, List, [], ◌∷◌, true, ◌≡◌, refl, ◌==◌, some, inl, inr, Bool-cases,
  Option-cases, All, length, ltb, ◌&&◌, nat_eq,
}
use market_relay.Action.{Action, Outcome, returned, raised, invalid_operation}
use market_relay.Governance.Credentials.{Text}
use market_relay.Governance.PolicyGate.{IngestionAuthorization}
use market_relay.Jobs.{Job}
use market_relay.Queue.{Jobs}
use market_relay.Queue.Transitions.{Claim, mark_failed, mark_done, assert_owned}
use market_relay.Observations.Models.{Observation, ObservationInput}
use market_relay.Observations.Store.{
  Observations, candidate, record_observation, max_revision_attempts,
}
use market_relay.Observations.Store.Races.{record_attempts-All}
use market_relay.Decimals.{nan, le_zero}
use market_relay.Ingestion.{currency_matches, RawObservation, validate_raw_observation}
use market_relay.Ingestion.Cursor.{FetchCursor}
use market_relay.Ingestion.Runner.{
  Surroundings, State, JobOutcome, and_then, resume, on_owned, expired_by,
}
use market_relay.Ingestion.Runner.Process.{
  is_malformed, Counts, input_of, conclude, nothing_counted, fail_job, take_row, take_rows, verdict,
  store_fetched, count_created,
}

module _ {S : Type 0} (w : Surroundings S) (worker_id : String) (now : ℕ) (P : Observation → Type 0)
    (others : (i : ℕ) → All (All P) (w.others i)) where
  abbrev pub Every : {A : Type 0} → A × State S → Type 0
  Every out = All P out.1.observations

  resume-All :
      {A B : Type 0} (k : A → Action Observations B) (o : Outcome A) (rows : Observations)
      → All P rows
      → ((a : A) → All P (k a rows).1)
      → All P (resume k o rows).1
  resume-All k (returned a) rows h f = f a
  resume-All k (raised e) rows h f = h

  record-All :
      (i : ℕ) (d : ObservationInput) (rows : Observations)
      → All P rows
      → ((revision : ℕ) → P (candidate (w.uuid i) w.utcnow revision d))
      → All P (record_observation (w.others i) (w.uuid i) w.utcnow d rows).1
  unfolding record_observation
  record-All i d rows a h =
      record_attempts-All P max_revision_attempts (w.others i) (w.uuid i) w.utcnow d rows a
        (others i) h

  module _ (job : Job) (cursor : FetchCursor) (authorization : IngestionAuthorization)
      (new : (i listing_id revision : ℕ) (raw : RawObservation)
        → job.listing_id ≡ some listing_id
        → validate_raw_observation raw cursor.external_listing_id cursor.start cursor.«end»
          ≡ returned tt
        → P (
            candidate
              (w.uuid i)
              w.utcnow
              revision
              (input_of job cursor authorization now listing_id raw))) where
    take_row-All :
        (i : ℕ) (raw : RawObservation) (n : Counts) (o : Outcome (Unit {0})) (rows : Observations)
        → validate_raw_observation raw cursor.external_listing_id cursor.start cursor.«end» ≡ o
        → All P rows
        → All P (take_row w worker_id now job cursor authorization i raw n o rows).1
    unfolding take_row
    take_row-All i raw n (raised e) rows h a = elim (Bool-cases (is_malformed e)) [
      | inl bad ↦ rw (bad, take_row) a
      | inr other ↦ rw (other, take_row) a
    ]
    take_row-All i raw n (returned _) rows h a = elim (Option-cases job.listing_id) [
      | inl e ↦ rw (e, take_row) a
      | inr (listing_id, e) ↦
          let d = input_of job cursor authorization now listing_id raw in
          let r = record_observation (w.others i) (w.uuid i) w.utcnow d rows in
          rw (e, take_row)
            (let kept = record-All i d rows a λ revision. new i listing_id revision raw e h in
              resume-All (λ o' rows'. (returned (count_created n o'), rows')) r.0 r.1 kept
                λ o'. kept)
    ]

    take_rows-All :
        (i : ℕ) (raws : List RawObservation) (n : Counts) (rows : Observations)
        → All P rows
        → All P (take_rows w worker_id now job cursor authorization i raws n rows).1
    unfolding take_rows
    take_rows-All i [] n rows a = a
    take_rows-All i (raw ∷ raws) n rows a =
        let o = validate_raw_observation raw cursor.external_listing_id cursor.start cursor.«end» in
        let r = take_row w worker_id now job cursor authorization i raw n o rows in
        let kept = take_row-All i raw n o rows refl a in
        resume-All (take_rows w worker_id now job cursor authorization (suc i) raws) r.0 r.1 kept
          λ n'. take_rows-All (suc i) raws n' r.1 kept

  pub before-Every :
      {A : Type 0} (o : Outcome A) (k : A → Action (State S) JobOutcome) (s : State S)
      → All P s.observations
      → ((a : A) → Every (k a s))
      → Every (resume k o s)
  before-Every (returned a) k s h f = f a
  before-Every (raised e) k s h f = h

  -- A change of the jobs, and the end.
  pub ended-Every :
      (m : Action Jobs (Unit {0})) (job : Job) (n : Counts) (detail : String) (s : State S)
      → All P s.observations
      → Every (and_then (on_owned m) (λ _. conclude w worker_id now job n detail) s)
  ended-Every m job n detail s a =
      let r = m s.jobs in
      before-Every r.0 (λ _. conclude w worker_id now job n detail)
        (record s { jobs = r.1; expired = expired_by r.0 }) a λ _. a

  pub fail_job-Every :
      (c : Claim) (job : Job) (error : Text) (n : Counts) (detail : String) (s : State S)
      → All P s.observations
      → Every (fail_job w worker_id now c job error n detail s)
  unfolding fail_job
  fail_job-Every c job error n detail s a =
      ended-Every (mark_failed c job.attempt_count job.max_attempts error now) job n detail s a

  verdict-Every :
      (c : Claim) (job : Job) (received : ℕ) (n : Counts) (s : State S)
      → All P s.observations
      → Every (verdict w worker_id now c job received n s)
  unfolding verdict
  verdict-Every c job received n s a = elim (Bool-cases (ltb 0 n.rejected && n.recorded == 0)) [
    | inl bad ↦ rw bad (fail_job-Every c job _ n "all_malformed" s a)
    | inr good ↦ rw good (ended-Every (mark_done c now) job n "done" s a)
  ]

  pub store_fetched-Every :
      (c : Claim) (job : Job) (cursor : FetchCursor) (authorization : IngestionAuthorization)
      (reply : Outcome (List RawObservation)) (s : State S)
      → ((i listing_id revision : ℕ) (raw : RawObservation)
          → job.listing_id ≡ some listing_id
          → validate_raw_observation raw cursor.external_listing_id cursor.start cursor.«end»
            ≡ returned tt
          → P (
              candidate
                (w.uuid i)
                w.utcnow
                revision
                (input_of job cursor authorization now listing_id raw)))
      → All P s.observations
      → Every (store_fetched w worker_id now c job cursor authorization reply s)
  unfolding store_fetched
  store_fetched-Every c job cursor authorization (raised e) s new a = fail_job-Every c job _ _ _ s a
  store_fetched-Every c job cursor authorization (returned raws) s new a =
      let owned = assert_owned c s.jobs in
      let spent = w.quota.consume job.source 1 s.quota in
      let zero_counts = nothing_counted w worker_id now in
      let taken =
        take_rows w worker_id now job cursor authorization 0 raws zero_counts s.observations in
      let kept = take_rows-All job cursor authorization new 0 raws zero_counts s.observations a in
      before-Every owned.0 _ (record s { jobs = owned.1 }) a
        λ _.
          before-Every spent.0 _ (record s { jobs = owned.1; quota = spent.1 }) a
            λ _.
              before-Every taken.0 (verdict w worker_id now c job (length raws))
                (record s { jobs = owned.1; quota = spent.1; observations = taken.1 }) kept
                λ n. verdict-Every c job (length raws) n _ kept

-- A row that the validation cannot judge, for its price is a NaN, ends the batch with
-- `InvalidOperation` when the identity, the window and the currency of the row are as they should be:
-- the rows behind it are not taken.
pub take_rows-nan :
    {S : Type 0} (w : Surroundings S) (worker_id : String) (now : ℕ) (job : Job)
    (cursor : FetchCursor) (authorization : IngestionAuthorization) (i : ℕ) (raw : RawObservation)
    (raws : List RawObservation) (n : Counts) (rows : Observations)
    → (raw.external_listing_id == cursor.external_listing_id) ≡ true
    → (leb cursor.start raw.session_date && leb raw.session_date cursor.«end») ≡ true
    → currency_matches raw.currency ≡ true
    → raw.close ≡ nan
    → take_rows w worker_id now job cursor authorization i (raw ∷ raws) n rows
      ≡ (raised invalid_operation, rows)
unfolding take_rows take_row validate_raw_observation le_zero
take_rows-nan w worker_id now job cursor authorization i raw raws n rows own window currency price =
    rw (own, window, currency, price) refl
