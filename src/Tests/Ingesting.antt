-- ===== src/Tests/Ingesting.antt =====
-- A job that is processed, with a provider that answers, and the parts of that.
use market_relay.Prelude.{
  ℕ, String, List, [], ◌∷◌, Bool, true, ◌≡◌, ◌⊎◌, refl, arith, some, none, Option, ◌==◌, ◌-◌,
  if◌then◌else◌, string_eq, nat_eq, All,
}
use market_relay.Action.{
  returned, raised, invalid_operation, eof_error, provider_process_error, provider_timeout,
}
use market_relay.Governance.Credentials.{codes}
use market_relay.Decimals.{nan, decimal_beq}
use market_relay.Jobs.{Job, claimed, done, job_status_eq}
use market_relay.Queue.{get_job}
use market_relay.Observations.Models.{Observation, eod_close}
use market_relay.Governance.PolicyGate.{IngestionAuthorization}
use market_relay.Governance.Models.{retrieve, store, approved}
use market_relay.Observations.Store.{current_for_key, same_value, upper, taken}
use market_relay.Ingestion.{currency_matches, RawObservation, QuotaStatus}
use market_relay.Ingestion.Cursor.{FetchCursor, Codec, loaded_object, payload_of, serialize, parse}
use market_relay.Ingestion.Cursor.RoundTrip.{IsFaithful, parse-serialize}
use market_relay.Ingestion.Deadline.{Call, ends, dies, run_with_deadline}
use market_relay.Ingestion.Deadline.Replies.{
  run_with_deadline-exact, IsDelivered, HasFailed, IsLate,
}
use market_relay.Ingestion.Runner.{Surroundings, State, nothing_expired}
use market_relay.Ingestion.Runner.Process.{take_rows, process, process_claimed}
use market_relay.Ingestion.Runner.Fenced.{process-stale, IsRefused}
use market_relay.Ingestion.Runner.Settled.{IsSettled}
use market_relay.Ingestion.Runner.Finished.{process-IsSettled}
use market_relay.Ingestion.Runner.Recorded.{take_rows-nan}
use market_relay.Ingestion.Runner.Provenance.{process_claimed-Every}
use market_relay.Tests.Data.{first_job, second_job, decision_of, approvals, stored, ten}

abbrev window : FetchCursor
window = record {
  external_listing_id = "X";
  credential_scope = "default";
  observation_type = eod_close;
  start = 20;
  «end» = 21;
}

-- Two dates, and one text of an object.
abbrev pub iso : ℕ → String
iso d = if d == 20 then "2026-01-20" else "2026-01-21"

abbrev pub from_iso : String → Option ℕ
from_iso t = if t == "2026-01-20" then some 20 else some 21

abbrev pub codec : Codec
codec = record {
  dumps = λ payload. "{window}";
  loads = λ t. loaded_object (
      ("external_listing_id", "X")
      ∷ ("credential_scope", "default")
      ∷ ("observation_type", "EOD_CLOSE")
      ∷ ("start", "2026-01-20")
      ∷ ("end", "2026-01-21")
      ∷ []);
  isoformat = iso;
  fromisoformat = from_iso;
}

codec-IsFaithful : IsFaithful codec window
codec-IsFaithful = record {
  text = refl;
  object = (payload_of codec window, refl, λ k. refl);
  first = refl;
  last = refl;
}

parse-serialize_example : parse codec (some (serialize codec window)) ≡ returned window
parse-serialize_example = parse-serialize codec window codec-IsFaithful

abbrev row_at : ℕ → RawObservation
row_at day = record {
  external_listing_id = "X";
  session_date = day;
  observation_type = eod_close;
  currency = codes "EUR";
  close = ten;
  «open» = none;
  high = none;
  low = none;
  adjusted_close = none;
}

abbrev nan_row : RawObservation
nan_row = record (row_at 20) { close = nan }

abbrev pub all_fits : List RawObservation → Bool
all_fits rows = true

abbrev reply : Call (List RawObservation)
reply = ends (returned (row_at 20 ∷ row_at 21 ∷ []))

run_with_deadline-exact_example :
    let out = run_with_deadline all_fits all_fits reply in
    ((rows : List RawObservation) × IsDelivered all_fits all_fits reply rows
      × (out ≡ returned rows))
    ⊎ ((HasFailed all_fits all_fits reply × (out ≡ raised provider_process_error))
        ⊎ ((IsLate all_fits all_fits reply × (out ≡ raised provider_timeout))
            ⊎ ((reply ≡ dies) × (out ≡ raised eof_error))))
run_with_deadline-exact_example = run_with_deadline-exact all_fits all_fits reply

-- A child that is killed from outside.
killed : run_with_deadline all_fits all_fits dies ≡ raised eof_error
unfolding run_with_deadline
killed = refl

-- The quota is a number of calls that are left.
abbrev left_of : ℕ → QuotaStatus
left_of n = record { source = "fake"; remaining = n; limit = 10; reset_at = none }

abbrev pub surroundings : Surroundings ℕ
surroundings = record {
  quota = record {
    check = λ source n. (returned (left_of n), n);
    consume = λ source cost n. (returned (left_of (n - cost)), n - cost);
  };
  codec = codec;
  fetch_range = λ external_listing_id start end. reply;
  pickles = all_fits;
  fits = all_fits;
  cursor_error = λ raw. codes "Malformed job cursor";
  str_int = λ n. codes "1";
  utcnow = 70;
  uuid = λ i. i;
  meanwhile = λ jobs. jobs;
  others = λ i. [];
}

abbrev pub claimed_job : Job
claimed_job = record first_job {
  status = claimed;
  claimed_by = some "a";
  claimed_at = some 10;
  generation = 1;
}

abbrev reclaimed_job : Job
reclaimed_job = record claimed_job { claimed_by = some "b"; generation = 3 }

abbrev pub state_of : Job → State ℕ
state_of job = record {
  jobs = job ∷ second_job ∷ [];
  observations = stored ∷ [];
  quota = 5;
  decisions = approvals;
  expired = nothing_expired;
}

process-stale_example :
    IsRefused
      (state_of reclaimed_job)
      (process surroundings "a" 70 claimed_job (state_of reclaimed_job))
unfolding get_job
process-stale_example =
    process-stale surroundings "a" 70 claimed_job reclaimed_job (state_of reclaimed_job)
      (omega arith) refl refl refl

process-IsSettled_example :
    IsSettled 1 (process surroundings "a" 70 claimed_job (state_of claimed_job))
process-IsSettled_example =
    process-IsSettled surroundings "a" 70 claimed_job (state_of claimed_job) (omega arith)
      (λ jobs u. u)

process_claimed-Every_example :
    All
      (λ (row : Observation). row.source ≡ "fake")
      (process_claimed surroundings "a" 70 claimed_job (state_of claimed_job)).1.observations
unfolding get_job
process_claimed-Every_example =
    process_claimed-Every surroundings "a" 70 (λ row. row.source ≡ "fake") claimed_job
      (state_of claimed_job) (λ jobs i r e. (r, e, refl, refl)) refl (λ row h. h.4) (λ i. tt)
      (refl, tt)

-- The first row is stored already; the second one is new.
done_in_one :
    (process surroundings "a" 70 first_job (state_of first_job)).0
    ≡ returned (record {
      status = done;
      observations_recorded = 1;
      observations_rejected = 0;
      detail = "done";
    })
unfolding process take_rows current_for_key same_value upper decimal_beq taken
done_in_one = refl

abbrev authorization : IngestionAuthorization
authorization = record {
  retrieval_decision = decision_of 1 retrieve approved;
  storage_decision = decision_of 2 store approved;
}

take_rows-nan_example :
    take_rows surroundings "a" 70 claimed_job window authorization 0
      (nan_row ∷ row_at 21 ∷ [])
      (record { recorded = 0; rejected = 0 })
      []
    ≡ (raised invalid_operation, [])
unfolding currency_matches
take_rows-nan_example =
    take_rows-nan surroundings "a" 70 claimed_job window authorization 0 nan_row (row_at 21 ∷ [])
      (record { recorded = 0; rejected = 0 }) [] refl refl refl refl
