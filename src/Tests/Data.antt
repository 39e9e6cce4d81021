-- ===== src/Tests/Data.antt =====
-- The rows that the tests share.
use market_relay.Prelude.{ℕ, String, [], ◌∷◌, none, some, false}
use market_relay.Governance.Credentials.{codes}
use market_relay.Governance.Models.{
  PolicyCapability, PolicyStatus, SourcePolicyDecision, retrieve, store, display, redistribute,
  approved,
}
use market_relay.Governance.PolicyGate.{Review, Decisions}
use market_relay.Jobs.{Job, pending}
use market_relay.Decimals.{Decimal, finite}
use market_relay.Observations.Models.{ObservationInput, Observation, eod_close, quality_ok}

-- A job that is due at 5.
abbrev pub job_of : ℕ → String → Job
job_of i key = record {
  id = i;
  job_type = "fetch_range";
  dedupe_key = key;
  source = "fake";
  listing_id = some 7;
  status = pending;
  cursor = some "{}";
  attempt_count = 0;
  max_attempts = 5;
  next_run_at = 5;
  claimed_by = none;
  claimed_at = none;
  generation = 0;
  last_error = none;
  created_at = 1;
  updated_at = 1;
}

abbrev pub first_job : Job
first_job = job_of 1 "first"

abbrev pub second_job : Job
second_job = job_of 2 "second"

abbrev pub review_of : PolicyCapability → PolicyStatus → Review
review_of capability status = record {
  source = "fake";
  capability = capability;
  status = status;
  evidence_reference = "ticket";
  reviewed_by = "team";
  reviewed_at = some 3;
  notes = none;
}

abbrev pub decision_of : ℕ → PolicyCapability → PolicyStatus → SourcePolicyDecision
decision_of i capability status = record {
  id = i;
  source = "fake";
  capability = capability;
  version = 1;
  status = status;
  evidence_reference = "ticket";
  reviewed_by = "team";
  reviewed_at = 3;
  notes = none;
  created_at = 4;
}

-- Everything is approved for the source.
abbrev pub approvals : Decisions
approvals =
    decision_of 1 retrieve approved
    ∷ decision_of 2 store approved
    ∷ decision_of 3 display approved
    ∷ decision_of 4 redistribute approved
    ∷ []

abbrev pub input_at : Decimal → ObservationInput
input_at close = record {
  listing_id = 7;
  source = "fake";
  credential_scope = "default";
  external_listing_id = "X";
  session_date = 20;
  observation_type = eod_close;
  currency = codes "eur";
  close = close;
  retrieved_at = 9;
  retrieval_policy_decision_id = some 1;
  storage_policy_decision_id = some 2;
  quality_status = quality_ok;
  «open» = none;
  high = none;
  low = none;
  adjusted_close = none;
}

abbrev pub ten : Decimal
ten = finite false 1000 2

abbrev pub stored : Observation
stored = record {
  id = 50;
  listing_id = 7;
  source = "fake";
  credential_scope = "default";
  external_listing_id = "X";
  session_date = 20;
  observation_type = eod_close;
  revision = 1;
  currency = codes "EUR";
  close = ten;
  «open» = none;
  high = none;
  low = none;
  adjusted_close = none;
  quality_status = quality_ok;
  retrieved_at = 9;
  retrieval_policy_decision_id = some 1;
  storage_policy_decision_id = some 2;
  created_at = 9;
}
