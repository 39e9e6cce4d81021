-- ===== src/Jobs.antt =====
-- The job rows of src/market_relay/domain/observations/models.py (`JobStatus`, `Job`).
-- Times are seconds and identifiers are numbers.
use market_relay.Prelude.{ℕ, String, true, Option, ◌≡◌, ◌↔◌, Eq, nat_beq, arith}
use market_relay.Governance.Credentials.{Text}

pub data JobStatus : Type 0 where
  pending claimed running waiting_for_publication done failed : JobStatus

abbrev job_status_code : JobStatus → ℕ
job_status_code pending = 0
job_status_code claimed = 1
job_status_code running = 2
job_status_code waiting_for_publication = 3
job_status_code done = 4
job_status_code failed = 5

pub job_status_beq_iff :
    (a b : JobStatus) → (nat_beq (job_status_code a) (job_status_code b) ≡ true) ↔ (a ≡ b)
job_status_beq_iff a b = ground arith

instance abbrev pub job_status_eq : Eq JobStatus
job_status_eq = record {
  equals = λ a b. nat_beq (job_status_code a) (job_status_code b);
  equals_iff = job_status_beq_iff;
}

pub record Job : Type 0 where
  pub id : ℕ
  pub job_type : String
  pub dedupe_key : String
  pub source : String
  pub listing_id : Option ℕ
  pub status : JobStatus
  pub cursor : Option String
  pub attempt_count : ℕ
  pub max_attempts : ℕ
  pub next_run_at : ℕ
  pub claimed_by : Option String
  pub claimed_at : Option ℕ
  pub generation : ℕ
  pub last_error : Option Text
  pub created_at : ℕ
  pub updated_at : ℕ
