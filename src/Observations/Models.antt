-- ===== src/Observations/Models.antt =====
-- src/market_relay/domain/observations/models.py: the observation rows, and the input of the store
-- (`ObservationInput` of service.py). A currency is a text, for the program changes its case.
use market_relay.Prelude.{ℕ, String, true, Option, ◌≡◌, ◌↔◌, Eq, nat_beq, arith}
use market_relay.Governance.Credentials.{Text}
use market_relay.Decimals.{Decimal}

pub data ObservationType : Type 0 where
  eod_close nav : ObservationType

pub data QualityStatus : Type 0 where
  quality_ok suspect : QualityStatus

abbrev observation_type_code : ObservationType → ℕ
observation_type_code eod_close = 0
observation_type_code nav = 1

abbrev quality_code : QualityStatus → ℕ
quality_code quality_ok = 0
quality_code suspect = 1

pub observation_type_beq_iff :
    (a b : ObservationType)
    → (nat_beq (observation_type_code a) (observation_type_code b) ≡ true) ↔ (a ≡ b)
observation_type_beq_iff a b = ground arith

pub quality_beq_iff :
    (a b : QualityStatus) → (nat_beq (quality_code a) (quality_code b) ≡ true) ↔ (a ≡ b)
quality_beq_iff a b = ground arith

instance abbrev pub observation_type_eq : Eq ObservationType
observation_type_eq = record {
  equals = λ a b. nat_beq (observation_type_code a) (observation_type_code b);
  equals_iff = observation_type_beq_iff;
}

instance abbrev pub quality_eq : Eq QualityStatus
quality_eq = record {
  equals = λ a b. nat_beq (quality_code a) (quality_code b);
  equals_iff = quality_beq_iff;
}

pub record Observation : Type 0 where
  pub id : ℕ
  pub listing_id : ℕ
  pub source : String
  pub credential_scope : String
  pub external_listing_id : String
  pub session_date : ℕ
  pub observation_type : ObservationType
  pub revision : ℕ
  pub currency : Text
  pub close : Decimal
  pub «open» : Option Decimal
  pub high : Option Decimal
  pub low : Option Decimal
  pub adjusted_close : Option Decimal
  pub quality_status : QualityStatus
  pub retrieved_at : ℕ
  pub retrieval_policy_decision_id : Option ℕ
  pub storage_policy_decision_id : Option ℕ
  pub created_at : ℕ

pub record ObservationInput : Type 0 where
  pub listing_id : ℕ
  pub source : String
  pub credential_scope : String
  pub external_listing_id : String
  pub session_date : ℕ
  pub observation_type : ObservationType
  pub currency : Text
  pub close : Decimal
  pub retrieved_at : ℕ
  pub retrieval_policy_decision_id : Option ℕ
  pub storage_policy_decision_id : Option ℕ
  pub quality_status : QualityStatus
  pub «open» : Option Decimal
  pub high : Option Decimal
  pub low : Option Decimal
  pub adjusted_close : Option Decimal
