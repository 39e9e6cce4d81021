-- ===== src/Governance/Models.antt =====
-- src/market_relay/domain/governance/models.py: capabilities, statuses and policy decisions.
use market_relay.Prelude.{ℕ, String, true, Option, ◌≡◌, ◌↔◌, Eq, nat_beq, arith}

pub data PolicyCapability : Type 0 where
  retrieve store display redistribute attribute retain : PolicyCapability

pub data PolicyStatus : Type 0 where
  approved denied unresolved : PolicyStatus

abbrev capability_code : PolicyCapability → ℕ
capability_code retrieve = 0
capability_code store = 1
capability_code display = 2
capability_code redistribute = 3
capability_code attribute = 4
capability_code retain = 5

abbrev status_code : PolicyStatus → ℕ
status_code approved = 0
status_code denied = 1
status_code unresolved = 2

pub capability_beq_iff :
    (a b : PolicyCapability) → (nat_beq (capability_code a) (capability_code b) ≡ true) ↔ (a ≡ b)
capability_beq_iff a b = ground arith

pub status_beq_iff :
    (a b : PolicyStatus) → (nat_beq (status_code a) (status_code b) ≡ true) ↔ (a ≡ b)
status_beq_iff a b = ground arith

instance abbrev pub capability_eq : Eq PolicyCapability
capability_eq = record {
  equals = λ a b. nat_beq (capability_code a) (capability_code b);
  equals_iff = capability_beq_iff;
}

instance abbrev pub status_eq : Eq PolicyStatus
status_eq = record {
  equals = λ a b. nat_beq (status_code a) (status_code b);
  equals_iff = status_beq_iff;
}

-- A row of `source_policy_decisions`.
pub record SourcePolicyDecision : Type 0 where
  pub id : ℕ
  pub source : String
  pub capability : PolicyCapability
  pub version : ℕ
  pub status : PolicyStatus
  pub evidence_reference : String
  pub reviewed_by : String
  pub reviewed_at : ℕ
  pub notes : Option String
  pub created_at : ℕ
