-- ===== src/Governance/PolicyGate.antt =====
-- src/market_relay/domain/governance/policy_gate.py: the versioned registry of policy decisions
-- and the gates before retrieval, storage and publication.
pub mod History
pub mod Gates
use market_relay.Prelude.{
  ℕ, ◌+◌, String, List, [], ◌∷◌, ◌++◌, map, Bool, true, false, not, ◌&&◌, ◌||◌, Option, none, some,
  if◌then◌else◌, ◌==◌, nat_eq, string_eq,
}
use market_relay.Table.{select_where, count_where, latest_by, max_of, next_of}
use market_relay.Action.{
  Outcome, returned, raised, integrity_error, assertion_error, policy_not_authorized, Action, ◌>>=◌,
  ◌>>◌,
}
use market_relay.Governance.Models.{
  PolicyCapability, retrieve, store, display, redistribute, attribute, retain, PolicyStatus,
  approved, unresolved, SourcePolicyDecision, capability_eq, status_eq,
}

abbrev pub Decisions : Type 0
Decisions = List SourcePolicyDecision

abbrev pub is_about : String → PolicyCapability → SourcePolicyDecision → Bool
is_about source capability d = d.source == source && d.capability == capability

abbrev pub version_of : SourcePolicyDecision → ℕ
version_of d = d.version

unfoldable pub next_version : String → PolicyCapability → Decisions → ℕ
unfolding max_of select_where
next_version source capability decisions =
    next_of (max_of version_of (select_where (is_about source capability) decisions))

-- What the caller of `record_decision` gives; `reviewed_at` may be left out.
pub record Review : Type 0 where
  pub source : String
  pub capability : PolicyCapability
  pub status : PolicyStatus
  pub evidence_reference : String
  pub reviewed_by : String
  pub reviewed_at : Option ℕ
  pub notes : Option String

abbrev or_utcnow : Option ℕ → ℕ → ℕ
or_utcnow none utcnow = utcnow
or_utcnow (some t) utcnow = t

unfoldable pub new_decision : ℕ → ℕ → ℕ → Review → SourcePolicyDecision
new_decision uuid utcnow version review = record {
  id = uuid;
  source = review.source;
  capability = review.capability;
  version = version;
  status = review.status;
  evidence_reference = review.evidence_reference;
  reviewed_by = review.reviewed_by;
  reviewed_at = or_utcnow review.reviewed_at utcnow;
  notes = review.notes;
  created_at = utcnow;
}

-- The unique constraint `uq_source_policy_source_cap_version`.
abbrev pub same_version : SourcePolicyDecision → SourcePolicyDecision → Bool
same_version d row = is_about d.source d.capability row && row.version == d.version

unfoldable pub record_decision : ℕ → ℕ → Review → Action Decisions SourcePolicyDecision
unfolding next_version new_decision count_where
record_decision uuid utcnow review decisions =
    let d =
      new_decision uuid utcnow (next_version review.source review.capability decisions) review in
    if count_where (same_version d) decisions == 0
    then (returned d, decisions ++ d ∷ [])
    else (raised integrity_error, decisions)

unfoldable pub effective_decision :
    String → PolicyCapability → Decisions → Option SourcePolicyDecision
unfolding latest_by select_where
effective_decision source capability decisions =
    latest_by version_of (select_where (is_about source capability) decisions)

abbrev pub status_or_unresolved : Option SourcePolicyDecision → PolicyStatus
status_or_unresolved none = unresolved
status_or_unresolved (some d) = d.status

unfoldable pub effective_status : String → PolicyCapability → Decisions → PolicyStatus
unfolding effective_decision
effective_status source capability decisions =
    status_or_unresolved (effective_decision source capability decisions)

abbrev pub Statuses : Type 0
Statuses = List (PolicyCapability × PolicyStatus)

abbrev pub is_blocking : PolicyCapability × PolicyStatus → Bool
is_blocking (capability, status) = not (status == approved)

abbrev pub raise_if_blocking : String → Statuses → Statuses → Outcome Statuses
raise_if_blocking source statuses [] = returned statuses
raise_if_blocking source statuses (b ∷ bs) = raised (policy_not_authorized source (b ∷ bs))

unfoldable pub require : String → List PolicyCapability → Decisions → Outcome Statuses
unfolding effective_status select_where
require source capabilities decisions =
    let statuses = map (λ c. (c, effective_status source c decisions)) capabilities in
    raise_if_blocking source statuses (select_where is_blocking statuses)

unfoldable pub authorize_retrieval : String → Decisions → Outcome Statuses
unfolding require
authorize_retrieval source = require source (retrieve ∷ [])

pub record IngestionAuthorization : Type 0 where
  pub retrieval_decision : SourcePolicyDecision
  pub storage_decision : SourcePolicyDecision

abbrev pub both_decisions :
    Option SourcePolicyDecision → Option SourcePolicyDecision → Outcome IngestionAuthorization
both_decisions none s = raised assertion_error
both_decisions (some r) none = raised assertion_error
both_decisions (some r) (some s) =
    returned (record { retrieval_decision = r; storage_decision = s })

unfoldable pub authorize_ingestion : String → Decisions → Outcome IngestionAuthorization
unfolding require effective_decision
authorize_ingestion source decisions = do
  statuses ← require source (retrieve ∷ store ∷ []) decisions
  both_decisions (effective_decision source retrieve decisions)
      (effective_decision source store decisions)

abbrev pub is_approved : String → PolicyCapability → Decisions → Bool
is_approved source capability decisions = effective_status source capability decisions == approved

unfoldable pub is_publication_authorized : String → Decisions → Bool
unfolding effective_status
is_publication_authorized source decisions =
    is_approved source store decisions
    && (is_approved source display decisions && is_approved source redistribute decisions)

unfoldable pub authorize_publication : String → Decisions → Outcome Statuses
unfolding require
authorize_publication source = require source (store ∷ display ∷ redistribute ∷ [])

unfoldable pub requires_attribution : String → Decisions → Bool
unfolding effective_status
requires_attribution source decisions = is_approved source attribute decisions

unfoldable pub may_retain : String → Decisions → Bool
unfolding effective_status
may_retain source decisions = is_approved source retain decisions
