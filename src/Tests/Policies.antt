-- ===== src/Tests/Policies.antt =====
-- Reviews of a source and the gates that follow them.
use market_relay.Prelude.{true, false, ◌≡◌, ◌⊎◌, refl}
use market_relay.Action.{returned}
use market_relay.Governance.Models.{
  retrieve, store, redistribute, approved, unresolved, capability_eq, status_eq,
}
use market_relay.Governance.PolicyGate.{
  record_decision, is_publication_authorized, authorize_ingestion,
}
use market_relay.Governance.PolicyGate.History.{publication-revoked}
use market_relay.Governance.PolicyGate.Gates.{authorize_ingestion-exact, Authorizes, Refuses}
use market_relay.Tests.Data.{review_of, approvals, decision_of}

publication-revoked_example :
    is_publication_authorized "fake"
      (record_decision 9 30 (review_of redistribute unresolved) approvals).1
    ≡ false
publication-revoked_example =
    publication-revoked 9 30 (review_of redistribute unresolved) approvals refl (λ e. cc e)

may_publish : is_publication_authorized "fake" approvals ≡ true
unfolding is_publication_authorized
may_publish = refl

authorize_ingestion-exact_example : Authorizes "fake" approvals ⊎ Refuses "fake" approvals
authorize_ingestion-exact_example = authorize_ingestion-exact "fake" approvals

both_approved :
    authorize_ingestion "fake" approvals
    ≡ returned (record {
      retrieval_decision = decision_of 1 retrieve approved;
      storage_decision = decision_of 2 store approved;
    })
unfolding authorize_ingestion
both_approved = refl
