-- ===== src/Governance/PolicyGate/Gates.antt =====
-- What the gates let through.
use market_relay.Prelude.{
  String, List, [], ◌∷◌, Bool, true, false, ◌&&◌, Option, none, some, ◌≡◌, ◌↔◌, refl, if◌then◌else◌,
  ◌==◌, arith, map, Bool-cases, inl, inr, ==→≡, ◌≢◌, ◌⊎◌, &&-true,
}
use market_relay.Action.{returned, raised, policy_not_authorized}
use market_relay.Table.{select_where}
use market_relay.Governance.Models.{
  PolicyCapability, retrieve, store, display, redistribute, PolicyStatus, approved,
  SourcePolicyDecision, status_eq,
}
use market_relay.Governance.PolicyGate.{
  Decisions, effective_status, effective_decision, is_publication_authorized, authorize_publication,
  authorize_ingestion, require, is_approved, is_blocking, Statuses, raise_if_blocking,
  status_or_unresolved,
}

-- What a caller should see: the statuses of the capabilities asked for, whether all of them are
-- approved, and those that are not.
unfoldable pub statuses_of : String → Decisions → List PolicyCapability → Statuses
statuses_of source decisions = map (λ c. (c, effective_status source c decisions))

unfoldable pub all_approved : String → Decisions → List PolicyCapability → Bool
all_approved source decisions [] = true
all_approved source decisions (c ∷ caps) =
    is_approved source c decisions && all_approved source decisions caps

unfoldable pub blocking : String → Decisions → List PolicyCapability → Statuses
blocking source decisions [] = []
blocking source decisions (c ∷ caps) =
    let rest = blocking source decisions caps in
    if is_approved source c decisions then rest else (c, effective_status source c decisions) ∷ rest

blocking-select :
    (source : String) (decisions : Decisions) (caps : List PolicyCapability)
    → select_where is_blocking (statuses_of source decisions caps) ≡ blocking source decisions caps
unfolding select_where statuses_of blocking
blocking-select source decisions [] = refl
blocking-select source decisions (c ∷ caps) = ground (arith, blocking-select source decisions caps)

blocking-nil :
    (source : String) (decisions : Decisions) (caps : List PolicyCapability)
    → all_approved source decisions caps ≡ true
    → blocking source decisions caps ≡ []
unfolding all_approved blocking
blocking-nil source decisions [] h = refl
blocking-nil source decisions (c ∷ caps) h = ground (arith, blocking-nil source decisions caps)

blocking-cons :
    (source : String) (decisions : Decisions) (caps : List PolicyCapability)
    → all_approved source decisions caps ≡ false
    → blocking source decisions caps ≢ []
unfolding all_approved blocking
blocking-cons source decisions [] h = cc
blocking-cons source decisions (c ∷ caps) h = ground (arith, blocking-cons source decisions caps)

raise_nonempty :
    (source : String) (statuses blocked : Statuses)
    → blocked ≢ []
    → raise_if_blocking source statuses blocked ≡ raised (policy_not_authorized source blocked)
raise_nonempty source statuses [] h = absurd (h refl)
raise_nonempty source statuses (b ∷ bs) h = refl

-- `require` returns the statuses when every capability asked for is `APPROVED`, whatever the list;
-- otherwise it raises, with the capabilities that are not and with no others.
pub require-exact :
    (source : String) (decisions : Decisions) (caps : List PolicyCapability)
    → require source caps decisions ≡ (
        if all_approved source decisions caps
        then returned (statuses_of source decisions caps)
        else raised (policy_not_authorized source (blocking source decisions caps)))
unfolding require
require-exact source decisions caps =
    let selected = blocking-select source decisions caps in
    elim (Bool-cases (all_approved source decisions caps)) [
      | inl h ↦ unfold statuses_of in rw (h, selected, blocking-nil source decisions caps h) refl
      | inr h ↦
          unfold statuses_of in
          rw (h, selected)
            (raise_nonempty source _ (blocking source decisions caps)
              (blocking-cons source decisions caps h))
    ]

-- The gate that raises and the test that does not agree: `authorize_publication` returns exactly
-- when `is_publication_authorized` holds.
pub authorize_publication_iff :
    (source : String) (decisions : Decisions)
    → ((s : List (PolicyCapability × PolicyStatus)) × (authorize_publication source decisions
          ≡ returned s))
      ↔ (is_publication_authorized source decisions ≡ true)
unfolding authorize_publication is_publication_authorized require select_where
authorize_publication_iff source decisions = (
  λ h. ground (arith, h.1),
  λ h. ((store, approved) ∷ (display, approved) ∷ (redistribute, approved) ∷ [], ground arith),
)

approved_decision :
    (o : Option SourcePolicyDecision)
    → (status_or_unresolved o == approved) ≡ true
    → (d : SourcePolicyDecision) × (o ≡ some d) × (d.status ≡ approved)
approved_decision none h = cc h
approved_decision (some d) h = (d, refl, ==→≡ h)

abbrev pub may_ingest : String → Decisions → Bool
may_ingest source decisions =
    is_approved source retrieve decisions && is_approved source store decisions

-- A pair of effective decisions, both approved, that the gate before ingestion returns.
abbrev pub Authorizes : String → Decisions → Type 0
Authorizes source decisions =
    (r s : SourcePolicyDecision) × (effective_decision source retrieve decisions ≡ some r)
    × (effective_decision source store decisions ≡ some s)
    × (r.status ≡ approved)
    × (s.status ≡ approved)
    × (authorize_ingestion source decisions
        ≡ returned (record { retrieval_decision = r; storage_decision = s }))

abbrev pub Refuses : String → Decisions → Type 0
Refuses source decisions =
    (may_ingest source decisions ≡ false)
    × (authorize_ingestion source decisions
        ≡ raised (policy_not_authorized source (blocking source decisions (retrieve ∷ store ∷ []))))

-- The gate before ingestion is total. Either it returns the effective decisions on `RETRIEVE` and
-- `STORE`, and both are `APPROVED`; or one of them is not, and it raises `PolicyNotAuthorizedError`
-- with what blocks. Its assertion never fails.
pub authorize_ingestion-exact :
    (source : String) (decisions : Decisions)
    → Authorizes source decisions ⊎ Refuses source decisions
unfolding authorize_ingestion effective_status require blocking
authorize_ingestion-exact source decisions = elim (Bool-cases (may_ingest source decisions)) [
  | inr h ↦ inr (h, ground (arith, h))
  | inl h ↦
      let both = &&-true _ _ h in
      let (r, er, ar) = approved_decision (effective_decision source retrieve decisions) both.0 in
      let (s, es, as') = approved_decision (effective_decision source store decisions) both.1 in
      inl (r, s, er, es, ar, as', ground (arith, er, es, ar, as'))
]
