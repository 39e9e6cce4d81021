-- ===== src/Governance/PolicyGate/History.antt =====
-- The registry over time: recording is append-only and takes effect at once.
use market_relay.Prelude.{
  ℕ, ◌<◌, String, List, [], ◌∷◌, ◌++◌, true, false, ◌&&◌, some, ◌≡◌, ◌≢◌, refl, ap, ◌∙◌, subst,
  if◌then◌else◌, ◌==◌, nat_eq, string_eq, arith, All, Bool-cases, inl, inr, &&-true, ==→≡, ==-refl,
  is_in,
}
use mathlib.Core.List.{append-nil}
use market_relay.Table.{select_where, latest_by}
use market_relay.Table.Laws.{count_where-zero}
use market_relay.Table.Latest.{latest_by-append_higher, below_next_of, select_where-append}
use market_relay.Action.{Outcome, returned}
use market_relay.Governance.Models.{
  PolicyCapability, store, display, redistribute, approved, SourcePolicyDecision, capability_eq,
  status_eq,
}
use market_relay.Governance.PolicyGate.{
  Decisions, Review, is_about, version_of, next_version, new_decision, record_decision,
  effective_decision, effective_status, is_publication_authorized,
}

abbrev about : String → PolicyCapability → Decisions → Decisions
about source capability = select_where (is_about source capability)

-- Every recorded version is below the next one.
below_next :
    (source : String) (capability : PolicyCapability) (decisions : Decisions)
    → All
        (λ d. d.version < next_version source capability decisions)
        (about source capability decisions)
unfolding next_version
below_next source capability decisions =
    below_next_of version_of (about source capability decisions)

fresh_version :
    (source : String) (capability : PolicyCapability) (n : ℕ) (decisions : Decisions)
    → All (λ d. d.version < n) (about source capability decisions)
    → All (λ d. (is_about source capability d && d.version == n) ≡ false) decisions
unfolding select_where
fresh_version source capability n [] h = tt
fresh_version source capability n (d ∷ decisions) h =
    elim (Bool-cases (is_about source capability d)) [
      | inl e ↦
          let split : (d.version < n)
              × All (λ x. x.version < n) (about source capability decisions) =
            rw e at h in
          (ground (arith, e, split.0), fresh_version source capability n decisions split.1)
      | inr e ↦ (ground (arith, e), fresh_version source capability n decisions (rw e at h))
    ]

unfoldable pub recorded : ℕ → ℕ → Review → Decisions → SourcePolicyDecision
unfolding new_decision
recorded uuid utcnow review decisions =
    new_decision uuid utcnow (next_version review.source review.capability decisions) review

-- Recording never fails and never touches a row: the new decision is added behind the history,
-- under a version above all those recorded for its source and capability.
pub record_decision-appends :
    (uuid utcnow : ℕ) (review : Review) (decisions : Decisions)
    → let d = recorded uuid utcnow review decisions in
      (record_decision uuid utcnow review decisions ≡ (returned d, decisions ++ d ∷ []))
      × All
          (λ x. x.version < d.version)
          (select_where (is_about review.source review.capability) decisions)
unfolding record_decision recorded
record_decision-appends uuid utcnow review decisions =
    let above = below_next review.source review.capability decisions in
    (
      rw
          (count_where-zero _ decisions
            (fresh_version review.source review.capability _ decisions above))
          refl,
      above,
    )

effective-append :
    (source : String) (capability : PolicyCapability) (decisions : Decisions)
    (d : SourcePolicyDecision)
    → effective_decision source capability (decisions ++ d ∷ [])
      ≡ latest_by version_of (
          select_where (is_about source capability) decisions
          ++ (if is_about source capability d then d ∷ [] else []))
unfolding effective_decision
effective-append source capability decisions d =
    ap (latest_by version_of) (select_where-append (is_about source capability) decisions d)

above_own :
    (uuid utcnow : ℕ) (review : Review) (decisions : Decisions) (source : String)
    (capability : PolicyCapability)
    → (review.source == source && review.capability == capability) ≡ true
    → All
        (λ x. x.version < (recorded uuid utcnow review decisions).version)
        (select_where (is_about source capability) decisions)
above_own uuid utcnow review decisions source capability e =
    let both = &&-true _ _ e in
    let n = (recorded uuid utcnow review decisions).version in
    subst
      (λ c.
        All (λ (x : SourcePolicyDecision). x.version < n)
          (select_where (is_about source c) decisions))
      (==→≡ both.1)
      (subst
        (λ s.
          All (λ (x : SourcePolicyDecision). x.version < n)
            (select_where (is_about s review.capability) decisions))
        (==→≡ both.0) (record_decision-appends uuid utcnow review decisions).1)

-- A review takes effect at once for its own source and capability, and for no other.
pub effective-record :
    (uuid utcnow : ℕ) (review : Review) (decisions : Decisions) (source : String)
    (capability : PolicyCapability)
    → effective_decision source capability (record_decision uuid utcnow review decisions).1 ≡ (
        if review.source == source && review.capability == capability
        then some (recorded uuid utcnow review decisions)
        else effective_decision source capability decisions)
effective-record uuid utcnow review decisions source capability =
    let d = recorded uuid utcnow review decisions in
    let rows = select_where (is_about source capability) decisions in
    ap (λ (r : Outcome SourcePolicyDecision × Decisions). effective_decision source capability r.1)
      (record_decision-appends uuid utcnow review decisions).0
    ∙ effective-append source capability decisions d
    ∙ elim (Bool-cases (review.source == source && review.capability == capability)) [
      | inl e ↦
          unfold recorded in
          rw e (
            latest_by-append_higher version_of rows d
              (above_own uuid utcnow review decisions source capability e))
      | inr e ↦
          unfold recorded effective_decision in rw e (ap (latest_by version_of) (append-nil rows))
    ]

status-record :
    (uuid utcnow : ℕ) (review : Review) (decisions : Decisions) (source : String)
    (capability : PolicyCapability)
    → effective_status source capability (record_decision uuid utcnow review decisions).1 ≡ (
        if review.source == source && review.capability == capability
        then review.status
        else effective_status source capability decisions)
unfolding effective_status
status-record uuid utcnow review decisions source capability =
    rw (effective-record uuid utcnow review decisions source capability)
      (elim (Bool-cases (review.source == source && review.capability == capability)) [
        | inl e ↦ unfold recorded in rw e refl
        | inr e ↦ rw e refl
      ])

abbrev pub publication_capabilities : List PolicyCapability
publication_capabilities = store ∷ display ∷ redistribute ∷ []

-- Revocation is immediate: once any of `STORE`, `DISPLAY` and `REDISTRIBUTE` is reviewed as denied
-- or unresolved, nothing of that source may be published, whatever was recorded before.
pub publication-revoked :
    (uuid utcnow : ℕ) (review : Review) (decisions : Decisions)
    → is_in review.capability publication_capabilities ≡ true
    → review.status ≢ approved
    → is_publication_authorized review.source (record_decision uuid utcnow review decisions).1
      ≡ false
unfolding is_publication_authorized
publication-revoked uuid utcnow review decisions relevant denied =
    let after = status-record uuid utcnow review decisions in
    simp (after review.source store, after review.source display, after review.source redistribute)
      (ground (arith, relevant, denied, ==-refl review.source))

-- A review of one source changes no other source's right to be published.
pub publication-other_source :
    (uuid utcnow : ℕ) (review : Review) (decisions : Decisions) (source : String)
    → source ≢ review.source
    → is_publication_authorized source (record_decision uuid utcnow review decisions).1
      ≡ is_publication_authorized source decisions
unfolding is_publication_authorized
publication-other_source uuid utcnow review decisions source other =
    let after = status-record uuid utcnow review decisions in
    simp (after source store, after source display, after source redistribute)
      (ground (arith, other, string_eq.equals_iff review.source source))
