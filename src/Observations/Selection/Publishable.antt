-- ===== src/Observations/Selection/Publishable.antt =====
-- What a selection may contain.
use market_relay.Prelude.{
  ℕ, String, List, [], ◌∷◌, Bool, true, not, some, ◌≡◌, refl, sym, subst, ap, ◌==◌, nat_eq,
  string_eq, ltb, arith, All, All-mono, All-map, All-both, Bool-cases, Option-cases, inl, inr,
}
use market_relay.Dict.{Dict, get, pair_eq, Entries, Entries-put, Entries-get}
use market_relay.Table.{select_where}
use market_relay.Table.Laws.{All-select_where, select_where-matches}
use market_relay.Action.{Outcome, returned, raised}
use market_relay.Observations.Models.{Observation, ObservationType, observation_type_eq}
use market_relay.Observations.Store.{Observations}
use market_relay.Observations.Selection.{
  SourcePriorityPolicy, SelectionResult, is_for, scope_key, keep_latest, latest_by_key,
  keep_authorized, collect_sources, current_publishable_by_source, first_candidate, values_of,
  select,
}

module _ {ℓ} (Q : Observation → Type ℓ) where
  abbrev pub IsScoped : String × String → Observation → Type ℓ
  IsScoped key obs = (scope_key obs ≡ key) × Q obs

  keep_latest-Entries :
      (row : Observation) (latest : Dict (String × String) Observation)
      → Q row
      → Entries IsScoped latest
      → Entries IsScoped (keep_latest row latest)
  unfolding keep_latest
  keep_latest-Entries row latest q a =
      let written = Entries-put IsScoped (scope_key row) row latest (refl, q) a in
      elim (Option-cases (get (scope_key row) latest)) [
        | inl e ↦ rw (e, keep_latest) written
        | inr (current, e) ↦ elim (Bool-cases (ltb current.revision row.revision)) [
          | inl newer ↦ rw (e, keep_latest) (rw newer written)
          | inr older ↦ rw (e, keep_latest) (rw older a)
        ]
      ]

  pub latest_by_key-Entries :
      (latest : Dict (String × String) Observation) (rows : List Observation)
      → All Q rows
      → Entries IsScoped latest
      → Entries IsScoped (latest_by_key latest rows)
  unfolding latest_by_key
  latest_by_key-Entries latest [] q a = a
  latest_by_key-Entries latest (row ∷ rows) q a =
      latest_by_key-Entries (keep_latest row latest) rows q.1 (keep_latest-Entries row latest q.0 a)

  module _ (authorized : String → Bool) where
    abbrev pub IsPublishable : String → Observation → Type ℓ
    IsPublishable source obs = (obs.source ≡ source) × ((authorized source ≡ true) × Q obs)

    keep_authorized-Entries :
        (source : String) (obs : Observation) (by_source : Dict String Observation)
        → obs.source ≡ source
        → Q obs
        → Entries IsPublishable by_source
        → Entries IsPublishable (keep_authorized authorized source obs by_source)
    unfolding keep_authorized
    keep_authorized-Entries source obs by_source own q a = elim (Bool-cases (authorized source)) [
      | inr refused ↦ rw refused a
      | inl ok ↦
          let written = Entries-put IsPublishable source obs by_source (own, (ok, q)) a in
          elim (Option-cases (get source by_source)) [
            | inl e ↦ rw (ok, e, keep_authorized) written
            | inr (current, e) ↦ elim (Bool-cases (ltb current.retrieved_at obs.retrieved_at)) [
              | inl newer ↦ rw (ok, e, keep_authorized) (rw newer written)
              | inr older ↦ rw (ok, e, keep_authorized) (rw older a)
            ]
          ]
    ]

    pub collect_sources-Entries :
        (by_source : Dict String Observation) (latest : Dict (String × String) Observation)
        → Entries IsScoped latest
        → Entries IsPublishable by_source
        → Entries IsPublishable (collect_sources authorized by_source latest)
    unfolding collect_sources
    collect_sources-Entries by_source [] s a = a
    collect_sources-Entries by_source ((key, obs) ∷ rest) s a =
        collect_sources-Entries (keep_authorized authorized key.0 obs by_source) rest s.1 (
          keep_authorized-Entries key.0 obs by_source (ap (λ (x : String × String). x.0) s.0.0)
            s.0.1 a)

  pub first_candidate-get :
      (P : Observation → Type ℓ) (sources : List String) (candidates : Dict String Observation)
      {obs : Observation}
      → Entries (λ source o. P o) candidates
      → first_candidate sources candidates ≡ some obs
      → P obs
  unfolding first_candidate
  first_candidate-get P [] candidates a h = cc
  first_candidate-get P (source ∷ sources) candidates {obs} a h =
      elim (Option-cases (get source candidates)) [
        | inr (x, e) ↦
            let same : x ≡ obs = ground (arith, e, h) in
            subst P same (Entries-get (λ s o. P o) source candidates a e)
        | inl e ↦ first_candidate-get P sources candidates a (ground (arith, e, h))
      ]

-- The row may be shown: its source is authorized, it answers the query, and `Q` holds of it.
abbrev pub IsAllowed {ℓ} :
    (Observation → Type ℓ) → (String → Bool) → ℕ → ℕ → ObservationType → Observation → Type ℓ
IsAllowed Q authorized listing_id session_date type obs =
    (authorized obs.source ≡ true) × ((is_for listing_id session_date type obs ≡ true) × Q obs)

module _ {ℓ} (Q : Observation → Type ℓ) (authorized : String → Bool) (listing_id session_date : ℕ)
    (type : ObservationType) where
  abbrev IsStored : Observation → Type ℓ
  IsStored obs = (is_for listing_id session_date type obs ≡ true) × Q obs

  current-IsPublishable-Entries :
      (rows : Observations)
      → All Q rows
      → Entries
          (IsPublishable IsStored authorized)
          (current_publishable_by_source authorized listing_id session_date type rows)
  unfolding current_publishable_by_source
  current-IsPublishable-Entries rows q =
      let chosen = is_for listing_id session_date type in
      let stored =
        All-both (λ o. chosen o ≡ true) Q (select_where chosen rows)
          (select_where-matches chosen rows) (All-select_where Q chosen rows q) in
      collect_sources-Entries IsStored authorized [] (latest_by_key [] (select_where chosen rows))
        (latest_by_key-Entries IsStored [] (select_where chosen rows) stored tt) tt

  publishable-IsAllowed :
      (source : String) (obs : Observation)
      → IsPublishable IsStored authorized source obs
      → IsAllowed Q authorized listing_id session_date type obs
  publishable-IsAllowed source obs p = (subst (λ s. authorized s ≡ true) (sym p.0) p.1.0, p.1.1)

  pub candidates-IsAllowed :
      (rows : Observations)
      → All Q rows
      → Entries
          (λ source. IsAllowed Q authorized listing_id session_date type)
          (current_publishable_by_source authorized listing_id session_date type rows)
  candidates-IsAllowed rows q =
      All-mono (λ x p. publishable-IsAllowed x.0 x.1 p)
        (current_publishable_by_source authorized listing_id session_date type rows)
        (current-IsPublishable-Entries rows q)

  abbrev IsShowable : Outcome SelectionResult → Type ℓ
  IsShowable (raised e) = Unit
  IsShowable (returned r) =
      IsAllowed Q authorized listing_id session_date type r.selected
      × All (IsAllowed Q authorized listing_id session_date type) r.alternatives

  select-IsShowable :
      (policy : SourcePriorityPolicy) (rows : Observations)
      → All Q rows
      → IsShowable (select authorized listing_id session_date type policy rows)
  unfolding select
  select-IsShowable policy rows q =
      let P = IsAllowed Q authorized listing_id session_date type in
      let candidates = current_publishable_by_source authorized listing_id session_date type rows in
      let allowed = candidates-IsAllowed rows q in
      elim (Option-cases (first_candidate policy.ordered_sources candidates)) [
        | inl e ↦ rw (e, select) tt
        | inr (x, e) ↦
            rw (e, select)
              (
                first_candidate-get Q P policy.ordered_sources candidates allowed e,
                All-select_where P (λ obs. not (obs.id == x.id)) (values_of candidates)
                    (All-map P (λ (p : String × Observation). p.1) candidates allowed),
              )
      ]

-- Whatever is selected, and every alternative that is shown beside it, is a stored row of the
-- listing, date and type asked for, and its source may be published at this instant. A property
-- `Q` of all stored rows stands for being one of them.
pub select-publishable {ℓ} :
    (Q : Observation → Type ℓ) (authorized : String → Bool) (listing_id session_date : ℕ)
    (type : ObservationType) (policy : SourcePriorityPolicy) (rows : Observations)
    (r : SelectionResult)
    → All Q rows
    → select authorized listing_id session_date type policy rows ≡ returned r
    → IsAllowed Q authorized listing_id session_date type r.selected
      × All (IsAllowed Q authorized listing_id session_date type) r.alternatives
select-publishable Q authorized listing_id session_date type policy rows r q h =
    subst (IsShowable Q authorized listing_id session_date type) h
      (select-IsShowable Q authorized listing_id session_date type policy rows q)
