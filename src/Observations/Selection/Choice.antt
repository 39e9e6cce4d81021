-- ===== src/Observations/Selection/Choice.antt =====
-- Which row is selected: the current revision, of the first source in the order of preference.
use market_relay.Prelude.{
  ℕ, String, List, [], ◌∷◌, Bool, true, false, not, none, some, ◌≡◌, ◌≢◌, refl, sym, ◌∙◌, subst, ap,
  ◌⊎◌, ◌==◌, nat_eq, string_eq, arith, All, All-mono, Bool-cases, Option-cases, inl, inr, ==→≡,
}
use market_relay.Dict.{Dict, get, pair_eq, get-put, Entries, Entries-get}
use market_relay.Observations.Selection.Publishable.{
  collect_sources-Entries, first_candidate-get, candidates-IsAllowed, IsAllowed,
}
use market_relay.Table.{select_where}
use market_relay.Action.{returned, raised, no_eligible_observation}
use market_relay.Observations.Models.{Observation, ObservationType, observation_type_eq}
use market_relay.Observations.Store.{Observations}
use market_relay.Observations.Selection.{
  SourcePriorityPolicy, SelectionResult, is_for, scope_key, latest_by_key, keep_authorized,
  collect_sources, current_publishable_by_source, first_candidate, values_of, select,
}
use market_relay.Observations.Selection.Current.{
  Latest, latest_by_key-All, IsCurrent, latest_by_key-IsCurrent,
}

module _ (authorized : String → Bool) where
  keep_authorized-keeps :
      (source key : String) (obs : Observation) (b : Dict String Observation)
      → get key b ≢ none
      → get key (keep_authorized authorized source obs b) ≢ none
  unfolding keep_authorized
  keep_authorized-keeps source key obs b h =
      ground (arith, get-put source key obs b, h, string_eq.equals_iff source key)

  keep_authorized-own :
      (source : String) (obs : Observation) (b : Dict String Observation)
      → authorized source ≡ true
      → get source (keep_authorized authorized source obs b) ≢ none
  unfolding keep_authorized
  keep_authorized-own source obs b h =
      ground (arith, get-put source source obs b, h, string_eq.equals_iff source source)

  collect_sources-keeps :
      (key : String) (b : Dict String Observation) (latest : Latest)
      → get key b ≢ none
      → get key (collect_sources authorized b latest) ≢ none
  unfolding collect_sources
  collect_sources-keeps key b [] h = h
  collect_sources-keeps key b ((k, obs) ∷ rest) h =
      collect_sources-keeps key (keep_authorized authorized k.0 obs b) rest
        (keep_authorized-keeps k.0 key obs b h)

  collect_sources-present :
      (key : String × String) (obs : Observation) (b : Dict String Observation) (latest : Latest)
      → get key latest ≡ some obs
      → authorized key.0 ≡ true
      → get key.0 (collect_sources authorized b latest) ≢ none
  unfolding collect_sources get
  collect_sources-present key obs b [] e ok = cc
  collect_sources-present key obs b ((k, v) ∷ rest) e ok = elim (Bool-cases (k == key)) [
    | inl t ↦
        let own : k ≡ key = ==→≡ {a = k} {b = key} t in
        collect_sources-keeps key.0 (keep_authorized authorized k.0 v b) rest (
          subst (λ j. get j.0 (keep_authorized authorized k.0 v b) ≢ none) own
            (keep_authorized-own k.0 v b (subst (λ j. authorized j.0 ≡ true) (sym own) ok)))
    | inr n ↦
        collect_sources-present key obs (keep_authorized authorized k.0 v b) rest
          (ground (arith, n, e)) ok
  ]

-- The first of the sources of which the others before it are absent.
abbrev pub IsFirst : (String → Type 0) → List String → String → Type 0
IsFirst Absent [] source = ⊥
IsFirst Absent (s ∷ sources) source = (s ≡ source) ⊎ (Absent s × IsFirst Absent sources source)

IsFirst-mono :
    (P Q : String → Type 0) (sources : List String) (source : String)
    → ((s : String) → P s → Q s)
    → IsFirst P sources source
    → IsFirst Q sources source
IsFirst-mono P Q [] source f h = h
IsFirst-mono P Q (s ∷ sources) source f (inl own) = inl own
IsFirst-mono P Q (s ∷ sources) source f (inr (p, rest)) =
    inr (f s p, IsFirst-mono P Q sources source f rest)

first_candidate-IsFirst :
    (sources : List String) (candidates : Dict String Observation) (obs : Observation)
    → Entries (λ source o. o.source ≡ source) candidates
    → first_candidate sources candidates ≡ some obs
    → IsFirst (λ s. get s candidates ≡ none) sources obs.source
unfolding first_candidate
first_candidate-IsFirst [] candidates obs a h = cc
first_candidate-IsFirst (source ∷ sources) candidates obs a h =
    elim (Option-cases (get source candidates)) [
      | inl n ↦ inr (n, first_candidate-IsFirst sources candidates obs a (ground (arith, n, h)))
      | inr (x, e) ↦
          let same : x ≡ obs = ground (arith, e, h) in
          inl (sym (Entries-get (λ s o. o.source ≡ s) source candidates a (e ∙ ap some same)))
    ]

first_candidate-absent :
    (sources : List String) (candidates : Dict String Observation)
    → first_candidate sources candidates ≡ none
    → All (λ s. get s candidates ≡ none) sources
unfolding first_candidate
first_candidate-absent [] candidates h = tt
first_candidate-absent (source ∷ sources) candidates h =
    elim (Option-cases (get source candidates)) [
      | inl n ↦ (n, first_candidate-absent sources candidates (ground (arith, n, h)))
      | inr (x, e) ↦ ground (arith, e, h)
    ]

All-unit : (rows : Observations) → All (λ x. Unit {0}) rows
All-unit [] = tt
All-unit (x ∷ rows) = (tt, All-unit rows)

module _ (authorized : String → Bool) (listing_id session_date : ℕ) (type : ObservationType)
    (rows : Observations) where
  -- The rows that the query finds.
  abbrev pub asked : Observations
  asked = select_where (is_for listing_id session_date type) rows

  -- No row of the source answers the query, or the source may not be published.
  abbrev pub IsAbsent : String → Type 0
  IsAbsent source = All (λ x. x.source ≡ source → authorized source ≡ false) asked

  candidates : Dict String Observation
  candidates = current_publishable_by_source authorized listing_id session_date type rows

  candidates-IsAbsent : (source : String) → get source candidates ≡ none → IsAbsent source
  unfolding candidates current_publishable_by_source
  candidates-IsAbsent source e =
      All-mono
        (λ x (y, found, le) own. elim (Bool-cases (authorized source)) [
          | inr refused ↦ refused
          | inl ok ↦ absurd (
              collect_sources-present authorized (scope_key x) y [] (latest_by_key [] asked) found
                (subst (λ s. authorized s ≡ true) (sym own) ok)
                (ap (λ s. get s candidates) own ∙ e))
        ])
        asked (latest_by_key-All [] asked)

  -- What a selection should be.
  abbrev pub IsChoice : List String → Observation → Type 0
  IsChoice sources obs =
      (is_for listing_id session_date type obs ≡ true)
      × IsCurrent asked obs
      × (authorized obs.source ≡ true)
      × IsFirst IsAbsent sources obs.source

  candidates-IsCurrent :
      Entries
        (λ source obs. (obs.source ≡ source) × ((authorized source ≡ true) × IsCurrent asked obs))
        candidates
  unfolding candidates current_publishable_by_source
  candidates-IsCurrent =
      collect_sources-Entries (IsCurrent asked) authorized [] (latest_by_key [] asked)
        (latest_by_key-IsCurrent asked) tt

  found-IsChoice :
      (sources : List String) (obs : Observation)
      → first_candidate sources candidates ≡ some obs
      → IsChoice sources obs
  unfolding candidates
  found-IsChoice sources obs e =
      let allowed =
        candidates-IsAllowed (λ x. Unit {0}) authorized listing_id session_date type rows
          (All-unit rows) in
      let (answers, kept) =
        (first_candidate-get (λ (x : Observation). Unit {0})
          (IsAllowed (λ x. Unit {0}) authorized listing_id session_date type) sources candidates
          allowed e).1 in
      let (ok, current) =
        first_candidate-get (λ (x : Observation). Unit {0})
          (λ o. (authorized o.source ≡ true) × IsCurrent asked o) sources candidates
          (All-mono
            (λ x (own, (ok, current)). (subst (λ s. authorized s ≡ true) (sym own) ok, current))
            candidates candidates-IsCurrent)
          e in
      (
        answers,
        current,
        ok,
        IsFirst-mono _ IsAbsent sources obs.source candidates-IsAbsent (
            first_candidate-IsFirst sources candidates obs
              (All-mono (λ x h. h.0) candidates candidates-IsCurrent) e),
      )

-- A selection either returns a row of the listing, date and type asked for, that is the current
-- revision of its source and scope, of the first source in the policy's order that may be published and has a row for the query; or it
-- raises `NoEligibleObservationError`, and no source of the policy has a row that may be published.
pub select-exact :
    (authorized : String → Bool) (listing_id session_date : ℕ) (type : ObservationType)
    (policy : SourcePriorityPolicy) (rows : Observations)
    → let s = select authorized listing_id session_date type policy rows in
      ((r : SelectionResult) × (s ≡ returned r)
        × IsChoice authorized listing_id session_date type rows policy.ordered_sources r.selected)
      ⊎ ((s ≡ raised no_eligible_observation)
          × All (IsAbsent authorized listing_id session_date type rows) policy.ordered_sources)
unfolding select candidates
select-exact authorized listing_id session_date type policy rows =
    let c = candidates authorized listing_id session_date type rows in
    elim (Option-cases (first_candidate policy.ordered_sources c)) [
      | inl n ↦ inr (
        rw (n, select) refl,
        All-mono (candidates-IsAbsent authorized listing_id session_date type rows)
            policy.ordered_sources (first_candidate-absent policy.ordered_sources c n),
      )
      | inr (x, e) ↦ inl (
        record {
          selected = x;
          policy_name = policy.name;
          alternatives = select_where (λ obs. not (obs.id == x.id)) (values_of c);
        },
        rw (e, select) refl,
        found-IsChoice authorized listing_id session_date type rows policy.ordered_sources x e,
      )
    ]
