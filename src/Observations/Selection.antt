-- ===== src/Observations/Selection.antt =====
-- src/market_relay/domain/observations/selection.py: which stored observation may be published.
-- Whether a source may be published is asked of the policy gate at each call.
pub mod Publishable
pub mod Choice
pub mod Current
use market_relay.Prelude.{
  ℕ, String, List, [], ◌∷◌, map, Bool, true, false, not, ◌&&◌, Option, none, some, if◌then◌else◌,
  ◌==◌, nat_eq, string_eq, ltb,
}
use market_relay.Dict.{Dict, get, put, pair_eq}
use market_relay.Table.{select_where}
use market_relay.Action.{Outcome, returned, raised, no_eligible_observation}
use market_relay.Decimals.{decimal_beq}
use market_relay.Observations.Models.{Observation, ObservationType, observation_type_eq}
use market_relay.Observations.Store.{Observations}

pub record SourcePriorityPolicy : Type 0 where
  pub name : String
  pub ordered_sources : List String

pub record SelectionResult : Type 0 where
  pub selected : Observation
  pub policy_name : String
  pub alternatives : List Observation

unfoldable pub any_differs : Observation → List Observation → Bool
any_differs selected [] = false
any_differs selected (alt ∷ alts) =
    let rest = any_differs selected alts in
    if decimal_beq alt.close selected.close then rest else true

unfoldable pub has_discrepancy : SelectionResult → Bool
unfolding any_differs
has_discrepancy r = any_differs r.selected r.alternatives

abbrev pub is_for : ℕ → ℕ → ObservationType → Observation → Bool
is_for listing_id session_date type row =
    row.listing_id == listing_id
    && (row.session_date == session_date && row.observation_type == type)

abbrev pub scope_key : Observation → String × String
scope_key row = (row.source, row.credential_scope)

-- One round of the loop over the rows.
unfoldable pub keep_latest :
    Observation → Dict (String × String) Observation → Dict (String × String) Observation
unfolding get put
keep_latest row latest = elim (get (scope_key row) latest) [
  | none ↦ put (scope_key row) row latest
  | some current ↦
      if ltb current.revision row.revision then put (scope_key row) row latest else latest
]

unfoldable pub latest_by_key :
    Dict (String × String) Observation → List Observation → Dict (String × String) Observation
unfolding keep_latest
latest_by_key latest [] = latest
latest_by_key latest (row ∷ rows) = latest_by_key (keep_latest row latest) rows

-- One round of the loop over the scopes.
unfoldable pub keep_authorized :
    (String → Bool) → String → Observation → Dict String Observation → Dict String Observation
unfolding get put
keep_authorized authorized source obs by_source =
    if not (authorized source) then by_source else elim (get source by_source) [
      | none ↦ put source obs by_source
      | some current ↦
          if ltb current.retrieved_at obs.retrieved_at then put source obs by_source else by_source
    ]

unfoldable pub collect_sources :
    (String → Bool)
    → Dict String Observation
    → Dict (String × String) Observation
    → Dict String Observation
unfolding keep_authorized
collect_sources authorized by_source [] = by_source
collect_sources authorized by_source ((key, obs) ∷ rest) =
    collect_sources authorized (keep_authorized authorized key.0 obs by_source) rest

unfoldable pub current_publishable_by_source :
    (String → Bool) → ℕ → ℕ → ObservationType → Observations → Dict String Observation
unfolding collect_sources latest_by_key select_where
current_publishable_by_source authorized listing_id session_date type rows =
    collect_sources authorized []
      (latest_by_key [] (select_where (is_for listing_id session_date type) rows))

unfoldable pub first_candidate : List String → Dict String Observation → Option Observation
unfolding get
first_candidate [] candidates = none
first_candidate (source ∷ sources) candidates = elim (get source candidates) [
  | some obs ↦ some obs
  | none ↦ first_candidate sources candidates
]

abbrev values_of : Dict String Observation → List Observation
values_of = map (λ x. x.1)

unfoldable pub select :
    (String → Bool)
    → ℕ
    → ℕ
    → ObservationType
    → SourcePriorityPolicy
    → Observations
    → Outcome SelectionResult
unfolding current_publishable_by_source first_candidate select_where
select authorized listing_id session_date type policy rows =
    let candidates = current_publishable_by_source authorized listing_id session_date type rows in
    elim (first_candidate policy.ordered_sources candidates) [
      | none ↦ raised no_eligible_observation
      | some selected ↦ returned (record {
        selected = selected;
        policy_name = policy.name;
        alternatives = select_where (λ obs. not (obs.id == selected.id)) (values_of candidates);
      })
    ]
