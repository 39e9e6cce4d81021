-- ===== src/Observations/Store/Recording.antt =====
-- Recording an observation when nobody else writes.
use mathlib.Core.List.{append-nil}
use mathlib.Core.Option
use market_relay.Prelude.{
  ℕ, suc, ◌<◌, List, [], ◌∷◌, ◌++◌, true, false, ◌&&◌, Option, none, some, ◌≡◌, ◌⊎◌, refl, ap, ◌∙◌,
  subst, if◌then◌else◌, ◌==◌, nat_eq, string_eq, arith, All, Bool-cases, inl, inr, Option-cases,
  ==-refl,
}
use market_relay.Table.{select_where, latest_by, next_of}
use market_relay.Table.Laws.{count_where-zero}
use market_relay.Table.Latest.{
  latest_by-append_higher, max_of-latest_by, below_next_of, select_where-append,
}
use market_relay.Action.{returned}
use market_relay.Observations.Models.{
  Observation, ObservationInput, observation_type_eq, quality_eq,
}
use market_relay.Observations.Store.{
  Observations, Key, key_of_input, has_key, revision_of, current_for_key, same_value, next_revision,
  candidate, RecordOutcome, is_current, is_some, taken, interference, record_attempts,
  record_observation,
}

-- Every stored revision of a key is below the next one.
pub below_next_revision :
    (k : Key) (rows : Observations)
    → All (λ x. x.revision < next_revision (current_for_key k rows)) (select_where (has_key k) rows)
unfolding current_for_key
below_next_revision k rows =
    let stored = select_where (has_key k) rows in
    subst (λ n. All (λ (x : Observation). x.revision < n) stored)
      (ap next_of (max_of-latest_by revision_of stored)
        ∙ as_revision (latest_by revision_of stored))
      (below_next_of revision_of stored)
  where
    as_revision : (o : Option Observation) → next_of (Option.map revision_of o) ≡ next_revision o
    as_revision none = refl
    as_revision (some row) = refl

free_revision :
    (k : Key) (n : ℕ) (rows : Observations)
    → All (λ x. x.revision < n) (select_where (has_key k) rows)
    → All (λ x. (has_key k x && x.revision == n) ≡ false) rows
unfolding select_where
free_revision k n [] h = tt
free_revision k n (x ∷ rows) h = elim (Bool-cases (has_key k x)) [
  | inl e ↦
      let split : (x.revision < n) × All (λ y. y.revision < n) (select_where (has_key k) rows) =
        rw e at h in
      (rw e (ground (arith, split.0)), free_revision k n rows split.1)
  | inr e ↦ (rw e refl, free_revision k n rows (rw e at h))
]

-- The next revision is free unless somebody else has just taken it.
pub next_revision-free :
    (k : Key) (rows : Observations) → taken k (next_revision (current_for_key k rows)) rows ≡ false
unfolding taken
next_revision-free k rows =
    rw (count_where-zero _ rows (free_revision k _ rows (below_next_revision k rows))) refl

abbrev pub outcome_of : Option Observation → Option Observation → Observation → RecordOutcome
outcome_of (some row) current new_row = record {
  observation = row;
  created = false;
  is_correction = false;
}
outcome_of none current new_row = record {
  observation = new_row;
  created = true;
  is_correction = is_some current;
}

abbrev pub added_row : Option Observation → Observation → Observations
added_row (some row) new_row = []
added_row none new_row = new_row ∷ []

-- One attempt is enough when nobody writes between its read and its insertion.
pub quiet_attempt :
    (attempts uuid utcnow : ℕ) (others : List Observations) (d : ObservationInput)
    (rows : Observations)
    → interference others ≡ []
    → let current = current_for_key (key_of_input d) rows in
      let new_row = candidate uuid utcnow (next_revision current) d in
      record_attempts (suc attempts) others uuid utcnow d rows ≡ (
        returned (outcome_of (is_current current d) current new_row),
        rows ++ added_row (is_current current d) new_row,
      )
unfolding record_attempts
quiet_attempt attempts uuid utcnow others d rows quiet =
    let k = key_of_input d in
    let current = current_for_key k rows in
    elim (Option-cases (is_current current d)) [
      | inr (row, e) ↦ rw (e, record_attempts) (rw (append-nil rows) refl)
      | inl e ↦
          let free : taken k (next_revision current) (rows ++ interference others) ≡ false =
            rw (quiet, append-nil rows) (next_revision-free k rows) in
          rw (e, record_attempts) (rw free (rw (quiet, append-nil rows) refl))
    ]

has_own_key :
    (uuid utcnow n : ℕ) (d : ObservationInput)
    → has_key (key_of_input d) (candidate uuid utcnow n d) ≡ true
unfolding candidate
has_own_key uuid utcnow n d = ground (
  arith,
  ==-refl d.source,
  ==-refl d.credential_scope,
  ==-refl d.external_listing_id,
  ==-refl d.session_date,
  ==-refl d.observation_type,
)

-- The row that was added is the current one.
pub current-added :
    (uuid utcnow : ℕ) (d : ObservationInput) (rows : Observations)
    → let k = key_of_input d in
      let new_row = candidate uuid utcnow (next_revision (current_for_key k rows)) d in
      current_for_key k (rows ++ new_row ∷ []) ≡ some new_row
current-added uuid utcnow d rows =
    let k = key_of_input d in
    let n = next_revision (current_for_key k rows) in
    let new_row = candidate uuid utcnow n d in
    let below : All (λ x. x.revision < new_row.revision) (select_where (has_key k) rows) =
      unfold candidate in below_next_revision k rows in
    unfold current_for_key in
    rw (select_where-append (has_key k) rows new_row, has_own_key uuid utcnow n d)
      (latest_by-append_higher revision_of (select_where (has_key k) rows) new_row below)

pub is_current-some :
    (o : Option Observation) (d : ObservationInput) {row : Observation}
    → is_current o d ≡ some row
    → (o ≡ some row) × (same_value row d ≡ true)
is_current-some none d h = cc
is_current-some (some x) d {row} h =
    let same : x ≡ row = ground (arith, h) in
    (ap some same, subst (λ y. same_value y d ≡ true) same (ground (arith, h)))

-- Recording is total when nobody else writes. It appends one row or none, and never changes a row;
-- what it returns is then the current observation of the key, and a row it creates has the next
-- revision.
pub record-alone :
    (uuid utcnow : ℕ) (d : ObservationInput) (rows : Observations)
    → let k = key_of_input d in
      let after = record_observation [] uuid utcnow d rows in
      (o : RecordOutcome) × (after.0 ≡ returned o)
      × (after.1 ≡ rows ++ (if o.created then o.observation ∷ [] else []))
      × (current_for_key k after.1 ≡ some o.observation)
      × ((o.created ≡ false) ⊎ (o.observation.revision ≡ next_revision (current_for_key k rows)))
unfolding record_observation
record-alone uuid utcnow d rows =
    let k = key_of_input d in
    let current = current_for_key k rows in
    let new_row = candidate uuid utcnow (next_revision current) d in
    let quiet = quiet_attempt 7 uuid utcnow [] d rows refl in
    elim (Option-cases (is_current current d)) [
      | inr (row, e) ↦ (
        outcome_of (some row) current new_row,
        rw (quiet, e) refl,
        rw (quiet, e) refl,
        rw (quiet, e) (rw (append-nil rows) (is_current-some current d e).0),
        inl refl,
      )
      | inl e ↦ (
        outcome_of none current new_row,
        rw (quiet, e) refl,
        rw (quiet, e) refl,
        rw (quiet, e) (current-added uuid utcnow d rows),
        inr (unfold candidate in refl),
      )
    ]
