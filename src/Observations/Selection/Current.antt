-- ===== src/Observations/Selection/Current.antt =====
-- The dictionary of the latest rows holds the current revisions.
use market_relay.Prelude.{
  ◌≤◌, String, List, [], ◌∷◌, some, ◌≡◌, refl, ◌∙◌, subst, ap, ◌==◌, nat_eq, string_eq, ltb, arith,
  All, All-mono, All-both, Bool-cases, Option-cases, inl, inr, ==→≡, ==-refl,
}
use market_relay.Dict.{Dict, get, pair_eq, get-put, Entries, Distinct, put-Distinct, Entries-found}
use market_relay.Observations.Selection.Publishable.{IsScoped, latest_by_key-Entries}
use market_relay.Observations.Models.{Observation, observation_type_eq}
use market_relay.Observations.Selection.{scope_key, keep_latest, latest_by_key}

abbrev pub Latest : Type 0
Latest = Dict (String × String) Observation

-- The row of its scope is in the dictionary, or a later revision of it.
abbrev IsCovered : Latest → Observation → Type 0
IsCovered latest x =
    (y : Observation) × (get (scope_key x) latest ≡ some y) × (x.revision ≤ y.revision)

keep_latest-covers :
    (row x : Observation) (latest : Latest)
    → IsCovered latest x
    → IsCovered (keep_latest row latest) x
unfolding keep_latest
keep_latest-covers row x latest (y, e, le) = elim (Bool-cases (scope_key row == scope_key x)) [
  | inr other ↦ elim (Option-cases (get (scope_key row) latest)) [
    | inl n ↦ (y, rw (n, keep_latest) (rw (get-put, other) e), le)
    | inr (current, c) ↦ elim (Bool-cases (ltb current.revision row.revision)) [
      | inl newer ↦ (y, rw (c, keep_latest) (rw newer (rw (get-put, other) e)), le)
      | inr older ↦ (y, rw (c, keep_latest) (rw older e), le)
    ]
  ]
  | inl same ↦
      let own : scope_key row ≡ scope_key x = ==→≡ {a = scope_key row} {b = scope_key x} same in
      let found : get (scope_key row) latest ≡ some y = ap (λ k. get k latest) own ∙ e in
      elim (Bool-cases (ltb y.revision row.revision)) [
        | inl newer ↦ (
          row,
          rw (found, keep_latest) (rw newer (rw (get-put, same) refl)),
          ground (arith, newer),
        )
        | inr older ↦ (y, rw (found, keep_latest) (rw older e), le)
      ]
]

keep_latest-own : (row : Observation) (latest : Latest) → IsCovered (keep_latest row latest) row
unfolding keep_latest
keep_latest-own row latest = elim (Option-cases (get (scope_key row) latest)) [
  | inl n ↦ (row, rw (n, keep_latest) (rw (get-put, ==-refl (scope_key row)) refl), omega arith)
  | inr (current, c) ↦ elim (Bool-cases (ltb current.revision row.revision)) [
    | inl newer ↦ (
      row,
      rw (c, keep_latest) (rw newer (rw (get-put, ==-refl (scope_key row)) refl)),
      omega arith,
    )
    | inr older ↦ (current, rw (c, keep_latest) (rw older c), ground (arith, older))
  ]
]

latest_by_key-covers :
    (x : Observation) (latest : Latest) (rows : List Observation)
    → IsCovered latest x
    → IsCovered (latest_by_key latest rows) x
unfolding latest_by_key
latest_by_key-covers x latest [] h = h
latest_by_key-covers x latest (row ∷ rows) h =
    latest_by_key-covers x (keep_latest row latest) rows (keep_latest-covers row x latest h)

pub latest_by_key-All :
    (latest : Latest) (rows : List Observation) → All (IsCovered (latest_by_key latest rows)) rows
unfolding latest_by_key
latest_by_key-All latest [] = tt
latest_by_key-All latest (row ∷ rows) = (
  latest_by_key-covers row (keep_latest row latest) rows (keep_latest-own row latest),
  latest_by_key-All (keep_latest row latest) rows,
)

keep_latest-Distinct :
    (row : Observation) (latest : Latest) → Distinct latest → Distinct (keep_latest row latest)
unfolding keep_latest
keep_latest-Distinct row latest u =
    let written = put-Distinct (scope_key row) row latest u in
    elim (Option-cases (get (scope_key row) latest)) [
      | inl n ↦ rw (n, keep_latest) written
      | inr (current, c) ↦ elim (Bool-cases (ltb current.revision row.revision)) [
        | inl newer ↦ rw (c, keep_latest) (rw newer written)
        | inr older ↦ rw (c, keep_latest) (rw older u)
      ]
    ]

latest_by_key-Distinct :
    (latest : Latest) (rows : List Observation)
    → Distinct latest
    → Distinct (latest_by_key latest rows)
unfolding latest_by_key
latest_by_key-Distinct latest [] u = u
latest_by_key-Distinct latest (row ∷ rows) u =
    latest_by_key-Distinct (keep_latest row latest) rows (keep_latest-Distinct row latest u)

-- No row of its scope has a later revision.
abbrev pub IsCurrent : List Observation → Observation → Type 0
IsCurrent rows obs = All (λ x. scope_key x ≡ scope_key obs → x.revision ≤ obs.revision) rows

found-IsCurrent :
    (rows : List Observation) (obs : Observation)
    → get (scope_key obs) (latest_by_key [] rows) ≡ some obs
    → IsCurrent rows obs
found-IsCurrent rows obs e =
    All-mono
      (λ x (y, found, le) same.
        let is_obs : y ≡ obs = cc (found, ap (λ k. get k (latest_by_key [] rows)) same, e) in
        subst (λ z. x.revision ≤ z.revision) is_obs le)
      rows (latest_by_key-All [] rows)

pub latest_by_key-IsCurrent :
    (rows : List Observation) → Entries (IsScoped (IsCurrent rows)) (latest_by_key [] rows)
latest_by_key-IsCurrent rows =
    let latest = latest_by_key [] rows in
    All-mono
      (λ x (found, own). (own.0, found-IsCurrent rows x.1 (ap (λ k. get k latest) own.0 ∙ found)))
      latest
      (All-both _ _ latest (Entries-found latest (latest_by_key-Distinct [] rows tt))
        (latest_by_key-Entries (λ x. Unit {0}) [] rows (all_unit rows) tt))
  where
    all_unit : (rows : List Observation) → All (λ x. Unit {0}) rows
    all_unit [] = tt
    all_unit (x ∷ rows) = (tt, all_unit rows)
