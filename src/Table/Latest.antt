-- ===== src/Table/Latest.antt =====
-- The row with the highest key.
use mathlib.Core.Option
use market_relay.Prelude.{
  ℕ, ◌≤◌, ◌<◌, ◌≡◌, refl, sym, ap, List, [], ◌∷◌, ◌++◌, none, some, Bool, subst, if◌then◌else◌, ltb,
  All, All-mono, arith, Bool-cases, inl, inr, Option-cases,
}
use market_relay.Table.{select_where, latest_by, max_of, next_of}

module _ {ℓ} {A : Type ℓ} (key : A → ℕ) where
  latest_by-cons :
      (r m : A) (rows : List A)
      → latest_by key rows ≡ some m
      → latest_by key (r ∷ rows) ≡ some (if ltb (key r) (key m) then m else r)
  unfolding latest_by
  latest_by-cons r m rows e = ground (arith, e)

  latest_by-nil : (rows : List A) → latest_by key rows ≡ none → rows ≡ []
  unfolding latest_by
  latest_by-nil [] e = refl
  latest_by-nil (r ∷ rows) e = elim (Option-cases (latest_by key rows)) [
    | inl n ↦ ground (arith, n)
    | inr (m, s) ↦ ground (arith, s)
  ]

  -- No row has a higher key than the latest.
  pub latest_by-highest :
      (rows : List A) (m : A) → latest_by key rows ≡ some m → All (λ x. key x ≤ key m) rows
  latest_by-highest [] m e = tt
  latest_by-highest (r ∷ rows) m e = elim (Option-cases (latest_by key rows)) [
    | inl n ↦
        let nothing : rows ≡ [] = latest_by-nil rows n in
        let same : r ≡ m = only r m rows nothing e in
        (subst (λ x. key r ≤ key x) same (omega arith), subst (All _) (sym nothing) tt)
    | inr (k, s) ↦ elim (Bool-cases (ltb (key r) (key k))) [
      | inl lower ↦
          let same : k ≡ m = ground (arith, latest_by-cons r k rows s) in
          (
            ground (arith, ap key same),
            subst (λ y. All (λ x. key x ≤ key y) rows) same (latest_by-highest rows k s),
          )
      | inr higher ↦
          let same : r ≡ m = ground (arith, latest_by-cons r k rows s) in
          (
            ground (arith, ap key same),
            All-mono (λ x le. ground (arith, ap key same)) rows (latest_by-highest rows k s),
          )
    ]
  ]
    where
      only : (r m : A) (rows : List A) → rows ≡ [] → latest_by key (r ∷ rows) ≡ some m → r ≡ m
      only r m [] e h = unfold latest_by in cc h
      only r m (x ∷ rows) e h = cc

  -- A new last row with a higher key than the others is the latest.
  pub latest_by-append_higher :
      (rows : List A) (r : A)
      → All (λ x. key x < key r) rows
      → latest_by key (rows ++ r ∷ []) ≡ some r
  unfolding latest_by
  latest_by-append_higher [] r h = refl
  latest_by-append_higher (x ∷ rows) r h =
      rw (latest_by-append_higher rows r h.1) (ground (arith, h.0))

  pub max_of-latest_by : (rows : List A) → max_of key rows ≡ Option.map key (latest_by key rows)
  unfolding max_of latest_by
  max_of-latest_by [] = refl
  max_of-latest_by (r ∷ rows) = ground (arith, max_of-latest_by rows)

  -- Every key is below the number that comes next.
  pub below_next_of : (rows : List A) → All (λ x. key x < next_of (max_of key rows)) rows
  unfolding max_of
  below_next_of [] = tt
  below_next_of (r ∷ rows) = elim (Option-cases (max_of key rows)) [
    | inl e ↦ (ground (arith, e), All-mono (λ x h. ground (arith, e)) rows (below_next_of rows))
    | inr (m, e) ↦
        (ground (arith, e), All-mono (λ x h. ground (arith, e)) rows (below_next_of rows))
  ]

module _ {ℓ} {A : Type ℓ} where
  pub select_where-append :
      (p : A → Bool) (rows : List A) (r : A)
      → select_where p (rows ++ r ∷ []) ≡ select_where p rows ++ (if p r then r ∷ [] else [])
  unfolding select_where
  select_where-append p [] r = refl
  select_where-append p (x ∷ rows) r = elim (Bool-cases (p x)) [
    | inl e ↦ rw (e, select_where) (ap (◌∷◌ x) (select_where-append p rows r))
    | inr e ↦ rw (e, select_where) (select_where-append p rows r)
  ]
