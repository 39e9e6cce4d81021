-- ===== src/Table/Laws.antt =====
-- What the statements on tables do, row by row.
use market_relay.Prelude.{
  suc, ◌≤◌, ◌≡◌, refl, ap, List, [], ◌∷◌, ◌++◌, none, some, Bool, true, false, subst, sym, ◌∙◌,
  if◌then◌else◌, ◌≢◌, All, All-mono, length, arith, Bool-cases, inl, inr, Eq, ◌==◌, ==→≡, ◌&&◌,
  &&-true, ==-refl, All-append, All-both,
}
use mathlib.Core.Option
use market_relay.Table.{select_where, update_where, count_where, find_where, Unique}

module _ {ℓ} {A : Type ℓ} where
  pub length-update_where :
      (p : A → Bool) (f : A → A) (rows : List A) → length (update_where p f rows) ≡ length rows
  unfolding update_where
  length-update_where p f [] = refl
  length-update_where p f (r ∷ rows) = ap suc (length-update_where p f rows)

  pub count_where-le : (p : A → Bool) (rows : List A) → count_where p rows ≤ length rows
  unfolding count_where
  count_where-le p [] = omega arith
  count_where-le p (r ∷ rows) = ground (arith, count_where-le p rows)

  -- A statement that matches no row leaves the table as it was.
  pub update_where-none :
      (p : A → Bool) (f : A → A) (rows : List A)
      → count_where p rows ≡ 0
      → update_where p f rows ≡ rows
  unfolding update_where count_where
  update_where-none p f [] h = refl
  update_where-none p f (r ∷ rows) h = elim (Bool-cases (p r)) [
    | inl e ↦ absurd (ground arith)
    | inr e ↦ rw e (ap (◌∷◌ r) (update_where-none p f rows (ground arith)))
  ]

  -- A statement whose new rows no longer match matches nothing when it is run again.
  pub count_where-update_where :
      (p : A → Bool) (f : A → A) (rows : List A)
      → ((r : A) → p (f r) ≡ false)
      → count_where p (update_where p f rows) ≡ 0
  unfolding update_where count_where
  count_where-update_where p f [] h = refl
  count_where-update_where p f (r ∷ rows) h =
      ground (arith, h r, count_where-update_where p f rows h)

  -- An invariant of the rows is kept when the statement keeps it on the rows that match.
  pub All-update_where {κ} :
      (P : A → Type κ) (p : A → Bool) (f : A → A) (rows : List A)
      → ((r : A) → p r ≡ true → P r → P (f r))
      → All P rows
      → All P (update_where p f rows)
  unfolding update_where
  All-update_where P p f [] h a = tt
  All-update_where P p f (r ∷ rows) h a = elim (Bool-cases (p r)) [
    | inl e ↦ rw e (h r e a.0, All-update_where P p f rows h a.1)
    | inr e ↦ rw e (a.0, All-update_where P p f rows h a.1)
  ]

  pub All-select_where {κ} :
      (P : A → Type κ) (p : A → Bool) (rows : List A) → All P rows → All P (select_where p rows)
  unfolding select_where
  All-select_where P p [] a = tt
  All-select_where P p (r ∷ rows) a = elim (Bool-cases (p r)) [
    | inl e ↦ rw e (a.0, All-select_where P p rows a.1)
    | inr e ↦ rw e (All-select_where P p rows a.1)
  ]

  pub select_where-matches :
      (p : A → Bool) (rows : List A) → All (λ r. p r ≡ true) (select_where p rows)
  unfolding select_where
  select_where-matches p [] = tt
  select_where-matches p (r ∷ rows) = elim (Bool-cases (p r)) [
    | inl e ↦ rw (e, select_where) (e, select_where-matches p rows)
    | inr e ↦ rw (e, select_where) (select_where-matches p rows)
  ]

  pub find_where-matches :
      (p : A → Bool) (rows : List A) {r : A} → find_where p rows ≡ some r → p r ≡ true
  unfolding find_where
  find_where-matches p [] h = cc
  find_where-matches p (x ∷ rows) h = elim (Bool-cases (p x)) [
    | inl e ↦ ground arith
    | inr e ↦ find_where-matches p rows (ground arith)
  ]

  pub All-find_where {κ} :
      (P : A → Type κ) (p : A → Bool) (rows : List A) {r : A}
      → All P rows
      → find_where p rows ≡ some r
      → P r
  unfolding find_where
  All-find_where P p [] a h = cc
  All-find_where P p (x ∷ rows) {r} a h = elim (Bool-cases (p x)) [
    | inl e ↦ subst P (ground arith) a.0
    | inr e ↦ All-find_where P p rows a.1 (ground arith)
  ]

  -- The row that a stable test picks, after an update: the same row, changed if it matches.
  pub find_where-update_where :
      (q p : A → Bool) (f : A → A) (rows : List A)
      → ((r : A) → q (f r) ≡ q r)
      → find_where q (update_where p f rows)
        ≡ Option.map (λ r. if p r then f r else r) (find_where q rows)
  unfolding update_where find_where
  find_where-update_where q p f [] h = refl
  find_where-update_where q p f (r ∷ rows) h =
      ground (arith, h r, find_where-update_where q p f rows h)

  -- An insertion at the end is found where nothing was found before.
  pub find_where-append :
      (q : A → Bool) (rows : List A) (r : A)
      → find_where q (rows ++ r ∷ [])
        ≡ (elim (find_where q rows) [ some x ↦ some x | none ↦ if q r then some r else none ])
  unfolding find_where
  find_where-append q [] r = ground arith
  find_where-append q (x ∷ rows) r = ground (arith, find_where-append q rows r)

  pub count_where-zero :
      (p : A → Bool) (rows : List A) → All (λ r. p r ≡ false) rows → count_where p rows ≡ 0
  unfolding count_where
  count_where-zero p [] a = refl
  count_where-zero p (r ∷ rows) a = ground (arith, count_where-zero p rows a.1)

  pub count_where-none :
      (p : A → Bool) (rows : List A) → count_where p rows ≡ 0 → All (λ r. p r ≡ false) rows
  unfolding count_where
  count_where-none p [] h = tt
  count_where-none p (r ∷ rows) h = elim (Bool-cases (p r)) [
    | inl e ↦ absurd (ground arith)
    | inr e ↦ (e, count_where-none p rows (ground arith))
  ]

  pub find_where-none :
      (p : A → Bool) (rows : List A) → find_where p rows ≡ none → All (λ r. p r ≡ false) rows
  unfolding find_where
  find_where-none p [] h = tt
  find_where-none p (r ∷ rows) h = elim (Bool-cases (p r)) [
    | inl e ↦ absurd (ground arith)
    | inr e ↦ (e, find_where-none p rows (ground arith))
  ]

module _ {ℓ κ} {A : Type ℓ} {K : Type κ} (key : A → K) where
  key-if : (b : Bool) (f : A → A) (r : A) → key (f r) ≡ key r → key (if b then f r else r) ≡ key r
  key-if true f r h = h
  key-if false f r h = refl

  -- A statement that does not write the key keeps the unique constraint.
  pub Unique-update_where :
      (p : A → Bool) (f : A → A) (rows : List A)
      → ((r : A) → key (f r) ≡ key r)
      → Unique key rows
      → Unique key (update_where p f rows)
  unfolding update_where
  Unique-update_where p f [] h u = tt
  Unique-update_where p f (r ∷ rows) h u = (
    All-update_where _ p f rows (λ x _ ne e. ne (sym (h x) ∙ e))
        (All-mono (λ x ne e. ne (e ∙ key-if (p r) f r (h r))) rows u.0),
    Unique-update_where p f rows h u.1,
  )

  -- A new row keeps it if no row has its key.
  pub Unique-append :
      (rows : List A) (r : A)
      → Unique key rows
      → All (λ x. key x ≢ key r) rows
      → Unique key (rows ++ r ∷ [])
  Unique-append [] r u a = (tt, tt)
  Unique-append (x ∷ rows) r u a =
      (All-append _ rows (r ∷ []) u.0 ((λ e. a.0 (sym e)), tt), Unique-append rows r u.1 a.1)

  module _ ⦃e : Eq K⦄ where
    absent_counts_zero :
        (k : K) (p : A → Bool) (rows : List A)
        → ((r : A) → p r ≡ true → key r ≡ k)
        → All (λ x. key x ≢ k) rows
        → count_where p rows ≡ 0
    absent_counts_zero k p rows h a = count_where-zero p rows (
        All-mono (λ r ne. elim (Bool-cases (p r)) [ inl t ↦ absurd (ne (h r t)) | inr n ↦ n ]) rows
          a)

    -- With unique keys, a statement on one key matches one row at most.
    pub count_where-key-le-one :
        (k : K) (p : A → Bool) (rows : List A)
        → Unique key rows
        → ((r : A) → p r ≡ true → key r ≡ k)
        → count_where p rows ≤ 1
    unfolding count_where
    count_where-key-le-one k p [] u h = omega arith
    count_where-key-le-one k p (r ∷ rows) u h = elim (Bool-cases (p r)) [
      | inl t ↦
          rw (t, count_where)
            (omega (
              arith,
              absent_counts_zero k p rows h (All-mono (λ x ne q. ne (q ∙ sym (h r t))) rows u.0),
            ))
      | inr n ↦ rw (n, count_where) (count_where-key-le-one k p rows u.1 h)
    ]

    -- It matches one exactly when the row with that key does.
    pub count_where-key :
        (k : K) (p : A → Bool) (rows : List A)
        → Unique key rows
        → count_where (λ r. key r == k && p r) rows
          ≡ (elim (find_where (λ r. key r == k) rows) [ some r ↦ if p r then 1 else 0 | none ↦ 0 ])
    unfolding count_where find_where
    count_where-key k p [] u = refl
    count_where-key k p (r ∷ rows) u = elim (Bool-cases (key r == k)) [
      | inl t ↦
          rw (t, count_where, find_where)
            (ground (
              arith,
              absent_counts_zero k (λ x. key x == k && p x) rows (λ x h. ==→≡ (&&-true _ _ h).0)
                  (All-mono (λ x ne q. ne (q ∙ sym (==→≡ t))) rows u.0),
            ))
      | inr n ↦ rw (n, count_where, find_where) (count_where-key k p rows u.1)
    ]

    -- With unique keys, a row is found by its own key.
    pub Unique-found :
        (rows : List A)
        → Unique key rows
        → All (λ r. find_where (λ x. key x == key r) rows ≡ some r) rows
    unfolding find_where
    Unique-found [] u = tt
    Unique-found (x ∷ rows) u = (
      rw ==-refl refl,
      All-mono
          (λ r (ne, found). elim (Bool-cases (key x == key r)) [
            | inl t ↦ absurd (ne (sym (==→≡ t)))
            | inr n ↦ rw (n, find_where) found
          ])
          rows (All-both _ _ rows u.0 (Unique-found rows u.1)),
    )
