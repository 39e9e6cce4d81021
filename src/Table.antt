-- ===== src/Table.antt =====
-- Tables of rows and the statements that the program's queries are made of: `select(...).where`,
-- `update(...).where(...).values(...)` with its `rowcount`, `.first()`, `.limit(...)`.
pub mod Laws
pub mod Latest
use market_relay.Prelude.{
  ℕ, suc, ◌+◌, List, [], ◌∷◌, Option, none, some, Bool, if◌then◌else◌, ◌≢◌, All, ltb,
}

module _ {ℓ} {A : Type ℓ} where
  -- select(T).where(p)
  unfoldable pub select_where : (A → Bool) → List A → List A
  select_where p [] = []
  select_where p (r ∷ rows) = let rest = select_where p rows in if p r then r ∷ rest else rest

  -- update(T).where(p).values(f): every row that matches is replaced.
  unfoldable pub update_where : (A → Bool) → (A → A) → List A → List A
  update_where p f [] = []
  update_where p f (r ∷ rows) = (if p r then f r else r) ∷ update_where p f rows

  -- The `rowcount` of such a statement, and `func.count` of a selection.
  unfoldable pub count_where : (A → Bool) → List A → ℕ
  count_where p [] = 0
  count_where p (r ∷ rows) = let rest = count_where p rows in if p r then suc rest else rest

  -- select(T).where(p), then `.first()`
  unfoldable pub find_where : (A → Bool) → List A → Option A
  find_where p [] = none
  find_where p (r ∷ rows) = if p r then some r else find_where p rows

  -- A unique constraint on the column `key`.
  abbrev pub Unique {κ} : {K : Type κ} → (A → K) → List A → Type (ℓ ⊔ κ)
  Unique key [] = Unit
  Unique key (r ∷ rows) = All (λ x. key x ≢ key r) rows × Unique key rows

  -- select(...).order_by(key.desc()).limit(1), then `.first()`
  unfoldable pub latest_by : (A → ℕ) → List A → Option A
  latest_by key [] = none
  latest_by key (r ∷ rows) = elim (latest_by key rows) [
    | none ↦ some r
    | some m ↦ if ltb (key r) (key m) then some m else some r
  ]

  -- select(func.max(key))
  unfoldable pub max_of : (A → ℕ) → List A → Option ℕ
  max_of key [] = none
  max_of key (r ∷ rows) = elim (max_of key rows) [
    | none ↦ some (key r)
    | some m ↦ some (if ltb (key r) m then m else key r)
  ]

-- One above the highest, or the first number.
abbrev pub next_of : Option ℕ → ℕ
next_of none = 1
next_of (some n) = n + 1
