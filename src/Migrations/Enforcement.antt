-- ===== src/Migrations/Enforcement.antt =====
-- The triggers that make observations append-only, and the migrations that come after them.
use market_relay.Prelude.{
  String, List, [], ◌∷◌, ◌++◌, Bool, true, false, ◌&&◌, not, ◌≡◌, refl, sym, ap, ◌∙◌, ◌==◌,
  string_eq, arith, Bool-cases, inl, inr,
}
use mathlib.Core.List.{append-nil, append_assoc}
use market_relay.Table.{select_where, update_where}
use market_relay.Action.{returned, Action}
use market_relay.Schemas.{Schema, Trigger, any_of, when}

abbrev pub guards_updates : String → Trigger → Bool
guards_updates table t = t.table == table && t.updates

abbrev pub guards_deletes : String → Trigger → Bool
guards_deletes table t = t.table == table && t.deletes

-- A statement on the rows of a table.
pub data Write (A : Type 0) : Type 0 where
  insert_row : A → Write A
  update_rows : (A → Bool) → (A → A) → Write A
  delete_rows : (A → Bool) → Write A

-- A trigger fires for each row that is concerned, and undoes the whole statement.
unfoldable pub execute : {A : Type 0} → Schema → String → Write A → Action (List A) (Unit {0})
unfolding update_where select_where
execute s table (insert_row a) rows = (returned tt, rows ++ a ∷ [])
execute s table (update_rows p f) rows =
    when (not (any_of p rows && any_of (guards_updates table) s.triggers)) (update_where p f rows)
      rows
execute s table (delete_rows p) rows =
    when (not (any_of p rows && any_of (guards_deletes table) s.triggers))
      (select_where (λ r. not (p r)) rows) rows

-- One statement after the other, also when one is refused.
unfoldable pub execute_all : {A : Type 0} → Schema → String → List (Write A) → List A → List A
unfolding execute
execute_all s table [] rows = rows
execute_all s table (x ∷ writes) rows = execute_all s table writes (execute s table x rows).1

-- The table is guarded against both statements.
abbrev pub IsProtected : String → Schema → Type 0
IsProtected table s =
    (any_of (guards_updates table) s.triggers ≡ true)
    × (any_of (guards_deletes table) s.triggers ≡ true)

update_where-untouched :
    {A : Type 0} (p : A → Bool) (f : A → A) (rows : List A)
    → any_of p rows ≡ false
    → update_where p f rows ≡ rows
unfolding update_where
update_where-untouched p f [] h = refl
update_where-untouched p f (r ∷ rows) h = ground (arith, update_where-untouched p f rows)

select_where-untouched :
    {A : Type 0} (p : A → Bool) (rows : List A)
    → any_of p rows ≡ false
    → select_where (λ r. not (p r)) rows ≡ rows
unfolding select_where
select_where-untouched p [] h = refl
select_where-untouched p (r ∷ rows) h = ground (arith, select_where-untouched p rows)

module _ {A : Type 0} (s : Schema) (table : String) (safe : IsProtected table s) where
  execute-appends :
      (x : Write A) (rows : List A)
      → (extra : List A) × ((execute s table x rows).1 ≡ rows ++ extra)
  unfolding execute
  execute-appends (insert_row a) rows = (a ∷ [], refl)
  execute-appends (update_rows p f) rows = elim (Bool-cases (any_of p rows)) [
    | inl t ↦ ([], rw (t, safe.0) (sym (append-nil rows)))
    | inr n ↦ ([], rw (n, update_where-untouched p f rows n) (sym (append-nil rows)))
  ]
  execute-appends (delete_rows p) rows = elim (Bool-cases (any_of p rows)) [
    | inl t ↦ ([], rw (t, safe.1) (sym (append-nil rows)))
    | inr n ↦ ([], rw (n, select_where-untouched p rows n) (sym (append-nil rows)))
  ]

  pub execute_all-appends :
      (writes : List (Write A)) (rows : List A)
      → (extra : List A) × (execute_all s table writes rows ≡ rows ++ extra)
  unfolding execute_all
  execute_all-appends [] rows = ([], sym (append-nil rows))
  execute_all-appends (x ∷ writes) rows =
      let (first, one) = execute-appends x rows in
      let (rest, later) = execute_all-appends writes (execute s table x rows).1 in
      (first ++ rest, later ∙ ap (λ l. l ++ rest) one ∙ append_assoc rows first rest)
