-- ===== src/Schemas.antt =====
-- A schema and the statements of Alembic and of SQL on it: the names of its columns, constraints, indexes,
-- triggers and functions, and which columns may be NULL. Types and defaults of columns are left out.
-- Which batches Alembic carries out by recreating the table is an argument; a table that is recreated
-- loses its triggers.
use market_relay.Prelude.{
  String, List, [], ◌∷◌, ◌++◌, Bool, true, false, ◌&&◌, ◌||◌, not, Option, none, some,
  if◌then◌else◌, ◌==◌, string_eq, is_in, option_beq,
}
use market_relay.Table.{select_where}
use market_relay.Dict.{Dict, get, put}
use market_relay.Action.{returned, raised, Action, database_error}
use market_relay.Ingestion.Runner.{and_then}

pub data Dialect : Type 0 where
  sqlite postgresql other_dialect : Dialect

-- A trigger `BEFORE UPDATE` or `BEFORE DELETE`, or both, `FOR EACH ROW`, that aborts the statement: in
-- PostgreSQL by a function that raises.
pub record Trigger : Type 0 where
  pub name : String
  pub table : String
  pub updates : Bool
  pub deletes : Bool
  pub function : Option String

pub record TableDef : Type 0 where
  pub columns : Dict String Bool
  pub constraints : Dict String (List String)
  pub indexes : Dict String (List String)

-- A column with `nullable=False`, and one with `nullable=True`.
abbrev pub required : String → String × Bool
required name = (name, false)

abbrev pub optional : String → String × Bool
optional name = (name, true)

pub record Schema : Type 0 where
  pub tables : Dict String TableDef
  pub triggers : List Trigger
  pub functions : List String

pub data Alter : Type 0 where
  add_column : String → Bool → Alter
  drop_column : String → Alter
  create_constraint create_index : String → List String → Alter
  drop_constraint drop_index : String → Alter

abbrev pub is_some : {A : Type 0} → Option A → Bool
is_some none = false
is_some (some a) = true

abbrev pub has : {V : Type 0} → String → Dict String V → Bool
unfolding get
has name entries = is_some (get name entries)

abbrev pub all_in : List String → Dict String Bool → Bool
all_in [] columns = true
all_in (c ∷ cs) columns = has c columns && all_in cs columns

abbrev pub is_other : String → String → Bool
is_other name c = not (c == name)

abbrev pub is_other_key : {V : Type 0} → String → String × V → Bool
is_other_key name entry = not (entry.0 == name)

abbrev pub when : {S : Type 0} → Bool → S → Action S (Unit {0})
when ok t' t = if ok then (returned tt, t') else (raised database_error, t)

abbrev pub add_key : {V : Type 0} → String → V → Dict String V → Dict String V
unfolding put
add_key name v entries = put name v entries

abbrev pub without : {V : Type 0} → String → Dict String V → Dict String V
unfolding select_where
without name entries = select_where (is_other_key name) entries

-- To add a name that is there, or to drop one that is not, is refused.
unfoldable pub apply_alter : Alter → Action TableDef (Unit {0})
unfolding get put select_where
apply_alter (add_column c nullable) t =
    when (not (has c t.columns)) (record t { columns = add_key c nullable t.columns }) t
apply_alter (drop_column c) t =
    when (has c t.columns) (record t { columns = without c t.columns }) t
apply_alter (create_constraint name columns) t =
    when (not (has name t.constraints) && all_in columns t.columns)
      (record t { constraints = add_key name columns t.constraints }) t
apply_alter (drop_constraint name) t =
    when (has name t.constraints) (record t { constraints = without name t.constraints }) t
apply_alter (create_index name columns) t =
    when (not (has name t.indexes) && all_in columns t.columns)
      (record t { indexes = add_key name columns t.indexes }) t
apply_alter (drop_index name) t =
    when (has name t.indexes) (record t { indexes = without name t.indexes }) t

abbrev pub run_all : {S : Type 0} → List (Action S (Unit {0})) → Action S (Unit {0})
run_all [] s = (returned tt, s)
run_all (m ∷ ms) s = and_then m (λ _. run_all ms) s

abbrev pub apply_all : List Alter → Action TableDef (Unit {0})
apply_all [] t = (returned tt, t)
apply_all (a ∷ alters) t = and_then (apply_alter a) (λ _. apply_all alters) t

unfoldable pub create_table : String → TableDef → Action Schema (Unit {0})
unfolding get put
create_table name table s =
    when (not (is_some (get name s.tables))) (record s { tables = put name table s.tables }) s

abbrev pub is_on_other : String → Trigger → Bool
is_on_other table trigger = not (trigger.table == table)

-- The triggers of a table go with it.
unfoldable pub drop_table : String → Action Schema (Unit {0})
unfolding get select_where
drop_table name s =
    when (is_some (get name s.tables))
      (record s {
        tables = select_where (is_other_key name) s.tables;
        triggers = select_where (is_on_other name) s.triggers;
      })
      s

-- op.execute(...)
abbrev pub has_name : String → Trigger → Bool
has_name name trigger = trigger.name == name

abbrev pub any_of : {A : Type 0} → (A → Bool) → List A → Bool
any_of p [] = false
any_of p (x ∷ xs) = p x || any_of p xs

abbrev pub has_function : Option String → List String → Bool
has_function none functions = true
has_function (some f) functions = is_in f functions

-- `CREATE TRIGGER`
unfoldable pub create_trigger : Trigger → Action Schema (Unit {0})
create_trigger t s =
    when (not (any_of (has_name t.name) s.triggers) && has_function t.function s.functions)
      (record s { triggers = s.triggers ++ t ∷ [] }) s

abbrev pub is_named_otherwise : String → Trigger → Bool
is_named_otherwise name trigger = not (trigger.name == name)

-- `DROP TRIGGER IF EXISTS`
unfoldable pub drop_trigger : String → Action Schema (Unit {0})
unfolding select_where
drop_trigger name s =
    (returned tt, record s { triggers = select_where (is_named_otherwise name) s.triggers })

-- `CREATE OR REPLACE FUNCTION`
unfoldable pub replace_function : String → Action Schema (Unit {0})
replace_function f s = (
  returned tt,
  record s { functions = if is_in f s.functions then s.functions else s.functions ++ f ∷ [] },
)

abbrev pub calls : String → Trigger → Bool
calls f trigger = option_beq trigger.function (some f)

-- `DROP FUNCTION IF EXISTS`, refused while a trigger calls it.
unfoldable pub drop_function : String → Action Schema (Unit {0})
unfolding select_where
drop_function f s =
    when (not (any_of (calls f) s.triggers))
      (record s { functions = select_where (is_other f) s.functions }) s

module _ (recreates : Dialect → List Alter → Bool) (d : Dialect) where
  abbrev pub survives : String → List Alter → Trigger → Bool
  survives table alters trigger = not (recreates d alters && trigger.table == table)

  -- `with op.batch_alter_table(table) as batch_op`: no change is kept when one is refused.
  unfoldable pub batch_alter_table : String → List Alter → Action Schema (Unit {0})
  unfolding get put apply_alter select_where
  batch_alter_table table alters s = elim (get table s.tables) [
    | none ↦ (raised database_error, s)
    | some t ↦
        let r = apply_all alters t in
        (
          r.0,
          elim r.0 [
            | raised e ↦ s
            | returned u ↦ record s {
              tables = put table r.1 s.tables;
              triggers = select_where (survives table alters) s.triggers;
            }
          ],
        )
  ]
