-- ===== src/Migrations/Current.antt =====
-- A schema that has what the models of the program name.
use Prim.Native.String.{◌++◌ as ◌<>◌}
use market_relay.Prelude.{
  String, List, map, ◌==◌, [], ◌∷◌, Bool, true, false, ◌&&◌, ◌≡◌, Option, none, some, not,
  string_eq,
}
use market_relay.Dict.{Dict, get}
use market_relay.Schemas.{Schema, TableDef}
use market_relay.Migrations.Enforcement.{IsProtected}
use market_relay.Migrations.Models.{metadata, metadata_constraints, metadata_indexes}

abbrev is_nullable : Option Bool → Bool → Bool
is_nullable none nullable = false
is_nullable (some true) nullable = nullable
is_nullable (some false) nullable = not nullable

abbrev pub includes : Dict String Bool → Dict String Bool → Bool
unfolding get
includes columns [] = true
includes columns ((name, nullable) ∷ rest) =
    is_nullable (get name columns) nullable && includes columns rest

abbrev have_same : Dict String Bool → Option TableDef → Bool
have_same names none = false
have_same names (some t) = includes names t.columns && includes t.columns names

-- Every table of the models is there, with their columns and no others, NULL where they
-- say so.
abbrev has_tables : Dict String (Dict String Bool) → Schema → Bool
has_tables [] s = true
has_tables ((name, names) ∷ rest) s = have_same names (get name s.tables) && has_tables rest s

abbrev same_names : List String → List String → Bool
same_names [] [] = true
same_names (x ∷ xs) (y ∷ ys) = x == y && same_names xs ys
same_names _ _ = false

abbrev pub has_entry : List String → Option (List String) → Bool
has_entry columns none = false
has_entry columns (some found) = same_names columns found

abbrev pub includes_all : Dict String (List String) → Dict String (List String) → Bool
unfolding get
includes_all there [] = true
includes_all there ((name, columns) ∷ rest) =
    has_entry columns (get name there) && includes_all there rest

-- "ix": "ix_%(column_0_label)s"
abbrev pub index_name : String → String → String
index_name table column = "ix_" <> (table <> ("_" <> column))

abbrev pub index_on : String → String → String × List String
index_on table column = (index_name table column, column ∷ [])

abbrev has_constraints : Dict String (Dict String (List String)) → Schema → Bool
has_constraints [] s = true
has_constraints ((table, constraints) ∷ rest) s = elim (get table s.tables) [
  | none ↦ false
  | some t ↦ includes_all t.constraints constraints && has_constraints rest s
]

abbrev has_indexes : Dict String (List String) → Schema → Bool
has_indexes [] s = true
has_indexes ((table, columns) ∷ rest) s = elim (get table s.tables) [
  | none ↦ false
  | some t ↦ includes_all t.indexes (map (index_on table) columns) && has_indexes rest s
]

abbrev pub IsCurrent : Schema → Type 0
IsCurrent s =
    (has_tables metadata s ≡ true)
    × (has_constraints metadata_constraints s ≡ true)
    × (has_indexes metadata_indexes s ≡ true)
    × IsProtected "observations" s
    × IsProtected "source_policy_decisions" s
