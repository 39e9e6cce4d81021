-- ===== src/Tests/Migrating.antt =====
-- Migrations on concrete databases.
use market_relay.Prelude.{String, List, [], ◌∷◌, ◌++◌, Bool, true, false, ◌≡◌, refl, ltb, suc, ℕ}
use market_relay.Table.{Unique}
use market_relay.Prelude.{map}
use market_relay.Action.{returned, raised, database_error, runtime_error}
use market_relay.Schemas.{Dialect, sqlite, postgresql, other_dialect, Alter, Schema, run_all}
use market_relay.Migrations.{upgrade_0003, upgrade_0005}
use market_relay.Migrations.Enforcement.{Write, insert_row, update_rows, delete_rows, execute_all}
use market_relay.Migrations.Reached.{Migrated, Migrated-append_only}
use market_relay.Migrations.Backfill.{
  add_dedupe_key, backfill, key_of, id_of_legacy, backfill-Unique,
}
use market_relay.Migrations.Current.{IsCurrent}
use market_relay.Migrations.Tables.{upgrade_head, downgrade_base, observations_table}
use market_relay.Migrations.Tables.Stages.{empty_schema, is_recreated}
use market_relay.Migrations.Tables.Head.{upgrade_head-IsCurrent}
use market_relay.Migrations.Tables.Base.{downgrade_base-upgrade_head}

-- Every batch in SQLite recreates its table.
abbrev in_sqlite : Dialect → List Alter → Bool
in_sqlite d alters = is_recreated d

upgrade_head-IsCurrent_example :
    (t : Schema) × (upgrade_head in_sqlite sqlite empty_schema ≡ (returned tt, t)) × IsCurrent t
upgrade_head-IsCurrent_example = upgrade_head-IsCurrent in_sqlite sqlite tt refl

downgrade_base-upgrade_head_example :
    run_all
      (upgrade_head in_sqlite postgresql ∷ downgrade_base in_sqlite postgresql ∷ [])
      empty_schema
    ≡ (returned tt, empty_schema)
downgrade_base-upgrade_head_example = downgrade_base-upgrade_head in_sqlite postgresql tt refl refl

abbrev two_jobs : List String
two_jobs = "7f" ∷ "80" ∷ []

two_jobs-Unique : Unique (λ i. i) two_jobs
two_jobs-Unique = ((λ same. cc same, tt), (tt, tt))

backfill-Unique_example :
    Unique key_of (backfill (λ i. i) (add_dedupe_key two_jobs))
    × (map id_of_legacy (backfill (λ i. i) (add_dedupe_key two_jobs)) ≡ two_jobs)
backfill-Unique_example = backfill-Unique (λ i. i) (λ i j same. same) two_jobs two_jobs-Unique

-- A database before 0003, and after it and 0005.
abbrev before_enforcement : Schema
before_enforcement = record {
  tables = ("observations", observations_table) ∷ [];
  triggers = [];
  functions = [];
}

abbrev with_enforcement : Schema
with_enforcement = (upgrade_0003 in_sqlite sqlite before_enforcement).1

abbrev with_provenance : Schema
with_provenance = (upgrade_0005 in_sqlite sqlite with_enforcement).1

with_provenance-Migrated : Migrated in_sqlite sqlite with_provenance
unfolding upgrade_0003 upgrade_0005
with_provenance-Migrated =
    Migrated.provenance_added with_enforcement (Migrated.enforced before_enforcement refl) refl

abbrev attempts : List (Write ℕ)
attempts = update_rows (λ r. true) suc ∷ insert_row 12 ∷ delete_rows (λ r. ltb r 5) ∷ []

Migrated-append_only_example :
    (extra : List ℕ) × (execute_all with_provenance "observations" attempts (3 ∷ 8 ∷ [])
      ≡ (3 ∷ 8 ∷ []) ++ extra)
Migrated-append_only_example =
    Migrated-append_only in_sqlite (λ alters. refl) sqlite with_provenance attempts (3 ∷ 8 ∷ [])
      with_provenance-Migrated

-- Rows of another table are not guarded, and a dialect that is neither is refused.
unguarded_test : execute_all with_provenance "jobs" attempts (3 ∷ 8 ∷ []) ≡ 9 ∷ 12 ∷ []
unfolding execute_all upgrade_0003 upgrade_0005
unguarded_test = refl

refused_test : (upgrade_0003 in_sqlite other_dialect before_enforcement).0 ≡ raised runtime_error
unfolding upgrade_0003
refused_test = refl

-- The batch of 0005 in SQLite, if it kept the triggers: they would be there already.
not_recreated_test :
    (upgrade_0005 (λ d alters. false) sqlite with_enforcement).0 ≡ raised database_error
unfolding upgrade_0003 upgrade_0005
not_recreated_test = refl
