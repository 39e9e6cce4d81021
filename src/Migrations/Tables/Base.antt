-- ===== src/Migrations/Tables/Base.antt =====
-- Every migration upwards, and then downwards.
use market_relay.Prelude.{List, [], ◌∷◌, ◌++◌, Bool, ◌≡◌, refl, ap, ◌∙◌, string_eq}
use market_relay.Table.{select_where}
use market_relay.Action.{returned}
use market_relay.Schemas.{
  Dialect, sqlite, postgresql, other_dialect, Alter, run_all, is_other_key, required, Schema,
  TableDef, survives, batch_alter_table, create_trigger, drop_trigger, drop_function,
}
use market_relay.Migrations.{
  provenance, drop_provenance, downgrade_0003, downgrade_0004, downgrade_0005, release_policies,
  restore_observations,
}
use market_relay.Migrations.Tables.{upgrade_head, downgrade_0001, downgrade_0002, downgrade_base}
use market_relay.Migrations.Tables.Stages.{
  empty_schema, IsSupported, is_recreated, before_batch, after_batch, survivors, schema_3, schema_4,
  schema_5, head_schema, run_all-next, tables_with, schema_with, observations_2, observations_1,
  observations_3, jobs_1, jobs_2,
}
use market_relay.Migrations.Tables.Head.{upgrade_head-head_schema}

-- After 0003 downwards: the column is back, at the end.
abbrev observations_back : TableDef
observations_back = record observations_2 {
  columns = observations_3.columns ++ required "is_publishable" ∷ [];
}

abbrev schema_back : Schema
schema_back = schema_with (tables_with jobs_2 observations_back)

abbrev observations_first : TableDef
observations_first = record observations_1 {
  columns = select_where (is_other_key "revision") observations_back.columns;
}

abbrev schema_first : Schema
schema_first = schema_with (tables_with jobs_1 observations_first)

release-head :
    (d : Dialect)
    → IsSupported d
    → release_policies d (head_schema d) ≡ (returned tt, schema_5 d (before_batch d))
unfolding drop_trigger drop_function
release-head sqlite ok = refl
release-head postgresql ok = refl
release-head other_dialect ok = absurd ok

restore-before :
    (d : Dialect)
    → IsSupported d
    → restore_observations d (record (schema_4 d) { triggers = after_batch d })
      ≡ (returned tt, schema_4 d)
unfolding create_trigger
restore-before sqlite ok = refl
restore-before postgresql ok = refl
restore-before other_dialect ok = absurd ok

down_4 : (d : Dialect) → IsSupported d → downgrade_0004 (schema_4 d) ≡ (returned tt, schema_3 d)
unfolding downgrade_0004
down_4 sqlite ok = refl
down_4 postgresql ok = refl
down_4 other_dialect ok = absurd ok

module _ (recreates : Dialect → List Alter → Bool) where
  down_1 : (d : Dialect) → downgrade_0001 recreates d schema_first ≡ (returned tt, empty_schema)
  unfolding downgrade_0001
  down_1 d = refl

  down_3 :
      (d : Dialect)
      → IsSupported d
      → downgrade_0003 recreates d (schema_3 d) ≡ (returned tt, schema_back)
  unfolding downgrade_0003
  down_3 sqlite ok = refl
  down_3 postgresql ok = refl
  down_3 other_dialect ok = absurd ok

  down_2 : (d : Dialect) → downgrade_0002 recreates d schema_back ≡ (returned tt, schema_first)
  unfolding downgrade_0002
  down_2 d = refl

module _ (recreates : Dialect → List Alter → Bool) (d : Dialect) where
  down_batch :
      batch_alter_table recreates d "observations" drop_provenance (schema_5 d (before_batch d)) ≡ (
        returned tt,
        record (schema_4 d) {
          triggers =
              select_where (survives recreates d "observations" drop_provenance) (before_batch d);
        },
      )
  unfolding batch_alter_table
  down_batch = refl

  down_5 :
      IsSupported d
      → recreates d drop_provenance ≡ is_recreated d
      → downgrade_0005 recreates d (head_schema d) ≡ (returned tt, schema_4 d)
  unfolding downgrade_0005
  down_5 ok h =
      let batch = batch_alter_table recreates d "observations" drop_provenance in
      let restored = restore_observations d in
      run_all-next (release_policies d) (batch ∷ restored ∷ []) (head_schema d)
        (schema_5 d (before_batch d)) (release-head d ok)
      ∙ run_all-next batch (restored ∷ []) (schema_5 d (before_batch d))
          (record (schema_4 d) { triggers = after_batch d })
          (down_batch
            ∙ ap (λ ts. (returned tt, record (schema_4 d) { triggers = ts }))
                (survivors recreates d drop_provenance h))
      ∙ run_all-next restored [] (record (schema_4 d) { triggers = after_batch d }) (schema_4 d)
          (restore-before d ok)

  downgrade_base-head_schema :
      IsSupported d
      → recreates d drop_provenance ≡ is_recreated d
      → downgrade_base recreates d (head_schema d) ≡ (returned tt, empty_schema)
  unfolding downgrade_base
  downgrade_base-head_schema ok h =
      let m₃ = downgrade_0003 recreates d in
      let m₂ = downgrade_0002 recreates d in
      let m₁ = downgrade_0001 recreates d in
      let later = m₂ ∷ m₁ ∷ [] in
      run_all-next (downgrade_0005 recreates d) (downgrade_0004 ∷ m₃ ∷ later) (head_schema d)
        (schema_4 d) (down_5 ok h)
      ∙ run_all-next downgrade_0004 (m₃ ∷ later) (schema_4 d) (schema_3 d) (down_4 d ok)
      ∙ run_all-next m₃ later (schema_3 d) schema_back (down_3 recreates d ok)
      ∙ run_all-next m₂ (m₁ ∷ []) schema_back schema_first (down_2 recreates d)
      ∙ run_all-next m₁ [] schema_first empty_schema (down_1 recreates d)

  -- In SQLite and in PostgreSQL, every migration upwards from an empty database and then every
  -- migration downwards are all carried out and leave no table, no trigger and no function, when the
  -- two batches of 0005 are carried out by recreating the table in SQLite and by ALTER TABLE in
  -- PostgreSQL, however the other batches are.
  pub downgrade_base-upgrade_head :
      IsSupported d
      → recreates d provenance ≡ is_recreated d
      → recreates d drop_provenance ≡ is_recreated d
      → run_all (upgrade_head recreates d ∷ downgrade_base recreates d ∷ []) empty_schema
        ≡ (returned tt, empty_schema)
  downgrade_base-upgrade_head ok up down =
      run_all-next (upgrade_head recreates d) (downgrade_base recreates d ∷ []) empty_schema
        (head_schema d) (upgrade_head-head_schema recreates d ok up)
      ∙ run_all-next (downgrade_base recreates d) [] (head_schema d) empty_schema
          (downgrade_base-head_schema ok down)
