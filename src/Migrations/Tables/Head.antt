-- ===== src/Migrations/Tables/Head.antt =====
-- Every migration upwards, from an empty database.
use market_relay.Prelude.{List, [], ◌∷◌, Bool, ◌≡◌, refl, ap, ◌∙◌, string_eq}
use market_relay.Dict.{get}
use market_relay.Table.{select_where}
use market_relay.Action.{returned}
use market_relay.Schemas.{
  Dialect, sqlite, postgresql, other_dialect, Alter, Schema, survives, batch_alter_table,
  create_trigger, replace_function,
}
use market_relay.Migrations.{restore, provenance, upgrade_0003, upgrade_0004, upgrade_0005}
use market_relay.Migrations.Current.{IsCurrent}
use market_relay.Migrations.Tables.{upgrade_0001, upgrade_0002, upgrade_head}
use market_relay.Migrations.Tables.Stages.{
  empty_schema, IsSupported, is_recreated, before_batch, after_batch, survivors, schema_1, schema_2,
  schema_3, schema_4, schema_5, head_schema, run_all-next,
}

module _ (recreates : Dialect → List Alter → Bool) where
  step_1 : (d : Dialect) → upgrade_0001 recreates d empty_schema ≡ (returned tt, schema_1)
  unfolding upgrade_0001
  step_1 d = refl

  step_2 : (d : Dialect) → upgrade_0002 recreates d schema_1 ≡ (returned tt, schema_2)
  unfolding upgrade_0002
  step_2 d = refl

  step_3 :
      (d : Dialect) → IsSupported d → upgrade_0003 recreates d schema_2 ≡ (returned tt, schema_3 d)
  unfolding upgrade_0003 create_trigger replace_function
  step_3 sqlite ok = refl
  step_3 postgresql ok = refl
  step_3 other_dialect ok = absurd ok

step_4 : (d : Dialect) → upgrade_0004 (schema_3 d) ≡ (returned tt, schema_4 d)
unfolding upgrade_0004
step_4 d = refl

restore-head :
    (d : Dialect)
    → IsSupported d
    → restore d (schema_5 d (after_batch d)) ≡ (returned tt, head_schema d)
unfolding create_trigger replace_function
restore-head sqlite ok = refl
restore-head postgresql ok = refl
restore-head other_dialect ok = absurd ok

head-IsCurrent : (d : Dialect) → IsSupported d → IsCurrent (head_schema d)
unfolding get select_where
head-IsCurrent sqlite ok = (refl, refl, refl, (refl, refl), (refl, refl))
head-IsCurrent postgresql ok = (refl, refl, refl, (refl, refl), (refl, refl))
head-IsCurrent other_dialect ok = absurd ok

module _ (recreates : Dialect → List Alter → Bool) (d : Dialect) where
  batch_5 : batch_alter_table recreates d "observations" provenance (schema_4 d) ≡ (
    returned tt,
    schema_5 d (select_where (survives recreates d "observations" provenance) (before_batch d)),
  )
  unfolding batch_alter_table
  batch_5 = refl

  step_5 :
      IsSupported d
      → recreates d provenance ≡ is_recreated d
      → upgrade_0005 recreates d (schema_4 d) ≡ (returned tt, head_schema d)
  unfolding upgrade_0005
  step_5 ok h =
      run_all-next (batch_alter_table recreates d "observations" provenance) (restore d ∷ [])
        (schema_4 d) _
        (batch_5 ∙ ap (λ ts. (returned tt, schema_5 d ts)) (survivors recreates d provenance h))
      ∙ run_all-next (restore d) [] _ _ (restore-head d ok)

  pub upgrade_head-head_schema :
      IsSupported d
      → recreates d provenance ≡ is_recreated d
      → upgrade_head recreates d empty_schema ≡ (returned tt, head_schema d)
  unfolding upgrade_head
  upgrade_head-head_schema ok h =
      let m₂ = upgrade_0002 recreates d in
      let m₃ = upgrade_0003 recreates d in
      let m₅ = upgrade_0005 recreates d in
      let later = upgrade_0004 ∷ m₅ ∷ [] in
      run_all-next (upgrade_0001 recreates d) (m₂ ∷ m₃ ∷ later) empty_schema schema_1
        (step_1 recreates d)
      ∙ run_all-next m₂ (m₃ ∷ later) schema_1 schema_2 (step_2 recreates d)
      ∙ run_all-next m₃ later schema_2 (schema_3 d) (step_3 recreates d ok)
      ∙ run_all-next upgrade_0004 (m₅ ∷ []) (schema_3 d) (schema_4 d) (step_4 d)
      ∙ run_all-next m₅ [] (schema_4 d) (head_schema d) (step_5 ok h)

  -- On an empty database, in SQLite and in PostgreSQL, `alembic upgrade head` carries out every
  -- migration, when the batch of 0005 is carried out by recreating the table in SQLite and by ALTER
  -- TABLE in PostgreSQL, however the other batches are. The schema then has every table of the models,
  -- with their columns and no others and NULL allowed where they allow it, and with their unique
  -- constraints and indexes. It guards observations and policy decisions against UPDATE and DELETE.
  pub upgrade_head-IsCurrent :
      IsSupported d
      → recreates d provenance ≡ is_recreated d
      → (t : Schema) × (upgrade_head recreates d empty_schema ≡ (returned tt, t)) × IsCurrent t
  upgrade_head-IsCurrent ok h = (head_schema d, upgrade_head-head_schema ok h, head-IsCurrent d ok)
