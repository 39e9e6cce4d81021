-- ===== src/Migrations/Reached.antt =====
-- Observations under every schema that the migrations from 0003 on come to.
use market_relay.Prelude.{List, Bool, false, ◌++◌, ◌≡◌}
use market_relay.Action.{returned}
use market_relay.Schemas.{Dialect, postgresql, Alter, Schema}
use market_relay.Migrations.{
  upgrade_0003, upgrade_0004, downgrade_0004, upgrade_0005, downgrade_0005,
}
use market_relay.Migrations.Enforcement.{Write, execute_all, execute_all-appends}
use market_relay.Migrations.Triggers.{create_table-Holds, drop_table-Holds, at_end}
use market_relay.Migrations.Later.{
  IsEnforced, IsEnforced-IsProtected, keeps-IsEnforced, upgrade_0003-IsEnforced,
  upgrade_0005-IsEnforced, downgrade_0005-IsEnforced,
}

module _ (recreates : Dialect → List Alter → Bool) (d : Dialect) where
  -- The schemas after 0003 was carried out on any schema, and then any of the later migrations, in any
  -- order and in both directions.
  pub data Migrated : Schema → Type 0 where
    enforced :
        (s : Schema) {t : Schema} → upgrade_0003 recreates d s ≡ (returned tt, t) → Migrated t
    runs_added :
        (s : Schema) {t : Schema} → Migrated s → upgrade_0004 s ≡ (returned tt, t) → Migrated t
    runs_dropped :
        (s : Schema) {t : Schema} → Migrated s → downgrade_0004 s ≡ (returned tt, t) → Migrated t
    provenance_added :
        (s : Schema) {t : Schema}
        → Migrated s
        → upgrade_0005 recreates d s ≡ (returned tt, t)
        → Migrated t
    provenance_dropped :
        (s : Schema) {t : Schema}
        → Migrated s
        → downgrade_0005 recreates d s ≡ (returned tt, t)
        → Migrated t

upgrade_0004-IsEnforced :
    (d : Dialect) (s t : Schema)
    → upgrade_0004 s ≡ (returned tt, t)
    → IsEnforced d s
    → IsEnforced d t
unfolding upgrade_0004
upgrade_0004-IsEnforced d s t h =
    keeps-IsEnforced d s t
      λ q apart own. at_end q upgrade_0004 s t h (create_table-Holds q "scheduler_runs" _ s own)

downgrade_0004-IsEnforced :
    (d : Dialect) (s t : Schema)
    → downgrade_0004 s ≡ (returned tt, t)
    → IsEnforced d s
    → IsEnforced d t
unfolding downgrade_0004
downgrade_0004-IsEnforced d s t h =
    keeps-IsEnforced d s t
      λ q apart own. at_end q downgrade_0004 s t h (drop_table-Holds q "scheduler_runs" s apart own)

module _ (recreates : Dialect → List Alter → Bool)
    (alters_in_place : (alters : List Alter) → recreates postgresql alters ≡ false)
    (d : Dialect) where
  Migrated-IsEnforced : {t : Schema} → Migrated recreates d t → IsEnforced d t
  Migrated-IsEnforced (Migrated.enforced s h) =
      upgrade_0003-IsEnforced recreates alters_in_place d _ _ h
  Migrated-IsEnforced (Migrated.runs_added s before h) =
      upgrade_0004-IsEnforced d _ _ h (Migrated-IsEnforced before)
  Migrated-IsEnforced (Migrated.runs_dropped s before h) =
      downgrade_0004-IsEnforced d _ _ h (Migrated-IsEnforced before)
  Migrated-IsEnforced (Migrated.provenance_added s before h) =
      upgrade_0005-IsEnforced recreates alters_in_place d _ _ h (Migrated-IsEnforced before)
  Migrated-IsEnforced (Migrated.provenance_dropped s before h) =
      downgrade_0005-IsEnforced recreates alters_in_place d _ _ h (Migrated-IsEnforced before)

  -- Once 0003 has been carried out, on any schema and in either dialect, and whichever of the later
  -- migrations were carried out after it, upwards or downwards, no sequence of INSERT, UPDATE and
  -- DELETE statements on the observations changes, removes or reorders a row: the rows before it are
  -- the first rows after it. Batches on PostgreSQL are carried out by
  -- ALTER TABLE; on SQLite each may recreate its table or not.
  pub Migrated-append_only :
      {A : Type 0} (t : Schema) (writes : List (Write A)) (rows : List A)
      → Migrated recreates d t
      → (extra : List A) × (execute_all t "observations" writes rows ≡ rows ++ extra)
  Migrated-append_only t writes rows path =
      execute_all-appends t "observations" (IsEnforced-IsProtected d t (Migrated-IsEnforced path))
        writes rows
