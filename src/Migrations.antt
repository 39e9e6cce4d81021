-- ===== src/Migrations.antt =====
-- src/market_relay/db/migrations/versions: the statements of revisions 0003 to 0005. Those of 0001 and
-- 0002 stand in Migrations/Tables.
pub mod Enforcement
pub mod Triggers
pub mod Later
pub mod Reached
pub mod Tables
pub mod Backfill
pub mod Models
pub mod Current
use market_relay.Prelude.{
  String, List, [], ◌∷◌, ◌++◌, Bool, true, false, ◌&&◌, ◌||◌, not, Option, none, some,
  if◌then◌else◌, ◌==◌, string_eq, is_in, option_beq,
}
use market_relay.Table.{select_where}
use market_relay.Dict.{Dict, get, put}
use market_relay.Action.{Outcome, returned, raised, Action, Error, runtime_error, database_error}
use market_relay.Ingestion.Runner.{and_then}
use market_relay.Schemas.{
  Alter, Dialect, Schema, TableDef, Trigger, add_column, add_key, all_in, any_of, apply_all,
  apply_alter, batch_alter_table, calls, create_constraint, create_index, create_table,
  create_trigger, drop_column, drop_constraint, drop_function, drop_index, drop_table, drop_trigger,
  has, has_function, has_name, is_named_otherwise, is_on_other, is_other, is_other_key, is_some,
  optional, other_dialect, postgresql, replace_function, required, run_all, sqlite, survives, when,
  without,
}

abbrev pub no_update_trigger : Trigger
no_update_trigger = record {
  name = "trg_observations_no_update";
  table = "observations";
  updates = true;
  deletes = false;
  function = none;
}

abbrev pub no_delete_trigger : Trigger
no_delete_trigger = record {
  name = "trg_observations_no_delete";
  table = "observations";
  updates = false;
  deletes = true;
  function = none;
}

abbrev pub append_only_trigger : Trigger
append_only_trigger = record {
  name = "trg_observations_append_only";
  table = "observations";
  updates = true;
  deletes = true;
  function = some "fn_observations_append_only";
}

abbrev pub policy_no_update_trigger : Trigger
policy_no_update_trigger = record no_update_trigger {
  name = "trg_source_policy_decisions_no_update";
  table = "source_policy_decisions";
}

abbrev pub policy_no_delete_trigger : Trigger
policy_no_delete_trigger = record no_delete_trigger {
  name = "trg_source_policy_decisions_no_delete";
  table = "source_policy_decisions";
}

abbrev pub policy_append_only_trigger : Trigger
policy_append_only_trigger = record {
  name = "trg_source_policy_decisions_append_only";
  table = "source_policy_decisions";
  updates = true;
  deletes = true;
  function = some "fn_source_policy_decisions_append_only";
}

-- After the batch of `upgrade` of 0003.
abbrev pub enforce : Dialect → Action Schema (Unit {0})
enforce sqlite = run_all (create_trigger no_update_trigger ∷ create_trigger no_delete_trigger ∷ [])
enforce postgresql =
    run_all
      (replace_function "fn_observations_append_only" ∷ create_trigger append_only_trigger ∷ [])
enforce other_dialect = λ s. (raised runtime_error, s)

abbrev release : Dialect → Action Schema (Unit {0})
release sqlite =
    run_all
      (drop_trigger "trg_observations_no_update" ∷ drop_trigger "trg_observations_no_delete" ∷ [])
release postgresql =
    run_all (
      drop_trigger "trg_observations_append_only"
      ∷ drop_function "fn_observations_append_only"
      ∷ [])
release other_dialect = λ s. (raised runtime_error, s)

abbrev pub run_columns : Dict String Bool
run_columns =
    required "id"
    ∷ required "started_at"
    ∷ optional "finished_at"
    ∷ optional "scheduler_status"
    ∷ optional "worker_status"
    ∷ optional "error_code"
    ∷ []

unfoldable pub upgrade_0004 : Action Schema (Unit {0})
unfolding create_table
upgrade_0004 = create_table "scheduler_runs" (record {
  columns = run_columns;
  constraints = ("pk_scheduler_runs", "id" ∷ []) ∷ [];
  indexes = [];
})

unfoldable pub downgrade_0004 : Action Schema (Unit {0})
unfolding drop_table
downgrade_0004 = drop_table "scheduler_runs"

-- After the batch of `upgrade` of 0005.
abbrev pub restore : Dialect → Action Schema (Unit {0})
restore sqlite = run_all (
    create_trigger no_update_trigger
    ∷ create_trigger no_delete_trigger
    ∷ create_trigger policy_no_update_trigger
    ∷ create_trigger policy_no_delete_trigger
    ∷ [])
restore postgresql = run_all (
    replace_function "fn_source_policy_decisions_append_only"
    ∷ create_trigger policy_append_only_trigger
    ∷ [])
restore other_dialect = run_all []

abbrev pub drop_publishable : List Alter
drop_publishable = drop_column "is_publishable" ∷ []

abbrev pub provenance : List Alter
provenance =
    add_column "retrieval_policy_decision_id" true
    ∷ add_column "storage_policy_decision_id" true
    ∷ create_constraint "fk_observations_retrieval_policy" ("retrieval_policy_decision_id" ∷ [])
    ∷ create_constraint "fk_observations_storage_policy" ("storage_policy_decision_id" ∷ [])
    ∷ []

-- The two parts of `downgrade` of 0005 around its batch.
abbrev pub release_policies : Dialect → Action Schema (Unit {0})
release_policies sqlite = run_all (
    drop_trigger "trg_source_policy_decisions_no_update"
    ∷ drop_trigger "trg_source_policy_decisions_no_delete"
    ∷ [])
release_policies postgresql = run_all (
    drop_trigger "trg_source_policy_decisions_append_only"
    ∷ drop_function "fn_source_policy_decisions_append_only"
    ∷ [])
release_policies other_dialect = run_all []

abbrev pub restore_observations : Dialect → Action Schema (Unit {0})
restore_observations sqlite =
    run_all (create_trigger no_update_trigger ∷ create_trigger no_delete_trigger ∷ [])
restore_observations postgresql = run_all []
restore_observations other_dialect = run_all []

abbrev pub drop_provenance : List Alter
drop_provenance =
    drop_constraint "fk_observations_storage_policy"
    ∷ drop_constraint "fk_observations_retrieval_policy"
    ∷ drop_column "storage_policy_decision_id"
    ∷ drop_column "retrieval_policy_decision_id"
    ∷ []

module _ (recreates : Dialect → List Alter → Bool) (d : Dialect) where
  unfoldable pub upgrade_0003 : Action Schema (Unit {0})
  unfolding batch_alter_table
  upgrade_0003 =
      run_all (batch_alter_table recreates d "observations" drop_publishable ∷ enforce d ∷ [])

  unfoldable pub downgrade_0003 : Action Schema (Unit {0})
  unfolding batch_alter_table drop_trigger drop_function
  downgrade_0003 = run_all (
      release d
      ∷ batch_alter_table recreates d "observations" (add_column "is_publishable" false ∷ [])
      ∷ [])

  unfoldable pub upgrade_0005 : Action Schema (Unit {0})
  unfolding batch_alter_table create_trigger replace_function
  upgrade_0005 = run_all (batch_alter_table recreates d "observations" provenance ∷ restore d ∷ [])

  unfoldable pub downgrade_0005 : Action Schema (Unit {0})
  unfolding batch_alter_table create_trigger drop_trigger drop_function
  downgrade_0005 = run_all (
      release_policies d
      ∷ batch_alter_table recreates d "observations" drop_provenance
      ∷ restore_observations d
      ∷ [])
