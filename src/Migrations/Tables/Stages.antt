-- ===== src/Migrations/Tables/Stages.antt =====
-- The schemas that the migrations come to, one after the other, from an empty database.
use market_relay.Prelude.{String, List, [], ◌∷◌, ◌++◌, Bool, true, false, ◌≡◌, refl, ap, string_eq}
use market_relay.Dict.{Dict}
use market_relay.Table.{select_where}
use market_relay.Action.{returned, Action}
use market_relay.Ingestion.Runner.{resume}
use market_relay.Schemas.{
  Dialect, sqlite, postgresql, other_dialect, Alter, run_all, is_other_key, required, optional,
  Schema, TableDef, Trigger, survives,
}
use market_relay.Migrations.{
  run_columns, no_update_trigger, no_delete_trigger, append_only_trigger, policy_no_update_trigger,
  policy_no_delete_trigger, policy_append_only_trigger,
}
use market_relay.Migrations.Tables.{
  instruments_table, decisions_table, listings_table, identities_table, jobs_table,
  observations_table, idempotency_key,
}

abbrev pub empty_schema : Schema
empty_schema = record { tables = []; triggers = []; functions = [] }

-- The dialects that the migrations know.
abbrev pub IsSupported : Dialect → Type 0
IsSupported sqlite = Unit
IsSupported postgresql = Unit
IsSupported other_dialect = ⊥

-- SQLite has no ALTER TABLE that adds a constraint; PostgreSQL has one for every batch.
abbrev pub is_recreated : Dialect → Bool
is_recreated sqlite = true
is_recreated postgresql = false
is_recreated other_dialect = false

-- The triggers on the observations at the batch of 0005, and those that its batch leaves.
abbrev pub before_batch : Dialect → List Trigger
before_batch sqlite = no_update_trigger ∷ no_delete_trigger ∷ []
before_batch postgresql = append_only_trigger ∷ []
before_batch other_dialect = []

abbrev pub after_batch : Dialect → List Trigger
after_batch sqlite = []
after_batch postgresql = append_only_trigger ∷ []
after_batch other_dialect = []

abbrev functions_before : Dialect → List String
functions_before sqlite = []
functions_before postgresql = "fn_observations_append_only" ∷ []
functions_before other_dialect = []

pub survivors :
    (recreates : Dialect → List Alter → Bool) (d : Dialect) (alters : List Alter)
    → recreates d alters ≡ is_recreated d
    → select_where (survives recreates d "observations" alters) (before_batch d) ≡ after_batch d
unfolding select_where
survivors recreates sqlite alters h = rw h refl
survivors recreates postgresql alters h = rw h refl
survivors recreates other_dialect alters h = refl

-- A table of 0001 with one index.
abbrev indexed : String → String → TableDef → TableDef
indexed name column table = record table { indexes = (name, column ∷ []) ∷ [] }

abbrev pub jobs_1 : TableDef
jobs_1 = record jobs_table {
  indexes =
      ("ix_jobs_listing_id", "listing_id" ∷ [])
      ∷ ("ix_jobs_source", "source" ∷ [])
      ∷ ("ix_jobs_status", "status" ∷ [])
      ∷ [];
}

abbrev pub observations_1 : TableDef
observations_1 = indexed "ix_observations_listing_id" "listing_id" observations_table

abbrev pub observations_2 : TableDef
observations_2 = record observations_1 {
  columns = observations_table.columns ++ required "revision" ∷ [];
  constraints =
      ("fk_observations_listing_id_listings", "listing_id" ∷ [])
      ∷ ("pk_observations", "id" ∷ [])
      ∷ ("uq_observations_idempotency_key", idempotency_key ++ "revision" ∷ [])
      ∷ [];
}

abbrev pub observations_3 : TableDef
observations_3 = record observations_2 {
  columns = select_where (is_other_key "is_publishable") observations_2.columns;
}

abbrev observations_5 : TableDef
observations_5 = record observations_3 {
  columns =
      observations_3.columns
      ++ optional "retrieval_policy_decision_id" ∷ optional "storage_policy_decision_id" ∷ [];
  constraints =
      observations_3.constraints
      ++ ("fk_observations_retrieval_policy", "retrieval_policy_decision_id" ∷ [])
        ∷ ("fk_observations_storage_policy", "storage_policy_decision_id" ∷ [])
        ∷ [];
}

abbrev pub jobs_2 : TableDef
jobs_2 = record jobs_1 {
  columns = jobs_table.columns ++ required "dedupe_key" ∷ [];
  constraints = jobs_table.constraints ++ ("uq_jobs_dedupe_key", "dedupe_key" ∷ []) ∷ [];
}

abbrev pub tables_with : TableDef → TableDef → Dict String TableDef
tables_with jobs observations =
    ("instruments", instruments_table)
    ∷ (
      "source_policy_decisions",
      indexed "ix_source_policy_decisions_source" "source" decisions_table,
    )
    ∷ ("listings", indexed "ix_listings_instrument_id" "instrument_id" listings_table)
    ∷ (
      "external_identities",
      indexed "ix_external_identities_listing_id" "listing_id" identities_table,
    )
    ∷ ("jobs", jobs)
    ∷ ("observations", observations)
    ∷ []

abbrev pub schema_with : Dict String TableDef → Schema
schema_with tables = record { tables = tables; triggers = []; functions = [] }

abbrev pub schema_1 : Schema
schema_1 = schema_with (tables_with jobs_1 observations_1)

abbrev pub schema_2 : Schema
schema_2 = schema_with (tables_with jobs_2 observations_2)

abbrev pub schema_3 : Dialect → Schema
schema_3 d = record {
  tables = tables_with jobs_2 observations_3;
  triggers = before_batch d;
  functions = functions_before d;
}

abbrev runs_table : TableDef
runs_table = record {
  indexes = [];
  columns = run_columns;
  constraints = ("pk_scheduler_runs", "id" ∷ []) ∷ [];
}

abbrev pub schema_4 : Dialect → Schema
schema_4 d = record (schema_3 d) {
  tables = tables_with jobs_2 observations_3 ++ ("scheduler_runs", runs_table) ∷ [];
}

-- After the batch of 0005, with the triggers that are left.
abbrev pub schema_5 : Dialect → List Trigger → Schema
schema_5 d ts = record (schema_3 d) {
  tables = tables_with jobs_2 observations_5 ++ ("scheduler_runs", runs_table) ∷ [];
  triggers = ts;
}

abbrev head_triggers : Dialect → List Trigger
head_triggers sqlite =
    no_update_trigger ∷ no_delete_trigger ∷ policy_no_update_trigger ∷ policy_no_delete_trigger ∷ []
head_triggers postgresql = append_only_trigger ∷ policy_append_only_trigger ∷ []
head_triggers other_dialect = []

abbrev head_functions : Dialect → List String
head_functions sqlite = []
head_functions postgresql =
    "fn_observations_append_only" ∷ "fn_source_policy_decisions_append_only" ∷ []
head_functions other_dialect = []

abbrev pub head_schema : Dialect → Schema
head_schema d = record (schema_5 d (head_triggers d)) { functions = head_functions d }

pub run_all-next :
    {S : Type 0} (m : Action S (Unit {0})) (ms : List (Action S (Unit {0}))) (s t : S)
    → m s ≡ (returned tt, t)
    → run_all (m ∷ ms) s ≡ run_all ms t
run_all-next m ms s t h = ap (λ r. resume (λ _. run_all ms) r.0 r.1) h
