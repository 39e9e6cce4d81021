-- ===== src/Migrations/Tables.antt =====
-- Migrations 0001 and 0002, and all of them one after the other.
pub mod Stages
pub mod Head
pub mod Base
use market_relay.Prelude.{String, List, [], ◌∷◌, ◌++◌, Bool, false}
use market_relay.Action.{Action}
use market_relay.Dict.{Dict}
use market_relay.Schemas.{
  Dialect, Alter, add_column, drop_column, create_constraint, drop_constraint, create_index,
  drop_index, required, optional, Schema, TableDef, run_all, create_table, drop_table,
  batch_alter_table,
}
use market_relay.Migrations.{
  upgrade_0003, upgrade_0004, upgrade_0005, downgrade_0003, downgrade_0004, downgrade_0005,
}

abbrev stamps : Dict String Bool
stamps = required "created_at" ∷ required "updated_at" ∷ []

abbrev pub instruments_table : TableDef
instruments_table = record {
  columns =
      required "id"
      ∷ required "asset_class"
      ∷ required "name"
      ∷ optional "isin"
      ∷ optional "figi"
      ∷ stamps;
  constraints = ("pk_instruments", "id" ∷ []) ∷ ("uq_instruments_isin", "isin" ∷ []) ∷ [];
  indexes = [];
}

abbrev pub decisions_table : TableDef
decisions_table = record {
  columns =
      required "id"
      ∷ required "source"
      ∷ required "capability"
      ∷ required "version"
      ∷ required "status"
      ∷ required "evidence_reference"
      ∷ required "reviewed_by"
      ∷ required "reviewed_at"
      ∷ optional "notes"
      ∷ required "created_at"
      ∷ [];
  constraints =
      ("pk_source_policy_decisions", "id" ∷ [])
      ∷ ("uq_source_policy_source_cap_version", "source" ∷ "capability" ∷ "version" ∷ [])
      ∷ [];
  indexes = [];
}

abbrev pub listings_table : TableDef
listings_table = record {
  columns =
      required "id"
      ∷ required "instrument_id"
      ∷ optional "mic"
      ∷ required "venue"
      ∷ required "ticker"
      ∷ required "currency"
      ∷ stamps;
  constraints =
      ("fk_listings_instrument_id_instruments", "instrument_id" ∷ [])
      ∷ ("pk_listings", "id" ∷ [])
      ∷ ("uq_listings_venue_ticker_ccy", "instrument_id" ∷ "venue" ∷ "ticker" ∷ "currency" ∷ [])
      ∷ [];
  indexes = [];
}

abbrev pub identities_table : TableDef
identities_table = record {
  columns =
      required "id"
      ∷ required "listing_id"
      ∷ required "source"
      ∷ required "external_id"
      ∷ required "valid_from"
      ∷ optional "valid_to"
      ∷ stamps;
  constraints =
      ("ck_external_identities_valid_to_after_valid_from", "valid_to" ∷ "valid_from" ∷ [])
      ∷ ("fk_external_identities_listing_id_listings", "listing_id" ∷ [])
      ∷ ("pk_external_identities", "id" ∷ [])
      ∷ ("uq_external_identities_source_ext_from", "source" ∷ "external_id" ∷ "valid_from" ∷ [])
      ∷ [];
  indexes = [];
}

abbrev pub jobs_table : TableDef
jobs_table = record {
  columns =
      required "id"
      ∷ required "job_type"
      ∷ required "source"
      ∷ optional "listing_id"
      ∷ required "status"
      ∷ optional "cursor"
      ∷ required "attempt_count"
      ∷ required "max_attempts"
      ∷ required "next_run_at"
      ∷ optional "claimed_by"
      ∷ optional "claimed_at"
      ∷ required "generation"
      ∷ optional "last_error"
      ∷ stamps;
  constraints = ("fk_jobs_listing_id_listings", "listing_id" ∷ []) ∷ ("pk_jobs", "id" ∷ []) ∷ [];
  indexes = [];
}

abbrev pub idempotency_key : List String
idempotency_key =
    "source" ∷ "credential_scope" ∷ "external_listing_id" ∷ "session_date" ∷ "observation_type" ∷ []

abbrev pub observations_table : TableDef
observations_table = record {
  columns =
      required "id"
      ∷ required "listing_id"
      ∷ required "source"
      ∷ required "credential_scope"
      ∷ required "external_listing_id"
      ∷ required "session_date"
      ∷ required "observation_type"
      ∷ required "currency"
      ∷ required "close"
      ∷ optional "open"
      ∷ optional "high"
      ∷ optional "low"
      ∷ optional "adjusted_close"
      ∷ required "quality_status"
      ∷ required "retrieved_at"
      ∷ required "is_publishable"
      ∷ required "created_at"
      ∷ [];
  constraints =
      ("fk_observations_listing_id_listings", "listing_id" ∷ [])
      ∷ ("pk_observations", "id" ∷ [])
      ∷ ("uq_observations_idempotency_key", idempotency_key)
      ∷ [];
  indexes = [];
}

abbrev pub revisions : List Alter
revisions =
    drop_constraint "uq_observations_idempotency_key"
    ∷ add_column "revision" false
    ∷ create_constraint "uq_observations_idempotency_key" (idempotency_key ++ "revision" ∷ [])
    ∷ []

-- The batches of 0001 on a table: its indexes.
abbrev job_indexes : List Alter
job_indexes =
    create_index "ix_jobs_listing_id" ("listing_id" ∷ [])
    ∷ create_index "ix_jobs_source" ("source" ∷ [])
    ∷ create_index "ix_jobs_status" ("status" ∷ [])
    ∷ []

abbrev drop_job_indexes : List Alter
drop_job_indexes =
    drop_index "ix_jobs_status" ∷ drop_index "ix_jobs_source" ∷ drop_index "ix_jobs_listing_id" ∷ []

module _ (recreates : Dialect → List Alter → Bool) (d : Dialect) where
  unfoldable pub upgrade_0001 : Action Schema (Unit {0})
  unfolding create_table batch_alter_table
  upgrade_0001 = run_all (
      create_table "instruments" instruments_table
      ∷ create_table "source_policy_decisions" decisions_table
      ∷ batch_alter_table recreates d "source_policy_decisions"
          (create_index "ix_source_policy_decisions_source" ("source" ∷ []) ∷ [])
      ∷ create_table "listings" listings_table
      ∷ batch_alter_table recreates d "listings"
          (create_index "ix_listings_instrument_id" ("instrument_id" ∷ []) ∷ [])
      ∷ create_table "external_identities" identities_table
      ∷ batch_alter_table recreates d "external_identities"
          (create_index "ix_external_identities_listing_id" ("listing_id" ∷ []) ∷ [])
      ∷ create_table "jobs" jobs_table
      ∷ batch_alter_table recreates d "jobs" job_indexes
      ∷ create_table "observations" observations_table
      ∷ batch_alter_table recreates d "observations"
          (create_index "ix_observations_listing_id" ("listing_id" ∷ []) ∷ [])
      ∷ [])

  unfoldable pub downgrade_0001 : Action Schema (Unit {0})
  unfolding drop_table batch_alter_table
  downgrade_0001 = run_all (
      batch_alter_table recreates d "observations" (drop_index "ix_observations_listing_id" ∷ [])
      ∷ drop_table "observations"
      ∷ batch_alter_table recreates d "jobs" drop_job_indexes
      ∷ drop_table "jobs"
      ∷ batch_alter_table recreates d "external_identities"
          (drop_index "ix_external_identities_listing_id" ∷ [])
      ∷ drop_table "external_identities"
      ∷ batch_alter_table recreates d "listings" (drop_index "ix_listings_instrument_id" ∷ [])
      ∷ drop_table "listings"
      ∷ batch_alter_table recreates d "source_policy_decisions"
          (drop_index "ix_source_policy_decisions_source" ∷ [])
      ∷ drop_table "source_policy_decisions"
      ∷ drop_table "instruments"
      ∷ [])

  -- Its rewriting of rows stands in Migrations/Backfill.
  unfoldable pub upgrade_0002 : Action Schema (Unit {0})
  unfolding batch_alter_table
  upgrade_0002 = run_all (
      batch_alter_table recreates d "observations" revisions
      ∷ batch_alter_table recreates d "jobs" (add_column "dedupe_key" false ∷ [])
      ∷ batch_alter_table recreates d "jobs"
          (create_constraint "uq_jobs_dedupe_key" ("dedupe_key" ∷ []) ∷ [])
      ∷ [])

  unfoldable pub downgrade_0002 : Action Schema (Unit {0})
  unfolding batch_alter_table
  downgrade_0002 = run_all (
      batch_alter_table recreates d "jobs"
        (drop_constraint "uq_jobs_dedupe_key" ∷ drop_column "dedupe_key" ∷ [])
      ∷ batch_alter_table recreates d "observations" (
          drop_constraint "uq_observations_idempotency_key"
          ∷ drop_column "revision"
          ∷ create_constraint "uq_observations_idempotency_key" idempotency_key
          ∷ [])
      ∷ [])

  -- `alembic upgrade head`
  unfoldable pub upgrade_head : Action Schema (Unit {0})
  unfolding upgrade_0001 upgrade_0002 upgrade_0003 upgrade_0004 upgrade_0005
  upgrade_head = run_all (
      upgrade_0001
      ∷ upgrade_0002
      ∷ upgrade_0003 recreates d
      ∷ upgrade_0004
      ∷ upgrade_0005 recreates d
      ∷ [])

  -- `alembic downgrade base`
  unfoldable pub downgrade_base : Action Schema (Unit {0})
  unfolding downgrade_0001 downgrade_0002 downgrade_0003 downgrade_0004 downgrade_0005
  downgrade_base = run_all (
      downgrade_0005 recreates d
      ∷ downgrade_0004
      ∷ downgrade_0003 recreates d
      ∷ downgrade_0002
      ∷ downgrade_0001
      ∷ [])
