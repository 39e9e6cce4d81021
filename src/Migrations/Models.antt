-- ===== src/Migrations/Models.antt =====
-- The columns, unique constraints and indexes that the models name: domain/catalog/models.py, domain/governance/models.py and
-- domain/observations/models.py, with the mixins of db/base.py.
use market_relay.Prelude.{String, List, [], ◌∷◌, ◌++◌, Bool, string_eq}
use market_relay.Dict.{Dict}
use market_relay.Schemas.{required, optional}

abbrev id_column : Dict String Bool
id_column = required "id" ∷ []

abbrev timestamp_columns : Dict String Bool
timestamp_columns = required "created_at" ∷ required "updated_at" ∷ []

abbrev instrument_columns : Dict String Bool
instrument_columns =
    id_column
    ++ required "asset_class"
      ∷ required "name"
      ∷ optional "isin"
      ∷ optional "figi"
      ∷ timestamp_columns

abbrev listing_columns : Dict String Bool
listing_columns =
    id_column
    ++ required "instrument_id"
      ∷ optional "mic"
      ∷ required "venue"
      ∷ required "ticker"
      ∷ required "currency"
      ∷ timestamp_columns

abbrev external_identity_columns : Dict String Bool
external_identity_columns =
    id_column
    ++ required "listing_id"
      ∷ required "source"
      ∷ required "external_id"
      ∷ required "valid_from"
      ∷ optional "valid_to"
      ∷ timestamp_columns

abbrev policy_decision_columns : Dict String Bool
policy_decision_columns =
    id_column
    ++ required "source"
      ∷ required "capability"
      ∷ required "version"
      ∷ required "status"
      ∷ required "evidence_reference"
      ∷ required "reviewed_by"
      ∷ required "reviewed_at"
      ∷ optional "notes"
      ∷ required "created_at"
      ∷ []

abbrev observation_columns : Dict String Bool
observation_columns =
    id_column
    ++ required "listing_id"
      ∷ required "source"
      ∷ required "credential_scope"
      ∷ required "external_listing_id"
      ∷ required "session_date"
      ∷ required "observation_type"
      ∷ required "revision"
      ∷ required "currency"
      ∷ required "close"
      ∷ optional "open"
      ∷ optional "high"
      ∷ optional "low"
      ∷ optional "adjusted_close"
      ∷ required "quality_status"
      ∷ required "retrieved_at"
      ∷ optional "retrieval_policy_decision_id"
      ∷ optional "storage_policy_decision_id"
      ∷ required "created_at"
      ∷ []

abbrev job_columns : Dict String Bool
job_columns =
    id_column
    ++ required "job_type"
      ∷ required "dedupe_key"
      ∷ required "source"
      ∷ optional "listing_id"
      ∷ required "status"
      ∷ optional "cursor"
      ∷ required "attempt_count"
      ∷ required "max_attempts"
      ∷ required "next_run_at"
      ∷ optional "claimed_by"
      ∷ optional "claimed_at"
      ∷ required "generation"
      ∷ optional "last_error"
      ∷ required "created_at"
      ∷ required "updated_at"
      ∷ []

abbrev scheduler_run_columns : Dict String Bool
scheduler_run_columns =
    id_column
    ++ required "started_at"
      ∷ optional "finished_at"
      ∷ optional "scheduler_status"
      ∷ optional "worker_status"
      ∷ optional "error_code"
      ∷ []

-- `Base.metadata`
abbrev pub metadata : Dict String (Dict String Bool)
metadata =
    ("instruments", instrument_columns)
    ∷ ("listings", listing_columns)
    ∷ ("external_identities", external_identity_columns)
    ∷ ("source_policy_decisions", policy_decision_columns)
    ∷ ("observations", observation_columns)
    ∷ ("jobs", job_columns)
    ∷ ("scheduler_runs", scheduler_run_columns)
    ∷ []

-- The unique constraints of the models, and the check of ExternalIdentity by its columns, under the
-- names that the naming convention gives them.
abbrev listing_constraints : Dict String (List String)
listing_constraints =
    ("uq_listings_venue_ticker_ccy", "instrument_id" ∷ "venue" ∷ "ticker" ∷ "currency" ∷ []) ∷ []

abbrev external_identity_constraints : Dict String (List String)
external_identity_constraints =
    ("uq_external_identities_source_ext_from", "source" ∷ "external_id" ∷ "valid_from" ∷ [])
    ∷ ("ck_external_identities_valid_to_after_valid_from", "valid_to" ∷ "valid_from" ∷ [])
    ∷ []

abbrev policy_decision_constraints : Dict String (List String)
policy_decision_constraints =
    ("uq_source_policy_source_cap_version", "source" ∷ "capability" ∷ "version" ∷ []) ∷ []

abbrev observation_constraints : Dict String (List String)
observation_constraints =
    (
      "uq_observations_idempotency_key",
      "source" ∷ "credential_scope" ∷ "external_listing_id" ∷ "session_date" ∷ "observation_type"
          ∷ "revision" ∷ [],
    )
    ∷ []

abbrev pub metadata_constraints : Dict String (Dict String (List String))
metadata_constraints =
    ("instruments", ("uq_instruments_isin", "isin" ∷ []) ∷ [])
    ∷ ("listings", listing_constraints)
    ∷ ("external_identities", external_identity_constraints)
    ∷ ("source_policy_decisions", policy_decision_constraints)
    ∷ ("observations", observation_constraints)
    ∷ ("jobs", ("uq_jobs_dedupe_key", "dedupe_key" ∷ []) ∷ [])
    ∷ []

-- The columns with `index=True`.
abbrev pub metadata_indexes : Dict String (List String)
metadata_indexes =
    ("listings", "instrument_id" ∷ [])
    ∷ ("external_identities", "listing_id" ∷ [])
    ∷ ("source_policy_decisions", "source" ∷ [])
    ∷ ("observations", "listing_id" ∷ [])
    ∷ ("jobs", "source" ∷ "listing_id" ∷ "status" ∷ [])
    ∷ []
