-- ===== src/Settings.antt =====
-- src/market_relay/config/settings.py: the configuration and its validation. Numbers that are not
-- negative; a provider's timeout is a number of microseconds, for the source has a float.
pub mod Validation
use market_relay.Prelude.{
  ℕ, ◌*◌, String, List, [], ◌∷◌, Bool, true, false, not, ◌&&◌, ◌||◌, Option, none, some,
  if◌then◌else◌, ◌==◌, nat_eq, leb, ltb, is_in, string_eq,
}
use market_relay.Governance.Credentials.{Text, codes, literal}
use market_relay.Action.{Outcome, returned, raised, value_error, ◌>>◌}
use market_relay.Consumers.{ConsumerCredential}

pub data Environment : Type 0 where
  local test production : Environment

abbrev pub environment_value : Environment → String
environment_value local = "local"
environment_value test = "test"
environment_value production = "production"

pub record ConsumerCredentialConfig : Type 0 where
  pub consumer_id : String
  pub env_var : String
  pub scopes : List String

pub record Settings : Type 0 where
  pub environment : Environment
  pub service_name : String
  pub database_url : Text
  pub enabled_sources : List String
  pub scheduler_batch_size : ℕ
  pub job_lease_seconds : ℕ
  pub waiting_publication_retry_seconds : ℕ
  pub provider_timeout : ℕ
  pub stalled_job_threshold_seconds : ℕ
  pub consumer_credentials : List ConsumerCredentialConfig

abbrev pub default_consumers : List ConsumerCredentialConfig
default_consumers =
    record {
      consumer_id = "holdria";
      env_var = "MARKET_RELAY_CONSUMER_HOLDRIA_API_KEY";
      scopes = "catalog:read" ∷ "observations:read" ∷ "operations:read" ∷ [];
    }
    ∷ record {
      consumer_id = "ops";
      env_var = "MARKET_RELAY_CONSUMER_OPS_API_KEY";
      scopes = "operations:metrics" ∷ [];
    }
    ∷ []

abbrev pub default_settings : Settings
default_settings = record {
  environment = local;
  service_name = "market-relay";
  database_url = codes "sqlite:///./market_relay.db";
  enabled_sources = "fake" ∷ [];
  scheduler_batch_size = 50;
  job_lease_seconds = 300;
  waiting_publication_retry_seconds = 3600;
  provider_timeout = 30_000_000;
  stalled_job_threshold_seconds = 3600;
  consumer_credentials = default_consumers;
}

abbrev pub error_unless : Bool → Outcome (Unit {0})
error_unless ok = if ok then returned tt else raised value_error

-- gt=0, le=most
abbrev pub in_bounds : ℕ → ℕ → Bool
in_bounds most n = ltb 0 n && leb n most

-- value.startswith(("sqlite://", "postgresql://", "postgresql+psycopg://"))
unfoldable pub is_dialect : Text → Bool
unfolding literal
is_dialect value =
    literal ◌==◌ (codes "sqlite://") value
    || (literal ◌==◌ (codes "postgresql://") value
        || literal ◌==◌ (codes "postgresql+psycopg://") value)

unfoldable pub validate_database_url : Text → Outcome (Unit {0})
unfolding is_dialect
validate_database_url value = error_unless (is_dialect value)

abbrev pub has_no_source : List String → Bool
has_no_source [] = true
has_no_source (source ∷ sources) = false

unfoldable pub validate_enabled_sources : List String → Outcome (Unit {0})
validate_enabled_sources value =
    error_unless (not (not (is_in "fake" value) && has_no_source value))

abbrev pub micros : ℕ → ℕ
micros seconds = seconds * 1_000_000

unfoldable pub validate_provider_deadline_within_lease : Settings → Outcome (Unit {0})
validate_provider_deadline_within_lease s =
    error_unless (not (leb (micros s.job_lease_seconds) s.provider_timeout))

unfoldable pub validate_fields : Settings → Outcome (Unit {0})
unfolding validate_database_url validate_enabled_sources
validate_fields s =
    validate_database_url s.database_url
    >> (validate_enabled_sources s.enabled_sources
        >> (error_unless (in_bounds 1000 s.scheduler_batch_size)
            >> (error_unless (in_bounds 86400 s.job_lease_seconds)
                >> (error_unless (in_bounds 86400 s.waiting_publication_retry_seconds)
                    >> (error_unless (in_bounds (micros 300) s.provider_timeout)
                        >> error_unless (ltb 0 s.stalled_job_threshold_seconds))))))

-- The fields first, then the validator of the whole. Which error it is is not told apart.
unfoldable pub validate : Settings → Outcome (Unit {0})
unfolding validate_fields validate_provider_deadline_within_lease
validate s = validate_fields s >> validate_provider_deadline_within_lease s

unfoldable pub is_sqlite : Settings → Bool
unfolding literal
is_sqlite s = literal ◌==◌ (codes "sqlite://") s.database_url

-- `_build_consumer_credentials` of src/market_relay/api/app.py
unfoldable pub build_consumer_credentials : List ConsumerCredentialConfig → List ConsumerCredential
build_consumer_credentials [] = []
build_consumer_credentials (entry ∷ entries) =
    record { consumer_id = entry.consumer_id; env_var = entry.env_var; scopes = entry.scopes }
    ∷ build_consumer_credentials entries
