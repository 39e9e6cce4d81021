-- ===== src/Observations/Store.antt =====
-- src/market_relay/domain/observations/service.py: the append-only store of observations. What
-- other processes commit between the read and the insertion of each attempt is an argument, a list
-- of rows for each attempt; past its end nobody else writes.
pub mod Recording
pub mod Repeats
pub mod Races
use Prim.Native.Nat.{◌/◌, ◌^◌}
use market_relay.Prelude.{
  ℕ, zero, suc, ◌+◌, ◌-◌, String, List, [], ◌∷◌, ◌++◌, map, Bool, true, false, ◌&&◌, Option, none,
  some, if◌then◌else◌, ◌==◌, nat_eq, string_eq, leb,
}
use market_relay.Table.{select_where, count_where, latest_by, max_of, next_of}
use market_relay.Governance.Credentials.{Text}
use market_relay.Decimals.{Decimal, finite, infinity, nan, decimal_beq, option_decimal_beq}
use market_relay.Action.{Outcome, returned, raised, revision_race_exhausted, Action}
use market_relay.Observations.Models.{
  Observation, ObservationInput, ObservationType, observation_type_eq, quality_eq,
}

abbrev pub Observations : Type 0
Observations = List Observation

-- The natural key.
pub record Key : Type 0 where
  pub source : String
  pub credential_scope : String
  pub external_listing_id : String
  pub session_date : ℕ
  pub observation_type : ObservationType

abbrev pub key_of_input : ObservationInput → Key
key_of_input d = record {
  source = d.source;
  credential_scope = d.credential_scope;
  external_listing_id = d.external_listing_id;
  session_date = d.session_date;
  observation_type = d.observation_type;
}

abbrev pub has_key : Key → Observation → Bool
has_key k row =
    row.source == k.source
    && (row.credential_scope == k.credential_scope
        && (row.external_listing_id == k.external_listing_id
            && (row.session_date == k.session_date && row.observation_type == k.observation_type)))

abbrev pub revision_of : Observation → ℕ
revision_of row = row.revision

unfoldable pub current_for_key : Key → Observations → Option Observation
unfolding latest_by select_where
current_for_key k rows = latest_by revision_of (select_where (has_key k) rows)

-- `str.upper` on the letters that currency codes are made of.
abbrev pub upper_point : ℕ → ℕ
upper_point c = if leb b'a' c && leb c b'z' then c - 32 else c

unfoldable pub upper : Text → Text
upper = map upper_point

abbrev pub text_beq : Text → Text → Bool
text_beq [] [] = true
text_beq [] (d ∷ u) = false
text_beq (c ∷ t) [] = false
text_beq (c ∷ t) (d ∷ u) = c == d && text_beq t u

unfoldable pub same_value : Observation → ObservationInput → Bool
same_value existing data' =
    text_beq existing.currency (upper data'.currency)
    && (decimal_beq existing.close data'.close
        && (option_decimal_beq existing.«open» data'.«open»
            && (option_decimal_beq existing.high data'.high
                && (option_decimal_beq existing.low data'.low
                    && (option_decimal_beq existing.adjusted_close data'.adjusted_close
                        && existing.quality_status == data'.quality_status)))))

abbrev pub next_revision : Option Observation → ℕ
next_revision none = 1
next_revision (some row) = row.revision + 1

-- A column `Numeric(20, 8)`: the value is rounded to eight decimals, away from zero at the half.
abbrev pub to_numeric : Decimal → Decimal
to_numeric (finite m c s) =
    if leb s 8 then finite m c s else finite m ((c + 10 ^ (s - 8) / 2) / 10 ^ (s - 8)) 8
to_numeric (infinity m) = infinity m
to_numeric nan = nan

abbrev pub option_to_numeric : Option Decimal → Option Decimal
option_to_numeric none = none
option_to_numeric (some p) = some (to_numeric p)

-- The row as it is stored.
unfoldable pub candidate : ℕ → ℕ → ℕ → ObservationInput → Observation
unfolding upper
candidate uuid utcnow revision d = record {
  id = uuid;
  listing_id = d.listing_id;
  source = d.source;
  credential_scope = d.credential_scope;
  external_listing_id = d.external_listing_id;
  session_date = d.session_date;
  observation_type = d.observation_type;
  revision = revision;
  currency = upper d.currency;
  close = to_numeric d.close;
  «open» = option_to_numeric d.«open»;
  high = option_to_numeric d.high;
  low = option_to_numeric d.low;
  adjusted_close = option_to_numeric d.adjusted_close;
  quality_status = d.quality_status;
  retrieved_at = d.retrieved_at;
  retrieval_policy_decision_id = d.retrieval_policy_decision_id;
  storage_policy_decision_id = d.storage_policy_decision_id;
  created_at = utcnow;
}

pub record RecordOutcome : Type 0 where
  pub observation : Observation
  pub created : Bool
  pub is_correction : Bool

abbrev pub is_some {ℓ} : {A : Type ℓ} → Option A → Bool
is_some none = false
is_some (some a) = true

abbrev pub is_current : Option Observation → ObservationInput → Option Observation
is_current none d = none
is_current (some row) d = if same_value row d then some row else none

-- The unique constraint `uq_observations_idempotency_key`. The rows that the foreign keys refer to are
-- there, so that an IntegrityError says this.
unfoldable pub taken : Key → ℕ → Observations → Bool
unfolding count_where
taken k revision rows = leb 1 (count_where (λ row. has_key k row && row.revision == revision) rows)

abbrev pub interference : List Observations → Observations
interference [] = []
interference (rows ∷ later) = rows

abbrev pub later_interference : List Observations → List Observations
later_interference [] = []
later_interference (rows ∷ later) = later

unfoldable pub record_attempts :
    ℕ → List Observations → ℕ → ℕ → ObservationInput → Action Observations RecordOutcome
record_attempts zero others uuid utcnow d rows = (raised revision_race_exhausted, rows)
record_attempts (suc attempts) others uuid utcnow d rows =
    let k = key_of_input d in
    let current = current_for_key k rows in
    elim (is_current current d) [
      | some row ↦
          (returned (record { observation = row; created = false; is_correction = false }), rows)
      | none ↦
          let new_row = candidate uuid utcnow (next_revision current) d in
          let rows' = rows ++ interference others in
          elim (taken k (next_revision current) rows') [
            | true ↦ record_attempts attempts (later_interference others) uuid utcnow d rows'
            | false ↦ (
              returned (record {
                observation = new_row;
                created = true;
                is_correction = is_some current;
              }),
              rows' ++ new_row ∷ [],
            )
          ]
    ]

abbrev pub max_revision_attempts : ℕ
max_revision_attempts = 8

unfoldable pub record_observation :
    List Observations → ℕ → ℕ → ObservationInput → Action Observations RecordOutcome
unfolding record_attempts
record_observation others uuid utcnow d = record_attempts max_revision_attempts others uuid utcnow d

-- The listing's key without the date, of `last_completed_session`.
abbrev pub is_series : String → String → String → ObservationType → Observation → Bool
is_series source scope external_id type row =
    row.source == source
    && (row.credential_scope == scope
        && (row.external_listing_id == external_id && row.observation_type == type))

abbrev pub session_of : Observation → ℕ
session_of row = row.session_date

unfoldable pub last_completed_session :
    String → String → String → ObservationType → Observations → Option ℕ
unfolding max_of select_where
last_completed_session source scope external_id type rows =
    max_of session_of (select_where (is_series source scope external_id type) rows)
