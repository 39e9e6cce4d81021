-- ===== src/Ingestion/Cursor.antt =====
-- src/market_relay/domain/ingestion/cursor.py: the cursor that a job carries. JSON and the ISO form
-- of dates are Python's, and stand as parameters. Values of the JSON object that are no strings are
-- not modelled.
pub mod RoundTrip
use market_relay.Prelude.{
  ℕ, String, List, [], ◌∷◌, Option, none, some, ◌==◌, string_eq, if◌then◌else◌,
}
use market_relay.Dict.{Dict, get}
use market_relay.Action.{Outcome, returned, raised, invalid_cursor, ◌>>=◌}
use market_relay.Observations.Models.{ObservationType, eod_close, nav}

pub record FetchCursor : Type 0 where
  pub external_listing_id : String
  pub credential_scope : String
  pub observation_type : ObservationType
  pub start : ℕ
  pub «end» : ℕ

-- What `json.loads` comes to: an object, another value, on which a subscript is a TypeError, or a
-- ValueError.
pub data Loaded : Type 0 where
  loaded_object : Dict String String → Loaded
  loaded_other loaded_error : Loaded

pub record Codec : Type 0 where
  pub dumps : Dict String String → String
  pub loads : String → Loaded
  pub isoformat : ℕ → String
  pub fromisoformat : String → Option ℕ

abbrev pub observation_type_value : ObservationType → String
observation_type_value eod_close = "EOD_CLOSE"
observation_type_value nav = "NAV"

-- `ObservationType(value)`, whose ValueError is `none`.
unfoldable pub observation_type_of : String → Option ObservationType
observation_type_of value =
    if value == "EOD_CLOSE" then some eod_close else if value == "NAV" then some nav else none

abbrev pub payload_of : Codec → FetchCursor → Dict String String
payload_of codec c =
    ("external_listing_id", c.external_listing_id)
    ∷ ("credential_scope", c.credential_scope)
    ∷ ("observation_type", observation_type_value c.observation_type)
    ∷ ("start", codec.isoformat c.start)
    ∷ ("end", codec.isoformat c.«end»)
    ∷ []

unfoldable pub serialize : Codec → FetchCursor → String
serialize codec c = codec.dumps (payload_of codec c)

-- A KeyError, ValueError or TypeError while the payload is read.
abbrev pub or_malformed {ℓ} : {A : Type ℓ} → Option A → Outcome A
or_malformed none = raised invalid_cursor
or_malformed (some a) = returned a

unfoldable pub read_payload : Codec → Dict String String → Outcome FetchCursor
unfolding observation_type_of get
read_payload codec payload = do
  external_listing_id ← or_malformed (get "external_listing_id" payload)
  credential_scope ← or_malformed (get "credential_scope" payload)
  type_value ← or_malformed (get "observation_type" payload)
  observation_type ← or_malformed (observation_type_of type_value)
  start_value ← or_malformed (get "start" payload)
  start ← or_malformed (codec.fromisoformat start_value)
  end_value ← or_malformed (get "end" payload)
  last ← or_malformed (codec.fromisoformat end_value)
  returned (record {
    external_listing_id = external_listing_id;
    credential_scope = credential_scope;
    observation_type = observation_type;
    start = start;
    «end» = last;
  })

abbrev pub read_loaded : Codec → Loaded → Outcome FetchCursor
read_loaded codec (loaded_object payload) = read_payload codec payload
read_loaded codec loaded_other = raised invalid_cursor
read_loaded codec loaded_error = raised invalid_cursor

unfoldable pub parse : Codec → Option String → Outcome FetchCursor
unfolding read_payload
parse codec none = raised invalid_cursor
parse codec (some raw) =
    if raw == "" then raised invalid_cursor else read_loaded codec (codec.loads raw)
