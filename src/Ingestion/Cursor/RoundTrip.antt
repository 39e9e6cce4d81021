-- ===== src/Ingestion/Cursor/RoundTrip.antt =====
-- Cursors as text and back.
use market_relay.Prelude.{
  String, false, Option, none, some, ◌≡◌, refl, ◌==◌, string_eq, ap, ◌∙◌, subst, Bool-cases, inl,
  inr, ◌⊎◌,
}
use market_relay.Observations.Models.{ObservationType, eod_close, nav}
use market_relay.Dict.{Dict, get}
use market_relay.Action.{Outcome, Outcome-cases, ◌>>=◌, returned, raised, invalid_cursor}
use market_relay.Ingestion.Cursor.{
  FetchCursor, Codec, Loaded, loaded_object, loaded_other, loaded_error, or_malformed, read_loaded,
  payload_of, serialize, parse, read_payload, observation_type_of, observation_type_value,
}

-- What Python documents of `json` and of `date.isoformat`, at one cursor: the text of an object is
-- not empty, loading it gives an object with the same value under each key, and the ISO form of a
-- date is read as that date.
pub record IsFaithful (codec : Codec) (c : FetchCursor) : Type 0 where
  pub text : (codec.dumps (payload_of codec c) == "") ≡ false
  pub object :
      (payload : Dict String String) × (codec.loads (codec.dumps (payload_of codec c))
        ≡ loaded_object payload)
      × ((k : String) → get k payload ≡ get k (payload_of codec c))
  pub first : codec.fromisoformat (codec.isoformat c.start) ≡ some c.start
  pub last : codec.fromisoformat (codec.isoformat c.«end») ≡ some c.«end»

type_value-read : (t : ObservationType) → observation_type_of (observation_type_value t) ≡ some t
unfolding observation_type_of
type_value-read eod_close = refl
type_value-read nav = refl

-- A cursor that was serialized is parsed as the same cursor, where JSON and ISO dates give back what
-- they were given.
pub parse-serialize :
    (codec : Codec) (c : FetchCursor)
    → IsFaithful codec c
    → parse codec (some (serialize codec c)) ≡ returned c
unfolding parse serialize get
parse-serialize codec c h =
    let (payload, loaded, same) = h.object in
    rw
      (
        h.text,
        loaded,
        same "external_listing_id",
        same "credential_scope",
        same "observation_type",
        type_value-read c.observation_type,
        same "start",
        h.first,
        same "end",
        h.last,
      )
      refl

-- The only exception of a computation is `InvalidCursorError`.
abbrev RaisesInvalid {ℓ} : {A : Type ℓ} → Outcome A → Type 0
RaisesInvalid (returned a) = Unit
RaisesInvalid (raised e) = e ≡ invalid_cursor

then_RaisesInvalid {ℓ κ} :
    {A : Type ℓ} {B : Type κ} (o : Option A) (f : A → Outcome B)
    → ((a : A) → RaisesInvalid (f a))
    → RaisesInvalid (or_malformed o >>= f)
then_RaisesInvalid none f h = refl
then_RaisesInvalid (some a) f h = h a

read_payload-RaisesInvalid :
    (codec : Codec) (payload : Dict String String) → RaisesInvalid (read_payload codec payload)
unfolding read_payload
read_payload-RaisesInvalid codec payload =
    then_RaisesInvalid (get "external_listing_id" payload) _ λ external_listing_id.
      then_RaisesInvalid (get "credential_scope" payload) _ λ credential_scope.
        then_RaisesInvalid (get "observation_type" payload) _ λ type_value.
          then_RaisesInvalid (observation_type_of type_value) _ λ observation_type.
            then_RaisesInvalid (get "start" payload) _ λ start_value.
              then_RaisesInvalid (codec.fromisoformat start_value) _ λ start.
                then_RaisesInvalid (get "end" payload) _
                  λ end_value. then_RaisesInvalid (codec.fromisoformat end_value) _ λ last. tt

parse-RaisesInvalid : (codec : Codec) (raw : Option String) → RaisesInvalid (parse codec raw)
unfolding parse
parse-RaisesInvalid codec none = refl
parse-RaisesInvalid codec (some raw) = elim (Bool-cases (raw == "")) [
  | inl e ↦ rw (e, parse) refl
  | inr e ↦ rw (e, parse) (loaded (codec.loads raw))
]
  where
    loaded : (l : Loaded) → RaisesInvalid (read_loaded codec l)
    loaded (loaded_object payload) = read_payload-RaisesInvalid codec payload
    loaded loaded_other = refl
    loaded loaded_error = refl

-- Whatever text a job carries, parsing it gives a cursor or raises `InvalidCursorError`.
pub parse-cases :
    (codec : Codec) (raw : Option String)
    → ((c : FetchCursor) × (parse codec raw ≡ returned c))
      ⊎ (parse codec raw ≡ raised invalid_cursor)
parse-cases codec raw = elim (Outcome-cases (parse codec raw)) [
  | inl found ↦ inl found
  | inr (e, h) ↦ inr (h ∙ ap raised (subst RaisesInvalid h (parse-RaisesInvalid codec raw)))
]
