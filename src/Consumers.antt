-- ===== src/Consumers.antt =====
-- src/market_relay/domain/governance/consumer_auth.py: who may use the API, and
-- `require_scope` of src/market_relay/api/deps.py.
pub mod Authentication
pub mod Rejections
use market_relay.Prelude.{
  ℕ, String, List, [], ◌∷◌, Bool, true, false, ◌||◌, ◌==◌, string_eq, nat_eq, Option, none, some,
  if◌then◌else◌, is_in, ltb, ◌&&◌, drop, length,
}
use Prim.Native.String.{◌++◌ as ◌<>◌}
use market_relay.Governance.Credentials.{Text, codes, literal, CredentialReference, resolve}
use market_relay.Observations.Store.{text_beq}
use market_relay.Action.{
  Outcome, returned, raised, consumer_authentication, consumer_authorization, type_error,
  http_exception, Error, ◌>>=◌,
}

pub record ConsumerCredential : Type 0 where
  pub consumer_id : String
  pub env_var : String
  pub scopes : List String

unfoldable pub credential_reference : ConsumerCredential → CredentialReference
credential_reference c = record {
  source = "consumer:" <> c.consumer_id;
  credential_scope = "api-key";
  env_var = c.env_var;
}

pub record ConsumerIdentity : Type 0 where
  pub consumer_id : String
  pub scopes : List String

unfoldable pub has_scope : ConsumerIdentity → String → Bool
has_scope identity scope = is_in scope identity.scopes

-- `hmac.compare_digest` takes texts of ASCII characters only.
unfoldable pub is_ascii : Text → Bool
is_ascii [] = true
is_ascii (c ∷ t) = ltb c 128 && is_ascii t

unfoldable pub compare_digest : Text → Text → Outcome Bool
unfolding is_ascii
compare_digest a b = if is_ascii a && is_ascii b then returned (text_beq a b) else raised type_error

abbrev pub identity_of : ConsumerCredential → ConsumerIdentity
identity_of c = record { consumer_id = c.consumer_id; scopes = c.scopes }

abbrev pub better : Option ConsumerIdentity → ConsumerCredential → Bool → Option ConsumerIdentity
better matched c same = if same then some (identity_of c) else matched

-- The loop over all the credentials: a later match replaces an earlier one. The environment is a
-- function.
unfoldable pub match_each :
    (String → Option Text)
    → Text
    → Option ConsumerIdentity
    → List ConsumerCredential
    → Outcome (Option ConsumerIdentity)
unfolding resolve credential_reference compare_digest
match_each environ key matched [] = returned matched
match_each environ key matched (c ∷ cs) = elim (resolve environ (credential_reference c)) [
  | none ↦ match_each environ key matched cs
  | some configured ↦
      compare_digest configured key >>= λ same. match_each environ key (better matched c same) cs
]

abbrev pub or_invalid : Option ConsumerIdentity → Outcome ConsumerIdentity
or_invalid none = raised consumer_authentication
or_invalid (some identity) = returned identity

unfoldable pub authenticate :
    (String → Option Text) → List ConsumerCredential → Option Text → Outcome ConsumerIdentity
unfolding match_each
authenticate environ credentials none = raised consumer_authentication
authenticate environ credentials (some []) = raised consumer_authentication
authenticate environ credentials (some (c ∷ key)) =
    match_each environ (c ∷ key) none credentials >>= or_invalid

unfoldable pub authorize : ConsumerIdentity → String → Outcome (Unit {0})
unfolding has_scope
authorize identity required_scope =
    if has_scope identity required_scope then returned tt else raised consumer_authorization

abbrev pub bearer_prefix : Text
bearer_prefix = codes "Bearer "

unfoldable pub extract_bearer_token : Option Text → Option Text
unfolding literal
extract_bearer_token none = none
extract_bearer_token (some header_value) =
    if literal ◌==◌ bearer_prefix header_value
    then some (drop (length bearer_prefix) header_value)
    else none

-- The handlers of `_dependency`.
abbrev pub as_http : Error → Error
as_http consumer_authentication = http_exception 401
as_http consumer_authorization = http_exception 403
as_http e = e

abbrev pub handled {ℓ} : {A : Type ℓ} → Outcome A → Outcome A
handled (returned a) = returned a
handled (raised e) = raised (as_http e)

unfoldable pub require_scope :
    (String → Option Text)
    → List ConsumerCredential
    → String
    → Option Text
    → Outcome ConsumerIdentity
unfolding authenticate authorize extract_bearer_token
require_scope environ credentials scope authorization = handled (
    authenticate environ credentials (extract_bearer_token authorization) >>= λ identity.
    authorize identity scope >>= λ ok. returned identity)
