-- ===== src/Consumers/Rejections.antt =====
-- What a request that is not let through meets.
use market_relay.Prelude.{
  String, List, [], ◌∷◌, ◌++◌, false, Option, none, some, ◌≡◌, refl, arith, Option-cases, inl, inr,
  ◌⊎◌, nat_eq, ap,
}
use market_relay.Governance.Credentials.{Text, resolve}
use market_relay.Action.{Outcome, returned, raised, type_error, ◌>>=◌}
use market_relay.Consumers.{
  ConsumerCredential, ConsumerIdentity, credential_reference, match_each, authenticate,
  compare_digest, is_ascii, authorize, require_scope, handled, bearer_prefix,
}

-- One of the credentials has a secret in the environment.
abbrev pub HasSecret : (String → Option Text) → List ConsumerCredential → Type 0
HasSecret environ [] = ⊥
HasSecret environ (c ∷ cs) =
    ((secret : Text) × (resolve environ (credential_reference c) ≡ some secret))
    ⊎ HasSecret environ cs

match_each-non_ascii :
    (environ : String → Option Text) (key : Text) (matched : Option ConsumerIdentity)
    (credentials : List ConsumerCredential)
    → is_ascii key ≡ false
    → HasSecret environ credentials
    → match_each environ key matched credentials ≡ raised type_error
unfolding match_each compare_digest
match_each-non_ascii environ key matched [] h s = absurd s
match_each-non_ascii environ key matched (c ∷ cs) h (inl (secret, e)) =
    rw (e, match_each) (ground (arith, h))
match_each-non_ascii environ key matched (c ∷ cs) h (inr later) =
    elim (Option-cases (resolve environ (credential_reference c))) [
      | inl n ↦ rw (n, match_each) (match_each-non_ascii environ key matched cs h later)
      | inr (secret, e) ↦ rw (e, match_each) (ground (arith, h))
    ]

authenticate-non_ascii :
    (environ : String → Option Text) (credentials : List ConsumerCredential) (key : Text)
    → is_ascii key ≡ false
    → HasSecret environ credentials
    → authenticate environ credentials (some key) ≡ raised type_error
unfolding authenticate is_ascii
authenticate-non_ascii environ credentials [] h s = cc
authenticate-non_ascii environ credentials (c ∷ key) h s =
    rw (match_each-non_ascii environ (c ∷ key) none credentials h s) refl

-- A bearer token with a character outside ASCII is not answered with the generic 401: as soon as
-- one credential has a secret in the environment, the guard raises a `TypeError` that no handler
-- of the guard catches, whatever the scope.
pub require_scope-non_ascii :
    (environ : String → Option Text) (credentials : List ConsumerCredential) (scope : String)
    (key : Text)
    → is_ascii key ≡ false
    → HasSecret environ credentials
    → require_scope environ credentials scope (some (bearer_prefix ++ key)) ≡ raised type_error
unfolding require_scope
require_scope-non_ascii environ credentials scope key h s =
    ap
      (λ (r : Outcome ConsumerIdentity).
        handled (r >>= λ identity. authorize identity scope >>= λ done. returned identity))
      (authenticate-non_ascii environ credentials key h s)
