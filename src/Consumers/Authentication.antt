-- ===== src/Consumers/Authentication.antt =====
-- Who is let through.
use market_relay.Prelude.{
  String, List, [], ◌∷◌, true, Option, none, some, ◌≡◌, refl, sym, ◌∙◌, arith, Bool-cases,
  Option-cases, inl, inr, ◌⊎◌, subst, ◌==◌, nat_eq, &&-true, ap, ◌&&◌,
}
use market_relay.Governance.Credentials.{Text, resolve}
use market_relay.Observations.Store.{text_beq}
use market_relay.Action.{Outcome-cases, returned, raised}
use market_relay.Consumers.{
  ConsumerCredential, ConsumerIdentity, credential_reference, identity_of, better, match_each,
  authenticate, compare_digest, is_ascii, authorize, has_scope, require_scope, extract_bearer_token,
}

-- Some credential of the list is the identity's, and its configured secret is the key.
abbrev pub IsGranted :
    (String → Option Text) → Text → List ConsumerCredential → ConsumerIdentity → Type 0
IsGranted environ key [] identity = ⊥
IsGranted environ key (c ∷ cs) identity =
    ((resolve environ (credential_reference c) ≡ some key) × (identity ≡ identity_of c))
    ⊎ IsGranted environ key cs identity

pub text_beq→≡ : (t u : Text) → text_beq t u ≡ true → t ≡ u
text_beq→≡ [] [] h = refl
text_beq→≡ [] (d ∷ u) h = cc
text_beq→≡ (c ∷ t) [] h = cc
text_beq→≡ (c ∷ t) (d ∷ u) h =
    let both = &&-true (c == d) (text_beq t u) h in
    let tail = text_beq→≡ t u both.1 in
    let head : c ≡ d = ground (arith, both.0) in rw (head, tail) refl

compare_digest-same : (a b : Text) → compare_digest a b ≡ returned true → a ≡ b
unfolding compare_digest
compare_digest-same a b h = elim (Bool-cases (is_ascii a && is_ascii b)) [
  | inl e ↦ text_beq→≡ a b (ground (arith, e, h))
  | inr e ↦ ground (arith, e, h)
]

module _ (environ : String → Option Text) (key : Text) (c : ConsumerCredential)
    (identity : ConsumerIdentity) where
  -- What the rest of the loop finds, put back behind the credential that was passed.
  later-IsGranted :
      (matched : Option ConsumerIdentity) (cs : List ConsumerCredential)
      → (matched ≡ some identity) ⊎ IsGranted environ key cs identity
      → (matched ≡ some identity) ⊎ IsGranted environ key (c ∷ cs) identity
  later-IsGranted matched cs (inl a) = inl a
  later-IsGranted matched cs (inr b) = inr (inr b)

  matched-IsGranted :
      (matched : Option ConsumerIdentity) (cs : List ConsumerCredential)
      → resolve environ (credential_reference c) ≡ some key
      → (some (identity_of c) ≡ some identity) ⊎ IsGranted environ key cs identity
      → (matched ≡ some identity) ⊎ IsGranted environ key (c ∷ cs) identity
  matched-IsGranted matched cs s (inl a) = inr (inl (s, ground (arith, a)))
  matched-IsGranted matched cs s (inr b) = inr (inr b)

match_each-IsGranted :
    (environ : String → Option Text) (key : Text) (matched : Option ConsumerIdentity)
    (credentials : List ConsumerCredential) (identity : ConsumerIdentity)
    → match_each environ key matched credentials ≡ returned (some identity)
    → (matched ≡ some identity) ⊎ IsGranted environ key credentials identity
unfolding match_each
match_each-IsGranted environ key matched [] identity h = inl (ground (arith, h))
match_each-IsGranted environ key matched (c ∷ cs) identity h =
    elim (Option-cases (resolve environ (credential_reference c))) [
      | inl n ↦
          let same : match_each environ key matched (c ∷ cs) ≡ match_each environ key matched cs =
            rw (n, match_each) refl in
          later-IsGranted environ key c identity matched cs
            (match_each-IsGranted environ key matched cs identity (sym same ∙ h))
      | inr (configured, s) ↦ elim (Outcome-cases (compare_digest configured key)) [
        | inr (e, bad) ↦
            let same : match_each environ key matched (c ∷ cs) ≡ raised e =
              rw (s, match_each) (rw bad refl) in
            ground (arith, same, h)
        | inl (b, ok) ↦
            let same : match_each environ key matched (c ∷ cs)
                ≡ match_each environ key (better matched c b) cs =
              rw (s, match_each) (rw ok refl) in
            let rest =
              match_each-IsGranted environ key (better matched c b) cs identity (sym same ∙ h) in
            elim (Bool-cases b) [
              | inr f ↦ later-IsGranted environ key c identity matched cs (
                  subst
                    (λ b. (better matched c b ≡ some identity) ⊎ IsGranted environ key cs identity)
                    f rest)
              | inl t ↦
                  let own = compare_digest-same configured key (ok ∙ ap returned t) in
                  matched-IsGranted environ key c identity matched cs (s ∙ ap some own) (
                    subst
                      (λ b.
                        (better matched c b ≡ some identity) ⊎ IsGranted environ key cs identity)
                      t rest)
            ]
      ]
    ]

abbrev pub IsGrantedFor :
    (String → Option Text) → List ConsumerCredential → ConsumerIdentity → Option Text → Type 0
IsGrantedFor environ credentials identity none = ⊥
IsGrantedFor environ credentials identity (some key) = IsGranted environ key credentials identity

authenticate-IsGranted :
    (environ : String → Option Text) (credentials : List ConsumerCredential) (key : Option Text)
    (identity : ConsumerIdentity)
    → authenticate environ credentials key ≡ returned identity
    → IsGrantedFor environ credentials identity key
unfolding authenticate
authenticate-IsGranted environ credentials none identity h = cc
authenticate-IsGranted environ credentials (some []) identity h = cc
authenticate-IsGranted environ credentials (some (c ∷ key)) identity h =
    elim (Outcome-cases (match_each environ (c ∷ key) none credentials)) [
      | inr (e, bad) ↦ ground (arith, bad, h)
      | inl (none, ok) ↦ ground (arith, ok, h)
      | inl (some found, ok) ↦
          let own : found ≡ identity = ground (arith, ok, h) in
          elim (match_each-IsGranted environ (c ∷ key) none credentials identity
            (ok ∙ ap (λ i. returned (some i)) own)) [ inl a ↦ cc | inr b ↦ b ]
    ]

-- A request gets past a route's guard only if its header carries a bearer token that equals the
-- secret configured for one of the credentials, it then acts as that credential's consumer, and
-- the consumer has the scope that the route requires.
pub require_scope-IsGranted :
    (environ : String → Option Text) (credentials : List ConsumerCredential) (scope : String)
    (authorization : Option Text) (identity : ConsumerIdentity)
    → require_scope environ credentials scope authorization ≡ returned identity
    → IsGrantedFor environ credentials identity (extract_bearer_token authorization)
      × (has_scope identity scope ≡ true)
unfolding require_scope authorize
require_scope-IsGranted environ credentials scope authorization identity h =
    elim (Outcome-cases (authenticate environ credentials (extract_bearer_token authorization))) [
      | inr (e, bad) ↦ ground (arith, bad, h)
      | inl (found, ok) ↦ elim (Bool-cases (has_scope found scope)) [
        | inr f ↦ ground (arith, ok, f, h)
        | inl t ↦
            let own : found ≡ identity = ground (arith, ok, t, h) in
            (
              authenticate-IsGranted environ credentials (extract_bearer_token authorization)
                  identity (ok ∙ ap returned own),
              subst (λ i. has_scope i scope ≡ true) own t,
            )
      ]
    ]
