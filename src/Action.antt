-- ===== src/Action.antt =====
-- Methods over a session: they read and write tables and may raise. What was written before a
-- raise stays written in the session, so the state comes back beside the error too. The exceptions
-- of the program are the constructors of `Error`.
use market_relay.Prelude.{ℕ, String, List, ◌≡◌, refl, subst, ◌⊎◌, inl, inr}
use market_relay.Governance.Models.{PolicyCapability, PolicyStatus}

pub data Error : Type 0 where
  stale_job_claim integrity_error revision_race_exhausted no_eligible_observation : Error
  policy_not_authorized : String → List (PolicyCapability × PolicyStatus) → Error
  invalid_cursor assertion_error malformed_observation invalid_operation : Error
  unknown_source calendar_unavailable provider_timeout provider_process_error : Error
  value_error overflow_error index_error : Error
  consumer_authentication consumer_authorization : Error
  ambiguous_match provider_error type_error operational_error attribute_error : Error
  runtime_error database_error eof_error : Error
  http_exception : ℕ → Error

pub data Outcome {ℓ} (A : Type ℓ) : Type ℓ where
  returned : A → Outcome A
  raised : Error → Outcome A

-- `abbrev`, so that what a chain of raises computes to is read by the tactics.
infixl 5 ◌>>=◌ ◌>>◌
abbrev pub ◌>>=◌ {ℓ κ} : {A : Type ℓ} {B : Type κ} → Outcome A → (A → Outcome B) → Outcome B
returned a >>= f = f a
raised e >>= f = raised e

abbrev pub ◌>>◌ {ℓ} : {B : Type ℓ} → Outcome (Unit {0}) → Outcome B → Outcome B
m >> k = m >>= λ _. k

abbrev pub Action {ℓ} : Type ℓ → Type ℓ → Type ℓ
Action S A = S → Outcome A × S

pub Outcome-cases {ℓ} :
    {A : Type ℓ} (o : Outcome A) → ((a : A) × (o ≡ returned a)) ⊎ ((e : Error) × (o ≡ raised e))
Outcome-cases (returned a) = inl (a, refl)
Outcome-cases (raised e) = inr (e, refl)

-- What holds of the result, when there is one.
abbrev pub WhenReturned {ℓ κ} : {A : Type ℓ} → (A → Type κ) → Outcome A → Type κ
WhenReturned P (returned a) = P a
WhenReturned P (raised e) = Unit

pub WhenReturned-bind {ℓ μ κ} :
    {A : Type ℓ} {B : Type μ} (R : B → Type κ) (m : Outcome A) (f : A → Outcome B)
    → ((a : A) → m ≡ returned a → WhenReturned R (f a))
    → WhenReturned R (m >>= f)
WhenReturned-bind R (returned a) f h = h a refl
WhenReturned-bind R (raised e) f h = tt

pub WhenReturned-use {ℓ κ} :
    {A : Type ℓ} (P : A → Type κ) (m : Outcome A) {a : A} → WhenReturned P m → m ≡ returned a → P a
WhenReturned-use P m h e = subst (WhenReturned P) e h
