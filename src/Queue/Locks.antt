-- ===== src/Queue/Locks.antt =====
-- `_retry_on_lock` of src/market_relay/domain/ingestion/queue.py, over what each attempt comes to.
use market_relay.Prelude.{
  ℕ, zero, suc, ◌+◌, ◌<◌, Bool, true, false, ◌≡◌, ◌⊎◌, refl, ap, ◌∙◌, if◌then◌else◌, arith,
  Bool-cases, inl, inr,
}
use market_relay.Action.{Outcome, returned, raised, Error, operational_error}

abbrev pub lock_retry_attempts : ℕ
lock_retry_attempts = 10

abbrev pub is_operational : Error → Bool
is_operational operational_error = true
is_operational _ = false

-- What an attempt comes to when it is not repeated.
abbrev pub is_locked {ℓ} : {A : Type ℓ} → Outcome A → Bool
is_locked (returned a) = false
is_locked (raised e) = is_operational e

-- The attempts that are left, from the one numbered `i`; the last exception is raised.
unfoldable pub retry_attempts {ℓ} : {A : Type ℓ} → (ℕ → Outcome A) → ℕ → ℕ → Outcome A
retry_attempts action zero i = raised operational_error
retry_attempts action (suc n) i =
    let rest = retry_attempts action n (suc i) in if is_locked (action i) then rest else action i

unfoldable pub retry_on_lock {ℓ} : {A : Type ℓ} → (ℕ → Outcome A) → Outcome A
unfolding retry_attempts
retry_on_lock action = retry_attempts action lock_retry_attempts 0

-- The attempt numbered `k` is the first that the lock lets through.
abbrev pub IsFirstFree {ℓ} : {A : Type ℓ} → (ℕ → Outcome A) → ℕ → ℕ → Type 0
IsFirstFree action i zero = is_locked (action i) ≡ false
IsFirstFree action i (suc k) = (is_locked (action i) ≡ true) × IsFirstFree action (suc i) k

-- The next attempts are all met by the lock.
abbrev pub AreLocked {ℓ} : {A : Type ℓ} → (ℕ → Outcome A) → ℕ → ℕ → Type 0
AreLocked action i zero = Unit
AreLocked action i (suc n) = (is_locked (action i) ≡ true) × AreLocked action (suc i) n

retry_attempts-cases {ℓ} :
    {A : Type ℓ} (action : ℕ → Outcome A) (n i : ℕ)
    → ((k : ℕ) × (k < n) × IsFirstFree action i k × (retry_attempts action n i ≡ action (i + k)))
      ⊎ (AreLocked action i n × (retry_attempts action n i ≡ raised operational_error))
unfolding retry_attempts
retry_attempts-cases action zero i = inr (tt, refl)
retry_attempts-cases action (suc n) i = elim (Bool-cases (is_locked (action i))) [
  | inr free ↦ inl (zero, omega arith, free, rw free (ap action (omega arith)))
  | inl locked ↦ elim (retry_attempts-cases action n (suc i)) [
    | inl (k, h, first, same) ↦
        inl (suc k, omega arith, (locked, first), rw locked (same ∙ ap action (omega arith)))
    | inr (rest, stopped) ↦ inr ((locked, rest), rw locked stopped)
  ]
]

-- An action is tried at most ten times. What it comes to is what the first attempt comes to that the
-- lock lets through, an exception of its own included; when all ten attempts are met by the lock,
-- `OperationalError` is raised.
pub retry_on_lock-exact {ℓ} :
    {A : Type ℓ} (action : ℕ → Outcome A)
    → ((k : ℕ) × (k < lock_retry_attempts)
        × IsFirstFree action 0 k
        × (retry_on_lock action ≡ action k))
      ⊎ (AreLocked action 0 lock_retry_attempts × (retry_on_lock action ≡ raised operational_error))
unfolding retry_on_lock
retry_on_lock-exact action = elim (retry_attempts-cases action lock_retry_attempts 0) [
  | inl (k, h, first, same) ↦ inl (k, h, first, same ∙ ap action (omega arith))
  | inr stopped ↦ inr stopped
]
