-- ===== src/Ingestion/Deadline/Replies.antt =====
-- What comes back from a call with a deadline.
use market_relay.Prelude.{Bool, true, false, ◌≡◌, ◌⊎◌, refl, Bool-cases, inl, inr}
use market_relay.Action.{
  Error, returned, raised, provider_timeout, provider_process_error, eof_error,
}
use market_relay.Ingestion.Deadline.{Call, ends, works_on, dies, run_with_deadline, invoke}

module _ {ℓ} {A : Type ℓ} (pickles fits : A → Bool) where
  -- The action ends in time with that value, which can be pickled and which the pipe holds while nobody
  -- reads.
  abbrev pub IsDelivered : Call A → A → Type ℓ
  IsDelivered call a = (call ≡ ends (returned a)) × (pickles a ≡ true) × (fits a ≡ true)

  -- The action raises, or ends with a value that cannot be pickled.
  abbrev pub HasFailed : Call A → Type ℓ
  HasFailed call =
      ((e : Error) × (call ≡ ends (raised e)))
      ⊎ ((a : A) × (call ≡ ends (returned a)) × (pickles a ≡ false))

  -- The action is at work at the deadline, or has left a value in a pipe that does not hold it.
  abbrev pub IsLate : Call A → Type ℓ
  IsLate call =
      (call ≡ works_on)
      ⊎ ((a : A) × (call ≡ ends (returned a)) × (pickles a ≡ true) × (fits a ≡ false))

  -- `run_with_deadline` returns the value of an action that ends in time with it, when it can be
  -- pickled and the pipe holds it while nobody reads. It raises ProviderProcessError when the action
  -- raises or its value cannot be pickled, ProviderTimeoutError when the action is at work at the
  -- deadline or the pipe does not hold its value, and EOFError when the child dies before it sends.
  -- There is no other case, so that no exception of the provider comes back.
  pub run_with_deadline-exact :
      (call : Call A)
      → let out = run_with_deadline pickles fits call in
        ((a : A) × IsDelivered call a × (out ≡ returned a))
        ⊎ ((HasFailed call × (out ≡ raised provider_process_error))
            ⊎ ((IsLate call × (out ≡ raised provider_timeout))
                ⊎ ((call ≡ dies) × (out ≡ raised eof_error))))
  unfolding run_with_deadline invoke
  run_with_deadline-exact (ends (returned a)) = elim (Bool-cases (pickles a)) [
    | inr refused ↦ inr (inl (inr (a, refl, refused), rw refused refl))
    | inl p ↦ elim (Bool-cases (fits a)) [
      | inr refused ↦ inr (inr (inl (inr (a, refl, p, refused), rw (p, refused) refl)))
      | inl f ↦ inl (a, (refl, p, f), rw (p, f) refl)
    ]
  ]
  run_with_deadline-exact (ends (raised e)) = inr (inl (inl (e, refl), refl))
  run_with_deadline-exact works_on = inr (inr (inl (inl refl, refl)))
  run_with_deadline-exact dies = inr (inr (inr (refl, refl)))
