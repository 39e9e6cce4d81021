-- ===== src/Ingestion/Validation.antt =====
-- What the validation lets through, and the row that it neither accepts nor rejects.
use market_relay.Prelude.{
  ◌≤◌, ==→≡, refl, true, ℕ, String, Bool, false, not, ◌&&◌, ◌||◌, ◌==◌, string_eq, nat_eq, ◌≡◌, leb,
  arith,
}
use market_relay.Decimals.{Decimal, finite, infinity, nan, le_zero, is_finite, is_nan}
use market_relay.Action.{Outcome, returned, ◌>>=◌, ◌>>◌}
use market_relay.Ingestion.{RawObservation, currency_matches, reject_if, validate_raw_observation}

abbrev pub is_positive : Decimal → Bool
is_positive (finite negative coefficient scale) = not negative && not (coefficient == 0)
is_positive (infinity negative) = false
is_positive nan = false

-- What a row must be: of the instrument and the window that were asked for, in a currency that
-- matches, at a positive price.
unfoldable pub is_wanted : RawObservation → String → ℕ → ℕ → Bool
is_wanted raw external_listing_id start end =
    raw.external_listing_id == external_listing_id
    && (leb start raw.session_date
        && (leb raw.session_date end && (currency_matches raw.currency && is_positive raw.close)))

price-exact :
    (d : Decimal)
    → is_nan d ≡ false
    → (le_zero d >>= λ low. reject_if (low || not (is_finite d))) ≡ reject_if (not (is_positive d))
unfolding le_zero is_finite
price-exact (finite negative coefficient scale) h = ground arith
price-exact (infinity negative) h = ground arith
price-exact nan h = cc

-- A row whose price is a number is accepted if it is wanted and rejected as malformed otherwise.
pub validate_raw_observation-exact :
    (raw : RawObservation) (external_listing_id : String) (start end : ℕ)
    → is_nan raw.close ≡ false
    → validate_raw_observation raw external_listing_id start end
      ≡ reject_if (not (is_wanted raw external_listing_id start end))
unfolding validate_raw_observation is_wanted
validate_raw_observation-exact raw external_listing_id start end h =
    rw (price-exact raw.close h) (ground arith)

reject_if-passed :
    (b : Bool) (k : Outcome (Unit {0}))
    → (reject_if b >> k) ≡ returned tt
    → (b ≡ false) × (k ≡ returned tt)
reject_if-passed true k h = absurd (cc h)
reject_if-passed false k h = (refl, h)

price-passed :
    (d : Decimal)
    → (le_zero d >>= λ low. reject_if (low || not (is_finite d))) ≡ returned tt
    → is_positive d ≡ true
unfolding le_zero is_finite
price-passed (finite negative coefficient scale) h = ground arith
price-passed (infinity negative) h = ground arith
price-passed nan h = absurd (cc h)

-- What the validation accepts is of the instrument and in the window that were asked for, at a
-- positive price.
pub validate_raw_observation-passed :
    (raw : RawObservation) (external_listing_id : String) (start end : ℕ)
    → validate_raw_observation raw external_listing_id start end ≡ returned tt
    → (raw.external_listing_id ≡ external_listing_id)
      × (start ≤ raw.session_date)
      × (raw.session_date ≤ end)
      × (is_positive raw.close ≡ true)
unfolding validate_raw_observation
validate_raw_observation-passed raw external_listing_id start end h =
    let (own, rest) = reject_if-passed (not (raw.external_listing_id == external_listing_id)) _ h in
    let (window, rest') =
      reject_if-passed (not (leb start raw.session_date && leb raw.session_date end)) _ rest in
    let (currency, rest'') = reject_if-passed (not (currency_matches raw.currency)) _ rest' in
    (
      ==→≡ (ground (arith, own)),
      ground (arith, window),
      ground (arith, window),
      price-passed raw.close rest'',
    )
