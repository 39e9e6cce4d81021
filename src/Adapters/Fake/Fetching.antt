-- ===== src/Adapters/Fake/Fetching.antt =====
-- The rows of src/market_relay/adapters/fake/provider.py against the validation of the runner.
use market_relay.Prelude.{
  ℕ, zero, suc, ◌+◌, ◌-◌, ◌<◌, ◌≤◌, String, List, [], ◌∷◌, map, Bool, true, false, ◌≡◌, refl, arith,
  All, leb, ltb, ap, Bool-cases, inl, inr, ==-refl,
}
use market_relay.Table.{select_where}
use market_relay.Action.{returned}
use market_relay.Decimals.{Decimal, finite, infinity, nan, is_nan}
use market_relay.Planning.{max_ordinal}
use market_relay.View.Range.{dates_from}
use market_relay.Ingestion.{RawObservation, validate_raw_observation, currency_matches}
use market_relay.Ingestion.Validation.{validate_raw_observation-exact, is_positive, is_wanted}
use market_relay.Adapters.Fake.{weekday, raw_on, fetch_loop, fetch_range}
use market_relay.Adapters.Fake.Sessions.{next_day_within}

abbrev pub is_weekday : ℕ → Bool
is_weekday d = ltb (weekday d) 5

is_positive-number : (d : Decimal) → is_positive d ≡ true → is_nan d ≡ false
is_positive-number (finite negative coefficient scale) h = refl
is_positive-number (infinity negative) h = refl
is_positive-number nan h = cc

module _ (price : String → Decimal) (isoformat : ℕ → String) (id : String) where
  fetch_loop-exact :
      (rounds current end : ℕ)
      → rounds ≡ end + 1 - current
      → end < max_ordinal
      → fetch_loop price isoformat rounds id current end
        ≡ returned
            (map (raw_on price isoformat id) (select_where is_weekday (dates_from current rounds)))
  unfolding fetch_loop select_where
  fetch_loop-exact zero current end enough last = refl
  fetch_loop-exact (suc rounds) current end enough last =
      let inside : leb current end ≡ true = ground (arith, enough) in
      let rest = fetch_loop-exact rounds (current + 1) end (omega (arith, enough)) last in
      elim (Bool-cases (is_weekday current)) [
        | inl t ↦ rw (inside, next_day_within current end inside last, rest, t) refl
        | inr f ↦ rw (inside, next_day_within current end inside last, rest, f) refl
      ]

  raw_on-accepted :
      (d start end : ℕ)
      → is_positive (raw_on price isoformat id d).close ≡ true
      → leb start d ≡ true
      → leb d end ≡ true
      → validate_raw_observation (raw_on price isoformat id d) id start end ≡ returned tt
  unfolding currency_matches is_wanted
  raw_on-accepted d start end positive from to =
      let raw = raw_on price isoformat id d in
      rw (validate_raw_observation-exact raw id start end (is_positive-number raw.close positive))
        (rw (==-refl id, from, to, positive) refl)

  rows-accepted :
      (rounds current start end : ℕ)
      → start ≤ current
      → rounds ≡ end + 1 - current
      → ((seed : String) → is_positive (price seed) ≡ true)
      → All
          (λ raw. validate_raw_observation raw id start end ≡ returned tt)
          (map (raw_on price isoformat id) (select_where is_weekday (dates_from current rounds)))
  unfolding select_where
  rows-accepted zero current start end from enough positive = tt
  rows-accepted (suc rounds) current start end from enough positive =
      let rest =
        rows-accepted rounds (current + 1) start end (omega (arith, from)) (omega (arith, enough))
          positive in
      let own =
        raw_on-accepted current start end (positive _) (ground (arith, from))
          (ground (arith, enough)) in
      elim (Bool-cases (is_weekday current)) [ inl t ↦ rw t (own, rest) | inr f ↦ rw f rest ]

  rows-session_date :
      (dates : List ℕ)
      → map (λ (raw : RawObservation). raw.session_date) (map (raw_on price isoformat id) dates)
        ≡ dates
  rows-session_date [] = refl
  rows-session_date (d ∷ dates) = ap (λ ds. d ∷ ds) (rows-session_date dates)

  -- Where the prices are positive and the last date is before the last one there is, the provider
  -- returns one row for each weekday from the first to the last date, in their order, and the
  -- runner's validation accepts every row.
  pub fetch_range-validate_raw_observation :
      (start end : ℕ)
      → ((seed : String) → is_positive (price seed) ≡ true)
      → end < max_ordinal
      → (raws : List RawObservation) × (fetch_range price isoformat id start end ≡ returned raws)
        × (map (λ (raw : RawObservation). raw.session_date) raws
            ≡ select_where is_weekday (dates_from start (end + 1 - start)))
        × All (λ raw. validate_raw_observation raw id start end ≡ returned tt) raws
  unfolding fetch_range
  fetch_range-validate_raw_observation start end positive last =
      let dates = select_where is_weekday (dates_from start (end + 1 - start)) in
      (
        map (raw_on price isoformat id) dates,
        fetch_loop-exact (end + 1 - start) start end refl last,
        rows-session_date dates,
        rows-accepted (end + 1 - start) start start end (omega arith) refl positive,
      )
