-- ===== src/View/Values.antt =====
-- What an answer may contain.
use market_relay.Prelude.{ℕ, ◌+◌, true, false, Option, none, some, ◌≡◌, refl, arith, All, inl, inr}
use market_relay.Action.{
  Outcome, returned, raised, no_eligible_observation, Outcome-cases, WhenReturned, WhenReturned-use,
  ◌>>=◌,
}
use market_relay.Planning.{SessionExpectation, minus_days}
use market_relay.Observations.Models.{Observation, ObservationType}
use market_relay.Observations.Selection.{SelectionResult, select}
use market_relay.Observations.Selection.Publishable.{IsAllowed, select-publishable}
use market_relay.View.{
  ObservationAvailability, ObservationValueOut, ObservationOut, ListingRef, World, is_ok,
  absent_out, answer, authorized_in, priority_policy, session_expectation, build_observation_out,
}

pub minus_days-exact :
    (today offset : ℕ) {d : ℕ} → minus_days today offset ≡ returned d → d + offset ≡ today
unfolding minus_days
minus_days-exact today offset h = ground (arith, h)

module _ (Q : Observation → Type 0) (w : World) (listing : ListingRef)
    (type : ObservationType) where
  -- The row may be published now, is of the listing, date and type, and the value shows it.
  abbrev pub IsShown : ℕ → ObservationValueOut → Observation → Type 0
  IsShown session_date v row =
      IsAllowed Q (authorized_in w) listing.id session_date type row
      × ((v.source ≡ row.source)
          × ((v.currency ≡ row.currency) × ((v.close ≡ row.close) × (v.revision ≡ row.revision))))

  abbrev pub IsBacked : ℕ → ObservationAvailability → Option ObservationValueOut → Type 0
  IsBacked session_date availability none = is_ok availability ≡ false
  IsBacked session_date availability (some v) =
      (is_ok availability ≡ true) × ((row : Observation) × IsShown session_date v row)

  -- The answer is of the listing and the date, it is available exactly when it has a value, and the
  -- value is that of a row that may be shown.
  abbrev pub IsHonest : ℕ → ObservationOut → Type 0
  IsHonest session_date out =
      (out.listing_id ≡ listing.id)
      × ((out.session_date ≡ session_date) × IsBacked session_date out.availability out.value)

  absent_out-IsHonest :
      (session_date : ℕ) (e : SessionExpectation)
      → IsHonest session_date (absent_out listing session_date e)
  absent_out-IsHonest session_date SessionExpectation.no_session = (refl, (refl, refl))
  absent_out-IsHonest session_date SessionExpectation.waiting_for_publication = (refl, (refl, refl))
  absent_out-IsHonest session_date SessionExpectation.expected_published = (refl, (refl, refl))

  absent-IsHonest :
      (session_date : ℕ) (m : Outcome SessionExpectation)
      → WhenReturned
          (IsHonest session_date)
          (m >>= λ e. returned (absent_out listing session_date e))
  absent-IsHonest session_date (raised e) = tt
  absent-IsHonest session_date (returned e) = absent_out-IsHonest session_date e

  answer-IsHonest :
      (session_date : ℕ) (outcome : Outcome SelectionResult)
      → WhenReturned
          (λ r. IsAllowed Q (authorized_in w) listing.id session_date type r.selected)
          outcome
      → WhenReturned (IsHonest session_date) (answer w listing session_date outcome)
  unfolding answer
  answer-IsHonest session_date (returned r) allowed =
      (refl, (refl, (refl, (r.selected, (allowed, (refl, (refl, (refl, refl))))))))
  answer-IsHonest session_date (raised e) allowed =
      elim e
        as (λ e. WhenReturned (IsHonest session_date) (answer w listing session_date (raised e))) [
          | no_eligible_observation ↦
              absent-IsHonest session_date (session_expectation w.calendar listing session_date)
          | _ ↦ tt
        ]

  build-IsHonest :
      (session_date : ℕ)
      → All Q w.observations
      → WhenReturned (IsHonest session_date) (build_observation_out w listing session_date type)
  unfolding build_observation_out
  build-IsHonest session_date q =
      let policy = priority_policy w.enabled_sources in
      let selected = select (authorized_in w) listing.id session_date type policy w.observations in
      answer-IsHonest session_date selected (elim (Outcome-cases selected) [
        | inr (e, bad) ↦ rw bad tt
        | inl (r, good) ↦ rw good (
            (select-publishable Q (authorized_in w) listing.id session_date type policy
              w.observations r q good).0)
      ])

pub built-IsHonest :
    (Q : Observation → Type 0) (w : World) (listing : ListingRef) (type : ObservationType)
    (session_date : ℕ) (out : ObservationOut)
    → All Q w.observations
    → build_observation_out w listing session_date type ≡ returned out
    → IsHonest Q w listing type session_date out
built-IsHonest Q w listing type session_date out q h =
    WhenReturned-use (IsHonest Q w listing type session_date)
      (build_observation_out w listing session_date type)
      (build-IsHonest Q w listing type session_date q) h
