-- ===== src/Api/Range.antt =====
-- The range of observations that the API answers with.
use market_relay.Prelude.{
  ℕ, zero, suc, ◌+◌, ◌-◌, ◌≤◌, ◌<◌, List, [], ◌∷◌, Option, some, ◌≡◌, ◌⊎◌, inl, inr, refl, arith,
  All, Bool-cases, ltb, length,
}
use market_relay.Governance.Credentials.{Text}
use market_relay.Action.{returned, raised, http_exception}
use market_relay.Catalog.{Instrument, Listing, get_instrument}
use market_relay.Catalog as CatalogService
use market_relay.Consumers.{ConsumerIdentity, require_scope}
use market_relay.Planning.{MarketCalendarPort, max_ordinal}
use market_relay.Observations.Models.{Observation, ObservationType}
use market_relay.View.{World, ListingRef, ObservationOut}
use market_relay.View.Range.{Answers, dates_from}
use market_relay.View.Totality.{CalendarAnswers, build_observation_range-Answers}
use market_relay.Settings.{build_consumer_credentials}
use market_relay.Adapters.Routes.{calendar_for}
use market_relay.Api.{
  Application, ObservationRangeResponse, observation_range, range_response, world_with,
  max_range_days, resolve_listing, ref_to,
}

Answers-length :
    (Q : Observation → Type 0) (w : World) (listing : ListingRef) (type : ObservationType)
    (dates : List ℕ) (outs : List ObservationOut)
    → Answers Q w listing type dates outs
    → length outs ≡ length dates
Answers-length Q w listing type [] [] h = refl
Answers-length Q w listing type [] (out ∷ outs) h = absurd h
Answers-length Q w listing type (d ∷ dates) [] h = absurd h
Answers-length Q w listing type (d ∷ dates) (out ∷ outs) h =
    omega (arith, Answers-length Q w listing type dates outs h.1)

length-dates_from : (start n : ℕ) → length (dates_from start n) ≡ n
length-dates_from start zero = refl
length-dates_from start (suc n) = omega (arith, length-dates_from (start + 1) n)

-- The dates of a request that is not refused.
abbrev pub InRange : ℕ → ℕ → Type 0
InRange start end = (start ≤ end) × (end ≤ start + max_range_days)

module _ {P : Type 0} (app : Application P) (authorization : Option Text) (listing_id : ℕ)
    (type : ObservationType) where
  -- An authorized request for a stored listing, with an instrument and a route to a calendar that
  -- classifies every date up to the last one that is asked for, which is before 9999-12-31, is refused with the status 422 exactly when the last date is before the first or more than 366
  -- days after it. Otherwise it is answered with one honest answer for each date, in their order, and
  -- so with at most 367.
  pub observation_range-Answers :
      (Q : Observation → Type 0) (start end : ℕ) (identity : ConsumerIdentity) (listing : Listing)
      (instrument : Instrument) (calendar : MarketCalendarPort)
      → All Q app.observations
      → require_scope app.environ
          (build_consumer_credentials app.settings.consumer_credentials)
          "observations:read"
          authorization
        ≡ returned identity
      → CatalogService.get_listing listing_id app.catalog ≡ some listing
      → get_instrument listing.instrument_id app.catalog ≡ some instrument
      → calendar_for app.adapters listing ≡ returned calendar
      → end < max_ordinal
      → let ref = ref_to instrument listing in
        let w = world_with app calendar in
        ((d : ℕ) → d ≤ end → CalendarAnswers w ref d)
        → let out = observation_range app authorization listing_id start end type in
          (¬ InRange start end × (out ≡ raised (http_exception 422)))
          ⊎ (InRange start end
              × (r : ObservationRangeResponse) × (out ≡ returned r)
              × (length r.observations ≤ 367)
              × Answers Q w ref type (dates_from start (end + 1 - start)) r.observations)
  unfolding observation_range range_response resolve_listing
  observation_range-Answers Q start end identity listing instrument calendar q passed found backed
        routed last says =
      elim (Bool-cases (ltb end start)) [
        | inl t ↦ inl (λ h. ground (arith, t, h.0), rw (passed, t) refl)
        | inr f ↦ elim (Bool-cases (ltb max_range_days (end - start))) [
          | inl t ↦ inl (λ h. ground (arith, t, h.0, h.1), rw (passed, f, t) refl)
          | inr ok ↦
              let w = world_with app calendar in
              let ref = ref_to instrument listing in
              let (outs, built, honest) =
                build_observation_range-Answers Q w ref type start end q last says in
              inr (
                (ground (arith, f), ground (arith, f, ok)),
                record {
                  listing_id = listing_id;
                  observation_type = type;
                  start = start;
                  «end» = end;
                  observations = outs;
                },
                rw (passed, f, ok, found, routed, backed, built) refl,
                ground (
                  arith,
                  f,
                  ok,
                  Answers-length Q w ref type (dates_from start (end + 1 - start)) outs honest,
                  length-dates_from start (end + 1 - start),
                ),
                honest,
              )
        ]
      ]
