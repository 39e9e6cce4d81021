-- ===== src/Adapters/Fake/Sessions.antt =====
-- The calendar of src/market_relay/adapters/fake/provider.py, and the API's answers over it.
use market_relay.Prelude.{ℕ, zero, suc, ◌+◌, ◌-◌, ◌<◌, List, map, true, ◌≡◌, refl, arith, All, leb}
use market_relay.Action.{returned}
use market_relay.Catalog.{AssetClass}
use market_relay.Planning.{next_day, max_ordinal}
use market_relay.Observations.Models.{Observation, ObservationType}
use market_relay.View.{
  World, ListingRef, ObservationOut, session_expectation, build_observation_range,
}
use market_relay.View.Range.{Answers, dates_from}
use market_relay.View.Totality.{CalendarAnswers, build_observation_range-Answers}
use market_relay.Adapters.Fake.{check_on, expectation, sessions_loop, sessions_in_range}

pub next_day_within :
    (d end : ℕ) → leb d end ≡ true → end < max_ordinal → next_day d ≡ returned (d + 1)
unfolding next_day
next_day_within d end h last = ground (arith, h, last)

sessions_loop-exact :
    (rounds : ℕ) (asset_class : AssetClass) (current end : ℕ)
    → rounds ≡ end + 1 - current
    → end < max_ordinal
    → sessions_loop rounds asset_class current end
      ≡ returned (map (check_on asset_class) (dates_from current rounds))
unfolding sessions_loop
sessions_loop-exact zero asset_class current end enough last = refl
sessions_loop-exact (suc rounds) asset_class current end enough last =
    let inside : leb current end ≡ true = ground (arith, enough) in
    rw
      (
        inside,
        next_day_within current end inside last,
        sessions_loop-exact rounds asset_class (current + 1) end (omega (arith, enough)) last,
      )
      refl

-- When the last date is before the last one there is, the calendar classifies each date from the
-- first to the last once, in their order, whatever the venue.
pub sessions_in_range-exact :
    (asset_class : AssetClass) (start end : ℕ)
    → end < max_ordinal
    → sessions_loop (end + 1 - start) asset_class start end
      ≡ returned (map (check_on asset_class) (dates_from start (end + 1 - start)))
sessions_in_range-exact asset_class start end last =
    sessions_loop-exact (end + 1 - start) asset_class start end refl last

abbrev pub with_fake_calendar : World → World
with_fake_calendar w = record w { calendar = sessions_in_range }

pub fake-CalendarAnswers :
    (w : World) (listing : ListingRef) (d : ℕ)
    → d < max_ordinal
    → CalendarAnswers (with_fake_calendar w) listing d
unfolding session_expectation sessions_in_range
fake-CalendarAnswers w listing d last =
    let one : d + 1 - d ≡ 1 = omega arith in
    let checks = sessions_loop-exact 1 listing.asset_class d d (omega arith) last in
    (expectation listing.asset_class d, rw (one, checks) refl)

-- Over the deterministic calendar a range that ends before the last date there is is answered,
-- whatever is stored and authorized: with one honest answer for each date from the first to the
-- last, in the order of the dates.
pub build_observation_range-sessions_in_range :
    (Q : Observation → Type 0) (w : World) (listing : ListingRef) (type : ObservationType)
    (start end : ℕ)
    → All Q w.observations
    → end < max_ordinal
    → let w' = with_fake_calendar w in
      (outs : List ObservationOut) × (build_observation_range w' listing type start end
        ≡ returned outs)
      × Answers Q w' listing type (dates_from start (end + 1 - start)) outs
build_observation_range-sessions_in_range Q w listing type start end q last =
    build_observation_range-Answers Q (with_fake_calendar w) listing type start end q last
      (λ d le. fake-CalendarAnswers w listing d (omega (arith, le, last)))
