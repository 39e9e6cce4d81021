-- ===== src/View/Totality.antt =====
-- The API's answers are given: when the calendar classifies each date that is asked about, the
-- functions of src/market_relay/api/services/observation_view.py return.
use market_relay.Prelude.{
  ℕ, zero, suc, ◌+◌, ◌-◌, ◌≤◌, ◌<◌, String, List, [], ◌∷◌, Bool, true, false, ◌≡◌, refl, sym, subst,
  ap, arith, All, Bool-cases, Option-cases, inl, inr, ◌⊎◌, ltb, leb,
}
use market_relay.Action.{returned, raised, no_eligible_observation, Outcome-cases}
use market_relay.Planning.{SessionExpectation, minus_days, next_day, max_ordinal}
use market_relay.Observations.Models.{Observation, ObservationType}
use market_relay.Observations.Store.{Observations}
use market_relay.Observations.Selection.{
  SelectionResult, SourcePriorityPolicy, select, first_candidate, current_publishable_by_source,
}
use market_relay.View.{
  present_out, absent_out, value_out, ObservationOut, ListingRef, World, is_ok, answer,
  authorized_in, priority_policy, session_expectation, build_observation_out, look_back,
  find_latest_observation, latest_lookback_days, range_loop, build_observation_range,
}
use market_relay.View.Values.{IsHonest, built-IsHonest, minus_days-exact}
use market_relay.View.Range.{Answers, dates_from, ranged-Answers}

-- The calendar classifies the date.
abbrev pub CalendarAnswers : World → ListingRef → ℕ → Type 0
CalendarAnswers w listing d =
    (e : SessionExpectation) × (session_expectation w.calendar listing d ≡ returned e)

-- A selection that raises does so for want of an eligible observation.
select-outcome :
    (authorized : String → Bool) (listing_id session_date : ℕ) (type : ObservationType)
    (policy : SourcePriorityPolicy) (rows : Observations)
    → let s = select authorized listing_id session_date type policy rows in
      ((r : SelectionResult) × (s ≡ returned r)) ⊎ (s ≡ raised no_eligible_observation)
unfolding select
select-outcome authorized listing_id session_date type policy rows =
    let candidates = current_publishable_by_source authorized listing_id session_date type rows in
    let s = select authorized listing_id session_date type policy rows in
    elim (Outcome-cases s) [
      | inl good ↦ inl good
      | inr (e, bad) ↦ elim (Option-cases (first_candidate policy.ordered_sources candidates)) [
        | inl n ↦ inr (rw (n, select) refl)
        | inr (x, found) ↦ ground (arith, found, bad)
      ]
    ]

module _ (w : World) (listing : ListingRef) (type : ObservationType) where
  build-returns :
      (d : ℕ)
      → CalendarAnswers w listing d
      → (out : ObservationOut) × (build_observation_out w listing d type ≡ returned out)
  unfolding build_observation_out answer
  build-returns d (e, says) =
      elim (select-outcome (authorized_in w) listing.id d type (priority_policy w.enabled_sources)
        w.observations) [
          | inl (r, good) ↦ (present_out listing d (value_out w.decisions r), rw good refl)
          | inr bad ↦ (absent_out listing d e, rw bad (rw says refl))
        ]

  -- Nothing is available on the date.
  abbrev pub IsUnavailable : ℕ → Type 0
  IsUnavailable d =
      (out : ObservationOut)
      → build_observation_out w listing d type ≡ returned out
      → is_ok out.availability ≡ false

  -- The answer is the last available one of the eleven days that end today, or today's if none is.
  abbrev pub IsLatest : (Observation → Type 0) → ℕ → ObservationOut → Type 0
  IsLatest Q today out =
      (d : ℕ) × (d ≤ today)
      × (today ≤ d + latest_lookback_days)
      × IsHonest Q w listing type d out
      × (((is_ok out.availability ≡ true)
            × ((later : ℕ) → d < later → later ≤ today → IsUnavailable later))
          ⊎ ((d ≡ today)
              × ((other : ℕ)
                  → today ≤ other + latest_lookback_days
                  → other ≤ today
                  → IsUnavailable other)))

  abbrev Searched : ℕ → ℕ → Type 0
  Searched today offset = (d : ℕ) → today < d + offset → d ≤ today → IsUnavailable d

  Searched-next :
      (today offset d : ℕ) (out : ObservationOut)
      → d + offset ≡ today
      → build_observation_out w listing d type ≡ returned out
      → is_ok out.availability ≡ false
      → Searched today offset
      → Searched today (offset + 1)
  Searched-next today offset d out at built absent before x far near o e =
      elim (Bool-cases (ltb today (x + offset))) [
        | inl later ↦ before x (ground (arith, later)) near o e
        | inr same ↦
            let own : x ≡ d = ground (arith, same, far, at) in
            let is_out : o ≡ out =
              ground (arith, e, built, ap (λ y. build_observation_out w listing y type) own) in
            subst (λ y. is_ok y.availability ≡ false) (sym is_out) absent
      ]

  look_back-IsLatest :
      (Q : Observation → Type 0) (rounds offset today : ℕ)
      → All Q w.observations
      → offset + rounds ≡ suc latest_lookback_days
      → latest_lookback_days < today
      → ((d : ℕ) → d ≤ today → CalendarAnswers w listing d)
      → Searched today offset
      → (out : ObservationOut) × (look_back rounds offset w listing type today ≡ returned out)
        × IsLatest Q today out
  unfolding look_back
  look_back-IsLatest Q zero offset today q bound far says before =
      let (out, built) = build-returns today (says today (omega arith)) in
      (
        out,
        built,
        (
          today,
          omega arith,
          omega arith,
          built-IsHonest Q w listing type today out q built,
          inr (refl, λ other in_window le. before other (omega (arith, in_window, bound)) le),
        ),
      )
  look_back-IsLatest Q (suc rounds) offset today q bound far says before =
      let d = today - offset in
      let there : minus_days today offset ≡ returned d =
        unfold minus_days in ground (arith, bound, far) in
      let at = minus_days-exact today offset there in
      let (out, built) = build-returns d (says d (omega arith)) in
      elim (Bool-cases (is_ok out.availability)) [
        | inl t ↦ (
          out,
          rw (there, built, t) refl,
          (
            d,
            omega arith,
            omega (arith, at, bound),
            built-IsHonest Q w listing type d out q built,
            inl (t, λ later gt le. before later (omega (arith, at, gt)) le),
          ),
        )
        | inr f ↦
            let (o, e, ok) =
              look_back-IsLatest Q rounds (offset + 1) today q (omega (arith, bound)) far says
                (Searched-next today offset d out at built f before) in
            (o, rw (there, built, f) e, ok)
      ]

  range_loop-returns :
      (rounds current end : ℕ)
      → rounds ≡ end + 1 - current
      → end < max_ordinal
      → ((d : ℕ) → d ≤ end → CalendarAnswers w listing d)
      → (outs : List ObservationOut) × (range_loop rounds w listing type current end
          ≡ returned outs)
  unfolding range_loop
  range_loop-returns zero current end enough last says = ([], refl)
  range_loop-returns (suc rounds) current end enough last says =
      let inside : leb current end ≡ true = ground (arith, enough) in
      let (out, built) = build-returns current (says current (omega (arith, enough))) in
      let after : next_day current ≡ returned (current + 1) =
        unfold next_day in ground (arith, enough, last) in
      let (outs, e) =
        range_loop-returns rounds (current + 1) end (omega (arith, enough)) last says in
      (out ∷ outs, rw (inside, built, after, e) refl)

-- When the calendar classifies the date, the API answers about it. The answer is of that listing
-- and date, it is available exactly when it carries a value, and it shows only the value of a
-- stored row of the type asked for whose source may be published now. A property `Q` of all stored
-- rows stands for being one of them.
pub build_observation_out-IsHonest :
    (Q : Observation → Type 0) (w : World) (listing : ListingRef) (type : ObservationType)
    (session_date : ℕ)
    → All Q w.observations
    → CalendarAnswers w listing session_date
    → (out : ObservationOut) × (build_observation_out w listing session_date type ≡ returned out)
      × IsHonest Q w listing type session_date out
build_observation_out-IsHonest Q w listing type session_date q says =
    let (out, built) = build-returns w listing type session_date says in
    (out, built, built-IsHonest Q w listing type session_date out q built)

-- When the calendar classifies the dates up to today, the request for the latest observation is
-- answered: with the answer about the last of the eleven days that end today on which a value may
-- be shown, or, when there is none in any of them, with the answer about today. It is honest as
-- the answer about its date is.
pub find_latest_observation-IsLatest :
    (Q : Observation → Type 0) (w : World) (listing : ListingRef) (type : ObservationType)
    (today : ℕ)
    → All Q w.observations
    → latest_lookback_days < today
    → ((d : ℕ) → d ≤ today → CalendarAnswers w listing d)
    → (out : ObservationOut) × (find_latest_observation w listing type today ≡ returned out)
      × IsLatest w listing type Q today out
unfolding find_latest_observation
find_latest_observation-IsLatest Q w listing type today q far says =
    look_back-IsLatest w listing type Q 11 0 today q refl far says
      (λ d gt le. absurd (omega (arith, gt, le)))

-- When the calendar classifies the dates up to the last one, which is before the last date there
-- is, a range is answered: with one honest answer for each date from the first to the last, in the
-- order of the dates.
pub build_observation_range-Answers :
    (Q : Observation → Type 0) (w : World) (listing : ListingRef) (type : ObservationType)
    (start end : ℕ)
    → All Q w.observations
    → end < max_ordinal
    → ((d : ℕ) → d ≤ end → CalendarAnswers w listing d)
    → (outs : List ObservationOut) × (build_observation_range w listing type start end
        ≡ returned outs)
      × Answers Q w listing type (dates_from start (end + 1 - start)) outs
unfolding build_observation_range
build_observation_range-Answers Q w listing type start end q last says =
    let (outs, e) = range_loop-returns w listing type (end + 1 - start) start end refl last says in
    (outs, e, ranged-Answers Q w listing type start end outs q e)
