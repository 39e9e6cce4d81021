-- ===== src/View/Range.antt =====
-- The dates of a range of answers.
use market_relay.Prelude.{
  ℕ, zero, suc, ◌+◌, ◌-◌, List, [], ◌∷◌, ◌≡◌, refl, subst, arith, All, leb, true,
}
use market_relay.Action.{returned, WhenReturned, WhenReturned-bind, WhenReturned-use, ◌>>=◌}
use market_relay.Planning.{next_day}
use market_relay.Observations.Models.{Observation, ObservationType}
use market_relay.View.{
  ObservationOut, ListingRef, World, build_observation_out, range_loop, build_observation_range,
}
use market_relay.View.Values.{IsHonest, built-IsHonest}

-- `n` dates, from `start` on.
abbrev pub dates_from : ℕ → ℕ → List ℕ
dates_from start zero = []
dates_from start (suc n) = start ∷ dates_from (start + 1) n

next_day-exact : (d : ℕ) {next : ℕ} → next_day d ≡ returned next → next ≡ d + 1
unfolding next_day
next_day-exact d h = ground (arith, h)

module _ (Q : Observation → Type 0) (w : World) (listing : ListingRef)
    (type : ObservationType) where
  -- One honest answer for each date, in the order of the dates.
  abbrev pub Answers : List ℕ → List ObservationOut → Type 0
  Answers [] [] = Unit
  Answers [] (out ∷ outs) = ⊥
  Answers (d ∷ ds) [] = ⊥
  Answers (d ∷ ds) (out ∷ outs) = IsHonest Q w listing type d out × Answers ds outs

  range_loop-Answers :
      (rounds current end : ℕ)
      → All Q w.observations
      → rounds ≡ end + 1 - current
      → WhenReturned
          (Answers (dates_from current rounds))
          (range_loop rounds w listing type current end)
  unfolding range_loop
  range_loop-Answers zero current end q enough = tt
  range_loop-Answers (suc rounds) current end q enough =
      let inside : leb current end ≡ true = ground (arith, enough) in
      let R = Answers (current ∷ dates_from (current + 1) rounds) in
      let tail = range_loop rounds w listing type in
      rw (inside, range_loop)
        (WhenReturned-bind R (build_observation_out w listing current type)
          (λ out. next_day current >>= λ next. tail next end >>= λ rest. returned (out ∷ rest))
          (λ out built.
            WhenReturned-bind R (next_day current)
              (λ next. tail next end >>= λ rest. returned (out ∷ rest))
              (λ next after.
                let is_next = next_day-exact current after in
                let later = range_loop-Answers rounds next end q (omega (arith, is_next, enough)) in
                WhenReturned-bind R (tail next end) (λ rest. returned (out ∷ rest))
                  (λ rest listed. (
                    built-IsHonest Q w listing type current out q built,
                    subst (λ d. Answers (dates_from d rounds) rest) is_next
                        (WhenReturned-use (Answers (dates_from next rounds)) (tail next end) later
                          listed),
                  )))))

pub ranged-Answers :
    (Q : Observation → Type 0) (w : World) (listing : ListingRef) (type : ObservationType)
    (start end : ℕ) (outs : List ObservationOut)
    → All Q w.observations
    → build_observation_range w listing type start end ≡ returned outs
    → Answers Q w listing type (dates_from start (end + 1 - start)) outs
unfolding build_observation_range
ranged-Answers Q w listing type start end outs q h =
    WhenReturned-use (Answers Q w listing type (dates_from start (end + 1 - start)))
      (build_observation_range w listing type start end)
      (range_loop-Answers Q w listing type (end + 1 - start) start end q refl) h
