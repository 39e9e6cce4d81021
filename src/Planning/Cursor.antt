-- ===== src/Planning/Cursor.antt =====
-- The cursor of a plan only passes dates that need no data.
use market_relay.Prelude.{
  ℕ, ◌≤◌, List, [], ◌∷◌, Option, none, some, ◌≡◌, ◌⊎◌, inl, inr, refl, sym, arith, All, All-mono,
}
use market_relay.Planning.{
  SessionCheck, SessionExpectation, expected_published, waiting_for_publication, no_session,
  advance_cursor,
}
use market_relay.Planning.Sorting.{Ascending, date_of}

abbrev pub PassesNoSession : ℕ → List SessionCheck → Type 0
PassesNoSession cursor = All (λ c. date_of c ≤ cursor → c.expectation ≡ no_session)

passes_head :
    (c : SessionCheck) (cs : List SessionCheck) (cursor : ℕ)
    → Ascending (c ∷ cs)
    → c.expectation ≡ no_session
    → ((some cursor ≡ some c.session_date) ⊎ PassesNoSession cursor cs)
    → PassesNoSession cursor (c ∷ cs)
passes_head c cs cursor a e (inl same) =
    (λ _. e, All-mono (λ x lt le. absurd (ground (arith, same, lt, le))) cs a.0)
passes_head c cs cursor a e (inr rest) = (λ _. e, rest)

advance_cursor-by :
    (last : Option ℕ) (c : SessionCheck) (cs : List SessionCheck) (cursor : ℕ)
    (x : SessionExpectation)
    → c.expectation ≡ x
    → Ascending (c ∷ cs)
    → (advance_cursor (some c.session_date) cs ≡ some cursor
        → (some cursor ≡ some c.session_date) ⊎ PassesNoSession cursor cs)
    → advance_cursor last (c ∷ cs) ≡ some cursor
    → (some cursor ≡ last) ⊎ PassesNoSession cursor (c ∷ cs)
unfolding advance_cursor
advance_cursor-by last c cs cursor no_session e a rest h =
    inr (passes_head c cs cursor a e (rest (ground (arith, e, h))))
advance_cursor-by last c cs cursor expected_published e a rest h = inl (ground (arith, e, h))
advance_cursor-by last c cs cursor waiting_for_publication e a rest h = inl (ground (arith, e, h))

pub advance_cursor-safe :
    (last : Option ℕ) (checks : List SessionCheck) (cursor : ℕ)
    → Ascending checks
    → advance_cursor last checks ≡ some cursor
    → (some cursor ≡ last) ⊎ PassesNoSession cursor checks
unfolding advance_cursor
advance_cursor-safe last [] cursor a h = inl (sym h)
advance_cursor-safe last (c ∷ cs) cursor a h =
    advance_cursor-by last c cs cursor c.expectation refl a
      (advance_cursor-safe (some c.session_date) cs cursor a.1) h

pub advance_cursor-none :
    (last : Option ℕ) (checks : List SessionCheck) → advance_cursor last checks ≡ none → last ≡ none
unfolding advance_cursor
advance_cursor-none last [] h = h
advance_cursor-none last (c ∷ cs) h =
    let rest = advance_cursor-none (some c.session_date) cs in ground (arith, rest)
