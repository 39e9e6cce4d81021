-- ===== src/Planning/Plans.antt =====
-- Whole plans.
use mathlib.Core.List.{Perm}
use market_relay.Prelude.{
  ℕ, suc, ◌+◌, ◌≤◌, ◌<◌, String, List, [], ◌∷◌, map, Bool, true, false, Option, none, some, ◌≡◌,
  ◌⊎◌, inl, inr, refl, ap, Bool-cases, ◌∙◌, arith, All, ltb, length,
}
use market_relay.Table.{Unique, select_where}
use market_relay.Action.{Error, Outcome-cases, returned, raised, overflow_error}
use market_relay.Catalog.{AssetClass}
use market_relay.Planning.{
  MarketCalendarPort, RecoveryLimits, RecoveryPlan, SessionCheck, SessionExpectation,
  expected_published, waiting_for_publication, no_session, plan, plan_start, plan_checks,
  sort_checks, classify, advance_cursor, nothing_to_plan, max_ordinal,
}
use market_relay.Planning.Chunks.{dates_of, IsBounded, chunk_loop-dates, chunk_loop-IsBounded}
use market_relay.Planning.Sorting.{sort_checks-perm, sort_checks-Ascending, date_of, Ascending}
use market_relay.Planning.Cursor.{PassesNoSession, advance_cursor-safe, advance_cursor-none}

is_expectation : SessionExpectation → SessionCheck → Bool
is_expectation expected_published c = elim c.expectation [ expected_published ↦ true | _ ↦ false ]
is_expectation waiting_for_publication c = elim c.expectation [
  | waiting_for_publication ↦ true
  | _ ↦ false
]
is_expectation no_session c = elim c.expectation [ no_session ↦ true | _ ↦ false ]

-- The dates of one expectation, in the order of the checks.
pub dates_with : SessionExpectation → List SessionCheck → List ℕ
unfolding select_where is_expectation
dates_with x checks = map date_of (select_where (is_expectation x) checks)

classify-dates :
    (checks : List SessionCheck)
    → ((classify checks).expected ≡ dates_with expected_published checks)
      × ((classify checks).waiting ≡ dates_with waiting_for_publication checks)
      × ((classify checks).skipped ≡ dates_with no_session checks)
unfolding classify dates_with
classify-dates [] = (refl, refl, refl)
classify-dates (c ∷ cs) = let ih = classify-dates cs in ground (arith, ih.0, ih.1, ih.2)

abbrev pub IsSafeCursor : Option ℕ → List SessionCheck → Option ℕ → Type 0
IsSafeCursor last checks none = last ≡ none
IsSafeCursor last checks (some c) = (some c ≡ last) ⊎ PassesNoSession c checks

advance_cursor-IsSafeCursor :
    (last : Option ℕ) (checks : List SessionCheck) (next : Option ℕ)
    → Ascending checks
    → advance_cursor last checks ≡ next
    → IsSafeCursor last checks next
advance_cursor-IsSafeCursor last checks none a h = advance_cursor-none last checks h
advance_cursor-IsSafeCursor last checks (some c) a h = advance_cursor-safe last checks c a h

-- What a plan is, given the calendar's checks: the chunks hold the expected sessions, in ascending
-- order and none left out; each chunk is non-empty, within the size, and ends at its last session;
-- waiting and skipped dates are those of the calendar; and the cursor is the last completed
-- session, or has passed dates without a session only.
pub record IsPlan (limits : RecoveryLimits) (last : Option ℕ) (checks : List SessionCheck)
    (p : RecoveryPlan) : Type 0 where
  pub sessions : dates_of p.chunks ≡ dates_with expected_published (sort_checks checks)
  pub bounded : All (IsBounded limits.max_sessions_per_chunk) p.chunks
  pub waiting : p.waiting_for_publication ≡ dates_with waiting_for_publication (sort_checks checks)
  pub skipped : p.skipped_no_session ≡ dates_with no_session (sort_checks checks)
  pub sorted : Perm (sort_checks checks) checks × Ascending (sort_checks checks)
  pub cursor : IsSafeCursor last (sort_checks checks) p.next_cursor

plan_checks-IsPlan :
    (lookback size : ℕ) (last : Option ℕ) (checks : List SessionCheck)
    → Unique date_of checks
    → let limits : RecoveryLimits = record {
      max_lookback_days = lookback;
      max_sessions_per_chunk = suc size;
    } in
      (p : RecoveryPlan) × (plan_checks limits last (sort_checks checks) ≡ returned p)
      × IsPlan limits last checks p
unfolding plan_checks
plan_checks-IsPlan lookback size last checks u =
    let sorted = sort_checks checks in
    let k = classify sorted in
    let dates = classify-dates sorted in
    let ascending = sort_checks-Ascending checks u in
    (
      _,
      refl,
      record {
        sessions = chunk_loop-dates _ size k.expected (omega arith) ∙ dates.0;
        bounded = chunk_loop-IsBounded (length k.expected) size k.expected;
        waiting = dates.1;
        skipped = dates.2;
        sorted = (sort_checks-perm checks, ascending);
        cursor = advance_cursor-IsSafeCursor last sorted _ ascending refl;
      },
    )

abbrev pub IsAfter : ℕ → Option ℕ → Type 0
IsAfter start none = Unit
IsAfter start (some l) = l < start

abbrev pub IsNextDay : ℕ → Option ℕ → Type 0
IsNextDay start none = ⊥
IsNextDay start (some l) = start ≡ l + 1

-- Where planning starts: never before the lookback allows and always after the last completed
-- session; and no later than that, for it is one of the two limits.
abbrev pub IsStart : RecoveryLimits → Option ℕ → ℕ → ℕ → Type 0
IsStart limits last today start =
    (today ≤ start + limits.max_lookback_days)
    × IsAfter start last
    × ((start + limits.max_lookback_days ≡ today) ⊎ IsNextDay start last)

-- The lookback goes back past the first date, or the last completed session is the last date.
abbrev pub LeavesRange : RecoveryLimits → Option ℕ → ℕ → Type 0
LeavesRange limits none today = today ≤ limits.max_lookback_days
LeavesRange limits (some l) today = (today ≤ limits.max_lookback_days) ⊎ (max_ordinal ≤ l)

plan_start-bounds :
    (limits : RecoveryLimits) (last : Option ℕ) (today start : ℕ)
    → plan_start limits last today ≡ returned start
    → IsStart limits last today start
unfolding plan_start
plan_start-bounds limits none today start h = (ground arith, tt, inl (ground arith))
plan_start-bounds limits (some l) today start h = (ground arith, ground arith, ground arith)

plan_start-LeavesRange :
    (limits : RecoveryLimits) (last : Option ℕ) (today : ℕ) (e : Error)
    → plan_start limits last today ≡ raised e
    → (e ≡ overflow_error) × LeavesRange limits last today
unfolding plan_start
plan_start-LeavesRange limits none today e h = ground arith
plan_start-LeavesRange limits (some l) today e h = ground arith

-- What planning comes to: with a chunk size above 0, and for every calendar that classifies each date
-- from where planning starts up to today once, it raises OverflowError, and then it leaves the range of dates; or
-- it starts where it should, and then returns a plan without chunks and with the cursor as it was when
-- that is after today, and otherwise the plan of what the calendar says from there.
pub plan-IsPlan :
    (calendar : MarketCalendarPort) (lookback size : ℕ) (asset_class : AssetClass) (venue : String)
    (mic : Option String) (last : Option ℕ) (today : ℕ) (checks : ℕ → List SessionCheck)
    → let limits : RecoveryLimits = record {
      max_lookback_days = lookback;
      max_sessions_per_chunk = suc size;
    } in
      ((start : ℕ)
        → IsStart limits last today start
        → start ≤ today
        → (calendar asset_class venue mic start today ≡ returned (checks start))
          × Unique date_of (checks start))
      → let out = plan calendar limits asset_class venue mic last today in
        ((out ≡ raised overflow_error) × LeavesRange limits last today)
        ⊎ ((start : ℕ) × IsStart limits last today start
            × (((today < start) × (out ≡ returned (nothing_to_plan last)))
                ⊎ ((start ≤ today)
                    × ((p : RecoveryPlan) × (out ≡ returned p)
                        × IsPlan limits last (checks start) p))))
unfolding plan
plan-IsPlan calendar lookback size asset_class venue mic last today checks says =
    let limits : RecoveryLimits = record {
      max_lookback_days = lookback;
      max_sessions_per_chunk = suc size;
    } in
    elim (Outcome-cases (plan_start limits last today)) [
      | inr (e, h) ↦
          let (same, leaves) = plan_start-LeavesRange limits last today e h in
          inl (rw (h, plan) (ap raised same), leaves)
      | inl (start, h) ↦ inr (
        start,
        plan_start-bounds limits last today start h,
        elim (Bool-cases (ltb today start)) [
          | inl over ↦ inl (ground (arith, over), rw (h, over, plan) refl)
          | inr open_range ↦
              let le : start ≤ today = ground (arith, open_range) in
              let (answers, u) = says start (plan_start-bounds limits last today start h) le in
              let (p, e, ok) = plan_checks-IsPlan lookback size last (checks start) u in
              inr (le, (p, rw (h, open_range, answers, plan) e, ok))
        ],
      )
    ]
