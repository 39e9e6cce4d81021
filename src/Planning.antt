-- ===== src/Planning.antt =====
-- src/market_relay/domain/ingestion/planning.py, with the calendar port of
-- src/market_relay/ports/calendar.py. A date is its proleptic ordinal (`date.toordinal()`, from 1
-- to `max_ordinal`); the calendar is a parameter, for it is an adapter's.
pub mod Chunks
pub mod Sorting
pub mod Cursor
pub mod Plans
use market_relay.Prelude.{
  ℕ, zero, suc, ◌+◌, ◌-◌, String, List, [], ◌∷◌, ◌++◌, map, Bool, ◌&&◌, Option, none, some,
  if◌then◌else◌, ◌==◌, nat_eq, leb, ltb, length, take, drop, nat_beq, ◌≡◌, ◌↔◌, true, Eq, arith,
}
use market_relay.Catalog.{AssetClass}
use market_relay.Action.{Outcome, returned, raised, overflow_error, value_error, ◌>>=◌}

pub data SessionExpectation : Type 0 where
  expected_published waiting_for_publication no_session : SessionExpectation

pub record SessionCheck : Type 0 where
  pub session_date : ℕ
  pub expectation : SessionExpectation

-- asset_class, venue, mic, start, end
abbrev pub MarketCalendarPort : Type 0
MarketCalendarPort = AssetClass → String → Option String → ℕ → ℕ → Outcome (List SessionCheck)

pub record RecoveryLimits : Type 0 where
  pub max_lookback_days : ℕ
  pub max_sessions_per_chunk : ℕ

abbrev pub default_limits : RecoveryLimits
default_limits = record { max_lookback_days = 365; max_sessions_per_chunk = 20 }

pub record RecoveryChunk : Type 0 where
  pub start : ℕ
  pub end : ℕ
  pub session_dates : List ℕ

pub record RecoveryPlan : Type 0 where
  pub chunks : List RecoveryChunk
  pub waiting_for_publication : List ℕ
  pub skipped_no_session : List ℕ
  pub next_cursor : Option ℕ

unfoldable pub total_expected_sessions : RecoveryPlan → ℕ
total_expected_sessions plan = total plan.chunks
  where
    total : List RecoveryChunk → ℕ
    total [] = 0
    total (c ∷ cs) = length c.session_dates + total cs

-- `date.max`
abbrev pub max_ordinal : ℕ
max_ordinal = 3_652_059

-- Date arithmetic leaves the range of `date` with an OverflowError.
unfoldable pub minus_days : ℕ → ℕ → Outcome ℕ
minus_days d n = if leb d n then raised overflow_error else returned (d - n)

unfoldable pub next_day : ℕ → Outcome ℕ
next_day d = if leb max_ordinal d then raised overflow_error else returned (d + 1)

-- sorted(..., key=session_date), a stable sort
unfoldable pub insert_check : SessionCheck → List SessionCheck → List SessionCheck
insert_check c [] = c ∷ []
insert_check c (x ∷ xs) =
    let rest = insert_check c xs in
    if leb c.session_date x.session_date then c ∷ x ∷ xs else x ∷ rest

unfoldable pub sort_checks : List SessionCheck → List SessionCheck
unfolding insert_check
sort_checks [] = []
sort_checks (c ∷ cs) = insert_check c (sort_checks cs)

-- The three lists that the loop over the checks fills.
pub record Classified : Type 0 where
  pub expected : List ℕ
  pub waiting : List ℕ
  pub skipped : List ℕ

abbrev pub add_check : ℕ → SessionExpectation → Classified → Classified
add_check d expected_published k = record k { expected = d ∷ k.expected }
add_check d waiting_for_publication k = record k { waiting = d ∷ k.waiting }
add_check d no_session k = record k { skipped = d ∷ k.skipped }

unfoldable pub classify : List SessionCheck → Classified
classify [] = record { expected = []; waiting = []; skipped = [] }
classify (c ∷ cs) = add_check c.session_date c.expectation (classify cs)

abbrev pub last_of : ℕ → List ℕ → ℕ
last_of d [] = d
last_of d (x ∷ xs) = last_of x xs

abbrev pub chunk_of : ℕ → List ℕ → RecoveryChunk
chunk_of d ds = record { start = d; end = last_of d ds; session_dates = d ∷ ds }

-- for offset in range(0, len(expected), chunk_size), with `suc k` for the size; the number is the
-- rounds left, and the length of the list is enough.
unfoldable pub chunk_loop : ℕ → ℕ → List ℕ → List RecoveryChunk
chunk_loop rounds k [] = []
chunk_loop zero k (d ∷ ds) = []
chunk_loop (suc rounds) k (d ∷ ds) = chunk_of d (take k ds) ∷ chunk_loop rounds k (drop k ds)

unfoldable pub chunks_by : ℕ → List ℕ → Outcome (List RecoveryChunk)
unfolding chunk_loop
chunks_by zero expected = raised value_error
chunks_by (suc k) expected = returned (chunk_loop (length expected) k expected)

-- The loop over the leading `NO_SESSION` dates.
unfoldable pub advance_cursor : Option ℕ → List SessionCheck → Option ℕ
advance_cursor cursor [] = cursor
advance_cursor cursor (c ∷ cs) = elim c.expectation [
  | no_session ↦ advance_cursor (some c.session_date) cs
  | expected_published ↦ cursor
  | waiting_for_publication ↦ cursor
]

unfoldable pub plan_start : RecoveryLimits → Option ℕ → ℕ → Outcome ℕ
unfolding minus_days next_day
plan_start limits none today = minus_days today limits.max_lookback_days
plan_start limits (some last) today = do
  earliest_allowed ← minus_days today limits.max_lookback_days
  after ← next_day last
  returned (if ltb after earliest_allowed then earliest_allowed else after)

unfoldable pub plan_checks : RecoveryLimits → Option ℕ → List SessionCheck → Outcome RecoveryPlan
unfolding classify chunks_by advance_cursor
plan_checks limits last_completed_session checks = do
  let k = classify checks
  chunks ← chunks_by limits.max_sessions_per_chunk k.expected
  returned (record {
    chunks = chunks;
    waiting_for_publication = k.waiting;
    skipped_no_session = k.skipped;
    next_cursor = advance_cursor last_completed_session checks;
  })

abbrev pub nothing_to_plan : Option ℕ → RecoveryPlan
nothing_to_plan last = record {
  chunks = [];
  waiting_for_publication = [];
  skipped_no_session = [];
  next_cursor = last;
}

unfoldable pub plan :
    MarketCalendarPort
    → RecoveryLimits
    → AssetClass
    → String
    → Option String
    → Option ℕ
    → ℕ
    → Outcome RecoveryPlan
unfolding plan_start plan_checks sort_checks
plan calendar limits asset_class venue mic last_completed_session today = do
  start ← plan_start limits last_completed_session today
  if ltb today start then returned (nothing_to_plan last_completed_session) else (do
    checks ← calendar asset_class venue mic start today
    plan_checks limits last_completed_session (sort_checks checks))
