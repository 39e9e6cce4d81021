-- ===== src/Adapters/Fake.antt =====
-- src/market_relay/adapters/fake/provider.py: the deterministic provider. `_deterministic_price`, which
-- hashes its text, is an argument, as are `str.upper` and the ISO form of a date.

pub mod Search
pub mod Quota
pub mod Sessions
pub mod Fetching
use Prim.Native.Nat.{◌%◌}
use Prim.Native.String.{◌++◌}
use market_relay.Prelude.{
  ℕ, zero, suc, ◌+◌, ◌-◌, String, List, [], ◌∷◌, Bool, Option, none, some, if◌then◌else◌, ◌==◌, leb,
  ltb, nat_eq, string_eq,
}
use market_relay.Governance.Credentials.{Text, codes}
use market_relay.Dict.{Dict, get, put}
use market_relay.Action.{Outcome, returned, ◌>>=◌}
use market_relay.Catalog.{AssetClass, equity, etf, fund, crypto}
use market_relay.Decimals.{Decimal}
use market_relay.Observations.Models.{eod_close}
use market_relay.Planning.{
  SessionExpectation, SessionCheck, MarketCalendarPort, expected_published, waiting_for_publication,
  no_session, next_day,
}
use market_relay.Ingestion.{RawObservation, QuotaStatus, exhausted}
use market_relay.Ingestion.Runner.{QuotaPort}

abbrev pub source_name : String
source_name = "fake"

-- `date.weekday()`, from Monday at 0: the ordinal 1 is a Monday.
unfoldable pub weekday : ℕ → ℕ
weekday d = (d + 6) % 7

-- `_expectation`
unfoldable pub expectation : AssetClass → ℕ → SessionExpectation
unfolding weekday
expectation crypto d = expected_published
expectation fund d =
    if leb 5 (weekday d)
    then no_session
    else if weekday d == 4
    then waiting_for_publication
    else expected_published
expectation equity d = if leb 5 (weekday d) then no_session else expected_published
expectation etf d = if leb 5 (weekday d) then no_session else expected_published

abbrev pub check_on : AssetClass → ℕ → SessionCheck
check_on asset_class d = record { session_date = d; expectation = expectation asset_class d }

-- The loop over the dates; the number is the rounds left, which the dates of the range bound.
unfoldable pub sessions_loop : ℕ → AssetClass → ℕ → ℕ → Outcome (List SessionCheck)
unfolding expectation next_day
sessions_loop zero asset_class current end = returned []
sessions_loop (suc rounds) asset_class current end =
    if leb current end
    then (do
      next ← next_day current
      rest ← sessions_loop rounds asset_class next end
      returned (check_on asset_class current ∷ rest))
    else returned []

unfoldable pub sessions_in_range : MarketCalendarPort
unfolding sessions_loop
sessions_in_range asset_class venue mic start end =
    sessions_loop (end + 1 - start) asset_class start end

module _ (deterministic_price : String → Decimal) (isoformat : ℕ → String) where
  abbrev pub raw_on : String → ℕ → RawObservation
  raw_on external_listing_id d =
      let close = deterministic_price (external_listing_id ++ "|" ++ isoformat d) in
      record {
        external_listing_id = external_listing_id;
        session_date = d;
        observation_type = eod_close;
        currency = codes "EUR";
        close = close;
        «open» = some close;
        high = some close;
        low = some close;
        adjusted_close = some close;
      }

  unfoldable pub fetch_loop : ℕ → String → ℕ → ℕ → Outcome (List RawObservation)
  unfolding weekday next_day
  fetch_loop zero external_listing_id current end = returned []
  fetch_loop (suc rounds) external_listing_id current end =
      if leb current end
      then (do
        next ← next_day current
        rest ← fetch_loop rounds external_listing_id next end
        returned
            (if ltb (weekday current) 5 then raw_on external_listing_id current ∷ rest else rest))
      else returned []

  unfoldable pub fetch_range : String → ℕ → ℕ → Outcome (List RawObservation)
  unfolding fetch_loop
  fetch_range external_listing_id start end =
      fetch_loop (end + 1 - start) external_listing_id start end

-- `FakeQuotaBook`
pub record QuotaBook : Type 0 where
  pub limit : ℕ
  pub consumed : Dict String ℕ

abbrev pub or_none_consumed : Option ℕ → ℕ
or_none_consumed none = 0
or_none_consumed (some n) = n

abbrev pub consumed_by : String → QuotaBook → ℕ
consumed_by source book = or_none_consumed (get source book.consumed)

unfoldable pub check : String → QuotaBook → QuotaStatus
unfolding get
check source book = record {
  source = source;
  remaining = book.limit - consumed_by source book;
  limit = book.limit;
  reset_at = none;
}

unfoldable pub consume : String → ℕ → QuotaBook → QuotaStatus × QuotaBook
unfolding check exhausted put get
consume source cost book =
    let status = check source book in
    let book' = record book {
      consumed = put source (consumed_by source book + cost) book.consumed;
    } in
    if exhausted status then (status, book) else (check source book', book')

-- `check` and `consume` of the provider.
unfoldable pub quota_port : QuotaPort QuotaBook
unfolding check consume
quota_port = record {
  check = λ source book. (returned (check source book), book);
  consume = λ source cost book. let r = consume source cost book in (returned r.0, r.1);
}
