-- ===== src/Tests/Providers.antt =====
-- The deterministic provider on concrete dates: 739_994 is Wednesday, 2027-01-13.
use market_relay.Prelude.{ℕ, String, List, [], ◌∷◌, Bool, true, false, none, ◌≡◌, refl, ◌-◌, length}
use market_relay.Table.{select_where}
use market_relay.Action.{returned, raised, unknown_source, overflow_error}
use market_relay.Governance.Credentials.{Text, codes}
use market_relay.Decimals.{Decimal, finite}
use market_relay.Catalog.{equity, fund, crypto}
use market_relay.Planning.{expected_published, waiting_for_publication, no_session, max_ordinal}
use market_relay.View.Range.{dates_from}
use market_relay.Adapters.{Registry, historical, quota, get_port, view_set, view_delete}
use market_relay.Adapters.Fake.{QuotaBook, expectation, weekday, sessions_in_range, consumed_by}
use market_relay.Adapters.Fake.Quota.{
  QuotaCall, check_call, consume_call, run, replay, run-replay, status_of, Left,
}
use market_relay.Adapters.Fake.Search.{search}
use market_relay.Adapters.Fake.Fetching.{is_weekday}

wednesday : weekday 739_994 ≡ 2
unfolding weekday
wednesday = refl

friday_fund : expectation fund 739_996 ≡ waiting_for_publication
unfolding expectation
friday_fund = refl

saturday : expectation equity 739_997 ≡ no_session
unfolding expectation
saturday = refl

saturday_crypto : expectation crypto 739_997 ≡ expected_published
unfolding expectation
saturday_crypto = refl

last_date : sessions_in_range equity "XETR" none max_ordinal max_ordinal ≡ raised overflow_error
unfolding sessions_in_range
last_date = refl

abbrev price : String → Decimal
price seed = finite false 4_242 2

abbrev iso : ℕ → String
iso d = "a day"

-- A week has five sessions.
five :
    select_where is_weekday (dates_from 739_994 7)
    ≡ 739_994 ∷ 739_995 ∷ 739_996 ∷ 739_999 ∷ 740_000 ∷ []
unfolding select_where weekday
five = refl

abbrev pub book : QuotaBook
book = record { limit = 5; consumed = ("fake", 2) ∷ [] }

abbrev calls : List QuotaCall
calls =
    consume_call "fake" 2 ∷ check_call "other" ∷ consume_call "fake" 4 ∷ consume_call "fake" 1 ∷ []

abbrev left : Left
left source = book.limit - consumed_by source book

run-replay_example : run calls book ≡ replay 5 calls left
run-replay_example = run-replay calls book left (λ source. refl)

spent :
    run calls book
    ≡ status_of 5 "fake" 1
      ∷ status_of 5 "other" 5
      ∷ status_of 5 "fake" 0
      ∷ status_of 5 "fake" 0
      ∷ []
unfolding run
spent = refl

abbrev as_is : Text → Text
as_is t = t

two_markets :
    length (
      search as_is (record {
        query = codes " DE0007164600 ";
        asset_class = none;
        currency = none;
        mic = none;
      }))
    ≡ 2
unfolding search
two_markets = refl

-- A registry whose one adapter is the number 0.
abbrev pub empty : Registry ℕ
empty = record {
  discovery_adapters = [];
  metadata_adapters = [];
  historical_adapters = [];
  latest_adapters = [];
  calendar_adapters = [];
  quota_adapters = [];
}

abbrev pub every : ℕ → String → Bool
every adapter method = true

registered : get_port historical "fake" (view_set every "fake" 0 empty) ≡ returned 0
unfolding get_port view_set
registered = refl

not_registered : get_port quota "other" (view_set every "fake" 0 empty) ≡ raised unknown_source
unfolding get_port view_set
not_registered = refl

nothing_to_delete : view_delete "fake" empty ≡ none
unfolding view_delete
nothing_to_delete = refl
