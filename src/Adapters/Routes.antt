-- ===== src/Adapters/Routes.antt =====
-- The calendar of a listing, as `get_calendar_for_listing` of src/market_relay/adapters/registry.py
-- resolves it.
use market_relay.Prelude.{String, Option, none, some}
use market_relay.Dict.{Dict}
use market_relay.Governance.Credentials.{Text, codes}
use market_relay.Action.{Outcome, returned, ◌>>=◌}
use market_relay.Catalog.{Listing}
use market_relay.Planning.{MarketCalendarPort}
use market_relay.Adapters.{Registry, get_calendar_for_listing}

-- The registry with the calendar's method of what it holds, the routes, and Python's `str.upper`.
pub record Adapters (P : Type 0) : Type 0 where
  pub registry : Registry P
  pub calendar_of : P → MarketCalendarPort
  pub calendar_routes : Dict Text String
  pub upper : Text → Text

abbrev text_of : Option String → Option Text
text_of none = none
text_of (some s) = some (codes s)

abbrev pub calendar_for : {P : Type 0} → Adapters P → Listing → Outcome MarketCalendarPort
calendar_for a listing =
    get_calendar_for_listing a.upper a.calendar_routes (text_of listing.mic) (codes listing.venue)
      a.registry
    >>= λ adapter. returned (a.calendar_of adapter)
