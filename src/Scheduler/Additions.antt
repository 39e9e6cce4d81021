-- ===== src/Scheduler/Additions.antt =====
-- What a refresh leaves of the jobs that were there.
use market_relay.Prelude.{ℕ, suc, ◌+◌, String, List, [], ◌∷◌, Option, none, some}
use market_relay.Action.{Outcome, returned, raised}
use market_relay.Catalog.{Listing, Instrument, ExternalIdentity, get_instrument, get_listing}
use market_relay.Planning.{MarketCalendarPort, RecoveryLimits}
use market_relay.Queue.{Jobs}
use market_relay.Dispatch.{DispatchResult, Target}
use market_relay.Dispatch.Extending.{Extends, Extends-refl, Extends-trans, plan_and_enqueue-Extends}
use market_relay.Adapters.Routes.{calendar_for}
use market_relay.Scheduler.Refresh.{
  RefreshWorld, account, target_of, last_of_target, ports_of, dispatch_with, dispatch_listing,
  consider, consider_each, identities_of, refresh_source, refresh_from, refresh_and_dispatch,
}

account-Extends :
    (source : String) (jobs : Jobs) (r : Outcome DispatchResult × Jobs)
    → Extends jobs r.1
    → Extends jobs (account source r).1
unfolding account
account-Extends source jobs (raised e, jobs') h = h
account-Extends source jobs (returned d, jobs') h = h

module _ {P : Type 0} (w : RefreshWorld P) (limits : Option RecoveryLimits)
    (now today retry : ℕ) where
  dispatch_with-Extends :
      (i : ℕ) (t : Target) (o : Outcome MarketCalendarPort) (jobs : Jobs)
      → Extends jobs (dispatch_with w limits now today retry i t o jobs).1
  unfolding dispatch_with
  dispatch_with-Extends i t (raised e) jobs = Extends-refl jobs
  dispatch_with-Extends i t (returned calendar) jobs =
      plan_and_enqueue-Extends w.codec calendar limits t (last_of_target w t) (w.uuid i) w.utcnow
        today now retry jobs

  dispatch_listing-Extends :
      (i : ℕ) (source : String) (identity : ExternalIdentity) (listing : Listing)
      (o : Option Instrument) (jobs : Jobs)
      → Extends jobs (dispatch_listing w limits now today retry i source identity listing o jobs).1
  unfolding dispatch_listing
  dispatch_listing-Extends i source identity listing none jobs = Extends-refl jobs
  dispatch_listing-Extends i source identity listing (some instrument) jobs =
      dispatch_with-Extends i (target_of instrument.asset_class listing identity source)
        (calendar_for w.adapters listing) jobs

  consider-Extends :
      (i : ℕ) (source : String) (identity : ExternalIdentity) (o : Option Listing) (jobs : Jobs)
      → Extends jobs (consider w limits now today retry i source identity o jobs).1
  unfolding consider
  consider-Extends i source identity none jobs = Extends-refl jobs
  consider-Extends i source identity (some listing) jobs = account-Extends source jobs _ (
      dispatch_listing-Extends i source identity listing
        (get_instrument listing.instrument_id w.catalog) jobs)

  consider_each-Extends :
      (i : ℕ) (source : String) (identities : List ExternalIdentity) (jobs : Jobs)
      → Extends jobs (consider_each w limits now today retry i source identities jobs).1
  unfolding consider_each
  consider_each-Extends i source [] jobs = Extends-refl jobs
  consider_each-Extends i source (identity ∷ identities) jobs =
      let o = get_listing identity.listing_id w.catalog in
      let own = consider w limits now today retry i source identity o jobs in
      Extends-trans jobs own.1 _ (consider-Extends i source identity o jobs)
        (consider_each-Extends (suc i) source identities own.1)

  refresh_source-Extends :
      (most i : ℕ) (source : String) (o : Outcome P) (jobs : Jobs)
      → Extends jobs (refresh_source w limits now today retry most i source o jobs).1
  unfolding refresh_source
  refresh_source-Extends most i source (raised e) jobs = Extends-refl jobs
  refresh_source-Extends most i source (returned port) jobs =
      consider_each-Extends i source (identities_of source today most w.catalog.external_identities)
        jobs

  refresh_from-Extends :
      (most i : ℕ) (sources : List String) (jobs : Jobs)
      → Extends jobs (refresh_from w limits now today retry most i sources jobs).1
  unfolding refresh_from
  refresh_from-Extends most i [] jobs = Extends-refl jobs
  refresh_from-Extends most i (source ∷ sources) jobs =
      let own = refresh_source w limits now today retry most i source (ports_of w source) jobs in
      Extends-trans jobs own.1 _ (refresh_source-Extends most i source (ports_of w source) jobs)
        (refresh_from-Extends most (i + own.0.listings_considered) sources own.1)

  -- A refresh only adds jobs, whatever its calendars and routes come to: each job that was there is
  -- there as it was, also one that another worker holds, and identifiers that are unique stay unique.
  pub refresh_and_dispatch-Extends :
      (most : ℕ) (sources : List String) (jobs : Jobs)
      → Extends jobs (refresh_and_dispatch w limits now today retry most sources jobs).1
  unfolding refresh_and_dispatch
  refresh_and_dispatch-Extends most sources jobs = refresh_from-Extends most 0 sources jobs
