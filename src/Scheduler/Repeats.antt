-- ===== src/Scheduler/Repeats.antt =====
-- A refresh that is run again on the same day.
use market_relay.Prelude.{
  ℕ, ◌+◌, String, List, [], ◌∷◌, Option, ◌≡◌, refl, sym, subst, ◌∙◌, arith, All, All-mono, inl, inr,
}
use market_relay.Action.{Outcome-cases, returned}
use market_relay.Catalog.{get_listing}
use market_relay.Planning.{RecoveryLimits}
use market_relay.Queue.{Jobs}
use market_relay.Dispatch.Stored.{KeepsKeys}
use market_relay.Scheduler.Refresh.{
  RefreshWorld, ports_of, refresh_source, refresh_from, refresh_and_dispatch, identities_of,
}
use market_relay.Scheduler.Settling.{
  Settled, SettledListing-kept, IsQuiet, append-empty, consider_each-Settled, consider_each-IsQuiet,
}

module _ {P : Type 0} (w : RefreshWorld P) (limits : Option RecoveryLimits) (today : ℕ)
    (max_listings : ℕ) where
  -- The source is registered and its listings are settled.
  abbrev SettledSource : Jobs → String → Type 0
  SettledSource jobs source =
      (port : P) × (ports_of w source ≡ returned port)
      × All (Settled w limits today source jobs)
          (identities_of source today max_listings w.catalog.external_identities)

  SettledSource-kept :
      (jobs jobs' : Jobs) (source : String)
      → KeepsKeys jobs jobs'
      → SettledSource jobs source
      → SettledSource jobs' source
  SettledSource-kept jobs jobs' source k (port, found, settled) = (
    port,
    found,
    All-mono
        (λ identity.
          SettledListing-kept w limits today source identity jobs jobs'
            (get_listing identity.listing_id w.catalog) k)
        _ settled,
  )

  module _ (now retry : ℕ) where
    refresh_source-Settled :
        (i : ℕ) (source : String) (jobs : Jobs)
        → let r =
            refresh_source w limits now today retry max_listings i source
              (ports_of w source)
              jobs in
          KeepsKeys jobs r.1 × (r.0.refresh_errors ≡ [] → SettledSource r.1 source)
    unfolding refresh_source
    refresh_source-Settled i source jobs = elim (Outcome-cases (ports_of w source)) [
      | inr (e, missing) ↦ rw missing (λ key h. h, λ h. absurd (cc h))
      | inl (port, found) ↦
          let (keeps, settles) =
            consider_each-Settled w limits today now retry i source
              (identities_of source today max_listings w.catalog.external_identities) jobs in
          rw found (keeps, λ h. (port, refl, settles h))
    ]

    refresh_source-IsQuiet :
        (i : ℕ) (source : String) (jobs : Jobs)
        → SettledSource jobs source
        → IsQuiet jobs
            (refresh_source w limits now today retry max_listings i source (ports_of w source) jobs)
    unfolding refresh_source
    refresh_source-IsQuiet i source jobs (port, found, settled) =
        rw found (consider_each-IsQuiet w limits today now retry i source _ jobs settled)

    refresh_from-Settled :
        (i : ℕ) (sources : List String) (jobs : Jobs)
        → let r = refresh_from w limits now today retry max_listings i sources jobs in
          KeepsKeys jobs r.1 × (r.0.refresh_errors ≡ [] → All (SettledSource r.1) sources)
    unfolding refresh_from
    refresh_from-Settled i [] jobs = (λ key h. h, λ h. tt)
    refresh_from-Settled i (source ∷ sources) jobs =
        let own =
          refresh_source w limits now today retry max_listings i source (ports_of w source) jobs in
        let (keeps, settles) = refresh_source-Settled i source jobs in
        let (keeps', settles') =
          refresh_from-Settled (i + own.0.listings_considered) sources own.1 in
        (
          λ key h. keeps' key (keeps key h),
          λ h.
              let (none_own, none_rest) = append-empty own.0.refresh_errors _ h in
              (SettledSource-kept own.1 _ source keeps' (settles none_own), settles' none_rest),
        )

    refresh_from-IsQuiet :
        (i : ℕ) (sources : List String) (jobs : Jobs)
        → All (SettledSource jobs) sources
        → IsQuiet jobs (refresh_from w limits now today retry max_listings i sources jobs)
    unfolding refresh_from
    refresh_from-IsQuiet i [] jobs h = (refl, refl, refl)
    refresh_from-IsQuiet i (source ∷ sources) jobs (own, rest) =
        let r =
          refresh_source w limits now today retry max_listings i source (ports_of w source) jobs in
        let (same, none_own, ok) = refresh_source-IsQuiet i source jobs own in
        let (same', none_rest, ok') =
          refresh_from-IsQuiet (i + r.0.listings_considered) sources r.1
            (subst (λ js. All (SettledSource js) sources) (sym same) rest) in
        (same' ∙ same, omega (arith, none_own, none_rest), rw (ok, ok') refl)

-- The same tables and adapters, with other identifiers for new rows and at another instant.
abbrev pub later : {P : Type 0} → (ℕ → ℕ → ℕ) → ℕ → RefreshWorld P → RefreshWorld P
later uuid utcnow w = record w { uuid = uuid; utcnow = utcnow }

-- A refresh ended without an error, and is run again on the same day, before an observation was
-- recorded or the catalog changed, at another time and with other identifiers for new rows: the
-- second time changes no job, enqueues none and has no error, however the sources share listings.
pub refresh_and_dispatch-idempotent :
    {P : Type 0} (w : RefreshWorld P) (limits : Option RecoveryLimits) (today max_listings : ℕ)
    (sources : List String) (now now' retry retry' utcnow' : ℕ) (uuid' : ℕ → ℕ → ℕ) (jobs : Jobs)
    → let r = refresh_and_dispatch w limits now today retry max_listings sources jobs in
      r.0.refresh_errors ≡ []
      → IsQuiet r.1 (
          refresh_and_dispatch
            (later uuid' utcnow' w)
            limits
            now'
            today
            retry'
            max_listings
            sources
            r.1)
unfolding refresh_and_dispatch
refresh_and_dispatch-idempotent w limits today max_listings sources now now' retry retry' utcnow'
      uuid' jobs h =
    refresh_from-IsQuiet (later uuid' utcnow' w) limits today max_listings now' retry' 0 sources _
      ((refresh_from-Settled w limits today max_listings now retry 0 sources jobs).1 h)
