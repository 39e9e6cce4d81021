-- ===== src/Scheduler/Settling.antt =====
-- The listings that a refresh has settled, and what it does about settled listings.
use market_relay.Prelude.{
  ℕ, suc, String, List, [], ◌∷◌, ◌++◌, false, Option, none, some, ◌≡◌, refl, sym, ap, subst, ◌∙◌,
  arith, All, Option-cases, inl, inr,
}
use market_relay.Table.{count_where}
use market_relay.Action.{Outcome, Outcome-cases, returned, raised}
use market_relay.Catalog.{ExternalIdentity, Listing, Instrument, get_listing, get_instrument}
use market_relay.Planning.{MarketCalendarPort, RecoveryLimits}
use market_relay.Queue.{Jobs, EnqueueResult}
use market_relay.Dispatch.{DispatchResult, plan_and_enqueue}
use market_relay.Dispatch.Stored.{IsOld, KeepsKeys, IsStored-kept}
use market_relay.Dispatch.Replanning.{
  IsSettled, plan_and_enqueue-IsSettled, plan_and_enqueue-settled,
}
use market_relay.Adapters.Routes.{calendar_for}
use market_relay.Scheduler.Refresh.{
  RefreshWorld, RefreshOutcome, target_of, created_by, waiting_created, is_created, last_of_target,
  dispatch_with, dispatch_listing, account, consider, consider_each,
}

count_where-old :
    (results : List EnqueueResult)
    → All (λ (r : EnqueueResult). r.created ≡ false) results
    → count_where is_created results ≡ 0
unfolding count_where
count_where-old [] h = refl
count_where-old (r ∷ results) (old, h) = rw old (count_where-old results h)

waiting_created-old : (o : Option EnqueueResult) → IsOld o → waiting_created o ≡ 0
waiting_created-old none h = refl
waiting_created-old (some r) h = rw h refl

created_by-old :
    (d : DispatchResult)
    → All (λ (r : EnqueueResult). r.created ≡ false) d.enqueued
    → IsOld d.waiting_job
    → created_by d ≡ 0
unfolding created_by
created_by-old d old waits =
    omega (arith, count_where-old d.enqueued old, waiting_created-old d.waiting_job waits)

pub append-empty {ℓ} : {A : Type ℓ} (xs ys : List A) → xs ++ ys ≡ [] → (xs ≡ []) × (ys ≡ [])
append-empty [] ys h = (refl, h)
append-empty (x ∷ xs) ys h = absurd (cc h)

account-jobs : (source : String) (r : Outcome DispatchResult × Jobs) → (account source r).1 ≡ r.1
unfolding account
account-jobs source (raised e, jobs) = refl
account-jobs source (returned d, jobs) = refl

account-returned :
    (source : String) (r : Outcome DispatchResult × Jobs)
    → (account source r).0.refresh_errors ≡ []
    → (d : DispatchResult) × (r.0 ≡ returned d)
unfolding account
account-returned source (raised e, jobs) h = absurd (cc h)
account-returned source (returned d, jobs) h = (d, refl)

-- A part of a refresh that did nothing: it changed no job, enqueued none, and had no error.
abbrev pub IsQuiet : Jobs → RefreshOutcome × Jobs → Type 0
IsQuiet jobs r = (r.1 ≡ jobs) × (r.0.jobs_enqueued ≡ 0) × (r.0.refresh_errors ≡ [])

module _ {P : Type 0} (w : RefreshWorld P) (limits : Option RecoveryLimits) (today : ℕ) where
  -- The plan of the listing of an identity is given, and its jobs are stored.
  abbrev SettledListing : String → ExternalIdentity → Jobs → Option Listing → Type 0
  SettledListing source identity jobs none = Unit
  SettledListing source identity jobs (some listing) =
      (instrument : Instrument) × (get_instrument listing.instrument_id w.catalog ≡ some instrument)
      × (calendar : MarketCalendarPort) × (calendar_for w.adapters listing ≡ returned calendar)
      × (let t = target_of instrument.asset_class listing identity source in
          IsSettled w.codec t calendar limits (last_of_target w t) today jobs)

  abbrev pub Settled : String → Jobs → ExternalIdentity → Type 0
  Settled source jobs identity =
      SettledListing source identity jobs (get_listing identity.listing_id w.catalog)

  pub SettledListing-kept :
      (source : String) (identity : ExternalIdentity) (jobs jobs' : Jobs) (o : Option Listing)
      → KeepsKeys jobs jobs'
      → SettledListing source identity jobs o
      → SettledListing source identity jobs' o
  SettledListing-kept source identity jobs jobs' none k h = tt
  SettledListing-kept source identity jobs jobs' (some listing) k
        (instrument, found, calendar, routed, settled) =
      let t = target_of instrument.asset_class listing identity source in
      (
        instrument,
        found,
        calendar,
        routed,
        (settled.0, settled.1, IsStored-kept w.codec t settled.0 jobs jobs' k settled.2),
      )

  module _ (now retry : ℕ) where
    consider-dispatched :
        (i : ℕ) (source : String) (identity : ExternalIdentity) (listing : Listing)
        (instrument : Instrument) (calendar : MarketCalendarPort) (jobs : Jobs)
        → get_instrument listing.instrument_id w.catalog ≡ some instrument
        → calendar_for w.adapters listing ≡ returned calendar
        → let t = target_of instrument.asset_class listing identity source in
          consider w limits now today retry i source identity (some listing) jobs
          ≡ account source (
              plan_and_enqueue w.codec calendar limits t
                (last_of_target w t)
                (w.uuid i)
                w.utcnow
                today
                now
                retry
                jobs)
    unfolding consider dispatch_listing dispatch_with
    consider-dispatched i source identity listing instrument calendar jobs found routed =
        rw (found, dispatch_listing, routed) refl

    consider-Settled :
        (i : ℕ) (source : String) (identity : ExternalIdentity) (o : Option Listing) (jobs : Jobs)
        → let r = consider w limits now today retry i source identity o jobs in
          KeepsKeys jobs r.1 × (r.0.refresh_errors ≡ [] → SettledListing source identity r.1 o)
    unfolding consider dispatch_listing dispatch_with account
    consider-Settled i source identity none jobs = (λ key h. h, λ h. tt)
    consider-Settled i source identity (some listing) jobs =
        elim (Option-cases (get_instrument listing.instrument_id w.catalog)) [
          | inl n ↦ rw n (λ key h. h, λ h. absurd (cc h))
          | inr (instrument, found) ↦ elim (Outcome-cases (calendar_for w.adapters listing)) [
            | inr (e, lost) ↦ rw (found, lost) (λ key h. h, λ h. absurd (cc h))
            | inl (calendar, routed) ↦
                let t = target_of instrument.asset_class listing identity source in
                let last = last_of_target w t in
                let (keeps, settles) =
                  plan_and_enqueue-IsSettled w.codec t calendar limits last today (w.uuid i)
                    w.utcnow now retry jobs in
                let r =
                  plan_and_enqueue w.codec calendar limits t last (w.uuid i) w.utcnow today now
                    retry jobs in
                let same =
                  consider-dispatched i source identity listing instrument calendar jobs found
                    routed in
                subst
                  (λ (x : RefreshOutcome × Jobs).
                    KeepsKeys jobs x.1
                    × (x.0.refresh_errors ≡ [] → SettledListing source identity x.1 (some listing)))
                  (sym same)
                  (subst
                    (λ js.
                      KeepsKeys jobs js
                      × ((account source r).0.refresh_errors ≡ []
                          → SettledListing source identity js (some listing)))
                    (sym (account-jobs source r))
                    (
                      keeps,
                      λ h.
                          let (d, went) = account-returned source r h in
                          (instrument, found, calendar, routed, settles d went),
                    ))
          ]
        ]

    consider-IsQuiet :
        (i : ℕ) (source : String) (identity : ExternalIdentity) (o : Option Listing) (jobs : Jobs)
        → SettledListing source identity jobs o
        → IsQuiet jobs (consider w limits now today retry i source identity o jobs)
    unfolding consider account
    consider-IsQuiet i source identity none jobs h = (refl, refl, refl)
    consider-IsQuiet i source identity (some listing) jobs
          (instrument, found, calendar, routed, settled) =
        let t = target_of instrument.asset_class listing identity source in
        let (d, again, old, waits) =
          plan_and_enqueue-settled w.codec t calendar limits (last_of_target w t) today (w.uuid i)
            w.utcnow now retry jobs settled in
        let same =
          consider-dispatched i source identity listing instrument calendar jobs found routed in
        subst (IsQuiet jobs) (sym (same ∙ ap (account source) again))
          (refl, created_by-old d old waits, refl)

    pub consider_each-Settled :
        (i : ℕ) (source : String) (identities : List ExternalIdentity) (jobs : Jobs)
        → let r = consider_each w limits now today retry i source identities jobs in
          KeepsKeys jobs r.1 × (r.0.refresh_errors ≡ [] → All (Settled source r.1) identities)
    unfolding consider_each
    consider_each-Settled i source [] jobs = (λ key h. h, λ h. tt)
    consider_each-Settled i source (identity ∷ identities) jobs =
        let o = get_listing identity.listing_id w.catalog in
        let own = consider w limits now today retry i source identity o jobs in
        let (keeps, settles) = consider-Settled i source identity o jobs in
        let (keeps', settles') = consider_each-Settled (suc i) source identities own.1 in
        (
          λ key h. keeps' key (keeps key h),
          λ h.
              let (none_own, none_rest) = append-empty own.0.refresh_errors _ h in
              (
                SettledListing-kept source identity own.1 _ o keeps' (settles none_own),
                settles' none_rest,
              ),
        )

    pub consider_each-IsQuiet :
        (i : ℕ) (source : String) (identities : List ExternalIdentity) (jobs : Jobs)
        → All (Settled source jobs) identities
        → IsQuiet jobs (consider_each w limits now today retry i source identities jobs)
    unfolding consider_each
    consider_each-IsQuiet i source [] jobs h = (refl, refl, refl)
    consider_each-IsQuiet i source (identity ∷ identities) jobs (own, rest) =
        let o = get_listing identity.listing_id w.catalog in
        let r = consider w limits now today retry i source identity o jobs in
        let (same, none_own, ok) = consider-IsQuiet i source identity o jobs own in
        let (same', none_rest, ok') =
          consider_each-IsQuiet (suc i) source identities r.1
            (subst (λ js. All (Settled source js) identities) (sym same) rest) in
        (same' ∙ same, omega (arith, none_own, none_rest), rw (ok, ok') refl)
