-- ===== src/Dispatch/Replanning.antt =====
-- A listing that is planned again before anything changed.
use market_relay.Prelude.{ℕ, false, Option, ◌≡◌, refl, ◌∙◌, inl, inr, All}
use market_relay.Action.{Error, Outcome-cases, returned, raised}
use market_relay.Queue.{Jobs, EnqueueResult}
use market_relay.Planning.{MarketCalendarPort, RecoveryLimits, RecoveryPlan, plan}
use market_relay.Ingestion.Cursor.{Codec}
use market_relay.Dispatch.{
  Target, DispatchResult, enqueue_plan, plan_and_enqueue, or_default_limits,
}
use market_relay.Dispatch.Stored.{
  IsOld, IsStored, KeepsKeys, enqueue_plan-stores, enqueue_stored_again,
}

module _ (codec : Codec) (t : Target) where
  enqueue_planned :
      (calendar : MarketCalendarPort) (limits : Option RecoveryLimits) (last : Option ℕ) (today : ℕ)
      (p : RecoveryPlan)
      → plan calendar (or_default_limits limits) t.asset_class t.venue t.mic last today ≡ returned p
      → (uuid : ℕ → ℕ) (utcnow now retry : ℕ) (jobs : Jobs)
      → plan_and_enqueue codec calendar limits t last uuid utcnow today now retry jobs
        ≡ enqueue_plan codec t uuid utcnow now retry p jobs
  unfolding plan_and_enqueue
  enqueue_planned calendar limits last today p planned uuid utcnow now retry jobs =
      rw (plan_and_enqueue, planned) refl

  enqueue_unplanned :
      (calendar : MarketCalendarPort) (limits : Option RecoveryLimits) (last : Option ℕ) (today : ℕ)
      (e : Error)
      → plan calendar (or_default_limits limits) t.asset_class t.venue t.mic last today ≡ raised e
      → (uuid : ℕ → ℕ) (utcnow now retry : ℕ) (jobs : Jobs)
      → plan_and_enqueue codec calendar limits t last uuid utcnow today now retry jobs
        ≡ (raised e, jobs)
  unfolding plan_and_enqueue
  enqueue_unplanned calendar limits last today e stopped uuid utcnow now retry jobs =
      rw (plan_and_enqueue, stopped) refl

  -- The listing's plan is given and its jobs are stored.
  abbrev pub IsSettled : MarketCalendarPort → Option RecoveryLimits → Option ℕ → ℕ → Jobs → Type 0
  IsSettled calendar limits last today jobs =
      (p : RecoveryPlan) × (plan calendar (or_default_limits limits) t.asset_class t.venue t.mic
          last today
        ≡ returned p)
      × IsStored codec t p jobs

  -- Dispatching keeps the stored keys and, where it returns, settles the listing.
  pub plan_and_enqueue-IsSettled :
      (calendar : MarketCalendarPort) (limits : Option RecoveryLimits) (last : Option ℕ) (today : ℕ)
      (uuid : ℕ → ℕ) (utcnow now retry : ℕ) (jobs : Jobs)
      → let r = plan_and_enqueue codec calendar limits t last uuid utcnow today now retry jobs in
        KeepsKeys jobs r.1
        × ((d : DispatchResult) → r.0 ≡ returned d → IsSettled calendar limits last today r.1)
  plan_and_enqueue-IsSettled calendar limits last today uuid utcnow now retry jobs =
      elim (Outcome-cases
        (plan calendar (or_default_limits limits) t.asset_class t.venue t.mic last today)) [
          | inr (e, stopped) ↦
              rw (enqueue_unplanned calendar limits last today e stopped uuid utcnow now retry jobs)
                (λ key h. h, λ d h. absurd (cc h))
          | inl (p, planned) ↦
              let (keeps, stores) = enqueue_plan-stores codec t p uuid utcnow now retry jobs in
              rw (enqueue_planned calendar limits last today p planned uuid utcnow now retry jobs)
                (keeps, λ d h. (p, planned, stores d h))
        ]

  -- A settled listing is dispatched: it returns, creates no job and changes no row.
  pub plan_and_enqueue-settled :
      (calendar : MarketCalendarPort) (limits : Option RecoveryLimits) (last : Option ℕ) (today : ℕ)
      (uuid : ℕ → ℕ) (utcnow now retry : ℕ) (jobs : Jobs)
      → IsSettled calendar limits last today jobs
      → (d : DispatchResult) × (plan_and_enqueue codec calendar limits t last uuid utcnow today now
            retry jobs
          ≡ (returned d, jobs))
        × All (λ (r : EnqueueResult). r.created ≡ false) d.enqueued
        × IsOld d.waiting_job
  plan_and_enqueue-settled calendar limits last today uuid utcnow now retry jobs
        (p, planned, stored) =
      let (d, again, old, waits) =
        enqueue_stored_again codec t p uuid utcnow now retry jobs stored in
      (
        d,
        enqueue_planned calendar limits last today p planned uuid utcnow now retry jobs ∙ again,
        old,
        waits,
      )

  -- A listing is planned and enqueued, and this is done again with the same recovery cursor, on the
  -- same day and with the same calendar, at another time and with other identifiers for new rows:
  -- the second time returns, creates no job and changes no row.
  pub plan_and_enqueue-idempotent :
      (calendar : MarketCalendarPort) (limits : Option RecoveryLimits) (last : Option ℕ) (today : ℕ)
      (uuid uuid' : ℕ → ℕ) (utcnow utcnow' now now' retry retry' : ℕ) (jobs : Jobs)
      (d : DispatchResult)
      → (plan_and_enqueue codec calendar limits t last uuid utcnow today now retry jobs).0
        ≡ returned d
      → let after =
          (plan_and_enqueue codec calendar limits t last uuid utcnow today now retry jobs).1 in
        (d' : DispatchResult) × (plan_and_enqueue codec calendar limits t last uuid' utcnow' today
            now' retry' after
          ≡ (returned d', after))
        × All (λ (r : EnqueueResult). r.created ≡ false) d'.enqueued
        × IsOld d'.waiting_job
  plan_and_enqueue-idempotent calendar limits last today uuid uuid' utcnow utcnow' now now' retry
        retry' jobs d h =
      plan_and_enqueue-settled calendar limits last today uuid' utcnow' now' retry' _
        ((plan_and_enqueue-IsSettled calendar limits last today uuid utcnow now retry jobs).1 d h)
