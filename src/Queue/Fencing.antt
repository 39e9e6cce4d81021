-- ===== src/Queue/Fencing.antt =====
-- Claims and their generations over time: who may still write a job.
use market_relay.Prelude.{
  ℕ, ◌<◌, List, [], ◌∷◌, true, false, Option, some, ◌≡◌, refl, ◌∙◌, nat_eq, arith, string_eq,
}
use market_relay.Table.{update_where, count_where, Unique}
use market_relay.Table.Laws.{Unique-update_where}
use market_relay.Action.{raised, stale_job_claim}
use market_relay.Governance.Credentials.{Text}
use market_relay.Jobs.{Job, JobStatus, job_status_eq, claimed, running}
use market_relay.Queue.Transitions.{
  Claim, is_owned, mark_running, mark_done, mark_waiting_for_publication, defer_for_quota,
  mark_failed, assert_owned, active, run_values, done_values, waiting_values, defer_values,
  failed_values,
}
use market_relay.Queue.Ownership.{holds, owned_transition-stale, rowcount-owned}
use market_relay.Queue.Steps.{Reach, id_of, get_job-update_where, Reach-Later, Reach-Unique}
use market_relay.Queue.{Jobs, get_job, recover_expired, is_expired, recover}

newer_is_not_held :
    (c : Claim) (allowed : List JobStatus) (r : Job)
    → c.generation < r.generation
    → holds c allowed r ≡ false
newer_is_not_held c allowed r h = ground (arith, nat_eq.equals_iff r.generation c.generation)

-- What a superseded worker meets: every write of a job raises `StaleJobClaimError` and leaves the
-- table as it was, and so does the check before observations are stored.
abbrev pub IsFenced : Claim → Jobs → Type 0
IsFenced c t =
    ((utcnow : ℕ) → mark_running c utcnow t ≡ (raised stale_job_claim, t))
    × ((now : ℕ) → mark_done c now t ≡ (raised stale_job_claim, t))
    × ((retry_at utcnow : ℕ)
        → mark_waiting_for_publication c retry_at utcnow t ≡ (raised stale_job_claim, t))
    × ((reset_at : Option ℕ) (now utcnow : ℕ)
        → defer_for_quota c reset_at now utcnow t ≡ (raised stale_job_claim, t))
    × ((attempts most : ℕ) (error : Text) (now : ℕ)
        → mark_failed c attempts most error now t ≡ (raised stale_job_claim, t))
    × (assert_owned c t ≡ (raised stale_job_claim, t))

newer_generation-IsFenced :
    (c : Claim) (t : Jobs) (r : Job)
    → Unique id_of t
    → get_job c.job t ≡ some r
    → c.generation < r.generation
    → IsFenced c t
unfolding mark_running mark_done mark_waiting_for_publication defer_for_quota mark_failed
    assert_owned
newer_generation-IsFenced c t r u e h =
    let stale = λ (allowed : List JobStatus) (f : Job → Job).
      owned_transition-stale c allowed f t r u e (newer_is_not_held c allowed r h) in
    let nothing : count_where (is_owned c active) t ≡ 0 =
      rowcount-owned c active t u ∙ rw (e, newer_is_not_held c active r h) refl in
    (
      λ utcnow. stale (claimed ∷ []) (run_values utcnow),
      λ now. stale (running ∷ []) (done_values now),
      λ retry_at utcnow. stale active (waiting_values retry_at utcnow),
      λ reset_at now utcnow. stale active (defer_values reset_at now utcnow),
      λ attempts most error now. stale active (failed_values attempts most error now),
      rw nothing,
    )

-- Once a job's generation has passed that of a claim, the claim is fenced in every table that any
-- statements of any workers lead to.
pub superseded-IsFenced :
    (c : Claim) (s t : Jobs) (r : Job)
    → Unique id_of s
    → get_job c.job s ≡ some r
    → c.generation < r.generation
    → Reach s t
    → IsFenced c t
superseded-IsFenced c s t r u e h path =
    let (r', found, le) = Reach-Later c.job r e path in
    newer_generation-IsFenced c t r' (Reach-Unique u path) found (omega arith)

-- A worker whose lease ran out is fenced for good: after `recover_expired` has taken its job, and
-- whatever any workers do then, each of its writes raises `StaleJobClaimError` and changes nothing.
pub recovered_claim-IsFenced :
    (c : Claim) (now lease : ℕ) (s t : Jobs) (r : Job)
    → Unique id_of s
    → get_job c.job s ≡ some r
    → is_expired now lease r ≡ true
    → r.generation ≡ c.generation
    → Reach (recover_expired now lease s).1 t
    → IsFenced c t
unfolding recover_expired
recovered_claim-IsFenced c now lease s t r u e expired same path =
    superseded-IsFenced c (update_where (is_expired now lease) (recover now) s) t (recover now r)
      (Unique-update_where id_of (is_expired now lease) (recover now) s (λ x. refl) u)
      (get_job-update_where c.job (is_expired now lease) (recover now) s (λ x. refl)
        ∙ rw (e, expired) refl)
      (omega arith) path
