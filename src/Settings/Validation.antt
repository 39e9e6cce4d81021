-- ===== src/Settings/Validation.antt =====
-- What validated settings are.
use market_relay.Prelude.{
  ℕ, String, ◌≤◌, ◌<◌, List, [], ◌∷◌, Bool, true, false, not, ◌≡◌, ◌≢◌, ◌↔◌, refl, arith, leb, ltb,
  string_eq,
}
use market_relay.Action.{Outcome, returned, raised, ◌>>◌}
use market_relay.Settings.{
  Settings, validate, validate_fields, validate_database_url, validate_enabled_sources,
  validate_provider_deadline_within_lease, error_unless, in_bounds, micros, is_dialect,
}

-- The dialect is one of two, there is a source, and the numbers are in their bounds; a provider's
-- timeout ends before a job's lease does.
pub record IsValid (s : Settings) : Type 0 where
  pub dialect : is_dialect s.database_url ≡ true
  pub some_source : s.enabled_sources ≢ []
  pub batch : (0 < s.scheduler_batch_size) × (s.scheduler_batch_size ≤ 1000)
  pub lease : (0 < s.job_lease_seconds) × (s.job_lease_seconds ≤ 86400)
  pub retry :
      (0 < s.waiting_publication_retry_seconds) × (s.waiting_publication_retry_seconds ≤ 86400)
  pub timeout : (0 < s.provider_timeout) × (s.provider_timeout ≤ micros 300)
  pub stalled : 0 < s.stalled_job_threshold_seconds
  pub deadline : s.provider_timeout < micros s.job_lease_seconds

error_unless_iff : (b : Bool) → (error_unless b ≡ returned tt) ↔ (b ≡ true)
error_unless_iff true = (λ h. refl, λ h. refl)
error_unless_iff false = (λ h. cc, λ h. cc)

sequence_iff :
    (m k : Outcome (Unit {0})) → ((m >> k) ≡ returned tt) ↔ ((m ≡ returned tt) × (k ≡ returned tt))
sequence_iff (returned tt) k = (λ h. (refl, h), λ h. h.1)
sequence_iff (raised e) k = (λ h. absurd (cc h), λ h. absurd (cc h.0))

in_bounds_iff :
    (most n : ℕ) → (error_unless (in_bounds most n) ≡ returned tt) ↔ ((0 < n) × (n ≤ most))
in_bounds_iff most n = (
  λ h.
      let ok = (error_unless_iff (in_bounds most n)).0 h in
      (ground (arith, ok), ground (arith, ok)),
  λ h. (error_unless_iff (in_bounds most n)).1 (ground (arith, h.0, h.1)),
)

sources_iff :
    (sources : List String) → (validate_enabled_sources sources ≡ returned tt) ↔ (sources ≢ [])
unfolding validate_enabled_sources
sources_iff [] = (λ h. absurd (cc h), λ h. absurd (h refl))
sources_iff (source ∷ sources) = (λ h e. absurd (cc e), λ h. ground arith)

stalled_iff : (n : ℕ) → (error_unless (ltb 0 n) ≡ returned tt) ↔ (0 < n)
stalled_iff n = (
  λ h. let ok = (error_unless_iff (ltb 0 n)).0 h in ground (arith, ok),
  λ h. (error_unless_iff (ltb 0 n)).1 (ground (arith, h)),
)

deadline_iff :
    (s : Settings)
    → (validate_provider_deadline_within_lease s ≡ returned tt)
      ↔ (s.provider_timeout < micros s.job_lease_seconds)
unfolding validate_provider_deadline_within_lease
deadline_iff s = (
  λ h.
      let ok = (error_unless_iff (not (leb (micros s.job_lease_seconds) s.provider_timeout))).0 h in
      ground (arith, ok),
  λ h. (error_unless_iff _).1 (ground (arith, h)),
)

-- Settings pass the validation exactly when the database's dialect is one of the two, a source is
-- enabled, the batch, the lease, the delays and the timeout are positive and within their limits, and
-- the provider's timeout is shorter than the job's lease.
pub validate-IsValid : (s : Settings) → (validate s ≡ returned tt) ↔ IsValid s
unfolding validate validate_fields validate_database_url
validate-IsValid s = (
  λ h.
      let (fields, deadline) = (sequence_iff _ _).0 h in
      let (url, r1) = (sequence_iff _ _).0 fields in
      let (sources, r2) = (sequence_iff _ _).0 r1 in
      let (batch, r3) = (sequence_iff _ _).0 r2 in
      let (lease, r4) = (sequence_iff _ _).0 r3 in
      let (retry, r5) = (sequence_iff _ _).0 r4 in
      let (timeout, stalled) = (sequence_iff _ _).0 r5 in
      record {
        dialect = (error_unless_iff _).0 url;
        some_source = (sources_iff s.enabled_sources).0 sources;
        batch = (in_bounds_iff 1000 s.scheduler_batch_size).0 batch;
        lease = (in_bounds_iff 86400 s.job_lease_seconds).0 lease;
        retry = (in_bounds_iff 86400 s.waiting_publication_retry_seconds).0 retry;
        timeout = (in_bounds_iff (micros 300) s.provider_timeout).0 timeout;
        stalled = (stalled_iff s.stalled_job_threshold_seconds).0 stalled;
        deadline = (deadline_iff s).0 deadline;
      },
  λ v. (sequence_iff _ _).1 (
    (sequence_iff _ _).1 (
      (error_unless_iff _).1 v.dialect,
      (sequence_iff _ _).1 (
        (sources_iff s.enabled_sources).1 v.some_source,
        (sequence_iff _ _).1 (
          (in_bounds_iff 1000 s.scheduler_batch_size).1 v.batch,
          (sequence_iff _ _).1 (
            (in_bounds_iff 86400 s.job_lease_seconds).1 v.lease,
            (sequence_iff _ _).1 (
              (in_bounds_iff 86400 s.waiting_publication_retry_seconds).1 v.retry,
              (sequence_iff _ _).1 (
                (in_bounds_iff (micros 300) s.provider_timeout).1 v.timeout,
                (stalled_iff s.stalled_job_threshold_seconds).1 v.stalled,
              ),
            ),
          ),
        ),
      ),
    ),
    (deadline_iff s).1 v.deadline,
  ),
)
