-- ===== src/Metrics/Agreement.antt =====
-- The operators' metrics and the operational status are two answers about one queue.
use Prim.Native.Nat.{◌/◌}
use market_relay.Prelude.{
  ℕ, String, List, [], ◌∷◌, map, Bool, true, false, ◌&&◌, Option, none, some, ℤ, pos, negsuc, leb_ℤ,
  max_ℤ, ◌≡◌, refl, sym, ◌∙◌, ap, arith, Bool-cases, inl, inr, ◌⊎◌, ◌*◌, ltb,
}
use market_relay.Table.{select_where}
use market_relay.Dict.{Dict}
use market_relay.Action.{Outcome}
use market_relay.Queue.{Jobs}
use market_relay.Queue.Counts.{pending_by_source, depth, is_queued, sum_values-group_by_source}
use market_relay.Queue.Ages.{
  max_values, greatest, microseconds, oldest_pending_age_by_source, oldest_pending_age_seconds,
  max_values-oldest_pending_age_by_source,
}
use market_relay.Ingestion.Runner.{QuotaPort}
use market_relay.Scheduler.{SchedulerRun}
use market_relay.Metrics.{
  collect_scheduler_metrics, stalled_sources, is_stalled, sort_strings, insert_string, string_leb,
}
use market_relay.Status.{operational_status, whole_age, is_over}

abbrev pub is_empty {ℓ} : {A : Type ℓ} → List A → Bool
is_empty [] = true
is_empty (x ∷ xs) = false

insert_string-not_empty : (s : String) (ss : List String) → is_empty (insert_string s ss) ≡ false
unfolding insert_string
insert_string-not_empty s [] = refl
insert_string-not_empty s (t ∷ ts) = elim (Bool-cases (string_leb s t)) [
  | inl le ↦ rw le refl
  | inr gt ↦ rw gt refl
]

sort_strings-is_empty : (ss : List String) → is_empty (sort_strings ss) ≡ is_empty ss
unfolding sort_strings
sort_strings-is_empty [] = refl
sort_strings-is_empty (s ∷ ss) = insert_string-not_empty s (sort_strings ss)

-- No age is over the threshold.
abbrev is_within : ℕ → Option ℤ → Bool
is_within threshold none = true
is_within threshold (some age) = leb_ℤ age (pos (threshold * microseconds))

leb_ℤ-max_ℤ : (a b : ℤ) (n : ℕ) → leb_ℤ (max_ℤ a b) (pos n) ≡ (leb_ℤ a (pos n) && leb_ℤ b (pos n))
unfolding max_ℤ leb_ℤ
leb_ℤ-max_ℤ (pos a) (pos b) n = ground arith
leb_ℤ-max_ℤ (pos a) (negsuc b) n = ground arith
leb_ℤ-max_ℤ (negsuc a) (pos b) n = ground arith
leb_ℤ-max_ℤ (negsuc a) (negsuc b) n = ground arith

greatest-within :
    (threshold : ℕ) (age : ℤ) (o : Option ℤ)
    → leb_ℤ (greatest age o) (pos (threshold * microseconds))
      ≡ (leb_ℤ age (pos (threshold * microseconds)) && is_within threshold o)
greatest-within threshold age none = ground arith
greatest-within threshold age (some a) = leb_ℤ-max_ℤ age a (threshold * microseconds)

max_values-within :
    (threshold : ℕ) (d : Dict String ℤ)
    → is_empty (map (λ (x : String × ℤ). x.0) (select_where (is_stalled threshold) d))
      ≡ is_within threshold (max_values d)
unfolding max_values select_where
max_values-within threshold [] = refl
max_values-within threshold ((source, age) ∷ d) =
    let rest = max_values-within threshold d in
    let joined = greatest-within threshold age (max_values d) in
    elim (Bool-cases (leb_ℤ age (pos (threshold * microseconds)))) [
      | inl t ↦ rw t (rest ∙ sym (rw t at joined))
      | inr f ↦ rw f (sym (rw f at joined))
    ]

stalled_sources-is_empty :
    (threshold : ℕ) (d : Dict String ℤ)
    → is_empty (stalled_sources threshold d) ≡ is_within threshold (max_values d)
unfolding stalled_sources
stalled_sources-is_empty threshold d = sort_strings-is_empty _ ∙ max_values-within threshold d

is_over-within :
    (threshold : ℕ) (age : Option ℤ)
    → is_over threshold (whole_age age) ≡ true
    → is_within threshold age ≡ false
unfolding leb_ℤ
is_over-within threshold none h = cc h
is_over-within threshold (some (pos n)) h = ground (arith, h)
is_over-within threshold (some (negsuc n)) h = ground (arith, h)

whole_seconds :
    (threshold n : ℕ)
    → is_within threshold (some (pos n)) ≡ false
    → ltb threshold (n / microseconds) ≡ false
    → n / microseconds ≡ threshold
unfolding leb_ℤ
whole_seconds threshold n over not_over = ground (arith, over, not_over)

within-is_over :
    (threshold : ℕ) (age : Option ℤ)
    → is_within threshold age ≡ false
    → (is_over threshold (whole_age age) ≡ true) ⊎ (whole_age age ≡ some threshold)
unfolding leb_ℤ
within-is_over threshold none h = cc h
within-is_over threshold (some (pos n)) h = elim (Bool-cases (ltb threshold (n / microseconds))) [
  | inl over ↦ inl over
  | inr not_over ↦ inr (ap some (whole_seconds threshold n h not_over))
]
within-is_over threshold (some (negsuc n)) h = cc h

-- Whatever the queue, the runs and the quota adapters are, the metrics are given, and they agree with
-- the operational status at the same instant: on how many jobs are pending or claimed, which is the
-- sum over the sources; and on the oldest pending job's age, which is the greatest of a source, once it
-- is cut to whole seconds and held to be no less than zero. When the status is stalled, some source
-- is. When some source is stalled, the status is, unless the oldest age in whole seconds is the
-- threshold itself: it is more than the threshold by a part of a second.
pub collect_scheduler_metrics-operational_status :
    {S : Type 0} (get_quota_port : String → Outcome (QuotaPort S)) (environment : String)
    (threshold now : ℕ) (sources : List String) (jobs : Jobs) (runs : List SchedulerRun) (s : S)
    → let m = (collect_scheduler_metrics get_quota_port now threshold sources jobs runs s).0 in
      let o = operational_status environment threshold now jobs in
      (m.pending_jobs ≡ o.pending_jobs)
      × (whole_age m.oldest_pending_seconds ≡ o.oldest_pending_seconds)
      × (o.stalled ≡ true → is_empty m.stalled_sources ≡ false)
      × (is_empty m.stalled_sources ≡ false
          → (o.stalled ≡ true) ⊎ (o.oldest_pending_seconds ≡ some threshold))
unfolding collect_scheduler_metrics operational_status pending_by_source depth
collect_scheduler_metrics-operational_status get_quota_port environment threshold now sources jobs
      runs s =
    let oldest = max_values-oldest_pending_age_by_source now jobs in
    let within =
      stalled_sources-is_empty threshold (oldest_pending_age_by_source now jobs)
      ∙ ap (is_within threshold) oldest in
    let age = oldest_pending_age_seconds now jobs in
    (
      sum_values-group_by_source (select_where is_queued jobs),
      ap whole_age oldest,
      λ h. within ∙ is_over-within threshold age h,
      λ h. within-is_over threshold age (sym within ∙ h),
    )
