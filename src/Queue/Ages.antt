-- ===== src/Queue/Ages.antt =====
-- The ages of pending jobs in src/market_relay/domain/ingestion/queue.py. Instants and ages are
-- microseconds here, for an age is a float of seconds that keeps them. A clock that is set back makes an
-- age negative.
use market_relay.Prelude.{
  ℕ, String, List, [], ◌∷◌, Bool, Option, none, some, ◌==◌, min, ℤ, difference, max_ℤ,
  max_ℤ-difference, ◌≡◌, refl, sym, subst, ◌∙◌, ap, arith, Bool-cases, inl, inr, string_eq,
}
use market_relay.Table.{select_where}
use market_relay.Dict.{Dict, get, put}
use market_relay.Jobs.{Job, pending, job_status_eq}
use market_relay.Queue.Counts.{group_by_source}

abbrev pub microseconds : ℕ
microseconds = 1_000_000

abbrev pub is_pending : Job → Bool
is_pending job = job.status == pending

abbrev pub least : ℕ → Option ℕ → ℕ
least t none = t
least t (some u) = min t u

-- select(Job.created_at).order_by(Job.created_at).limit(1)
unfoldable pub oldest : List Job → Option ℕ
oldest [] = none
oldest (job ∷ jobs) = some (least job.created_at (oldest jobs))

abbrev pub age_of : ℕ → Option ℕ → Option ℤ
age_of now none = none
age_of now (some t) = some (difference now t)

unfoldable pub oldest_pending_age_seconds : ℕ → List Job → Option ℤ
unfolding oldest select_where difference
oldest_pending_age_seconds now jobs = age_of now (oldest (select_where is_pending jobs))

-- func.min(Job.created_at)
abbrev pub least_row : Job → Option ℕ → ℕ
least_row job t = least job.created_at t

unfoldable pub ages : ℕ → Dict String ℕ → Dict String ℤ
unfolding difference
ages now [] = []
ages now ((source, t) ∷ d) = (source, difference now t) ∷ ages now d

unfoldable pub oldest_pending_age_by_source : ℕ → List Job → Dict String ℤ
unfolding group_by_source select_where ages
oldest_pending_age_by_source now jobs =
    ages now (group_by_source least_row (select_where is_pending jobs))

abbrev pub greatest : ℤ → Option ℤ → ℤ
greatest a none = a
greatest a (some b) = max_ℤ a b

-- max(d.values()) if d else None
unfoldable pub max_values : Dict String ℤ → Option ℤ
unfolding max_ℤ
max_values [] = none
max_values ((source, a) ∷ d) = some (greatest a (max_values d))

-- The least value of an entry.
unfoldable least_value : Dict String ℕ → Option ℕ
least_value [] = none
least_value ((source, t) ∷ d) = some (least t (least_value d))

max_values-ages :
    (now : ℕ) (d : Dict String ℕ) → max_values (ages now d) ≡ age_of now (least_value d)
unfolding max_values ages least_value
max_values-ages now [] = refl
max_values-ages now ((source, t) ∷ d) = rw (max_values-ages now d) (joined (least_value d))
  where
    joined :
        (o : Option ℕ)
        → some (greatest (difference now t) (age_of now o)) ≡ some (difference now (least t o))
    joined none = refl
    joined (some u) = ap some (max_ℤ-difference now t u)

least-least : (a b : ℕ) (o : Option ℕ) → least (min a b) o ≡ min a (least b o)
least-least a b none = refl
least-least a b (some c) = omega arith

least_swap : (a b : ℕ) (o : Option ℕ) → some (min a (least b o)) ≡ some (min b (least a o))
least_swap a b none = ap some (omega arith)
least_swap a b (some c) = ap some (omega arith)

least_value-put :
    (k : String) (t v : ℕ) (d : Dict String ℕ)
    → v ≡ least t (get k d)
    → least_value (put k v d) ≡ some (least t (least_value d))
unfolding least_value put get
least_value-put k t v [] h = ap some h
least_value-put k t v ((j, u) ∷ d) h = elim (Bool-cases (j == k)) [
  | inl same ↦
      let value : v ≡ min t u = rw (same, get) at h in
      rw (same, put)
        (subst (λ x. some (least x (least_value d)) ≡ some (min t (least u (least_value d))))
          (sym value) (ap some (least-least t u (least_value d))))
  | inr differs ↦
      rw (differs, put, least_value-put k t v d (rw (differs, get) at h))
        (least_swap u t (least_value d))
]

least_value-group_by_source :
    (jobs : List Job) → least_value (group_by_source least_row jobs) ≡ oldest jobs
unfolding least_value group_by_source oldest
least_value-group_by_source [] = refl
least_value-group_by_source (job ∷ jobs) =
    least_value-put job.source job.created_at _ (group_by_source least_row jobs) refl
    ∙ ap (λ o. some (least job.created_at o)) (least_value-group_by_source jobs)

-- The greatest age of a source is that of the oldest pending job.
pub max_values-oldest_pending_age_by_source :
    (now : ℕ) (jobs : List Job)
    → max_values (oldest_pending_age_by_source now jobs) ≡ oldest_pending_age_seconds now jobs
unfolding oldest_pending_age_by_source oldest_pending_age_seconds
max_values-oldest_pending_age_by_source now jobs =
    max_values-ages now (group_by_source least_row (select_where is_pending jobs))
    ∙ ap (age_of now) (least_value-group_by_source (select_where is_pending jobs))
