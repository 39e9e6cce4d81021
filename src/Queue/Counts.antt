-- ===== src/Queue/Counts.antt =====
-- The aggregate queries of src/market_relay/domain/ingestion/queue.py. A GROUP BY has one entry for
-- each source of the rows; the source does not rely on the order of the entries.
use market_relay.Prelude.{
  ℕ, suc, ◌+◌, String, List, [], ◌∷◌, Bool, ◌&&◌, Option, none, some, ◌==◌, is_in, length,
  string_eq, ◌≡◌, refl, arith, Bool-cases, inl, inr,
}
use market_relay.Table.{select_where, count_where}
use market_relay.Dict.{Dict, get, put}
use market_relay.Jobs.{Job, pending, claimed, done, failed, job_status_eq}

abbrev pub is_queued : Job → Bool
is_queued job = is_in job.status (pending ∷ claimed ∷ [])

abbrev pub from_source : Option String → Job → Bool
from_source none job = is_queued job
from_source (some source) job = is_queued job && job.source == source

unfoldable pub depth : Option String → List Job → ℕ
unfolding select_where
depth source jobs = length (select_where (from_source source) jobs)

-- select(Job.source, f).group_by(Job.source): the aggregate of a source, from that of its later rows.
unfoldable pub group_by_source : {V : Type 0} → (Job → Option V → V) → List Job → Dict String V
unfolding get put
group_by_source f [] = []
group_by_source f (job ∷ jobs) =
    let rest = group_by_source f jobs in put job.source (f job (get job.source rest)) rest

abbrev pub or_zero : Option ℕ → ℕ
or_zero none = 0
or_zero (some n) = n

-- func.count(Job.id)
abbrev pub count_row : Job → Option ℕ → ℕ
count_row job n = suc (or_zero n)

unfoldable pub pending_by_source : List Job → Dict String ℕ
unfolding group_by_source select_where
pending_by_source jobs = group_by_source count_row (select_where is_queued jobs)

abbrev pub is_failed : Job → Bool
is_failed job = job.status == failed

unfoldable pub failed_by_source : List Job → Dict String ℕ
unfolding group_by_source select_where
failed_by_source jobs = group_by_source count_row (select_where is_failed jobs)

abbrev pub is_done : Job → Bool
is_done job = job.status == done

unfoldable pub done_count : List Job → ℕ
unfolding count_where
done_count = count_where is_done

-- sum(d.values())
unfoldable pub sum_values : Dict String ℕ → ℕ
sum_values [] = 0
sum_values ((source, n) ∷ d) = n + sum_values d

sum_values-put :
    (k : String) (v : ℕ) (d : Dict String ℕ)
    → v ≡ suc (or_zero (get k d))
    → sum_values (put k v d) ≡ suc (sum_values d)
unfolding sum_values put get
sum_values-put k v [] h = omega arith
sum_values-put k v ((j, n) ∷ d) h = elim (Bool-cases (j == k)) [
  | inl t ↦ rw (t, put) (omega (arith, rw (t, get) at h))
  | inr f ↦ rw (f, put) (omega (arith, sum_values-put k v d (rw (f, get) at h)))
]

-- The groups' counts add up to the rows.
pub sum_values-group_by_source :
    (jobs : List Job) → sum_values (group_by_source count_row jobs) ≡ length jobs
unfolding sum_values group_by_source
sum_values-group_by_source [] = refl
sum_values-group_by_source (job ∷ jobs) = omega (
  arith,
  sum_values-put job.source _ (group_by_source count_row jobs) refl,
  sum_values-group_by_source jobs,
)
