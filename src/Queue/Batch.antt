-- ===== src/Queue/Batch.antt =====
-- The batch that `claim_next` hands to a worker.
use market_relay.Prelude.{
  leb, ℕ, ◌≤◌, ◌*◌, String, true, Option, none, some, ◌≡◌, ◌⊎◌, ◌==◌, ◌&&◌, &&-true, ==→≡,
  string_eq, leb→le, string_eq, refl, sym, ap, nat_eq, arith, inl, inr, All, All-mono, length,
  All-take, All-both, All-map,
}
use market_relay.Table.{Unique, select_where}
use market_relay.Table.Laws.{Unique-found, select_where-matches, All-select_where}
use market_relay.Jobs.{Job, pending, job_status_eq}
use market_relay.Queue.Steps.{id_of, Step, Reach-Unique, here, next}
use market_relay.Queue.DueOrder.{All-sort_due}
use market_relay.Queue.{
  Jobs, get_job, claim_next, candidate_ids, is_candidate, recover_expired, promote_due_waiting,
}
use market_relay.Queue.ClaimLoop.{IsCandidate, IsClaimed, Batch-claim_each, Unique-claim_each}

-- A row that waits for a worker at `now`, of the source asked for when one is.
abbrev pub IsDue : ℕ → Option String → Job → Type 0
IsDue now source r =
    (r.status ≡ pending) × (r.next_run_at ≤ now) × ((source ≡ none) ⊎ (source ≡ some r.source))

pub is_candidate-IsDue :
    (now : ℕ) (source : Option String) (r : Job)
    → is_candidate now source r ≡ true
    → IsDue now source r
is_candidate-IsDue now none r h =
    let (pass, any) = &&-true (r.status == pending && leb r.next_run_at now) true h in
    let (waits, due) = &&-true (r.status == pending) (leb r.next_run_at now) pass in
    (==→≡ waits, leb→le r.next_run_at now due, inl refl)
is_candidate-IsDue now (some s) r h =
    let (pass, own) = &&-true (r.status == pending && leb r.next_run_at now) (r.source == s) h in
    let (waits, due) = &&-true (r.status == pending) (leb r.next_run_at now) pass in
    (==→≡ waits, leb→le r.next_run_at now due, inr (ap some (sym (==→≡ own))))

pub IsDue-is_candidate :
    (now : ℕ) (source : Option String) (r : Job)
    → IsDue now source r
    → is_candidate now source r ≡ true
IsDue-is_candidate now none r (waits, due, own) = ground (arith, waits, due)
IsDue-is_candidate now (some s) r (waits, due, inl other) = absurd (cc other)
IsDue-is_candidate now (some s) r (waits, due, inr own) =
    let same : (r.source == s) ≡ true = (string_eq.equals_iff r.source s).1 (cc own) in
    ground (arith, waits, due, same)

-- The candidates are rows of the table that are due.
candidate_ids-IsCandidate :
    (w : String) (now utcnow : ℕ) (source : Option String) (limit : ℕ) (due : Jobs)
    → Unique id_of due
    → All (IsCandidate w now utcnow (IsDue now source) due) (candidate_ids now source limit due)
unfolding candidate_ids get_job
candidate_ids-IsCandidate w now utcnow source limit due u =
    let cand = is_candidate now source in
    All-map _ id_of _ (
      All-take _ (limit * 5) _ (
        All-sort_due _ (select_where cand due) (
          All-mono (λ r (found, ok). (r, found, is_candidate-IsDue now source r ok))
            (select_where cand due)
            (All-both _ _ (select_where cand due)
              (All-select_where _ cand due (Unique-found id_of due u))
              (select_where-matches cand due)))))

-- The table that the claims of `claim_next` start from.
abbrev pub prepared : ℕ → ℕ → Jobs → Jobs
prepared now lease_seconds jobs =
    (promote_due_waiting now (recover_expired now lease_seconds jobs).1).1

-- `claim_next` hands over at most `limit` jobs, no job twice, and each of them was `PENDING`, due
-- and of the source asked for once expired leases were recovered and waiting jobs promoted; it is
-- exactly that row with the worker's claim written on it, and the table holds it so at the end.
pub claim_next-claims :
    (w : String) (now utcnow : ℕ) (source : Option String) (limit lease_seconds : ℕ) (jobs : Jobs)
    → Unique id_of jobs
    → let out = claim_next w now utcnow source limit lease_seconds jobs in
      (length out.0 ≤ limit)
      × Unique id_of out.0
      × All
          (IsClaimed w now utcnow (IsDue now source) (prepared now lease_seconds jobs) out.1)
          out.0
unfolding claim_next
claim_next-claims w now utcnow source limit lease_seconds jobs u =
    let u' =
      Reach-Unique u (next (next here (Step.recover now lease_seconds)) (Step.promote now)) in
    let batch =
      Batch-claim_each w now utcnow (IsDue now source) _ _ limit _ u' (λ j r e p. e)
        (candidate_ids-IsCandidate w now utcnow source limit _ u') in
    (batch.bounded, batch.distinct, batch.rows)

pub Unique-claim_next :
    (w : String) (now utcnow : ℕ) (source : Option String) (limit lease_seconds : ℕ) (jobs : Jobs)
    → Unique id_of jobs
    → Unique id_of (claim_next w now utcnow source limit lease_seconds jobs).1
unfolding claim_next
Unique-claim_next w now utcnow source limit lease_seconds jobs u =
    Unique-claim_each _ limit w now utcnow _
      (Reach-Unique u (next (next here (Step.recover now lease_seconds)) (Step.promote now)))
