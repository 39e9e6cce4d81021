-- ===== src/Queue/Ownership.antt =====
-- What an owner's transition does, branch by branch, when identifiers are unique.
use market_relay.Prelude.{
  ℕ, List, [], ◌∷◌, Bool, true, false, none, some, ◌≡◌, ◌≢◌, refl, ◌∙◌, if◌then◌else◌, ◌==◌, ◌&&◌,
  nat_eq, arith, Bool-cases, inl, inr, subst, ==→≡, is_in, option_beq, string_eq,
}
use market_relay.Table.{find_where, update_where, count_where, Unique}
use market_relay.Table.Laws.{count_where-key, update_where-none, find_where-matches}
use market_relay.Action.{returned, raised, stale_job_claim}
use market_relay.Jobs.{Job, JobStatus, job_status_eq}
use market_relay.Queue.Transitions.{Claim, is_owned, owned_transition}
use market_relay.Queue.Steps.{id_of, get_job-update_where}
use market_relay.Queue.{Jobs, get_job}

-- The part of `is_owned` beside the identifier.
abbrev pub holds : Claim → List JobStatus → Job → Bool
holds c allowed row =
    is_in row.status allowed
    && (option_beq row.claimed_by (some c.worker_id) && row.generation == c.generation)

pub rowcount-owned :
    (c : Claim) (allowed : List JobStatus) (jobs : Jobs)
    → Unique id_of jobs
    → count_where (is_owned c allowed) jobs
      ≡ (elim (get_job c.job jobs) [ some r ↦ if holds c allowed r then 1 else 0 | none ↦ 0 ])
unfolding get_job
rowcount-owned c allowed jobs u = count_where-key id_of c.job (holds c allowed) jobs u

pub owned_transition-held :
    (c : Claim) (allowed : List JobStatus) (f : Job → Job) (jobs : Jobs) (r : Job)
    → Unique id_of jobs
    → get_job c.job jobs ≡ some r
    → holds c allowed r ≡ true
    → owned_transition c allowed f jobs ≡ (returned tt, update_where (is_owned c allowed) f jobs)
unfolding owned_transition
owned_transition-held c allowed f jobs r u e h =
    let one : count_where (is_owned c allowed) jobs ≡ 1 =
      rowcount-owned c allowed jobs u ∙ rw (e, h) refl in
    rw one

pub owned_transition-stale :
    (c : Claim) (allowed : List JobStatus) (f : Job → Job) (jobs : Jobs) (r : Job)
    → Unique id_of jobs
    → get_job c.job jobs ≡ some r
    → holds c allowed r ≡ false
    → owned_transition c allowed f jobs ≡ (raised stale_job_claim, jobs)
unfolding owned_transition
owned_transition-stale c allowed f jobs r u e h =
    let nothing : count_where (is_owned c allowed) jobs ≡ 0 =
      rowcount-owned c allowed jobs u ∙ rw (e, h) refl in
    rw (nothing, update_where-none (is_owned c allowed) f jobs nothing)

pub found_id : (i : ℕ) (jobs : Jobs) (r : Job) → get_job i jobs ≡ some r → r.id ≡ i
unfolding get_job
found_id i jobs r e = (nat_eq.equals_iff r.id i).0 (find_where-matches _ jobs e)

pub other_row :
    (c : Claim) (allowed : List JobStatus) (f : Job → Job) (jobs : Jobs) (i : ℕ)
    → ((x : Job) → (f x).id ≡ x.id)
    → i ≢ c.job
    → get_job i (update_where (is_owned c allowed) f jobs) ≡ get_job i jobs
unfolding get_job find_where update_where
other_row c allowed f [] i h ne = refl
other_row c allowed f (x ∷ jobs) i h ne = ground (
  arith,
  h x,
  nat_eq.equals_iff x.id c.job,
  nat_eq.equals_iff x.id i,
  other_row c allowed f jobs i h ne,
)

written_row :
    (c : Claim) (allowed : List JobStatus) (f : Job → Job) (jobs : Jobs) (r : Job) (i : ℕ)
    → ((x : Job) → (f x).id ≡ x.id)
    → get_job c.job jobs ≡ some r
    → holds c allowed r ≡ true
    → get_job i (update_where (is_owned c allowed) f jobs)
      ≡ (if c.job == i && true then some (f r) else get_job i jobs)
written_row c allowed f jobs r i keep e h = elim (Bool-cases (c.job == i)) [
  | inr other ↦ rw other (other_row c allowed f jobs i keep (λ same. ground (arith, other, same)))
  | inl own ↦ rw own (
      subst (λ k. get_job k (update_where (is_owned c allowed) f jobs) ≡ some (f r)) (==→≡ own)
        (get_job-update_where c.job (is_owned c allowed) f jobs keep
          ∙ rw e (ground (arith, h, nat_eq.equals_iff r.id c.job, found_id c.job jobs r e))))
]

-- With unique identifiers, an owner's transition succeeds exactly when the claimed job's row has an
-- allowed status, the claim's owner and its generation; it then writes that row, and that row
-- alone. Otherwise it raises `StaleJobClaimError` and leaves every row as it was.
pub owned_transition-exact :
    (c : Claim) (allowed : List JobStatus) (f : Job → Job) (jobs : Jobs) (r : Job)
    → Unique id_of jobs
    → ((x : Job) → (f x).id ≡ x.id)
    → get_job c.job jobs ≡ some r
    → let after = owned_transition c allowed f jobs in
      (after.0 ≡ (if holds c allowed r then returned tt else raised stale_job_claim))
      × ((i : ℕ)
          → get_job i after.1
            ≡ (if c.job == i && holds c allowed r then some (f r) else get_job i jobs))
owned_transition-exact c allowed f jobs r u keep e = elim (Bool-cases (holds c allowed r)) [
  | inr no_longer ↦
      rw (owned_transition-stale c allowed f jobs r u e no_longer, no_longer)
        (refl, λ i. ground arith)
  | inl h ↦
      rw (owned_transition-held c allowed f jobs r u e h, h)
        (refl, λ i. written_row c allowed f jobs r i keep e h)
]
