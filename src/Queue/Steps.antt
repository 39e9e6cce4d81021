-- ===== src/Queue/Steps.antt =====
-- The queue as a transition system: every statement of queue.py that writes the table, by any
-- worker, with any arguments, in any order.
use mathlib.Core.Option
use market_relay.Prelude.{
  ℕ, ◌≤◌, String, List, [], ◌∷◌, ◌++◌, Bool, false, Option, some, ◌≡◌, refl, sym, ap, ◌∙◌,
  if◌then◌else◌, ◌==◌, nat_eq, arith, Bool-cases, inl, inr, subst, ==→≡, ◌||◌, ||-false, All,
  All-mono,
}
use market_relay.Table.{update_where, count_where, Unique}
use market_relay.Table.Laws.{
  find_where-update_where, find_where-append, count_where-none, Unique-update_where, Unique-append,
}
use market_relay.Governance.Credentials.{Text}
use market_relay.Jobs.{Job, JobStatus, claimed, running}
use market_relay.Queue.Transitions.{
  Claim, owned_transition, mark_running, mark_done, mark_waiting_for_publication, defer_for_quota,
  mark_failed, is_owned, run_values, done_values, waiting_values, defer_values, failed_values,
  active,
}
use market_relay.Queue.{
  Jobs, get_job, has_id, insert_job, enqueue_idempotent, promote_due_waiting, recover_expired,
  try_claim_one, is_claimable, has_dedupe_key, is_due_waiting, is_expired, promote as promote_row,
  recover as recover_row, claim as claim_row,
}

pub data Step (jobs : Jobs) : Jobs → Type 0 where
  enqueue : (job : Job) → Step jobs (enqueue_idempotent job jobs).1
  promote : (now : ℕ) → Step jobs (promote_due_waiting now jobs).1
  recover : (now lease : ℕ) → Step jobs (recover_expired now lease jobs).1
  claim : (i : ℕ) (w : String) (now utcnow : ℕ) → Step jobs (try_claim_one i w now utcnow jobs).1
  run : (c : Claim) (utcnow : ℕ) → Step jobs (mark_running c utcnow jobs).1
  finish : (c : Claim) (now : ℕ) → Step jobs (mark_done c now jobs).1
  wait :
      (c : Claim) (retry_at utcnow : ℕ)
      → Step jobs (mark_waiting_for_publication c retry_at utcnow jobs).1
  defer :
      (c : Claim) (reset_at : Option ℕ) (now utcnow : ℕ)
      → Step jobs (defer_for_quota c reset_at now utcnow jobs).1
  fail :
      (c : Claim) (attempts most : ℕ) (error : Text) (now : ℕ)
      → Step jobs (mark_failed c attempts most error now jobs).1

pub data Reach (s : Jobs) : Jobs → Type 0 where
  here : Reach s s
  next : {t u : Jobs} → Reach s t → Step t u → Reach s u

-- What a step comes to: an UPDATE that keeps identifiers and lowers no generation, nothing, or a
-- new row under an identifier that no row had.
pub data Shape (s : Jobs) : Jobs → Type 0 where
  written :
      (p : Job → Bool) (f : Job → Job)
      → ((x : Job) → ((f x).id ≡ x.id) × (x.generation ≤ (f x).generation))
      → Shape s (update_where p f s)
  unchanged : Shape s s
  added : (job : Job) → All (λ r. has_id job.id r ≡ false) s → Shape s (s ++ job ∷ [])

pub owned_transition-table :
    (c : Claim) (allowed : List JobStatus) (f : Job → Job) (jobs : Jobs)
    → (owned_transition c allowed f jobs).1 ≡ update_where (is_owned c allowed) f jobs
unfolding owned_transition
owned_transition-table c allowed f jobs = ground arith

pub try_claim_one-table :
    (i : ℕ) (w : String) (now utcnow : ℕ) (jobs : Jobs)
    → (try_claim_one i w now utcnow jobs).1
      ≡ update_where (is_claimable i) (claim_row w now utcnow) jobs
unfolding try_claim_one
try_claim_one-table i w now utcnow jobs = ground arith

-- A refused insertion changes nothing, also through `enqueue_idempotent`.
pub insert_job-enqueue :
    (job : Job) (jobs : Jobs) → (enqueue_idempotent job jobs).1 ≡ (insert_job job jobs).1
unfolding enqueue_idempotent
insert_job-enqueue job jobs = ground arith

insert_job-Shape : (job : Job) (jobs : Jobs) → Shape jobs (insert_job job jobs).1
unfolding insert_job
insert_job-Shape job jobs =
    elim (Bool-cases
      (count_where (λ r. has_id job.id r || has_dedupe_key job.dedupe_key r) jobs == 0)) [
        | inr taken ↦ rw taken unchanged
        | inl free ↦ rw free (
            added job (
              All-mono (λ r absent. (||-false _ _ absent).0) jobs
                (count_where-none _ jobs (==→≡ free))))
      ]

owned_transition-Shape :
    (c : Claim) (allowed : List JobStatus) (f : Job → Job) (jobs : Jobs)
    → ((x : Job) → ((f x).id ≡ x.id) × (x.generation ≤ (f x).generation))
    → Shape jobs (owned_transition c allowed f jobs).1
owned_transition-Shape c allowed f jobs h =
    subst (Shape jobs) (sym (owned_transition-table c allowed f jobs)) (written _ f h)

pub Step-Shape : {s t : Jobs} → Step s t → Shape s t
unfolding mark_running mark_done mark_waiting_for_publication defer_for_quota mark_failed
    promote_due_waiting recover_expired
Step-Shape {s} (enqueue job) = rw insert_job-enqueue (insert_job-Shape job s)
Step-Shape {s} (promote now) =
    written (is_due_waiting now) (promote_row now) (λ x. (refl, omega arith))
Step-Shape {s} (recover now lease) =
    written (is_expired now lease) (recover_row now) (λ x. (refl, omega arith))
Step-Shape {s} (claim i w now utcnow) =
    subst (Shape s) (sym (try_claim_one-table i w now utcnow s))
      (written (is_claimable i) (claim_row w now utcnow) (λ x. (refl, omega arith)))
Step-Shape {s} (run c utcnow) =
    owned_transition-Shape c (claimed ∷ []) (run_values utcnow) s (λ x. (refl, omega arith))
Step-Shape {s} (finish c now) =
    owned_transition-Shape c (running ∷ []) (done_values now) s (λ x. (refl, omega arith))
Step-Shape {s} (wait c retry_at utcnow) =
    owned_transition-Shape c active (waiting_values retry_at utcnow) s (λ x. (refl, omega arith))
Step-Shape {s} (defer c reset_at now utcnow) =
    owned_transition-Shape c active (defer_values reset_at now utcnow) s (λ x. (refl, omega arith))
Step-Shape {s} (fail c attempts most error now) =
    owned_transition-Shape c active (failed_values attempts most error now) s
      (λ x. (refl, omega arith))

-- The row of a job in a later table: still there, its generation no lower.
abbrev pub Later : ℕ → Job → Jobs → Type 0
Later i r t = (r' : Job) × (get_job i t ≡ some r') × (r.generation ≤ r'.generation)

pub get_job-update_where :
    (i : ℕ) (p : Job → Bool) (f : Job → Job) (jobs : Jobs)
    → ((r : Job) → (f r).id ≡ r.id)
    → get_job i (update_where p f jobs) ≡ Option.map (λ r. if p r then f r else r) (get_job i jobs)
unfolding get_job
get_job-update_where i p f jobs h =
    find_where-update_where (has_id i) p f jobs (λ r. ap (λ k. k == i) (h r))

get_job-append :
    (i : ℕ) (jobs : Jobs) (job r : Job)
    → get_job i jobs ≡ some r
    → get_job i (jobs ++ job ∷ []) ≡ some r
unfolding get_job
get_job-append i jobs job r e = find_where-append (has_id i) jobs job ∙ rw e refl

Shape-Later : {s t : Jobs} (i : ℕ) (r : Job) → Shape s t → get_job i s ≡ some r → Later i r t
Shape-Later {s} i r (written p f h) e = (
  (if p r then f r else r),
  get_job-update_where i p f s (λ x. (h x).0) ∙ ap (Option.map _) e,
  ground (arith, (h r).1),
)
Shape-Later i r unchanged e = (r, e, omega arith)
Shape-Later {s} i r (added job absent) e = (r, get_job-append i s job r e, omega arith)

-- A statement of the queue never deletes a job and never lowers a generation.
pub Reach-Later : {s t : Jobs} (i : ℕ) (r : Job) → get_job i s ≡ some r → Reach s t → Later i r t
Reach-Later i r e here = (r, e, omega arith)
Reach-Later i r e (next path step) =
    let (m, found, le) = Reach-Later i r e path in
    let (r', found', le') = Shape-Later i m (Step-Shape step) found in (r', found', omega arith)

abbrev pub id_of : Job → ℕ
id_of job = job.id

Shape-Unique : {s t : Jobs} → Shape s t → Unique id_of s → Unique id_of t
Shape-Unique {s} (written p f h) u = Unique-update_where id_of p f s (λ x. (h x).0) u
Shape-Unique unchanged u = u
Shape-Unique {s} (added job absent) u =
    Unique-append id_of s job u
      (All-mono (λ r no_match same. ground (arith, nat_eq.equals_iff r.id job.id)) s absent)

-- Every statement of the queue keeps the identifiers unique.
pub Reach-Unique : {s t : Jobs} → Unique id_of s → Reach s t → Unique id_of t
Reach-Unique u here = u
Reach-Unique u (next path step) = Shape-Unique (Step-Shape step) (Reach-Unique u path)
