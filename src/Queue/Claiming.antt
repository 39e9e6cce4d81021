-- ===== src/Queue/Claiming.antt =====
-- Claims: who wins a row, and what a later claim does to an earlier one.
use mathlib.Core.Option
use market_relay.Prelude.{
  ℕ, ◌<◌, String, true, Option, none, some, ◌≡◌, refl, sym, ap, ◌∙◌, if◌then◌else◌, nat_eq, arith,
  Bool-cases, inl, inr, Option-cases,
}
use market_relay.Table.{count_where, Unique}
use market_relay.Table.Laws.{count_where-key}
use market_relay.Jobs.{Job, job_status_eq}
use market_relay.Queue.Steps.{
  Reach, Step, id_of, get_job-update_where, Reach-Later, Reach-Unique, try_claim_one-table, here,
  next,
}
use market_relay.Queue.Ownership.{found_id}
use market_relay.Queue.Ages.{is_pending}
use market_relay.Queue.Fencing.{IsFenced, superseded-IsFenced}
use market_relay.Queue.{Jobs, get_job, try_claim_one, is_claimable, claim}

abbrev pub claim_outcome : Option Job → String → ℕ → ℕ → Option Job
claim_outcome none w now utcnow = none
claim_outcome (some r) w now utcnow = if is_pending r then some (claim w now utcnow r) else none

-- A claim is won exactly when the job's row is `PENDING`, and hands over the row that it wrote.
pub try_claim_one-outcome :
    (i : ℕ) (w : String) (now utcnow : ℕ) (jobs : Jobs)
    → Unique id_of jobs
    → (try_claim_one i w now utcnow jobs).0 ≡ claim_outcome (get_job i jobs) w now utcnow
unfolding try_claim_one
try_claim_one-outcome i w now utcnow jobs u = elim (Option-cases (get_job i jobs)) [
  | inl e ↦
      let nothing : count_where (is_claimable i) jobs ≡ 0 = rowcount ∙ rw e refl in
      rw (nothing, e) refl
  | inr (r, e) ↦ elim (Bool-cases (is_pending r)) [
    | inl h ↦
        let one : count_where (is_claimable i) jobs ≡ 1 = rowcount ∙ rw (e, h) refl in
        rw (one, e, h)
          (get_job-update_where i (is_claimable i) (claim w now utcnow) jobs (λ x. refl)
            ∙ rw e (ground (arith, h, nat_eq.equals_iff r.id i, found_id i jobs r e)))
    | inr h ↦
        let nothing : count_where (is_claimable i) jobs ≡ 0 = rowcount ∙ rw (e, h) refl in
        rw (nothing, e, h) refl
  ]
]
  where
    rowcount :
        count_where (is_claimable i) jobs
        ≡ (elim (get_job i jobs) [ some r ↦ if is_pending r then 1 else 0 | none ↦ 0 ])
    rowcount = unfold get_job in count_where-key id_of i is_pending jobs u

claim_outcome-some :
    (o : Option Job) (w : String) (now utcnow : ℕ) {won : Job}
    → claim_outcome o w now utcnow ≡ some won
    → (r : Job) × (o ≡ some r) × (is_pending r ≡ true) × (won ≡ claim w now utcnow r)
claim_outcome-some none w now utcnow h = cc
claim_outcome-some (some r) w now utcnow h = (r, refl, ground arith, ground arith)

pub get_job-claim-map :
    (i j : ℕ) (w : String) (now utcnow : ℕ) (jobs : Jobs)
    → get_job j (try_claim_one i w now utcnow jobs).1
      ≡ Option.map (λ r. if is_claimable i r then claim w now utcnow r else r) (get_job j jobs)
get_job-claim-map i j w now utcnow jobs =
    ap (get_job j) (try_claim_one-table i w now utcnow jobs)
    ∙ get_job-update_where j (is_claimable i) (claim w now utcnow) jobs (λ x. refl)

pub get_job-claim :
    (i j : ℕ) (w : String) (now utcnow : ℕ) (jobs : Jobs) (r : Job)
    → get_job j jobs ≡ some r
    → get_job j (try_claim_one i w now utcnow jobs).1
      ≡ some (if is_claimable i r then claim w now utcnow r else r)
get_job-claim i j w now utcnow jobs r e = get_job-claim-map i j w now utcnow jobs ∙ rw e refl

unfoldable pub Won : ℕ → String → ℕ → ℕ → Jobs → Job → Jobs → Type 0
Won i w now utcnow jobs won after =
    (r : Job) × (get_job i jobs ≡ some r)
    × (is_pending r ≡ true)
    × (won ≡ claim w now utcnow r)
    × (get_job i after ≡ some won)

pub Won-claim :
    (i : ℕ) (w : String) (now utcnow : ℕ) (jobs : Jobs) (won : Job)
    → Unique id_of jobs
    → (try_claim_one i w now utcnow jobs).0 ≡ some won
    → Won i w now utcnow jobs won (try_claim_one i w now utcnow jobs).1
unfolding Won
Won-claim i w now utcnow jobs won u h =
    let (r, e, p, same) =
      claim_outcome-some (get_job i jobs) w now utcnow
        (sym (try_claim_one-outcome i w now utcnow jobs u) ∙ h) in
    (
      r,
      e,
      p,
      same,
      get_job-claim i i w now utcnow jobs r e
          ∙ rw same (ground (arith, p, nat_eq.equals_iff r.id i, found_id i jobs r e)),
    )

pub Unique-claim :
    (i : ℕ) (w : String) (now utcnow : ℕ) (jobs : Jobs)
    → Unique id_of jobs
    → Unique id_of (try_claim_one i w now utcnow jobs).1
Unique-claim i w now utcnow jobs u = Reach-Unique u (next here (Step.claim i w now utcnow))

-- Two workers never hold one claim: when a job is won again, at any later point, its generation is
-- strictly higher, and the first winner is fenced.
pub second_claim-fences-first :
    (i : ℕ) (w w' : String) (now now' utcnow utcnow' : ℕ) (s t : Jobs) (first second : Job)
    → Unique id_of s
    → (try_claim_one i w now utcnow s).0 ≡ some first
    → Reach (try_claim_one i w now utcnow s).1 t
    → (try_claim_one i w' now' utcnow' t).0 ≡ some second
    → (first.generation < second.generation)
      × IsFenced
          (record { job = i; worker_id = w; generation = first.generation })
          (try_claim_one i w' now' utcnow' t).1
unfolding Won
second_claim-fences-first i w w' now now' utcnow utcnow' s t first second u h path h' =
    let u₁ = Unique-claim i w now utcnow s u in
    let (r, e, p, same, found) = Won-claim i w now utcnow s first u h in
    let (m, found', le) = Reach-Later i first found path in
    let uₜ = Reach-Unique u₁ path in
    let (r', e', p', same', found'') = Won-claim i w' now' utcnow' t second uₜ h' in
    let higher : first.generation < second.generation = ground (arith, found', e', same', le) in
    (
      higher,
      superseded-IsFenced _ _ _ second (Unique-claim i w' now' utcnow' t uₜ) found'' higher here,
    )
