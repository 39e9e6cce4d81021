-- ===== src/Queue/Filling.antt =====
-- Which jobs `claim_next` hands over, and in what order.
use mathlib.Core.List.{Memᴰ}
use market_relay.Prelude.{
  ℕ, zero, suc, ◌*◌, ◌≤◌, String, List, [], ◌∷◌, Bool, true, Option, some, ◌≡◌, refl, sym, ap, ◌∙◌,
  ◌≢◌, nat_eq, arith, Bool-cases, inl, inr, subst, All, All-mono, All-take, All-both, take, map,
}
use market_relay.Table.{Unique, select_where}
use market_relay.Table.Laws.{Unique-found, select_where-matches, All-select_where}
use market_relay.Jobs.{Job, job_status_eq}
use market_relay.Queue.Steps.{id_of, Step, Reach-Unique, here, next}
use market_relay.Queue.Order.{sort_due}
use market_relay.Queue.Ages.{is_pending}
use market_relay.Queue.Claiming.{try_claim_one-outcome, get_job-claim, Unique-claim}
use market_relay.Queue.Batch.{prepared, IsDue, is_candidate-IsDue, IsDue-is_candidate}
use market_relay.Queue.DueOrder.{
  All-sort_due, Unique-sort_due, sort_due-IsInOrder, Memᴰ-sort_due, IsInOrder,
}
use market_relay.Queue.{
  Jobs, get_job, try_claim_one, claim, claim_each, claim_next, candidate_ids, is_candidate,
}

-- A row that the table holds under its identifier, waiting for a worker.
abbrev Waits : Jobs → Job → Type 0
Waits jobs r = (get_job r.id jobs ≡ some r) × (is_pending r ≡ true)

Waits-claim :
    (i : ℕ) (w : String) (now utcnow : ℕ) (jobs : Jobs) (x : Job)
    → x.id ≢ i
    → Waits jobs x
    → Waits (try_claim_one i w now utcnow jobs).1 x
Waits-claim i w now utcnow jobs x other (e, p) = (
  get_job-claim i x.id w now utcnow jobs x e ∙ ground (arith, nat_eq.equals_iff x.id i, other),
  p,
)

claim_each-takes :
    (rs : List Job) (room : ℕ) (w : String) (now utcnow : ℕ) (jobs : Jobs)
    → Unique id_of jobs
    → Unique id_of rs
    → All (Waits jobs) rs
    → (claim_each (map id_of rs) room w now utcnow jobs).0 ≡ map (claim w now utcnow) (take room rs)
unfolding claim_each
claim_each-takes [] zero w now utcnow jobs u d a = refl
claim_each-takes [] (suc room) w now utcnow jobs u d a = refl
claim_each-takes (r ∷ rs) zero w now utcnow jobs u d a = refl
claim_each-takes (r ∷ rs) (suc room) w now utcnow jobs u d a =
    let won : (try_claim_one r.id w now utcnow jobs).0 ≡ some (claim w now utcnow r) =
      try_claim_one-outcome r.id w now utcnow jobs u ∙ rw (a.0.0, a.0.1) refl in
    let rest =
      claim_each-takes rs room w now utcnow (try_claim_one r.id w now utcnow jobs).1
        (Unique-claim r.id w now utcnow jobs u) d.1
        (All-mono (λ x (other, waits). Waits-claim r.id w now utcnow jobs x other waits) rs
          (All-both _ _ rs d.0 a.1)) in
    rw (won, claim_each) (ap (λ more. claim w now utcnow r ∷ more) rest)

-- Taking from a longer prefix.
take-take {ℓ} : {A : Type ℓ} (m n : ℕ) (xs : List A) → m ≤ n → take m (take n xs) ≡ take m xs
take-take zero n xs h = refl
take-take (suc m) zero xs h = absurd (omega arith)
take-take (suc m) (suc n) [] h = refl
take-take (suc m) (suc n) (x ∷ xs) h = ap (λ ys. x ∷ ys) (take-take m n xs (omega arith))

module _ {ℓ κ} {A : Type ℓ} {K : Type κ} (key : A → K) where
  Unique-take : (n : ℕ) (xs : List A) → Unique key xs → Unique key (take n xs)
  Unique-take zero xs u = tt
  Unique-take (suc n) [] u = tt
  Unique-take (suc n) (x ∷ xs) u = (All-take _ n xs u.0, Unique-take n xs u.1)

  Unique-select_where :
      (p : A → Bool) (rows : List A) → Unique key rows → Unique key (select_where p rows)
  unfolding select_where
  Unique-select_where p [] u = tt
  Unique-select_where p (r ∷ rows) u = elim (Bool-cases (p r)) [
    | inl e ↦ rw (e, select_where) (All-select_where _ p rows u.0, Unique-select_where p rows u.1)
    | inr e ↦ rw (e, select_where) (Unique-select_where p rows u.1)
  ]

All-Memᴰ {ℓ} : {A : Type ℓ} (xs : List A) → All (λ x. Memᴰ x xs) xs
All-Memᴰ [] = tt
All-Memᴰ (x ∷ xs) = (Memᴰ.head refl, All-mono (λ y m. Memᴰ.tail m) xs (All-Memᴰ xs))

Memᴰ-select_where {ℓ} :
    {A : Type ℓ} (p : A → Bool) (rows : List A)
    → All (λ r. p r ≡ true → Memᴰ r (select_where p rows)) rows
unfolding select_where
Memᴰ-select_where p [] = tt
Memᴰ-select_where p (x ∷ rows) =
    let rest = Memᴰ-select_where p rows in
    elim (Bool-cases (p x)) [
      | inl e ↦
          let taken : select_where p (x ∷ rows) ≡ x ∷ select_where p rows = rw e refl in
          subst (λ s. All (λ r. p r ≡ true → Memᴰ r s) (x ∷ rows)) (sym taken)
            (λ ok. Memᴰ.head refl, All-mono (λ r there ok. Memᴰ.tail (there ok)) rows rest)
      | inr e ↦
          let left : select_where p (x ∷ rows) ≡ select_where p rows = rw e refl in
          subst (λ s. All (λ r. p r ≡ true → Memᴰ r s) (x ∷ rows)) (sym left)
            (λ ok. absurd (cc (e, ok)), rest)
    ]

-- What `claim_next` chooses from: the rows of the table that are due, each of them once and none
-- left out, in the order of their due times.
abbrev pub IsQueueOf : ℕ → Option String → Jobs → List Job → Type 0
IsQueueOf now source table ds =
    IsInOrder ds
    × Unique id_of ds
    × All (λ r. Memᴰ r table × IsDue now source r) ds
    × All (λ r. IsDue now source r → Memᴰ r ds) table

due_queue : ℕ → Option String → Jobs → List Job
due_queue now source table = sort_due (select_where (is_candidate now source) table)

due_queue-IsQueueOf :
    (now : ℕ) (source : Option String) (table : Jobs)
    → Unique id_of table
    → IsQueueOf now source table (due_queue now source table)
unfolding due_queue
due_queue-IsQueueOf now source table u =
    let cand = is_candidate now source in
    let rows = select_where cand table in
    (
      sort_due-IsInOrder rows,
      Unique-sort_due rows (Unique-select_where id_of cand table u),
      All-sort_due _ rows (
          All-mono (λ r (m, ok). (m, is_candidate-IsDue now source r ok)) rows
            (All-both _ _ rows (All-select_where _ cand table (All-Memᴰ table))
              (select_where-matches cand table))),
      All-mono (λ r there due. Memᴰ-sort_due r rows (there (IsDue-is_candidate now source r due)))
          table (Memᴰ-select_where cand table),
    )

-- `claim_next` claims the first `limit` jobs of the queue, in its order: the jobs that were
-- `PENDING`, due and of the source asked for once expired leases were recovered and waiting jobs
-- promoted, by due time and then by identifier; fewer only when there are no more of them.
pub claim_next-takes_first :
    (w : String) (now utcnow : ℕ) (source : Option String) (limit lease_seconds : ℕ) (jobs : Jobs)
    → Unique id_of jobs
    → (ds : List Job) × IsQueueOf now source (prepared now lease_seconds jobs) ds
      × ((claim_next w now utcnow source limit lease_seconds jobs).0
          ≡ map (claim w now utcnow) (take limit ds))
unfolding claim_next candidate_ids get_job due_queue
claim_next-takes_first w now utcnow source limit lease_seconds jobs u =
    let table = prepared now lease_seconds jobs in
    let u' : Unique id_of table =
      Reach-Unique u (next (next here (Step.recover now lease_seconds)) (Step.promote now)) in
    let ds = due_queue now source table in
    let cand = is_candidate now source in
    let waiting : All (Waits table) (select_where cand table) =
      All-mono (λ r (found, ok). (found, rw (is_candidate-IsDue now source r ok).0 refl)) _
        (All-both _ _ (select_where cand table)
          (All-select_where _ cand table (Unique-found id_of table u'))
          (select_where-matches cand table)) in
    let (ordered, distinct, rows, complete) = due_queue-IsQueueOf now source table u' in
    (
      ds,
      (ordered, distinct, rows, complete),
      claim_each-takes (take (limit * 5) ds) limit w now utcnow table u'
            (Unique-take id_of (limit * 5) ds distinct)
            (All-take _ (limit * 5) ds (All-sort_due (Waits table) _ waiting))
          ∙ ap (map (claim w now utcnow)) (take-take limit (limit * 5) ds (omega arith)),
    )
