-- ===== src/Queue/DueOrder.antt =====
-- The order of the queue, `order_by(Job.next_run_at, Job.id)`: what sorting keeps and what it gives.
use mathlib.Core.List.{Memᴰ}
use mathlib.Core.List.Memᴰ
use market_relay.Prelude.{
  ◌≤◌, ◌<◌, List, [], ◌∷◌, true, false, ◌≡◌, sym, ◌≢◌, ◌⊎◌, nat_eq, arith, Bool-cases, inl, inr,
  All, All-mono,
}
use market_relay.Table.{Unique}
use market_relay.Jobs.{Job}
use market_relay.Queue.Steps.{id_of}
use market_relay.Queue.Order.{sort_due, insert_due, due_before}

All-insert_due {κ} :
    (P : Job → Type κ) (job : Job) (jobs : List Job)
    → P job
    → All P jobs
    → All P (insert_due job jobs)
unfolding insert_due
All-insert_due P job [] h a = (h, tt)
All-insert_due P job (x ∷ jobs) h a = elim (Bool-cases (due_before job x)) [
  | inl e ↦ rw (e, insert_due) (h, a)
  | inr e ↦ rw (e, insert_due) (a.0, All-insert_due P job jobs h a.1)
]

pub All-sort_due {κ} : (P : Job → Type κ) (jobs : List Job) → All P jobs → All P (sort_due jobs)
unfolding sort_due
All-sort_due P [] a = tt
All-sort_due P (job ∷ jobs) a = All-insert_due P job (sort_due jobs) a.0 (All-sort_due P jobs a.1)

Unique-insert_due :
    (job : Job) (jobs : List Job)
    → All (λ x. x.id ≢ job.id) jobs
    → Unique id_of jobs
    → Unique id_of (insert_due job jobs)
unfolding insert_due
Unique-insert_due job [] a u = (tt, tt)
Unique-insert_due job (x ∷ jobs) a u = elim (Bool-cases (due_before job x)) [
  | inl e ↦ rw (e, insert_due) (a, u)
  | inr e ↦
      rw (e, insert_due)
        (All-insert_due _ job jobs (λ same. a.0 (sym same)) u.0, Unique-insert_due job jobs a.1 u.1)
]

pub Unique-sort_due : (jobs : List Job) → Unique id_of jobs → Unique id_of (sort_due jobs)
unfolding sort_due
Unique-sort_due [] u = tt
Unique-sort_due (job ∷ jobs) u =
    Unique-insert_due job (sort_due jobs) (All-sort_due _ jobs u.0) (Unique-sort_due jobs u.1)

-- `ORDER BY next_run_at, id`: no job stands before one that is due earlier, and jobs due at one
-- moment stand by identifier.
abbrev pub ComesBefore : Job → Job → Type 0
ComesBefore a b =
    (a.next_run_at < b.next_run_at) ⊎ ((a.next_run_at ≡ b.next_run_at) × (a.id ≤ b.id))

abbrev pub IsInOrder : List Job → Type 0
IsInOrder [] = Unit
IsInOrder (x ∷ xs) = All (ComesBefore x) xs × IsInOrder xs

due_before-ComesBefore : (a b : Job) → due_before a b ≡ true → ComesBefore a b
unfolding due_before
due_before-ComesBefore a b h = ground (arith, nat_eq.equals_iff a.next_run_at b.next_run_at)

due_before-turned : (a b : Job) → due_before a b ≡ false → ComesBefore b a
unfolding due_before
due_before-turned a b h = ground (arith, nat_eq.equals_iff a.next_run_at b.next_run_at)

ComesBefore-trans : (a b c : Job) → ComesBefore a b → ComesBefore b c → ComesBefore a c
ComesBefore-trans a b c h k = ground arith

insert_due-IsInOrder :
    (job : Job) (jobs : List Job) → IsInOrder jobs → IsInOrder (insert_due job jobs)
unfolding insert_due
insert_due-IsInOrder job [] o = (tt, tt)
insert_due-IsInOrder job (x ∷ jobs) o = elim (Bool-cases (due_before job x)) [
  | inl e ↦
      let before = due_before-ComesBefore job x e in
      rw (e, insert_due) ((before, All-mono (λ y. ComesBefore-trans job x y before) jobs o.0), o)
  | inr e ↦
      rw (e, insert_due)
        (
          All-insert_due _ job jobs (due_before-turned job x e) o.0,
          insert_due-IsInOrder job jobs o.1,
        )
]

pub sort_due-IsInOrder : (jobs : List Job) → IsInOrder (sort_due jobs)
unfolding sort_due
sort_due-IsInOrder [] = tt
sort_due-IsInOrder (job ∷ jobs) = insert_due-IsInOrder job (sort_due jobs) (sort_due-IsInOrder jobs)

Memᴰ-insert_due :
    (r job : Job) (jobs : List Job) → Memᴰ r (job ∷ jobs) → Memᴰ r (insert_due job jobs)
unfolding insert_due
Memᴰ-insert_due r job [] m = m
Memᴰ-insert_due r job (x ∷ jobs) m = elim (Bool-cases (due_before job x)) [
  | inl e ↦ rw (e, insert_due) m
  | inr e ↦
      rw (e, insert_due)
        (elim (Memᴰ.cases_cons m) [
          | inl own ↦ Memᴰ.tail (Memᴰ-insert_due r job jobs (Memᴰ.head own))
          | inr there ↦ elim (Memᴰ.cases_cons there) [
            | inl first ↦ Memᴰ.head first
            | inr later ↦ Memᴰ.tail (Memᴰ-insert_due r job jobs (Memᴰ.tail later))
          ]
        ])
]

pub Memᴰ-sort_due : (r : Job) (jobs : List Job) → Memᴰ r jobs → Memᴰ r (sort_due jobs)
unfolding sort_due
Memᴰ-sort_due r [] m = m
Memᴰ-sort_due r (job ∷ jobs) m = Memᴰ-insert_due r job (sort_due jobs) (elim (Memᴰ.cases_cons m) [
  | inl own ↦ Memᴰ.head own
  | inr there ↦ Memᴰ.tail (Memᴰ-sort_due r jobs there)
])
