-- ===== src/Planning/Sorting.antt =====
-- The order of the checks: the sort keeps them all, and puts distinct dates in ascending order.
use mathlib.Core.List.{Perm}
use mathlib.Core.List.Perm
use market_relay.Prelude.{
  ℕ, ◌<◌, List, [], ◌∷◌, ◌≢◌, arith, Bool-cases, inl, inr, All, All-mono, leb,
}
use market_relay.Table.{Unique}
use market_relay.Planning.{SessionCheck, insert_check, sort_checks}

insert_check-perm : (c : SessionCheck) (cs : List SessionCheck) → Perm (insert_check c cs) (c ∷ cs)
unfolding insert_check
insert_check-perm c [] = Perm.refl _
insert_check-perm c (x ∷ xs) = elim (Bool-cases (leb c.session_date x.session_date)) [
  | inl e ↦ rw e (Perm.refl _)
  | inr e ↦ rw e (Perm.trans (Perm.cons x (insert_check-perm c xs)) (Perm.swap c x xs))
]

pub sort_checks-perm : (cs : List SessionCheck) → Perm (sort_checks cs) cs
unfolding sort_checks
sort_checks-perm [] = Perm.refl _
sort_checks-perm (c ∷ cs) =
    Perm.trans (insert_check-perm c (sort_checks cs)) (Perm.cons c (sort_checks-perm cs))

All-insert_check {κ} :
    (P : SessionCheck → Type κ) (c : SessionCheck) (cs : List SessionCheck)
    → P c
    → All P cs
    → All P (insert_check c cs)
unfolding insert_check
All-insert_check P c [] h a = (h, tt)
All-insert_check P c (x ∷ xs) h a = elim (Bool-cases (leb c.session_date x.session_date)) [
  | inl e ↦ rw (e, insert_check) (h, a)
  | inr e ↦ rw (e, insert_check) (a.0, All-insert_check P c xs h a.1)
]

pub All-sort_checks {κ} :
    (P : SessionCheck → Type κ) (cs : List SessionCheck) → All P cs → All P (sort_checks cs)
unfolding sort_checks
All-sort_checks P [] a = tt
All-sort_checks P (c ∷ cs) a = All-insert_check P c (sort_checks cs) a.0 (All-sort_checks P cs a.1)

abbrev pub date_of : SessionCheck → ℕ
date_of c = c.session_date

abbrev pub Ascending : List SessionCheck → Type 0
Ascending [] = Unit
Ascending (c ∷ cs) = All (λ x. date_of c < date_of x) cs × Ascending cs

insert_check-Ascending :
    (c : SessionCheck) (cs : List SessionCheck)
    → All (λ x. date_of x ≢ date_of c) cs
    → Ascending cs
    → Ascending (insert_check c cs)
unfolding insert_check
insert_check-Ascending c [] ne a = (tt, tt)
insert_check-Ascending c (x ∷ xs) ne a = elim (Bool-cases (leb c.session_date x.session_date)) [
  | inl e ↦
      let below : date_of c < date_of x = ground (arith, e, ne.0) in
      rw (e, insert_check) ((below, All-mono (λ y lt. omega arith) xs a.0), a)
  | inr e ↦
      rw (e, insert_check)
        (
          All-insert_check (λ y. date_of x < date_of y) c xs (ground (arith, e)) a.0,
          insert_check-Ascending c xs ne.1 a.1,
        )
]

pub sort_checks-Ascending :
    (cs : List SessionCheck) → Unique date_of cs → Ascending (sort_checks cs)
unfolding sort_checks
sort_checks-Ascending [] u = tt
sort_checks-Ascending (c ∷ cs) u =
    insert_check-Ascending c (sort_checks cs) (All-sort_checks _ cs u.0)
      (sort_checks-Ascending cs u.1)
