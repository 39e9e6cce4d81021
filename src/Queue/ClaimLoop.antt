-- ===== src/Queue/ClaimLoop.antt =====
-- The loop over the candidates of `claim_next`.
use market_relay.Prelude.{
  ℕ, zero, suc, ◌≤◌, String, List, [], ◌∷◌, true, false, some, ◌≡◌, string_eq, string_eq, refl, sym,
  ap, ◌∙◌, nat_eq, arith, inl, inr, subst, All, All-mono, length, Option-cases,
}
use market_relay.Table.{Unique}
use market_relay.Jobs.{Job, job_status_eq}
use market_relay.Queue.Steps.{id_of}
use market_relay.Queue.Ages.{is_pending}
use market_relay.Queue.Claiming.{Won, Won-claim, get_job-claim, get_job-claim-map, Unique-claim}
use market_relay.Queue.Ownership.{found_id}
use market_relay.Queue.{Jobs, get_job, try_claim_one, claim, claim_each}

-- A row that is not pending is left alone by a claim.
claimed_row_stays :
    (i j : ℕ) (w : String) (now utcnow : ℕ) (jobs : Jobs) (r : Job)
    → get_job j jobs ≡ some r
    → is_pending r ≡ false
    → get_job j (try_claim_one i w now utcnow jobs).1 ≡ some r
claimed_row_stays i j w now utcnow jobs r e p =
    get_job-claim i j w now utcnow jobs r e ∙ ground (arith, p)

claimed_row_stays-claim_each :
    (ids : List ℕ) (room j : ℕ) (w : String) (now utcnow : ℕ) (jobs : Jobs) (r : Job)
    → get_job j jobs ≡ some r
    → is_pending r ≡ false
    → get_job j (claim_each ids room w now utcnow jobs).1 ≡ some r
unfolding claim_each
claimed_row_stays-claim_each [] room j w now utcnow jobs r e p = e
claimed_row_stays-claim_each (i ∷ ids) zero j w now utcnow jobs r e p = e
claimed_row_stays-claim_each (i ∷ ids) (suc room) j w now utcnow jobs r e p =
    let kept = claimed_row_stays i j w now utcnow jobs r e p in
    elim (Option-cases (try_claim_one i w now utcnow jobs).0) [
      | inl lost ↦
          rw (lost, claim_each)
            (claimed_row_stays-claim_each ids (suc room) j w now utcnow _ r kept p)
      | inr (won, h) ↦
          rw (h, claim_each) (claimed_row_stays-claim_each ids room j w now utcnow _ r kept p)
    ]

-- A row that is pending after a claim was there, pending, before it.
pending_before :
    (i j : ℕ) (w : String) (now utcnow : ℕ) (jobs : Jobs) (r : Job)
    → get_job j (try_claim_one i w now utcnow jobs).1 ≡ some r
    → is_pending r ≡ true
    → get_job j jobs ≡ some r
pending_before i j w now utcnow jobs r e p =
    ground (arith, get_job-claim-map i j w now utcnow jobs, nat_eq.equals_iff r.id i)

module _ (w : String) (now utcnow : ℕ) (P : Job → Type 0) (due : Jobs) where
  abbrev pub IsCandidate : ℕ → Type 0
  IsCandidate i = (r : Job) × (get_job i due ≡ some r) × P r

  -- A job of the batch: it was a candidate, this worker's claim is what was written of it, and the
  -- table still holds that row.
  abbrev pub IsClaimed : Jobs → Job → Type 0
  IsClaimed final won =
      (r : Job) × (get_job won.id due ≡ some r)
      × P r
      × (won ≡ claim w now utcnow r)
      × (get_job won.id final ≡ some won)

  abbrev IsFresh : Jobs → Job → Type 0
  IsFresh jobs won = (r : Job) × (get_job won.id jobs ≡ some r) × (is_pending r ≡ true)

  -- The pending rows are those that the batch began with.
  abbrev IsUntouched : Jobs → Type 0
  IsUntouched jobs =
      (j : ℕ) (r : Job) → get_job j jobs ≡ some r → is_pending r ≡ true → get_job j due ≡ some r

  pub record Batch (room : ℕ) (jobs : Jobs) (out : List Job × Jobs) : Type 0 where
    pub bounded : length out.0 ≤ room
    pub distinct : Unique id_of out.0
    pub rows : All (IsClaimed out.1) out.0
    fresh : All (IsFresh jobs) out.0

  IsUntouched-claim :
      (i : ℕ) (jobs : Jobs) → IsUntouched jobs → IsUntouched (try_claim_one i w now utcnow jobs).1
  IsUntouched-claim i jobs h j r e p = h j r (pending_before i j w now utcnow jobs r e p) p

  not_pending : (r won : Job) → won ≡ claim w now utcnow r → is_pending won ≡ false
  not_pending r won same = rw same refl

  Batch-won :
      (i : ℕ) (ids : List ℕ) (room : ℕ) (jobs : Jobs) (won : Job)
      → Unique id_of jobs
      → IsUntouched jobs
      → IsCandidate i
      → (try_claim_one i w now utcnow jobs).0 ≡ some won
      → (let jobs' = (try_claim_one i w now utcnow jobs).1 in
          let rest = claim_each ids room w now utcnow jobs' in
          Batch room jobs' rest → Batch (suc room) jobs (won ∷ rest.0, rest.1))
  unfolding Won
  Batch-won i ids room jobs won u untouched (r', e', ok) h rest =
      let (r, e, p, same, found) = Won-claim i w now utcnow jobs won u h in
      let jobs' = (try_claim_one i w now utcnow jobs).1 in
      let final = (claim_each ids room w now utcnow jobs').1 in
      let own : i ≡ won.id = sym (ap id_of same ∙ found_id i jobs r e) in
      let here_due : get_job i due ≡ some r = untouched i r e p in
      let same_row : r' ≡ r = cc (e', here_due) in
      let over : is_pending won ≡ false = not_pending r won same in
      record {
        bounded = omega (arith, rest.bounded);
        distinct = (
          All-mono
              (λ x there same_id.
                is_claimed_then won x over
                  (subst (λ k. get_job k (try_claim_one i w now utcnow jobs).1 ≡ some won)
                    (own ∙ sym same_id) found)
                  there)
              _ rest.fresh,
          rest.distinct,
        );
        rows = (
          (
            r,
            subst (λ k. get_job k due ≡ some r) own here_due,
            subst P same_row ok,
            same,
            subst (λ k. get_job k final ≡ some won) own
                (claimed_row_stays-claim_each ids room i w now utcnow jobs' won found over),
          ),
          rest.rows,
        );
        fresh = (
          (r, subst (λ k. get_job k jobs ≡ some r) own e, p),
          All-mono
              (λ x there.
                (there.0, pending_before i x.id w now utcnow jobs there.0 there.1 there.2, there.2))
              _ rest.fresh,
        );
      }
    where
      is_claimed_then :
          (won x : Job)
          → is_pending won ≡ false
          → get_job x.id (try_claim_one i w now utcnow jobs).1 ≡ some won
          → IsFresh (try_claim_one i w now utcnow jobs).1 x
          → ⊥
      is_claimed_then won x over found there = ground (arith, over, found, there.1, there.2)

  pub Batch-claim_each :
      (ids : List ℕ) (room : ℕ) (jobs : Jobs)
      → Unique id_of jobs
      → IsUntouched jobs
      → All IsCandidate ids
      → Batch room jobs (claim_each ids room w now utcnow jobs)
  unfolding claim_each
  Batch-claim_each [] room jobs u h c = record {
    bounded = omega arith;
    distinct = tt;
    rows = tt;
    fresh = tt;
  }
  Batch-claim_each (i ∷ ids) zero jobs u h c = record {
    bounded = omega arith;
    distinct = tt;
    rows = tt;
    fresh = tt;
  }
  Batch-claim_each (i ∷ ids) (suc room) jobs u h c =
      let u' = Unique-claim i w now utcnow jobs u in
      let h' = IsUntouched-claim i jobs h in
      elim (Option-cases (try_claim_one i w now utcnow jobs).0) [
        | inl lost ↦
            let rest = Batch-claim_each ids (suc room) _ u' h' c.1 in
            rw (lost, claim_each)
              (record {
                bounded = rest.bounded;
                distinct = rest.distinct;
                rows = rest.rows;
                fresh =
                    All-mono
                      (λ x there. (
                        there.0,
                        pending_before i x.id w now utcnow jobs there.0 there.1 there.2,
                        there.2,
                      ))
                      _ rest.fresh;
              })
        | inr (won, e) ↦
            rw (e, claim_each)
              (Batch-won i ids room jobs won u h c.0 e (Batch-claim_each ids room _ u' h' c.1))
      ]

pub Unique-claim_each :
    (ids : List ℕ) (room : ℕ) (w : String) (now utcnow : ℕ) (jobs : Jobs)
    → Unique id_of jobs
    → Unique id_of (claim_each ids room w now utcnow jobs).1
unfolding claim_each
Unique-claim_each [] room w now utcnow jobs u = u
Unique-claim_each (i ∷ ids) zero w now utcnow jobs u = u
Unique-claim_each (i ∷ ids) (suc room) w now utcnow jobs u =
    let u' = Unique-claim i w now utcnow jobs u in
    elim (Option-cases (try_claim_one i w now utcnow jobs).0) [
      | inl lost ↦ rw (lost, claim_each) (Unique-claim_each ids (suc room) w now utcnow _ u')
      | inr (won, h) ↦ rw (h, claim_each) (Unique-claim_each ids room w now utcnow _ u')
    ]
