-- ===== src/Adapters/Fake/Quota.antt =====
-- The quota of src/market_relay/adapters/fake/provider.py as a counter of what each source has left.
use market_relay.Prelude.{
  ℕ, ◌+◌, ◌-◌, String, List, [], ◌∷◌, if◌then◌else◌, ◌==◌, string_eq, ◌≡◌, refl, ap, arith,
  Bool-cases, inl, inr, ==→≡, ==-refl, leb, none, ◌∙◌,
}
use market_relay.Dict.{get, put, get-put}
use market_relay.Ingestion.{QuotaStatus, exhausted}
use market_relay.Adapters.Fake.{QuotaBook, check, consume, consumed_by, or_none_consumed}

-- The calls of a client.
pub data QuotaCall : Type 0 where
  check_call : String → QuotaCall
  consume_call : String → ℕ → QuotaCall

unfoldable pub run : List QuotaCall → QuotaBook → List QuotaStatus
unfolding check consume
run [] book = []
run (check_call source ∷ calls) book = check source book ∷ run calls book
run (consume_call source cost ∷ calls) book =
    let r = consume source cost book in r.0 ∷ run calls r.1

-- What a source has left.
abbrev pub Left : Type 0
Left = String → ℕ

abbrev pub status_of : ℕ → String → ℕ → QuotaStatus
status_of limit source left = record {
  source = source;
  remaining = left;
  limit = limit;
  reset_at = none;
}

-- A source that has units left loses what it asks for, down to nothing.
abbrev pub use_up : String → ℕ → Left → Left
use_up source cost left s = if source == s then left s - cost else left s

-- The same calls, on the counters.
pub replay : ℕ → List QuotaCall → Left → List QuotaStatus
replay limit [] left = []
replay limit (check_call source ∷ calls) left =
    status_of limit source (left source) ∷ replay limit calls left
replay limit (consume_call source cost ∷ calls) left =
    let left' = use_up source cost left in
    status_of limit source (left' source) ∷ replay limit calls left'

-- A book stands for the counters.
abbrev pub StandsFor : QuotaBook → Left → Type 0
StandsFor book left = (source : String) → book.limit - consumed_by source book ≡ left source

put-StandsFor :
    (source s : String) (cost : ℕ) (book : QuotaBook) (left : Left)
    → StandsFor book left
    → book.limit
        - or_none_consumed (get s (put source (consumed_by source book + cost) book.consumed))
      ≡ use_up source cost left s
put-StandsFor source s cost book left h =
    rw (get-put source s (consumed_by source book + cost) book.consumed)
      (elim (Bool-cases (source == s)) [
        | inl same ↦ rw same (omega (arith, h source, ap left (==→≡ same)))
        | inr other ↦ rw other (h s)
      ])

consume-StandsFor :
    (source : String) (cost : ℕ) (book : QuotaBook) (left : Left)
    → StandsFor book left
    → let r = consume source cost book in
      (r.0 ≡ status_of book.limit source (use_up source cost left source))
      × (r.1.limit ≡ book.limit)
      × StandsFor r.1 (use_up source cost left)
unfolding consume check exhausted
consume-StandsFor source cost book left h =
    elim (Bool-cases (leb (book.limit - consumed_by source book) 0)) [
      | inl none_left ↦
          let own : left source ≡ 0 = ground (arith, none_left, h source) in
          rw none_left (
            ap (status_of book.limit source) (rw (==-refl source) (omega (arith, h source, own))),
            refl,
            λ s. elim (Bool-cases (source == s)) [
              | inl same ↦ rw same (omega (arith, h s, own, ap left (==→≡ same)))
              | inr other ↦ rw other (h s)
            ],
          )
      | inr some_left ↦ rw some_left (
        ap (status_of book.limit source) (put-StandsFor source source cost book left h),
        refl,
        λ s. put-StandsFor source s cost book left h,
      )
    ]

-- From a book that stands for the counters, any sequence of calls is answered as the counters answer
-- it: a check does not change what is left, and consuming takes the cost from the source's own
-- counter, down to nothing.
pub run-replay :
    (calls : List QuotaCall) (book : QuotaBook) (left : Left)
    → StandsFor book left
    → run calls book ≡ replay book.limit calls left
unfolding run replay check
run-replay [] book left h = refl
run-replay (check_call source ∷ calls) book left h =
    rw (h source, run-replay calls book left h) refl
run-replay (consume_call source cost ∷ calls) book left h =
    let (answer, same, stands) = consume-StandsFor source cost book left h in
    rw answer (
      ap (λ rest. status_of book.limit source (use_up source cost left source) ∷ rest)
        (run-replay calls (consume source cost book).1 (use_up source cost left) stands
          ∙ ap (λ limit. replay limit calls (use_up source cost left)) same))
