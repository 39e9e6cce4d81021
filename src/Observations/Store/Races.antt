-- ===== src/Observations/Store/Races.antt =====
-- Recording while other processes write.
use mathlib.Core.List.{append-nil, append_assoc}
use market_relay.Prelude.{
  All, All-append, ℕ, zero, suc, List, [], ◌∷◌, ◌++◌, none, some, ◌≡◌, ◌⊎◌, refl, sym, ap, ◌∙◌,
  Bool-cases, inl, inr, Option-cases,
}
use market_relay.Action.{Outcome, returned}
use market_relay.Observations.Models.{ObservationInput, Observation}
use market_relay.Observations.Store.{
  Observations, key_of_input, current_for_key, next_revision, candidate, RecordOutcome, is_current,
  taken, interference, later_interference, record_attempts,
}
use market_relay.Observations.Store.Recording.{quiet_attempt, outcome_of}

-- The interference of one of the first attempts is empty.
abbrev pub HasQuietAttempt : ℕ → List Observations → Type 0
HasQuietAttempt zero others = ⊥
HasQuietAttempt (suc n) others =
    (interference others ≡ []) ⊎ HasQuietAttempt n (later_interference others)

-- If in one of the attempts nobody else commits between its read and its insertion, recording
-- returns: at most eight lost races in a row make it give up.
pub quiet-returns :
    (attempts : ℕ) (others : List Observations) (uuid utcnow : ℕ) (d : ObservationInput)
    (rows : Observations)
    → HasQuietAttempt attempts others
    → (o : RecordOutcome) × ((record_attempts attempts others uuid utcnow d rows).0 ≡ returned o)
unfolding record_attempts
quiet-returns zero others uuid utcnow d rows h = absurd h
quiet-returns (suc n) others uuid utcnow d rows (inl quiet) = (
  _,
  ap (λ (r : Outcome RecordOutcome × Observations). r.0)
      (quiet_attempt n uuid utcnow others d rows quiet),
)
quiet-returns (suc n) others uuid utcnow d rows (inr later) =
    let k = key_of_input d in
    let current = current_for_key k rows in
    elim (Option-cases (is_current current d)) [
      | inr (row, e) ↦ (
        outcome_of (some row) current (candidate uuid utcnow (next_revision current) d),
        rw (e, record_attempts) refl,
      )
      | inl e ↦ elim (Bool-cases (taken k (next_revision current) (rows ++ interference others))) [
        | inl lost ↦
            rw (e, record_attempts)
              (rw lost (quiet-returns n (later_interference others) uuid utcnow d _ later))
        | inr won ↦ (
          outcome_of none current (candidate uuid utcnow (next_revision current) d),
          rw (e, record_attempts) (rw won refl),
        )
      ]
    ]

-- Whoever else writes, an attempt to record only ever adds rows behind those that are stored.
pub record-append_only :
    (attempts : ℕ) (others : List Observations) (uuid utcnow : ℕ) (d : ObservationInput)
    (rows : Observations)
    → (extra : Observations) × ((record_attempts attempts others uuid utcnow d rows).1
        ≡ rows ++ extra)
unfolding record_attempts
record-append_only zero others uuid utcnow d rows = ([], sym (append-nil rows))
record-append_only (suc n) others uuid utcnow d rows =
    let k = key_of_input d in
    let current = current_for_key k rows in
    let new_row = candidate uuid utcnow (next_revision current) d in
    elim (Option-cases (is_current current d)) [
      | inr (row, e) ↦ ([], rw (e, record_attempts) (sym (append-nil rows)))
      | inl e ↦ elim (Bool-cases (taken k (next_revision current) (rows ++ interference others))) [
        | inl lost ↦
            let (extra, ih) =
              record-append_only n (later_interference others) uuid utcnow d
                (rows ++ interference others) in
            (
              interference others ++ extra,
              rw (e, record_attempts)
                  (rw lost (ih ∙ append_assoc rows (interference others) extra)),
            )
        | inr won ↦ (
          interference others ++ new_row ∷ [],
          rw (e, record_attempts) (rw won (append_assoc rows (interference others) (new_row ∷ []))),
        )
      ]
    ]

All-interference {κ} :
    (P : Observation → Type κ) (others : List Observations)
    → All (All P) others
    → All P (interference others) × All (All P) (later_interference others)
All-interference P [] a = (tt, tt)
All-interference P (rows ∷ later) a = a

-- What holds of every stored row, of what others write and of the new row in any revision holds of
-- every row after an attempt to record.
pub record_attempts-All {κ} :
    (P : Observation → Type κ) (attempts : ℕ) (others : List Observations) (uuid utcnow : ℕ)
    (d : ObservationInput) (rows : Observations)
    → All P rows
    → All (All P) others
    → ((revision : ℕ) → P (candidate uuid utcnow revision d))
    → All P (record_attempts attempts others uuid utcnow d rows).1
unfolding record_attempts
record_attempts-All P zero others uuid utcnow d rows a b h = a
record_attempts-All P (suc n) others uuid utcnow d rows a b h =
    let k = key_of_input d in
    let current = current_for_key k rows in
    let (now, later) = All-interference P others b in
    let more = All-append P rows (interference others) a now in
    elim (Option-cases (is_current current d)) [
      | inr (row, e) ↦ rw (e, record_attempts) a
      | inl e ↦ elim (Bool-cases (taken k (next_revision current) (rows ++ interference others))) [
        | inl lost ↦
            rw (e, record_attempts)
              (rw lost
                (record_attempts-All P n (later_interference others) uuid utcnow d _ more later h))
        | inr won ↦
            rw (e, record_attempts) (rw won (All-append P _ _ more (h (next_revision current), tt)))
      ]
    ]
