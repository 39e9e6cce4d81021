-- ===== src/Migrations/Backfill.antt =====
-- The rows of `jobs` in migration 0002, from the new column to the constraint on it.
use Prim.Native.String.{◌++◌}
use text.Mathlib.TextLemmas.{append_cancel_left}
use market_relay.Prelude.{
  String, List, [], ◌∷◌, Bool, ◌≡◌, ◌≢◌, refl, ap, ◌==◌, string_eq, All, map,
}
use market_relay.Table.{update_where, Unique}

-- A job of before 0002, with the columns that the migration reads.
pub record LegacyJob (I : Type 0) : Type 0 where
  pub id : I
  pub dedupe_key : String

-- The column with its `server_default`.
abbrev with_default : {I : Type 0} → I → LegacyJob I
with_default i = record { id = i; dedupe_key = "" }

unfoldable pub add_dedupe_key : {I : Type 0} → List I → List (LegacyJob I)
add_dedupe_key ids = map with_default ids

abbrev has_no_key : {I : Type 0} → LegacyJob I → Bool
has_no_key job = job.dedupe_key == ""

abbrev legacy_key : {I : Type 0} → (I → String) → LegacyJob I → LegacyJob I
legacy_key cast job = record job { dedupe_key = "legacy-job:" ++ cast job.id }

unfoldable pub backfill : {I : Type 0} → (I → String) → List (LegacyJob I) → List (LegacyJob I)
unfolding update_where
backfill cast jobs = update_where has_no_key (legacy_key cast) jobs

abbrev pub key_of : {I : Type 0} → LegacyJob I → String
key_of job = job.dedupe_key

abbrev pub id_of_legacy : {I : Type 0} → LegacyJob I → I
id_of_legacy job = job.id

module _ {I : Type 0} (cast : I → String) (injective : (i j : I) → cast i ≡ cast j → i ≡ j) where
  backfill-absent :
      (i : I) (ids : List I)
      → All (λ j. j ≢ i) ids
      → All (λ job. job.dedupe_key ≢ "legacy-job:" ++ cast i) (backfill cast (add_dedupe_key ids))
  unfolding backfill add_dedupe_key
  backfill-absent i [] a = tt
  backfill-absent i (j ∷ ids) (ne, a) = (
    λ e. ne (injective j i (append_cancel_left "legacy-job:" (cast j) (cast i) e)),
    backfill-absent i ids a,
  )

  backfill-ids : (ids : List I) → map id_of_legacy (backfill cast (add_dedupe_key ids)) ≡ ids
  unfolding backfill add_dedupe_key
  backfill-ids [] = refl
  backfill-ids (i ∷ ids) = ap (λ is. i ∷ is) (backfill-ids ids)

  -- When no two identifiers have the same text, the jobs of before 0002 have the same identifiers
  -- after the backfill and no two of them the same dedupe_key, so that the unique constraint can be
  -- created.
  pub backfill-Unique :
      (ids : List I)
      → Unique (λ i. i) ids
      → Unique key_of (backfill cast (add_dedupe_key ids))
        × (map id_of_legacy (backfill cast (add_dedupe_key ids)) ≡ ids)
  unfolding backfill add_dedupe_key
  backfill-Unique [] u = (tt, refl)
  backfill-Unique (i ∷ ids) (apart, u) =
      ((backfill-absent i ids apart, (backfill-Unique ids u).0), backfill-ids (i ∷ ids))
