-- ===== src/Planning/Chunks.antt =====
-- The chunks of a plan: they hold the expected sessions, all of them, in order and within bounds.
use market_relay.Prelude.{
  ℕ, zero, suc, ◌≤◌, List, [], ◌∷◌, ◌++◌, take, drop, length, All, ◌≡◌, refl, ap, ◌∙◌, arith,
  length-take-le, take-append-drop,
}
use market_relay.Planning.{RecoveryChunk, chunk_loop, last_of}

unfoldable pub dates_of : List RecoveryChunk → List ℕ
dates_of [] = []
dates_of (c ∷ cs) = c.session_dates ++ dates_of cs

length-drop-le : (k : ℕ) (ds : List ℕ) → length (drop k ds) ≤ length ds
length-drop-le zero ds = omega arith
length-drop-le (suc k) [] = omega arith
length-drop-le (suc k) (d ∷ ds) = omega (arith, length-drop-le k ds)

-- What a chunk looks like: it is not empty, within the size, and its ends are its first and last
-- session.
pub IsBounded : ℕ → RecoveryChunk → Type 0
IsBounded size c =
    (d : ℕ) × (ds : List ℕ) × (c.session_dates ≡ d ∷ ds)
    × (c.start ≡ d)
    × (c.end ≡ last_of d ds)
    × (length c.session_dates ≤ size)

pub chunk_loop-dates :
    (rounds k : ℕ) (ds : List ℕ) → length ds ≤ rounds → dates_of (chunk_loop rounds k ds) ≡ ds
unfolding chunk_loop dates_of
chunk_loop-dates rounds k [] h = refl
chunk_loop-dates zero k (d ∷ ds) h = absurd (omega arith)
chunk_loop-dates (suc rounds) k (d ∷ ds) h = ap (◌∷◌ d) (
    ap (◌++◌ (take k ds))
      (chunk_loop-dates rounds k (drop k ds) (omega (arith, length-drop-le k ds)))
    ∙ take-append-drop k ds)

pub chunk_loop-IsBounded :
    (rounds k : ℕ) (ds : List ℕ) → All (IsBounded (suc k)) (chunk_loop rounds k ds)
unfolding chunk_loop IsBounded
chunk_loop-IsBounded rounds k [] = tt
chunk_loop-IsBounded zero k (d ∷ ds) = tt
chunk_loop-IsBounded (suc rounds) k (d ∷ ds) = (
  (d, take k ds, refl, refl, refl, omega (arith, length-take-le k ds)),
  chunk_loop-IsBounded rounds k (drop k ds),
)
