-- ===== src/Prelude/Integers.antt =====
-- The integers over the native numbers, for differences of instants.
use Prim.Native.Nat.{ℕ, ◌-◌, min}
use mathlib.Core.Path.{◌≡◌}
use mathlib.Core.Bool.{Bool, true, false}
use market_relay.Prelude.Tests.{leb, if◌then◌else◌}
use native.Mathlib.Omega.{arith}

-- `negsuc n` is -(n + 1).
pub data ℤ : Type 0 where
  pos negsuc : ℕ → ℤ

-- a - b
unfoldable pub difference : ℕ → ℕ → ℤ
difference a b = if leb b a then pos (a - b) else negsuc (b - a - 1)

unfoldable pub leb_ℤ : ℤ → ℤ → Bool
leb_ℤ (pos a) (pos b) = leb a b
leb_ℤ (pos a) (negsuc b) = false
leb_ℤ (negsuc a) (pos b) = true
leb_ℤ (negsuc a) (negsuc b) = leb b a

unfoldable pub max_ℤ : ℤ → ℤ → ℤ
unfolding leb_ℤ
max_ℤ a b = if leb_ℤ a b then b else a

pub leb_ℤ-difference : (now a b : ℕ) → leb_ℤ (difference now a) (difference now b) ≡ leb b a
unfolding leb_ℤ difference
leb_ℤ-difference now a b = ground arith

-- The greatest difference is the one to the least.
pub max_ℤ-difference :
    (now a b : ℕ) → max_ℤ (difference now a) (difference now b) ≡ difference now (min a b)
unfolding max_ℤ leb_ℤ difference
max_ℤ-difference now a b = ground arith
