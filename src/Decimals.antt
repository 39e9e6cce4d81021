-- ===== src/Decimals.antt =====
-- Python's `decimal.Decimal`, as far as the program uses it: `==`, `<=` against 0 and `is_finite`.
use market_relay.Prelude.{
  ℕ, ◌*◌, ◌^◌, Bool, true, false, not, ◌&&◌, ◌||◌, ◌==◌, nat_eq, ◌≡◌, refl, Option, none, some,
  arith,
}
use market_relay.Action.{Outcome, returned, raised, invalid_operation}

-- A finite number is coefficient / 10 ^ scale, with a sign; the flag of an infinity is its sign.
pub data Decimal : Type 0 where
  finite : (negative : Bool) (coefficient scale : ℕ) → Decimal
  infinity : (negative : Bool) → Decimal
  nan : Decimal

abbrev bool_beq : Bool → Bool → Bool
bool_beq true b = b
bool_beq false b = not b

-- `==`: by value, and a NaN equals nothing.
unfoldable pub decimal_beq : Decimal → Decimal → Bool
decimal_beq (finite m c s) (finite n d t) = c * 10 ^ t == d * 10 ^ s && (c == 0 || bool_beq m n)
decimal_beq (infinity m) (infinity n) = bool_beq m n
decimal_beq _ _ = false

abbrev pub option_decimal_beq : Option Decimal → Option Decimal → Bool
option_decimal_beq none none = true
option_decimal_beq (some a) (some b) = decimal_beq a b
option_decimal_beq _ _ = false

-- `d <= 0` signals InvalidOperation at a NaN.
unfoldable pub le_zero : Decimal → Outcome Bool
le_zero (finite m c s) = returned (m || c == 0)
le_zero (infinity m) = returned m
le_zero nan = raised invalid_operation

unfoldable pub is_finite : Decimal → Bool
is_finite (finite m c s) = true
is_finite (infinity m) = false
is_finite nan = false

abbrev pub is_nan : Decimal → Bool
is_nan (finite m c s) = false
is_nan (infinity m) = false
is_nan nan = true

pub decimal_beq_refl : (d : Decimal) → is_nan d ≡ false → decimal_beq d d ≡ true
unfolding decimal_beq
decimal_beq_refl (finite true c s) h = ground arith
decimal_beq_refl (finite false c s) h = ground arith
decimal_beq_refl (infinity true) h = refl
decimal_beq_refl (infinity false) h = refl
decimal_beq_refl nan h = cc
