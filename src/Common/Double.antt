-- ===== src/Common/Double.antt =====
-- JavaScript numbers as IEEE 754 doubles, where the source computes with fractions. A finite double
-- is a multiple of 2^-1074, and a result is rounded to 53 bits, to the nearest and a tie to even.
pub mod Exact
use Prim.Native.Nat.{ℕ, zero, suc, ◌+◌, ◌-◌, ◌*◌, ◌/◌, ◌%◌, ◌^◌}
use mathlib.Core.Bool.{Bool, true, false}
use mathlib.Core.List.{List, [], ◌∷◌}
use ai_research_workbench.Common.Tests.{leb, ltb, if◌then◌else◌}

-- The units of 2^-1074 in 1.
unfoldable pub unit : ℕ
unit = 2 ^ 1074

-- The quotient, rounded to the nearest and a tie to even.
unfoldable pub nearest : ℕ → ℕ → ℕ
nearest num den =
    let q = num / den in
    let twice = 2 * (num % den) in
    if ltb twice den then q else if ltb den twice then q + 1 else q + q % 2

-- The largest `e`, summed from powers of two, for which 2^(52 + e) is at most the quotient, or 0.
unfoldable pub exponent_from : List ℕ → ℕ → ℕ → ℕ → ℕ
exponent_from [] num den e = e
exponent_from (b ∷ bs) num den e =
    exponent_from bs num den (if leb (2 ^ (52 + e + b) * den) num then e + b else e)

abbrev pub exponent_bits : List ℕ
exponent_bits = 1024 ∷ 512 ∷ 256 ∷ 128 ∷ 64 ∷ 32 ∷ 16 ∷ 8 ∷ 4 ∷ 2 ∷ 1 ∷ []

unfoldable pub exponent : ℕ → ℕ → ℕ
exponent num den = exponent_from exponent_bits num den 0

-- A quotient of units, rounded to 53 bits.
unfoldable pub rounded : ℕ → ℕ → ℕ
rounded num den = let ulp = 2 ^ exponent num den in nearest num (den * ulp) * ulp

pub data Double : Type 0 where
  nan infinity minus_infinity : Double
  positive : ℕ → Double  -- units, 0 included
  negative : ℕ → Double  -- -(n + 1) units

unfoldable pub overflows : ℕ → Bool
overflows n = leb (2 ^ 2098) n

unfoldable pub at_least_zero : ℕ → Double
unfolding overflows
at_least_zero n = if overflows n then infinity else positive n

abbrev negated : ℕ → Double
negated zero = positive 0
negated (suc n) = negative n

unfoldable pub at_most_zero : ℕ → Double
unfolding overflows
at_most_zero n = if overflows n then minus_infinity else negated n

-- The number that a literal `num / den` stands for.
unfoldable pub literal : ℕ → ℕ → Double
unfolding at_least_zero rounded unit
literal num den = at_least_zero (rounded (num * unit) den)

-- `a - b` of magnitudes.
unfoldable pub difference : ℕ → ℕ → Double
unfolding at_least_zero at_most_zero rounded
difference a b =
    if leb b a then at_least_zero (rounded (a - b) 1) else at_most_zero (rounded (b - a) 1)

-- `a + b`
unfoldable pub double_add : Double → Double → Double
unfolding difference
double_add (positive a) (positive b) = at_least_zero (rounded (a + b) 1)
double_add (positive a) (negative b) = difference a (suc b)
double_add (negative a) (positive b) = difference b (suc a)
double_add (negative a) (negative b) = at_most_zero (rounded (suc a + suc b) 1)
double_add nan _ = nan
double_add infinity nan = nan
double_add infinity minus_infinity = nan
double_add infinity _ = infinity
double_add minus_infinity nan = nan
double_add minus_infinity infinity = nan
double_add minus_infinity _ = minus_infinity
double_add _ b = b

-- `n * a` with a natural number that is a double.
unfoldable pub double_times : ℕ → Double → Double
unfolding at_least_zero at_most_zero rounded
double_times n (positive a) = at_least_zero (rounded (n * a) 1)
double_times n (negative a) = at_most_zero (rounded (n * suc a) 1)
double_times zero _ = nan
double_times (suc n) a = a

-- `a / n` with a positive natural number that is a double.
unfoldable pub double_over : Double → ℕ → Double
unfolding at_least_zero at_most_zero rounded
double_over (positive a) n = at_least_zero (rounded a n)
double_over (negative a) n = at_most_zero (rounded (suc a) n)
double_over a n = a

-- `a < b`
unfoldable pub double_lt : Double → Double → Bool
double_lt (positive a) (positive b) = ltb a b
double_lt (negative a) (negative b) = ltb b a
double_lt (negative a) (positive b) = true
double_lt (positive a) infinity = true
double_lt (negative a) infinity = true
double_lt minus_infinity infinity = true
double_lt minus_infinity (positive b) = true
double_lt minus_infinity (negative b) = true
double_lt _ _ = false

-- `Number.isFinite(a)`
abbrev pub is_finite : Double → Bool
is_finite (positive a) = true
is_finite (negative a) = true
is_finite _ = false
