-- ===== src/Common/Number.antt =====
-- JavaScript numbers that reach a validator, in millionths: ratios and draws keep six digits.
use ai_research_workbench.Common.{
  ℕ, ◌*◌, ◌/◌, ◌%◌, ◌≤◌, ◌≡◌, ◌≢◌, ◌↔◌, refl, Bool, true, false, not, ◌&&◌, Equality, ltb, Option,
  none, some, leb, nat_eq, if◌then◌else◌, arith,
}

pub data JsNumber : Type 0 where
  not_a_number infinity minus_infinity : JsNumber
  millionths : ℕ → JsNumber
  negative : ℕ → JsNumber  -- -(n + 1) millionths

abbrev pub scale : ℕ
scale = 1000000

abbrev pub whole : ℕ → JsNumber
whole n = millionths (n * scale)

-- `a < b`; a comparison with NaN is false.
unfoldable pub number_lt : JsNumber → JsNumber → Bool
number_lt (millionths a) (millionths b) = ltb a b
number_lt (negative a) (negative b) = ltb b a
number_lt (negative a) (millionths b) = true
number_lt (millionths a) infinity = true
number_lt (negative a) infinity = true
number_lt minus_infinity infinity = true
number_lt minus_infinity (millionths b) = true
number_lt minus_infinity (negative b) = true
number_lt _ _ = false

abbrev pub is_nan : JsNumber → Bool
is_nan not_a_number = true
is_nan _ = false

-- `a >= b`
unfoldable pub number_ge : JsNumber → JsNumber → Bool
number_ge a b = not (is_nan a) && not (is_nan b) && not (number_lt a b)

-- Equality of the members of a `Set`, for which NaN is equal to itself.
unfoldable pub number_same : JsNumber → JsNumber → Bool
number_same not_a_number not_a_number = true
number_same infinity infinity = true
number_same minus_infinity minus_infinity = true
number_same (millionths a) (millionths b) = nat_eq a b
number_same (negative a) (negative b) = nat_eq a b
number_same _ _ = false

pub number_same_iff : (a b : JsNumber) → (number_same a b ≡ true) ↔ (a ≡ b)
unfolding number_same
number_same_iff a b = ground arith

instance abbrev pub JsNumber_eq : Equality JsNumber
JsNumber_eq = record { same = number_same; same_iff = number_same_iff }

pub number_lt_trans :
    (a b c : JsNumber) → number_lt a b ≡ true → number_lt b c ≡ true → number_lt a c ≡ true
unfolding number_lt
number_lt_trans a b c h k = ground arith

pub number_lt_irrefl : (a : JsNumber) → number_lt a a ≡ false
unfolding number_lt
number_lt_irrefl a = ground arith

-- Of numbers other than NaN, one that is not at least another is less.
pub number_ge-lt :
    (a b : JsNumber)
    → a ≢ not_a_number
    → b ≢ not_a_number
    → number_ge a b ≡ false
    → number_lt a b ≡ true
unfolding number_ge
number_ge-lt not_a_number b h k e = absurd (h refl)
number_ge-lt infinity not_a_number h k e = absurd (k refl)
number_ge-lt minus_infinity not_a_number h k e = absurd (k refl)
number_ge-lt (millionths a) not_a_number h k e = absurd (k refl)
number_ge-lt (negative a) not_a_number h k e = absurd (k refl)
number_ge-lt infinity b h k e = ground arith
number_ge-lt minus_infinity b h k e = ground arith
number_ge-lt (millionths a) b h k e = ground arith
number_ge-lt (negative a) b h k e = ground arith

abbrev pub max_safe_integer : ℕ
max_safe_integer = 9007199254740991

-- `Number.isSafeInteger(v)` at a `v` that is not negative.
unfoldable pub is_safe : ℕ → Bool
is_safe n = nat_eq (n % scale) 0 && leb (n / scale) max_safe_integer

-- The value of a safe integer that lies between two bounds.
unfoldable pub safe_integer_between : ℕ → ℕ → JsNumber → Option ℕ
unfolding is_safe
safe_integer_between low high (millionths n) =
    if is_safe n && leb low (n / scale) && leb (n / scale) high then some (n / scale) else none
safe_integer_between low high _ = none

-- What is accepted lies between the bounds and is safe.
pub safe_integer_between_bounds :
    (low high : ℕ) (v : JsNumber) {n : ℕ}
    → safe_integer_between low high v ≡ some n
    → (low ≤ n) × (n ≤ high) × (n ≤ max_safe_integer)
unfolding safe_integer_between
safe_integer_between_bounds low high (millionths m) h = ground arith
safe_integer_between_bounds low high _ h = absurd (ground arith)

-- A whole number between the bounds is accepted as it is.
pub safe_integer_between-whole :
    (low high n : ℕ)
    → low ≤ n
    → n ≤ high
    → n ≤ max_safe_integer
    → safe_integer_between low high (whole n) ≡ some n
unfolding safe_integer_between
safe_integer_between-whole low high n h k s =
    let exact : n * scale / scale ≡ n = omega arith in
    let even : n * scale % scale ≡ 0 = omega arith in rw (exact, even) (ground arith)
