-- ===== src/Common/Double/Exact.antt =====
-- Rounding at integers below 2^53 and at their products with powers of two.
use Prim.Native.Nat.{ℕ, zero, suc, ◌+◌, ◌-◌, ◌*◌, ◌/◌, ◌%◌, ◌^◌, ◌≤◌, ◌<◌}
use mathlib.Core.Path.{◌≡◌, refl, ap, sym, ◌∙◌, subst}
use mathlib.Core.Logic.{◌⊎◌, inl, inr}
use mathlib.Core.List.{List, [], ◌∷◌}
use native.Mathlib.Omega.{arith}
use native.Mathlib.Numerals.{unary_clauses}
use native.Mathlib.Nat.{
  pow-suc, pow-le-pow_right, one-le-pow, add-div_right, add-mod_right, zero-div, zero-mod,
}
use ai_research_workbench.Common.Tests.{leb, Bool-cases}
use ai_research_workbench.Common.Double.{nearest, exponent_from, exponent_bits, exponent, rounded}

-- A power of two by its parts.
pow_add : (a b : ℕ) → 2 ^ (a + b) ≡ 2 ^ a * 2 ^ b
pow_add a zero = simp unary_clauses (omega arith)
pow_add a (suc b) =
    let step = pow_add a b in let whole = pow-suc 2 (a + b) in let part = pow-suc 2 b in grind arith

mul_div : (q m : ℕ) → 1 ≤ m → (q * m / m ≡ q) × (q * m % m ≡ 0)
mul_div zero m h = let none : 0 * m ≡ 0 = omega arith in rw none (zero-div m, zero-mod m)
mul_div (suc q) m h =
    let (quotient, rest) = mul_div q m h in
    let sum : suc q * m ≡ q * m + m = grind arith in
    rw sum (
      add-div_right (q * m) (omega arith) ∙ ap (λ n. n + 1) quotient ∙ omega arith,
      add-mod_right (q * m) m ∙ rest,
    )

nearest-exact : (q m : ℕ) → 1 ≤ m → nearest (q * m) m ≡ q
unfolding nearest
nearest-exact q m h = let (quotient, rest) = mul_div q m h in rw (quotient, rest) (ground arith)

-- The exponent is 0, or its 53 bits are used.
exponent_from-fits :
    (bs : List ℕ) (num den e : ℕ)
    → (e ≡ 0) ⊎ (2 ^ (52 + e) * den ≤ num)
    → (exponent_from bs num den e ≡ 0) ⊎ (2 ^ (52 + exponent_from bs num den e) * den ≤ num)
unfolding exponent_from
exponent_from-fits [] num den e h = h
exponent_from-fits (b ∷ bs) num den e h = elim (Bool-cases (leb (2 ^ (52 + e + b) * den) num)) [
  | inl t ↦
      let same : 52 + e + b ≡ 52 + (e + b) = omega arith in
      let fits : 2 ^ (52 + (e + b)) * den ≤ num =
        subst (λ n. 2 ^ n * den ≤ num) same (ground arith) in
      rw t (exponent_from-fits bs num den (e + b) (inr fits))
  | inr t ↦ rw t (exponent_from-fits bs num den e h)
]

-- Below 2^(53 + k) the exponent is at most k.
exponent_bound : (n k : ℕ) → n < 2 ^ (53 + k) → exponent n 1 ≤ k
unfolding exponent
exponent_bound n k h =
    let e = exponent_from exponent_bits n 1 0 in
    elim (exponent_from-fits exponent_bits n 1 0 (inl refl)) [
      | inl z ↦ omega arith
      | inr fits ↦ elim (Bool-cases (leb e k)) [
        | inl t ↦ ground arith
        | inr t ↦
            let above : 53 + k ≤ 52 + e = ground arith in
            let power : 2 ^ (53 + k) ≤ 2 ^ (52 + e) = pow-le-pow_right (omega arith) above in
            absurd (omega arith)
      ]
    ]

-- An integer below 2^53 times a power of two is a double.
pub rounded-exact : (n k : ℕ) → n < 2 ^ 53 → rounded (n * 2 ^ k) 1 ≡ n * 2 ^ k
unfolding rounded
rounded-exact n k h =
    let powers = pow_add 53 k in
    let positive = one-le-pow k 2 (omega arith) in
    let below : n * 2 ^ k < 2 ^ (53 + k) = grind arith in
    let e = exponent (n * 2 ^ k) 1 in
    let few : e ≤ k = exponent_bound (n * 2 ^ k) k below in
    let sum : e + (k - e) ≡ k = omega arith in
    let split : 2 ^ k ≡ 2 ^ e * 2 ^ (k - e) = ap (λ m. 2 ^ m) (sym sum) ∙ pow_add e (k - e) in
    let factored : n * 2 ^ k ≡ n * 2 ^ (k - e) * 2 ^ e = grind arith in
    let one : 1 * 2 ^ e ≡ 2 ^ e = omega arith in
    let least = one-le-pow e 2 (omega arith) in
    let exact = nearest-exact (n * 2 ^ (k - e)) (2 ^ e) least in
    let same : nearest (n * 2 ^ k) (1 * 2 ^ e) ≡ n * 2 ^ (k - e) =
      subst (λ d. nearest (n * 2 ^ k) d ≡ n * 2 ^ (k - e)) (sym one)
        (subst (λ x. nearest x (2 ^ e) ≡ n * 2 ^ (k - e)) (sym factored) exact) in
    ap (λ q. q * 2 ^ e) same ∙ sym factored
