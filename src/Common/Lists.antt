-- ===== src/Common/Lists.antt =====
-- Lists measured by native numbers, and the array methods that the source calls.
use Prim.Native.Nat.{ℕ, zero, suc, ◌+◌, ◌≤◌, min}
use mathlib.Core.Path.{◌≡◌, refl, subst}
use mathlib.Core.Logic.{inl, inr}
use mathlib.Core.Bool.{Bool, true, false, ◌&&◌, ◌||◌}
use mathlib.Core.List.{List, [], ◌∷◌, ◌++◌, map, reverse, reverse-append}
use mathlib.Core.Option.{Option, none, some}
use native.Mathlib.Omega.{arith}
use ai_research_workbench.Common.Tests.{ltb, Equality, ◌==◌, if◌then◌else◌, Bool-cases}

module _ {ℓ} {A : Type ℓ} where
  abbrev pub length : List A → ℕ
  length [] = 0
  length (x ∷ xs) = suc (length xs)

  abbrev pub take : ℕ → List A → List A
  take zero xs = []
  take (suc n) [] = []
  take (suc n) (x ∷ xs) = x ∷ take n xs

  abbrev pub drop : ℕ → List A → List A
  drop zero xs = xs
  drop (suc n) [] = []
  drop (suc n) (x ∷ xs) = drop n xs

  -- `filter`, `some`, `every` and `find` of an array, with a Boolean test.
  abbrev pub filter : (A → Bool) → List A → List A
  filter p [] = []
  filter p (x ∷ xs) = let rest = filter p xs in if p x then x ∷ rest else rest

  abbrev pub any : (A → Bool) → List A → Bool
  any p [] = false
  any p (x ∷ xs) = p x || any p xs

  abbrev pub all : (A → Bool) → List A → Bool
  all p [] = true
  all p (x ∷ xs) = p x && all p xs

  abbrev pub find : (A → Bool) → List A → Option A
  find p [] = none
  find p (x ∷ xs) = if p x then some x else find p xs

  -- The last entry that passes a test.
  abbrev pub last_match : (A → Bool) → List A → Option A
  last_match p [] = none
  last_match p (x ∷ xs) = elim (last_match p xs) [
    | some y ↦ some y
    | none ↦ (if p x then some x else none)
  ]

  -- `flatMap` of an array.
  abbrev pub flat_map {κ} : {B : Type κ} → (B → List A) → List B → List A
  flat_map f [] = []
  flat_map f (x ∷ xs) = f x ++ flat_map f xs

  pub length-append : (xs ys : List A) → length (xs ++ ys) ≡ length xs + length ys
  length-append [] ys = omega arith
  length-append (x ∷ xs) ys = omega (arith, length-append xs ys)

  pub length-take : (n : ℕ) (xs : List A) → length (take n xs) ≡ min n (length xs)
  length-take zero xs = omega arith
  length-take (suc n) [] = omega arith
  length-take (suc n) (x ∷ xs) = omega (arith, length-take n xs)

  pub length-filter-le : (p : A → Bool) (xs : List A) → length (filter p xs) ≤ length xs
  length-filter-le p [] = omega arith
  length-filter-le p (x ∷ xs) = ground (arith, length-filter-le p xs)

  pub any-append : (p : A → Bool) (xs ys : List A) → any p (xs ++ ys) ≡ (any p xs || any p ys)
  any-append p [] ys = refl
  any-append p (x ∷ xs) ys = ground (arith, any-append p xs ys)

module _ {ℓ κ} {A : Type ℓ} {B : Type κ} (p : A → Bool) where
  pub any-flat_map :
      (f : B → List A) (xs : List B) → any p (flat_map f xs) ≡ any (λ x. any p (f x)) xs
  any-flat_map f [] = refl
  any-flat_map f (x ∷ xs) = ground (arith, any-append p (f x) (flat_map f xs), any-flat_map f xs)

  -- Every value, or no value, of a function passes the test.
  pub any-map-true :
      (f : B → A) (xs : List B) → ((x : B) → p (f x) ≡ true) → any p (map f xs) ≡ ltb 0 (length xs)
  any-map-true f [] h = refl
  any-map-true f (x ∷ xs) h = ground (arith, h x)

  pub any-map-false :
      (f : B → A) (xs : List B) → ((x : B) → p (f x) ≡ false) → any p (map f xs) ≡ false
  any-map-false f [] h = refl
  any-map-false f (x ∷ xs) h = ground (arith, h x, any-map-false f xs h)

  pub any-map-filter :
      (f : B → A) (q : B → Bool) (xs : List B)
      → ((x : B) → p (f x) ≡ true)
      → any p (map f (filter q xs)) ≡ any q xs
  any-map-filter f q [] h = refl
  any-map-filter f q (x ∷ xs) h = ground (arith, h x, any-map-filter f q xs h)

pub any-same {ℓ} :
    {A : Type ℓ} (p q : A → Bool) (xs : List A) → ((x : A) → p x ≡ q x) → any p xs ≡ any q xs
any-same p q [] h = refl
any-same p q (x ∷ xs) h = ground (arith, h x, any-same p q xs h)

module _ {ℓ} {A : Type ℓ} ⦃e : Equality A⦄ where
  -- `includes` of an array, `has` of a set.
  abbrev pub includes : List A → A → Bool
  includes xs a = any (λ x. x == a) xs

  -- `new Set(xs).size !== xs.length`
  unfoldable pub has_duplicates : List A → Bool
  has_duplicates [] = false
  has_duplicates (x ∷ xs) = includes xs x || has_duplicates xs

  -- A test that every entry passes is passed by an entry that is included.
  pub all-includes :
      (p : A → Bool) (xs : List A) {a : A} → all p xs ≡ true → includes xs a ≡ true → p a ≡ true
  all-includes p [] h m = cc
  all-includes p (x ∷ xs) {a} h m = elim (Bool-cases (x == a)) [
    | inl q ↦ subst (λ y. p y ≡ true) ((e.same_iff x a).0 q) (ground arith)
    | inr q ↦ all-includes p xs (ground arith) (ground arith)
  ]

-- A predicate of every entry, by recursion, and of one entry.
abbrev pub All {ℓ κ} : {A : Type ℓ} → (A → Type κ) → List A → Type κ
All P [] = Unit
All P (x ∷ xs) = P x × All P xs

module _ {ℓ κ} {A : Type ℓ} (P : A → Type κ) where
  pub All-append : (xs ys : List A) → All P xs → All P ys → All P (xs ++ ys)
  All-append [] ys h k = k
  All-append (x ∷ xs) ys h k = (h.0, All-append xs ys h.1 k)

  pub All-take : (n : ℕ) (xs : List A) → All P xs → All P (take n xs)
  All-take zero xs h = tt
  All-take (suc n) [] h = tt
  All-take (suc n) (x ∷ xs) h = (h.0, All-take n xs h.1)

  pub All-filter :
      (p : A → Bool) (xs : List A) → All P xs → All (λ x. P x × (p x ≡ true)) (filter p xs)
  All-filter p [] h = tt
  All-filter p (x ∷ xs) h = elim (Bool-cases (p x)) [
    | inl e ↦ rw e ((h.0, e), All-filter p xs h.1)
    | inr e ↦ rw e (All-filter p xs h.1)
  ]

  pub All-reverse : (xs : List A) → All P xs → All P (reverse xs)
  All-reverse [] h = tt
  All-reverse (x ∷ xs) h =
      rw (reverse-append (x ∷ []) xs)
        (All-append (reverse xs) (x ∷ []) (All-reverse xs h.1) (h.0, tt))

  pub All-map :
      (f : A → A) → ((x : A) → P x → P (f x)) → (xs : List A) → All P xs → All P (map f xs)
  All-map f step [] h = tt
  All-map f step (x ∷ xs) h = (step x h.0, All-map f step xs h.1)

  pub All-weaken : {Q : A → Type κ} → ((x : A) → P x → Q x) → (xs : List A) → All P xs → All Q xs
  All-weaken f [] h = tt
  All-weaken f (x ∷ xs) h = (f x h.0, All-weaken f xs h.1)

  pub All-find :
      (p : A → Bool) (xs : List A) {a : A} → All P xs → find p xs ≡ some a → P a × (p a ≡ true)
  All-find p [] h e = cc
  All-find p (x ∷ xs) {a} h e = elim (Bool-cases (p x)) [
    | inl q ↦ let at_x : x ≡ a = ground arith in subst (λ y. P y × (p y ≡ true)) at_x (h.0, q)
    | inr q ↦ All-find p xs h.1 (ground arith)
  ]
