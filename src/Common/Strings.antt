-- ===== src/Common/Strings.antt =====
-- JavaScript strings as lists of UTF-16 code units, and the string methods that the source calls.
use Prim.Native.Nat.{ℕ, ◌+◌, ◌-◌, ◌/◌, ◌%◌}
use Prim.Native.Char.{code}
use Prim.Native.String.{String}
use mathlib.Core.Path.{◌≡◌, refl, ap₂, subst}
use mathlib.Core.Logic.{◌↔◌, inl, inr}
use mathlib.Core.Bool.{Bool, true, false, ◌&&◌, ◌||◌}
use mathlib.Core.List.{List, [], ◌∷◌, reverse}
use native.Mathlib.Omega.{arith}
use ai_research_workbench.Common.Tests.{Equality, ℕ_eq, leb, ltb, nat_eq, if◌then◌else◌, Bool-cases}
use ai_research_workbench.Common.Lists.{includes, All, All-reverse}

abbrev pub Text : Type 0
Text = List ℕ

-- The code units of a character: a surrogate pair above the basic plane.
utf16_units : ℕ → Text → Text
utf16_units c rest =
    if ltb c 65536
    then c ∷ rest
    else (55296 + (c - 65536) / 1024) ∷ (56320 + (c - 65536) % 1024) ∷ rest

-- A text literal.
unfoldable pub text : String → Text
unfolding utf16_units
text String.[] = []
text (String.◌∷◌ c s) = utf16_units (code c) (text s)

unfoldable pub text_eq : Text → Text → Bool
text_eq [] [] = true
text_eq [] (_ ∷ _) = false
text_eq (_ ∷ _) [] = false
text_eq (a ∷ s) (b ∷ t) = nat_eq a b && text_eq s t

pub text_eq_self : (s : Text) → text_eq s s ≡ true
unfolding text_eq
text_eq_self [] = refl
text_eq_self (a ∷ s) = ground (arith, text_eq_self s)

text_eq_sound : (s t : Text) → text_eq s t ≡ true → s ≡ t
unfolding text_eq
text_eq_sound [] [] h = refl
text_eq_sound [] (_ ∷ _) h = cc
text_eq_sound (_ ∷ _) [] h = cc
text_eq_sound (a ∷ s) (b ∷ t) h = ap₂ ◌∷◌ (ground arith) (text_eq_sound s t (ground arith))

pub text_eq_iff : (s t : Text) → (text_eq s t ≡ true) ↔ (s ≡ t)
text_eq_iff s t = (text_eq_sound s t, λ e. subst (λ u. text_eq s u ≡ true) e (text_eq_self s))

instance abbrev pub Text_eq : Equality Text
Text_eq = record { same = text_eq; same_iff = text_eq_iff }

-- White space and line terminators of ECMAScript, which `trim` strips and `\s` matches.
unfoldable pub is_space : ℕ → Bool
is_space c =
    leb 9 c && leb c 13
    || includes (32 ∷ 160 ∷ 5760 ∷ 8232 ∷ 8233 ∷ 8239 ∷ 8287 ∷ 12288 ∷ 65279 ∷ []) c
    || leb 8192 c && leb c 8202

unfoldable pub trim_start : Text → Text
trim_start [] = []
trim_start (c ∷ s) = let rest = trim_start s in if is_space c then rest else c ∷ s

unfoldable pub trim_end : Text → Text
unfolding trim_start
trim_end s = reverse (trim_start (reverse s))

unfoldable pub trim : Text → Text
unfolding trim_end is_space
trim s = trim_end (trim_start s)

-- `Buffer.byteLength(s, "utf8")`: a surrogate pair takes 4 bytes, a lone surrogate 3.
is_high : ℕ → Bool
is_high c = leb 55296 c && leb c 56319

is_low : ℕ → Bool
is_low c = leb 56320 c && leb c 57343

unfoldable pub utf8_length : Text → ℕ
unfolding is_high is_low
utf8_length [] = 0
utf8_length (c ∷ []) = if ltb c 128 then 1 else if ltb c 2048 then 2 else 3
utf8_length (c ∷ d ∷ s) =
    let pair = 4 + utf8_length s in
    let single = utf8_length (d ∷ s) in
    if ltb c 128
    then 1 + single
    else if ltb c 2048
    then 2 + single
    else if is_high c && is_low d
    then pair
    else 3 + single

-- Nothing is left to strip in a trimmed text.
trim_start-trim_start : (s : Text) → trim_start (trim_start s) ≡ trim_start s
unfolding trim_start
trim_start-trim_start [] = refl
trim_start-trim_start (c ∷ s) = elim (Bool-cases (is_space c)) [
  | inl e ↦ rw e (trim_start-trim_start s)
  | inr e ↦ rw (e, e) refl
]

module _ {ℓ} (P : ℕ → Type ℓ) where
  All-trim_start : (s : Text) → All P s → All P (trim_start s)
  unfolding trim_start
  All-trim_start [] h = tt
  All-trim_start (c ∷ s) h = elim (Bool-cases (is_space c)) [
    | inl e ↦ rw e (All-trim_start s h.1)
    | inr e ↦ rw e h
  ]

  -- What holds of every unit of a text holds of every unit of the trimmed text.
  pub All-trim : (s : Text) → All P s → All P (trim s)
  unfolding trim trim_end
  All-trim s h =
      All-reverse P _ (
        All-trim_start (reverse (trim_start s)) (All-reverse P (trim_start s) (All-trim_start s h)))
