-- ===== src/Documents/Chunking/Groups.antt =====
-- The groups that `chunkExtraction` makes of the units of a document.
use ai_research_workbench.Common.{
  ℕ, ◌+◌, ◌≤◌, ◌≡◌, refl, ap, ◌∙◌, true, false, Option, none, some, List, [], ◌∷◌, ◌++◌, map,
  flat_map, length, nat_eq_iff, Bool-cases, inl, inr, Text, text_eq_iff, All, All-append,
  length-append, arith,
}
use mathlib.Core.List.{append_assoc}
use ai_research_workbench.Documents.Chunking.{
  ChunkUnit, same_page, same_section, is_heading, same_structure, last_unit, starts_group,
  joined_chars, close_group, group_from, join_texts,
}

same_page_sound : (a b : Option ℕ) → same_page a b ≡ true → a ≡ b
same_page_sound none none h = refl
same_page_sound (some a) (some b) h = ap some ((nat_eq_iff a b).0 h)
same_page_sound none (some b) h = absurd (cc)
same_page_sound (some a) none h = absurd (cc)

same_section_sound : (a b : Option Text) → same_section a b ≡ true → a ≡ b
same_section_sound none none h = refl
same_section_sound (some a) (some b) h = ap some ((text_eq_iff a b).0 h)
same_section_sound none (some b) h = absurd (cc)
same_section_sound (some a) none h = absurd (cc)

-- A unit that continues the page and the section of a first one.
pub record Continues (first u : ChunkUnit) : Type 0 where
  pub on_page : first.block.page_number ≡ u.block.page_number
  pub in_section : first.block.section_path ≡ u.block.section_path
  pub no_heading : is_heading u.block.kind ≡ false

abbrev pub group_text : List ChunkUnit → Text
group_text g = join_texts (map (λ (u : ChunkUnit). u.content) g)

-- A group has a first unit, the others continue it, and its text has at most the maximum of
-- characters.
pub data IsGroup (max_chars : ℕ) : List ChunkUnit → Type 0 where
  grouped :
      (first : ChunkUnit) (units : List ChunkUnit)
      → All (Continues first) units
      → length (group_text (first ∷ units)) ≤ max_chars
      → IsGroup max_chars (first ∷ units)

-- What the loop keeps of its current group.
abbrev pub Open : ℕ → List ChunkUnit → ℕ → Type 0
Open max_chars [] chars = chars ≡ 0
Open max_chars (first ∷ units) chars =
    IsGroup max_chars (first ∷ units) × (chars ≡ length (group_text (first ∷ units)))

length-group_text :
    (v : ChunkUnit) (vs : List ChunkUnit) (u : ChunkUnit)
    → length (group_text (v ∷ vs ++ u ∷ [])) ≡ length (group_text (v ∷ vs)) + 2 + length u.content
unfolding join_texts
length-group_text v [] u = length-append v.content (10 ∷ 10 ∷ u.content) ∙ omega arith
length-group_text v (w ∷ vs) u =
    let rest = length-group_text w vs u in
    let long = length-append v.content (10 ∷ 10 ∷ group_text (w ∷ vs ++ u ∷ [])) in
    let short = length-append v.content (10 ∷ 10 ∷ group_text (w ∷ vs)) in omega arith

last_unit-Continues :
    (first v : ChunkUnit) (vs : List ChunkUnit)
    → (first.block.page_number ≡ v.block.page_number)
      × (first.block.section_path ≡ v.block.section_path)
    → All (Continues first) vs
    → (first.block.page_number ≡ (last_unit v vs).block.page_number)
      × (first.block.section_path ≡ (last_unit v vs).block.section_path)
unfolding last_unit
last_unit-Continues first v [] same h = same
last_unit-Continues first v (w ∷ vs) same h =
    last_unit-Continues first w vs (h.0.on_page, h.0.in_section) h.1

same_structure-Continues :
    (first : ChunkUnit) (vs : List ChunkUnit) (u : ChunkUnit)
    → All (Continues first) vs
    → same_structure (last_unit first vs) u ≡ true
    → Continues first u
unfolding same_structure
same_structure-Continues first vs u h e =
    let (page, section) = last_unit-Continues first first vs (refl, refl) h in
    record {
      on_page = page ∙ same_page_sound _ _ (ground arith);
      in_section = section ∙ same_section_sound _ _ (ground arith);
      no_heading = ground arith;
    }

Open-joined :
    (max_chars : ℕ) (g : List ChunkUnit) (chars : ℕ) (u : ChunkUnit)
    → length u.content ≤ max_chars
    → Open max_chars g chars
    → starts_group max_chars g chars u ≡ false
    → Open max_chars (g ++ u ∷ []) (joined_chars g chars u)
unfolding starts_group joined_chars join_texts
Open-joined max_chars [] chars u h o e = (grouped u [] tt h, omega arith)
Open-joined max_chars (v ∷ vs) chars u h (grouped _ _ same short, count) e =
    let longer = length-group_text v vs u in
    (
      grouped v (vs ++ u ∷ [])
          (All-append (Continues v) vs (u ∷ []) same
            (same_structure-Continues v vs u same (ground arith), tt))
          (ground arith),
      omega arith,
    )

Open-closed :
    (max_chars : ℕ) (g : List ChunkUnit) (chars : ℕ) (u : ChunkUnit)
    → Open max_chars g chars
    → starts_group max_chars g chars u ≡ true
    → IsGroup max_chars g
unfolding starts_group
Open-closed max_chars [] chars u o e = absurd (cc)
Open-closed max_chars (v ∷ vs) chars u o e = o.0

pub group_from-IsGroup :
    (max_chars : ℕ) (g : List ChunkUnit) (chars : ℕ) (us : List ChunkUnit)
    → All (λ (u : ChunkUnit). length u.content ≤ max_chars) us
    → Open max_chars g chars
    → All (IsGroup max_chars) (group_from max_chars g chars us)
unfolding group_from close_group join_texts
group_from-IsGroup max_chars [] chars [] h o = tt
group_from-IsGroup max_chars (v ∷ vs) chars [] h o = (o.0, tt)
group_from-IsGroup max_chars g chars (u ∷ us) h o =
    elim (Bool-cases (starts_group max_chars g chars u)) [
      | inl e ↦ rw e (
        Open-closed max_chars g chars u o e,
        group_from-IsGroup max_chars (u ∷ []) (length u.content) us h.1 (grouped u [] tt h.0, refl),
      )
      | inr e ↦ rw e (
          group_from-IsGroup max_chars (g ++ u ∷ []) (joined_chars g chars u) us h.1
            (Open-joined max_chars g chars u h.0 o e))
    ]

-- No unit is lost, repeated or moved.
pub group_from-flat :
    (max_chars : ℕ) (g : List ChunkUnit) (chars : ℕ) (us : List ChunkUnit)
    → flat_map (λ (x : List ChunkUnit). x) (group_from max_chars g chars us) ≡ g ++ us
unfolding group_from close_group
group_from-flat max_chars [] chars [] = refl
group_from-flat max_chars (v ∷ vs) chars [] = refl
group_from-flat max_chars g chars (u ∷ us) = elim (Bool-cases (starts_group max_chars g chars u)) [
  | inl e ↦ rw e (ap (λ rest. g ++ rest) (group_from-flat max_chars (u ∷ []) (length u.content) us))
  | inr e ↦ rw e (
      group_from-flat max_chars (g ++ u ∷ []) (joined_chars g chars u) us
      ∙ append_assoc g (u ∷ []) us)
]
