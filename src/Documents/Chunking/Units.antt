-- ===== src/Documents/Chunking/Units.antt =====
-- The loop of `splitBlock`: it ends, and the units it makes are slices of the block.
use ai_research_workbench.Common.{
  ℕ, zero, suc, ◌+◌, ◌-◌, ◌≤◌, ◌<◌, ◌≡◌, max, min, refl, sym, ap, ◌∙◌, Bool, true, false, some,
  List, [], ◌∷◌, ◌++◌, length, take, leb, ltb, if◌then◌else◌, Bool-cases, Option-cases, inl, inr,
  Text, All, All-append, arith,
}
use ai_research_workbench.Documents.Chunking.{
  ExtractionBlock, ChunkUnit, slice, segment_between, trim_segment, last_space, segment_end,
  unit_of, split_from, split_block,
}

pub last_space_bound : (s : Text) (n : ℕ) {i : ℕ} → last_space s n ≡ some i → i ≤ n
unfolding last_space
last_space_bound [] n h = absurd (cc)
last_space_bound (c ∷ s) zero h = ground arith
last_space_bound (c ∷ s) (suc n) h = elim (Option-cases (last_space s n)) [
  | inl e ↦ ground arith
  | inr (j, e) ↦ let k = last_space_bound s n e in ground arith
]

-- A segment has a character, and lies within the text and the maximum.
pub segment_end_bounds :
    (s : Text) (max_chars start : ℕ)
    → 1 ≤ max_chars
    → start < length s
    → (start < segment_end s max_chars start)
      × (segment_end s max_chars start ≤ length s)
      × (segment_end s max_chars start ≤ start + max_chars)
unfolding segment_end
segment_end_bounds s max_chars start h k =
    elim (Option-cases (last_space s (min (length s) (start + max_chars)))) [
      | inl e ↦ rw e (ground arith)
      | inr (i, e) ↦ let b = last_space_bound s _ e in rw e (ground arith)
    ]

-- A unit is a slice of its block of at most so many characters, at its offsets.
pub record IsSlice (block : ExtractionBlock) (max_chars : ℕ) (u : ChunkUnit) : Type 0 where
  pub from : ℕ
  pub to : ℕ
  pub ordered : from ≤ to
  pub inside : to ≤ length block.content
  pub bounded : to ≤ from + max_chars
  pub same_text : u.content ≡ slice block.content from to
  pub same_start : u.start_offset ≡ block.start_offset + from
  pub same_end : u.end_offset ≡ block.start_offset + to
  pub same_block : u.block ≡ block

between-IsSlice :
    (block : ExtractionBlock) (max_chars start end : ℕ)
    → end ≤ length block.content
    → end ≤ start + max_chars
    → All (IsSlice block max_chars) (unit_of block (segment_between block.content start end))
unfolding segment_between
between-IsSlice block max_chars start end h k = elim (Bool-cases (leb end start)) [
  | inl e ↦ rw e tt
  | inr e ↦ rw e (
    record {
      from = start;
      to = end;
      ordered = ground arith;
      inside = h;
      bounded = k;
      same_text = refl;
      same_start = refl;
      same_end = refl;
      same_block = refl;
    },
    tt,
  )
]

unit_of-IsSlice :
    (block : ExtractionBlock) (max_chars start end : ℕ)
    → end ≤ length block.content
    → end ≤ start + max_chars
    → All (IsSlice block max_chars) (unit_of block (trim_segment block.content start end))
unfolding trim_segment
unit_of-IsSlice block max_chars start end h k =
    between-IsSlice block max_chars _ _ (omega arith) (omega arith)

All-found {ℓ κ} :
    {A : Type ℓ} (P : A → Type κ) (last : Bool) (found rest : List A)
    → All P found
    → All P rest
    → All P (if last then found else found ++ rest)
All-found P true found rest h k = h
All-found P false found rest h k = All-append P found rest h k

take_all : (s : Text) (n : ℕ) → length s ≤ n → take n s ≡ s
take_all [] zero h = refl
take_all [] (suc n) h = refl
take_all (c ∷ s) zero h = absurd (omega arith)
take_all (c ∷ s) (suc n) h = ap (λ t. c ∷ t) (take_all s n (omega arith))

pub split_from-IsSlice :
    (fuel : ℕ) (block : ExtractionBlock) (max_chars overlap start : ℕ)
    → 1 ≤ max_chars
    → All (IsSlice block max_chars) (split_from fuel block max_chars overlap start)
unfolding split_from
split_from-IsSlice zero block max_chars overlap start h = tt
split_from-IsSlice (suc fuel) block max_chars overlap start h =
    elim (Bool-cases (ltb start (length block.content))) [
      | inl e ↦
          let (_, inside, bounded) =
            segment_end_bounds block.content max_chars start h (ground arith) in
          rw e (
            All-found (IsSlice block max_chars) _ _ _
              (unit_of-IsSlice block max_chars start _ inside bounded)
              (split_from-IsSlice fuel block max_chars overlap _ h))
      | inr e ↦ rw e tt
    ]

-- The units from a position on, with as much fuel as characters are left.
abbrev pub units_from : ExtractionBlock → ℕ → ℕ → ℕ → List ChunkUnit
units_from block max_chars overlap start =
    split_from (length block.content - start) block max_chars overlap start

split_from-enough :
    (fuel more : ℕ) (block : ExtractionBlock) (max_chars overlap start : ℕ)
    → length block.content ≤ fuel + start
    → length block.content ≤ more + start
    → split_from fuel block max_chars overlap start ≡ split_from more block max_chars overlap start
unfolding split_from
split_from-enough zero zero block max_chars overlap start h k = refl
split_from-enough zero (suc more) block max_chars overlap start h k = ground arith
split_from-enough (suc fuel) zero block max_chars overlap start h k = ground arith
split_from-enough (suc fuel) (suc more) block max_chars overlap start h k =
    let next = max (start + 1) (segment_end block.content max_chars start - overlap) in
    let rest =
      split_from-enough fuel more block max_chars overlap next (omega arith) (omega arith) in
    rw rest refl

-- The loop of `splitBlock` ends: a function without fuel satisfies its equation, the units from the
-- start of a segment on being that of the segment, then those from the start of the next segment
-- on; and a block that is longer than the maximum is split into the units from 0 on.
pub units_from_eq :
    (block : ExtractionBlock) (max_chars overlap start : ℕ)
    → (units_from block max_chars overlap start ≡ (
        let end = segment_end block.content max_chars start in
        let found = unit_of block (trim_segment block.content start end) in
        if ltb start (length block.content)
        then (if leb (length block.content) end
            then found
            else found ++ units_from block max_chars overlap (max (start + 1) (end - overlap)))
        else []))
      × (leb (length block.content) max_chars ≡ false
          → split_block block max_chars overlap ≡ units_from block max_chars overlap 0)
unfolding split_block split_from
units_from_eq block max_chars overlap start =
    let size = length block.content in
    let next = max (start + 1) (segment_end block.content max_chars start - overlap) in
    let rest =
      split_from-enough size (size - next) block max_chars overlap next (omega arith)
        (omega arith) in
    (
      split_from-enough (size - start) (suc size) block max_chars overlap start (omega arith)
            (omega arith)
          ∙ rw rest refl,
      λ h.
          rw h (
            split_from-enough size (size - 0) block max_chars overlap 0 (omega arith)
              (omega arith)),
    )

-- A block whose offsets are as far apart as its text is long is split, whatever the overlap, into
-- units that are slices of its text, of at most the maximum of characters, and whose offsets are
-- those of the slice.
pub split_block-IsSlice :
    (block : ExtractionBlock) (max_chars overlap : ℕ)
    → 1 ≤ max_chars
    → block.end_offset ≡ block.start_offset + length block.content
    → All (IsSlice block max_chars) (split_block block max_chars overlap)
unfolding split_block slice
split_block-IsSlice block max_chars overlap h k =
    elim (Bool-cases (leb (length block.content) max_chars)) [
      | inl e ↦ rw e (
        record {
          from = 0;
          to = length block.content;
          ordered = omega arith;
          inside = omega arith;
          bounded = ground arith;
          same_text = sym (take_all block.content (length block.content - 0) (omega arith));
          same_start = omega arith;
          same_end = k;
          same_block = refl;
        },
        tt,
      )
      | inr e ↦ rw e (split_from-IsSlice _ block max_chars overlap 0 h)
    ]
