-- ===== src/Documents/Chunking/Coverage.antt =====
-- `splitBlock` drops white space at the ends of segments only.
use mathlib.Core.List.{reverse, reverse-append, append_assoc}
use ai_research_workbench.Common.{
  ℕ, zero, suc, ◌+◌, ◌-◌, ◌≤◌, ◌<◌, ◌≡◌, max, refl, ap, ◌∙◌, Bool, true, false, ◌&&◌, List, [], ◌∷◌,
  ◌++◌, length, take, drop, any, leb, ltb, if◌then◌else◌, Bool-cases, inl, inr, Text, trim_start,
  trim_end, is_space, any-append, length-append, length-take, arith,
}
use ai_research_workbench.Documents.Chunking.{
  ExtractionBlock, ChunkUnit, slice, segment_between, trim_segment, segment_end, unit_of,
  split_from, split_block,
}
use ai_research_workbench.Documents.Chunking.Units.{segment_end_bounds}

-- What follows a character that is not white space is kept by `trimStart`.
trim_start-append :
    (x y : Text) (c : ℕ) → is_space c ≡ false → trim_start (x ++ c ∷ y) ≡ trim_start x ++ c ∷ y
unfolding trim_start
trim_start-append [] y c h = rw h refl
trim_start-append (d ∷ x) y c h = elim (Bool-cases (is_space d)) [
  | inl e ↦ rw e (trim_start-append x y c h)
  | inr e ↦ rw e refl
]

length-reverse : (x : Text) → length (reverse x) ≡ length x
length-reverse [] = refl
length-reverse (c ∷ x) =
    rw (reverse-append (c ∷ []) x)
      (length-append (reverse x) (c ∷ []) ∙ (let rest = length-reverse x in omega arith))

length-trim_end :
    (x y : Text) (c : ℕ) → is_space c ≡ false → suc (length x) ≤ length (trim_end (x ++ c ∷ y))
unfolding trim_end
length-trim_end x y c h =
    let turned : reverse (x ++ c ∷ y) ≡ reverse y ++ c ∷ reverse x =
      rw (reverse-append x (c ∷ y), reverse-append (c ∷ []) y)
        (append_assoc (reverse y) (c ∷ []) (reverse x)) in
    rw
      (
        turned,
        trim_start-append (reverse y) (reverse x) c h,
        length-reverse (trim_start (reverse y) ++ c ∷ reverse x),
      )
      (let all = length-append (trim_start (reverse y)) (c ∷ reverse x) in
        let same = length-reverse x in omega arith)

abbrev covers : ExtractionBlock → ℕ → ChunkUnit → Bool
covers block at u =
    leb u.start_offset (block.start_offset + at) && ltb (block.start_offset + at) u.end_offset

drop-append : (n : ℕ) (x y : Text) → n ≤ length x → drop n (x ++ y) ≡ drop n x ++ y
drop-append zero x y h = refl
drop-append (suc n) [] y h = absurd (omega arith)
drop-append (suc n) (c ∷ x) y h = drop-append n x y (omega arith)

length-drop : (n : ℕ) (x : Text) → length (drop n x) ≡ length x - n
length-drop zero x = omega arith
length-drop (suc n) [] = omega arith
length-drop (suc n) (c ∷ x) = omega (arith, length-drop n x)

take-append :
    (n : ℕ) (x y : Text) (c : ℕ)
    → length x < n
    → take n (x ++ c ∷ y) ≡ x ++ c ∷ take (n - length x - 1) y
take-append zero x y c h = absurd (omega arith)
take-append (suc n) [] y c h = ap (λ k. c ∷ take k y) (omega arith)
take-append (suc n) (d ∷ x) y c h =
    ap (λ t. d ∷ t) (take-append n x y c (omega arith) ∙ ap (λ k. x ++ c ∷ take k y) (omega arith))

slice-append :
    (x y : Text) (c from to : ℕ)
    → from ≤ length x
    → length x < to
    → slice (x ++ c ∷ y) from to ≡ drop from x ++ c ∷ take (to - length x - 1) y
unfolding slice
slice-append x y c from to h k =
    rw
      (
        drop-append from x (c ∷ y) h,
        take-append (to - from) (drop from x) y c (let l = length-drop from x in omega arith),
      )
      (ap (λ n. drop from x ++ c ∷ take n y) (let l = length-drop from x in omega arith))

length-slice : (value : Text) (from to : ℕ) → length (slice value from to) ≤ to - from
unfolding slice
length-slice value from to = let t = length-take (to - from) (drop from value) in omega arith

between-covers :
    (block : ExtractionBlock) (start end at : ℕ)
    → start ≤ at
    → at < end
    → any (covers block at) (unit_of block (segment_between block.content start end)) ≡ true
unfolding segment_between
between-covers block start end at h k = ground arith

trimmed-covers :
    (block : ExtractionBlock) (x y : Text) (c start end : ℕ)
    → block.content ≡ x ++ c ∷ y
    → is_space c ≡ false
    → start ≤ length x
    → length x < end
    → any (covers block (length x)) (unit_of block (trim_segment block.content start end)) ≡ true
unfolding trim_segment
trimmed-covers block x y c start end e n h k =
    let raw = slice-append x y c start end h k in
    let size = length-slice (x ++ c ∷ y) start end in
    let left = trim_start-append (drop start x) (take (end - length x - 1) y) c n in
    let right = length-trim_end (drop start x) (take (end - length x - 1) y) c n in
    let l = length-drop start x in
    let l1 = length-append (drop start x) (c ∷ take (end - length x - 1) y) in
    let l2 = length-append (trim_start (drop start x)) (c ∷ take (end - length x - 1) y) in
    let same = ap (λ t. length t) raw in
    between-covers block _ _ (length x) (rw (e, raw, left) (omega arith))
      (rw (e, raw) (omega arith))

either_covers {ℓ} :
    {A : Type ℓ} (p : A → Bool) (last : Bool) (found rest : List A)
    → any p found ≡ true
    → any p (if last then found else found ++ rest) ≡ true
either_covers p true found rest h = h
either_covers p false found rest h = rw (any-append p found rest, h) refl

later_covers {ℓ} :
    {A : Type ℓ} (p : A → Bool) (found rest : List A)
    → any p rest ≡ true
    → any p (found ++ rest) ≡ true
later_covers p found rest h = any-append p found rest ∙ ground (arith, h)

-- The units from a position on cover what is not white space after it.
covers_from :
    (fuel : ℕ) (block : ExtractionBlock) (max_chars overlap start : ℕ) (x y : Text) (c : ℕ)
    → 1 ≤ max_chars
    → length block.content ≤ fuel + start
    → block.content ≡ x ++ c ∷ y
    → is_space c ≡ false
    → start ≤ length x
    → any (covers block (length x)) (split_from fuel block max_chars overlap start) ≡ true
unfolding split_from
covers_from zero block max_chars overlap start x y c m f e n h =
    let size = ap (λ t. length t) e ∙ length-append x (c ∷ y) in absurd (omega arith)
covers_from (suc fuel) block max_chars overlap start x y c m f e n h =
    let size : length block.content ≡ length x + suc (length y) =
      ap (λ t. length t) e ∙ length-append x (c ∷ y) in
    let inside : ltb start (length block.content) ≡ true = ground arith in
    let (after, within, _) = segment_end_bounds block.content max_chars start m (omega arith) in
    let end = segment_end block.content max_chars start in
    elim (Bool-cases (ltb (length x) end)) [
      | inl y' ↦ rw inside (
          either_covers (covers block (length x)) _ _ _
            (trimmed-covers block x y c start end e n h (ground arith)))
      | inr n' ↦
          let short : leb (length block.content) end ≡ false = ground arith in
          let later =
            covers_from fuel block max_chars overlap (max (start + 1) (end - overlap)) x y c m
              (omega arith) e n (ground arith) in
          rw (inside, short) (later_covers (covers block (length x)) _ _ later)
    ]

-- Every character of a block that is not white space lies between the offsets of one of the units
-- that the block is split into, if the maximum is positive and the offsets of the block are as far
-- apart as its text is long.
pub split_block-covers :
    (block : ExtractionBlock) (max_chars overlap : ℕ) (x y : Text) (c : ℕ)
    → 1 ≤ max_chars
    → block.end_offset ≡ block.start_offset + length block.content
    → block.content ≡ x ++ c ∷ y
    → is_space c ≡ false
    → any
        (λ u.
          leb u.start_offset (block.start_offset + length x)
          && ltb (block.start_offset + length x) u.end_offset)
        (split_block block max_chars overlap)
      ≡ true
unfolding split_block
split_block-covers block max_chars overlap x y c m k e n =
    let size : length block.content ≡ length x + suc (length y) =
      ap (λ t. length t) e ∙ length-append x (c ∷ y) in
    elim (Bool-cases (leb (length block.content) max_chars)) [
      | inl short ↦ rw short (ground arith)
      | inr long ↦
          rw long (covers_from _ block max_chars overlap 0 x y c m (omega arith) e n (omega arith))
    ]
