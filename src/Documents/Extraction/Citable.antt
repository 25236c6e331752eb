-- ===== src/Documents/Extraction/Citable.antt =====
-- The offsets of the units of an extraction cite its text.
use ai_research_workbench.Common.{
  ℕ, zero, suc, ◌+◌, ◌-◌, ◌≤◌, ◌≡◌, refl, sym, ap, ◌∙◌, List, [], ◌∷◌, flat_map, length, take, drop,
  Text, All, All-append, All-weaken, arith,
}
use ai_research_workbench.Common.Outcome.{ok}
use ai_research_workbench.Documents.Chunking.{
  ExtractionBlock, DocumentExtractionResult, ChunkUnit, slice, split_block,
}
use ai_research_workbench.Documents.Chunking.Units.{IsSlice, split_block-IsSlice}
use ai_research_workbench.Documents.Extraction.{BlockKey, ExtractionInput, finalize_extraction}
use ai_research_workbench.Documents.Extraction.Offsets.{IsPlaced, finalize_extraction-IsPlaced}

take_nil : (n : ℕ) → take {A = ℕ} n [] ≡ []
take_nil zero = refl
take_nil (suc n) = refl

drop_nil : (n : ℕ) → drop {A = ℕ} n [] ≡ []
drop_nil zero = refl
drop_nil (suc n) = refl

drop-take : (s n : ℕ) (x : Text) → drop s (take n x) ≡ take (n - s) (drop s x)
drop-take zero n x = ap (λ k. take k x) (omega arith)
drop-take (suc s) zero [] = sym (take_nil (0 - suc s))
drop-take (suc s) zero (c ∷ x) = let none : 0 - suc s ≡ 0 = omega arith in rw none refl
drop-take (suc s) (suc n) [] = sym (take_nil (suc n - suc s))
drop-take (suc s) (suc n) (c ∷ x) = drop-take s n x ∙ ap (λ k. take k (drop s x)) (omega arith)

take-take : (m n : ℕ) (x : Text) → m ≤ n → take m (take n x) ≡ take m x
take-take zero n x h = refl
take-take (suc m) zero x h = absurd (omega arith)
take-take (suc m) (suc n) [] h = refl
take-take (suc m) (suc n) (c ∷ x) h = ap (λ t. c ∷ t) (take-take m n x (omega arith))

drop-drop : (s n : ℕ) (x : Text) → drop s (drop n x) ≡ drop (n + s) x
drop-drop s zero x = ap (λ k. drop k x) (omega arith)
drop-drop s (suc n) [] = drop_nil s ∙ sym (drop_nil (suc n + s))
drop-drop s (suc n) (c ∷ x) =
    let next : suc n + s ≡ suc (n + s) = omega arith in rw next (drop-drop s n x)

-- A slice of a slice.
slice-slice :
    (whole : Text) (at n from to : ℕ)
    → to ≤ n
    → slice (slice whole at (at + n)) from to ≡ slice whole (at + from) (at + to)
unfolding slice
slice-slice whole at n from to h =
    rw
      (
        drop-take from (at + n - at) (drop at whole),
        drop-drop from at whole,
        take-take (to - from) (at + n - at - from) (drop (at + from) whole) (omega arith),
      )
      (ap (λ k. take k (drop (at + from) whole)) (omega arith))

unit_cites :
    (whole : Text) (block : ExtractionBlock) (max_chars : ℕ) (u : ChunkUnit)
    → IsPlaced whole block
    → IsSlice block max_chars u
    → slice whole u.start_offset u.end_offset ≡ u.content
unit_cites whole block max_chars u p s =
    rw (s.same_start, s.same_end, s.same_text, sym p.same_text, p.same_end)
      (sym (slice-slice whole block.start_offset (length block.content) s.from s.to s.inside))

units_cite :
    (whole : Text) (blocks : List ExtractionBlock) (max_chars overlap : ℕ)
    → 1 ≤ max_chars
    → All (IsPlaced whole) blocks
    → All
        (λ (u : ChunkUnit). slice whole u.start_offset u.end_offset ≡ u.content)
        (flat_map (λ b. split_block b max_chars overlap) blocks)
units_cite whole [] max_chars overlap h p = tt
units_cite whole (b ∷ bs) max_chars overlap h p =
    All-append _ (split_block b max_chars overlap) _
      (All-weaken _ (λ u s. unit_cites whole b max_chars u p.0 s) _
        (split_block-IsSlice b max_chars overlap h p.0.same_end))
      (units_cite whole bs max_chars overlap h p.1)

module _ (hash_bytes : Text → Text) (stable_id : Text → Text → BlockKey → Text) where
  -- Where an extraction is finalised, the blocks are slices of its text between their offsets, which
  -- are as far apart as their texts are long, and so are the units that the blocks are split into, for
  -- whatever overlap and positive maximum.
  pub finalize_extraction-citable :
      (input : ExtractionInput) {document : DocumentExtractionResult} (max_chars overlap : ℕ)
      → 1 ≤ max_chars
      → finalize_extraction hash_bytes stable_id input ≡ ok document
      → All (IsPlaced document.content) document.blocks
        × All
            (λ (u : ChunkUnit). slice document.content u.start_offset u.end_offset ≡ u.content)
            (flat_map (λ b. split_block b max_chars overlap) document.blocks)
  finalize_extraction-citable input {document} max_chars overlap h e =
      let placed = finalize_extraction-IsPlaced hash_bytes stable_id input e in
      (placed, units_cite document.content document.blocks max_chars overlap h placed)
