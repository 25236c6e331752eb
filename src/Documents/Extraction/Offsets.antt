-- ===== src/Documents/Extraction/Offsets.antt =====
-- Offsets of blocks and units point into the text of their document.
use mathlib.Core.List.{append_assoc, append-nil}
use ai_research_workbench.Common.{
  ℕ, ◌+◌, ◌-◌, ◌≤◌, ◌≡◌, refl, ap, ◌∙◌, subst, false, Bool-cases, inl, inr, List, [], ◌∷◌, ◌++◌,
  map, length, leb, ltb, nat_eq, if◌then◌else◌, take, drop, Text, All, length-append, trim, arith,
}
use ai_research_workbench.Common.Outcome.{
  ok, ◌>>◌, require, error, extraction_limit_exceeded, >>=-ok, ok_same,
}
use ai_research_workbench.Documents.Chunking.{
  ExtractionBlock, DocumentExtractionResult, slice, join_texts,
}
use ai_research_workbench.Documents.Extraction.{
  BlockDraft, BlockKey, ExtractionInput, strip_line_ends, assert_document_byte_limit, block_of,
  blocks_from, finalize_extraction,
}

abbrev contents : List ExtractionBlock → List Text
contents blocks = map (λ (b : ExtractionBlock). b.content) blocks

-- Blocks that follow each other from an offset, two characters apart.
abbrev Consecutive : ℕ → List ExtractionBlock → Type 0
Consecutive at [] = Unit
Consecutive at (b ∷ bs) =
    (b.start_offset ≡ at)
    × (b.end_offset ≡ at + length b.content)
    × Consecutive (at + length b.content + 2) bs

-- A block whose offsets are those of its text in a text.
pub record IsPlaced (whole : Text) (b : ExtractionBlock) : Type 0 where
  pub same_text : slice whole b.start_offset b.end_offset ≡ b.content
  pub same_end : b.end_offset ≡ b.start_offset + length b.content
  pub inside : b.end_offset ≤ length whole

drop_front : (p x : Text) → drop (length p) (p ++ x) ≡ x
drop_front [] x = refl
drop_front (c ∷ p) x = drop_front p x

take_front : (p x : Text) → take (length p) (p ++ x) ≡ p
take_front [] x = refl
take_front (c ∷ p) x = ap (λ t. c ∷ t) (take_front p x)

slice_middle : (p c q : Text) → slice (p ++ (c ++ q)) (length p) (length p + length c) ≡ c
unfolding slice
slice_middle p c q =
    let size : length p + length c - length p ≡ length c = omega arith in
    rw (size, drop_front p (c ++ q)) (take_front c q)

placed :
    (p c q : Text) (b : ExtractionBlock)
    → b.content ≡ c
    → b.start_offset ≡ length p
    → b.end_offset ≡ length p + length c
    → IsPlaced (p ++ (c ++ q)) b
placed p c q b e s t = record {
  same_text = rw (e, s, t) (slice_middle p c q);
  same_end = rw (e, s, t) refl;
  inside = let l = length-append p (c ++ q) in let r = length-append c q in omega arith;
}

Consecutive-IsPlaced :
    (p : Text) (bs : List ExtractionBlock)
    → Consecutive (length p) bs
    → All (IsPlaced (p ++ join_texts (contents bs))) bs
unfolding join_texts
Consecutive-IsPlaced p [] h = tt
Consecutive-IsPlaced p (b ∷ []) (s, t, _) =
    (subst (λ w. IsPlaced (p ++ w) b) (append-nil b.content) (placed p b.content [] b refl s t), tt)
Consecutive-IsPlaced p (b ∷ d ∷ bs) (s, t, h) =
    let gap = 10 ∷ 10 ∷ [] in
    let rest = join_texts (contents (d ∷ bs)) in
    let before = p ++ (b.content ++ gap) in
    let size : length p + length b.content + 2 ≡ length before =
      let l = length-append p (b.content ++ gap) in
      let r = length-append b.content gap in omega arith in
    let later = Consecutive-IsPlaced before (d ∷ bs) (subst (λ n. Consecutive n (d ∷ bs)) size h) in
    let joined : before ++ rest ≡ p ++ (b.content ++ 10 ∷ 10 ∷ rest) =
      append_assoc p (b.content ++ gap) rest ∙ ap (λ w. p ++ w) (append_assoc b.content gap rest) in
    (
      placed p b.content (10 ∷ 10 ∷ rest) b refl s t,
      subst (λ w. All (IsPlaced w) (d ∷ bs)) joined later,
    )

module _ (hash_bytes : Text → Text) (stable_id : Text → Text → BlockKey → Text) where
  blocks_from-Consecutive :
      (input : ExtractionInput) (ordinal offset : ℕ) (drafts : List BlockDraft)
      {blocks : List ExtractionBlock}
      → blocks_from hash_bytes stable_id input ordinal offset drafts ≡ ok blocks
      → Consecutive (if nat_eq ordinal 0 then offset else offset + 2) blocks
  unfolding blocks_from block_of
  blocks_from-Consecutive input ordinal offset [] h = subst (Consecutive _) (ok_same h) tt
  blocks_from-Consecutive input ordinal offset (d ∷ ds) {blocks} h =
      let content = trim (strip_line_ends d.content) in
      let start = if nat_eq ordinal 0 then offset else offset + 2 in
      elim (Bool-cases (nat_eq (length content) 0)) [
        | inl e ↦ blocks_from-Consecutive input ordinal offset ds (rw e at h)
        | inr e ↦ elim (Bool-cases (ltb input.limits.max_text_chars (start + length content))) [
          | inl long ↦ absurd (ground arith)
          | inr fits ↦
              let rest =
                blocks_from hash_bytes stable_id input (ordinal + 1) (start + length content) ds in
              let (bs, made, k) = >>=-ok rest _ (rw (e, fits) at h) in
              let next =
                blocks_from-Consecutive input (ordinal + 1) (start + length content) ds made in
              let later : nat_eq (ordinal + 1) 0 ≡ false = ground arith in
              subst (Consecutive start) (ok_same k) (refl, refl, rw later at next)
        ]
      ]

  -- The blocks of a finalised extraction are slices of its text at their offsets.
  pub finalize_extraction-IsPlaced :
      (input : ExtractionInput) {document : DocumentExtractionResult}
      → finalize_extraction hash_bytes stable_id input ≡ ok document
      → All (IsPlaced document.content) document.blocks
  unfolding finalize_extraction
  finalize_extraction-IsPlaced input {document} h =
      let bytes = assert_document_byte_limit (length input.bytes) input.limits in
      let few =
        require (leb (length input.drafts) input.limits.max_blocks)
          (error extraction_limit_exceeded) in
      let made = blocks_from hash_bytes stable_id input 0 0 input.drafts in
      let (blocks, e, k) = >>=-ok (bytes >> few >> made) _ h in
      let (_, _, e) = >>=-ok (bytes >> few) _ e in
      let placed =
        Consecutive-IsPlaced [] blocks (blocks_from-Consecutive input 0 0 input.drafts e) in
      subst (λ (d : DocumentExtractionResult). All (IsPlaced d.content) d.blocks) (ok_same k) placed
