-- ===== src/Documents/Chunking/Chunks.antt =====
-- The chunks and the anchors that `chunkExtraction` returns.
use native.Mathlib.Nat.{le_trans}
use ai_research_workbench.Common.{
  ℕ, suc, ◌*◌, ltb, subst, ◌-◌, ◌≤◌, ◌≡◌, refl, ap, ◌∙◌, true, Option, none, some, List, [], ◌∷◌,
  map, flat_map, length, leb, if◌then◌else◌, Bool-cases, inl, inr, Text, text_eq, All, All-append,
  All-weaken, length-take, arith, drop,
}
use ai_research_workbench.Common.Number.{
  max_safe_integer, safe_integer_between, safe_integer_between_bounds,
}
use ai_research_workbench.Common.Outcome.{
  ok, require, ◌>>◌, error, invalid_chunking_options, extraction_not_ready, too_many_chunks, >>=-ok,
  ok_same,
}
use ai_research_workbench.Documents.Chunking.{
  ExtractionBlock, ChunkUnit, DigestPart, ChunkingInput, ChunkingOptions, RequiredOptions,
  ChunkedDocument, DocumentChunk, CitationAnchor, needs_review, slice, split_block,
  validate_options, given_or, is_ready, valid_option, group_from, chunk_of, chunks_from, anchor_of,
  chunk_extraction, mark_superseded_anchors,
}
use ai_research_workbench.Documents.Chunking.Units.{IsSlice, split_from-IsSlice}
use ai_research_workbench.Documents.Chunking.Groups.{
  IsGroup, grouped, group_text, group_from-IsGroup, group_from-flat,
}

-- The units of a document.
abbrev pub units_of : ChunkingInput → RequiredOptions → List ChunkUnit
units_of input options =
    flat_map (λ b. split_block b options.max_chars options.overlap_chars) input.extraction.blocks

abbrev pub groups_of : ChunkingInput → RequiredOptions → List (List ChunkUnit)
groups_of input options = group_from options.max_chars [] 0 (units_of input options)

slice_short :
    (block : ExtractionBlock) (max_chars : ℕ) (u : ChunkUnit)
    → IsSlice block max_chars u
    → length u.content ≤ max_chars
unfolding slice
slice_short block max_chars u h =
    let same = ap (λ t. length t) h.same_text in
    let taken = length-take (h.to - h.from) (drop h.from block.content) in
    let bound = h.bounded in omega arith

split_block_short :
    (block : ExtractionBlock) (max_chars overlap : ℕ)
    → 1 ≤ max_chars
    → All (λ (u : ChunkUnit). length u.content ≤ max_chars) (split_block block max_chars overlap)
unfolding split_block
split_block_short block max_chars overlap h =
    elim (Bool-cases (leb (length block.content) max_chars)) [
      | inl e ↦ rw e (ground arith, tt)
      | inr e ↦ rw e (
          All-weaken _ (slice_short block max_chars) _
            (split_from-IsSlice _ block max_chars overlap 0 h))
    ]

units_short :
    (blocks : List ExtractionBlock) (max_chars overlap : ℕ)
    → 1 ≤ max_chars
    → All
        (λ (u : ChunkUnit). length u.content ≤ max_chars)
        (flat_map (λ b. split_block b max_chars overlap) blocks)
units_short [] max_chars overlap h = tt
units_short (b ∷ bs) max_chars overlap h =
    All-append _ (split_block b max_chars overlap) _ (split_block_short b max_chars overlap h)
      (units_short bs max_chars overlap h)

valid_option-ok : (o : Option ℕ) {n : ℕ} → valid_option o ≡ ok n → o ≡ some n
valid_option-ok none h = absurd (cc)
valid_option-ok (some m) h = ground arith

-- Valid options have a maximum of 100 characters at least.
validate_options_least :
    (options : ChunkingOptions) {valid : RequiredOptions}
    → validate_options options ≡ ok valid
    → 100 ≤ valid.max_chars
unfolding validate_options
validate_options_least options {valid} h =
    let (chars, e, h) =
      >>=-ok
        (valid_option (safe_integer_between 100 max_safe_integer (given_or options.max_chars 4000)))
        _ h in
    let (overlap, _, h) =
      >>=-ok
        (valid_option
          (safe_integer_between 0 max_safe_integer (given_or options.overlap_chars 300)))
        _ h in
    let (chunks, _, h) =
      >>=-ok
        (require (ltb (overlap * 2) chars) (error invalid_chunking_options)
          >> valid_option
              (safe_integer_between 1 max_safe_integer (given_or options.max_chunks 2000)))
        _ h in
    let (least, _, _) =
      safe_integer_between_bounds 100 max_safe_integer (given_or options.max_chars 4000)
        (valid_option-ok _ e) in
    let same : chars ≡ valid.max_chars = ground arith in subst (λ (k : ℕ). 100 ≤ k) same least

-- A document whose units are divided into these groups.
pub record IsPartition (input : ChunkingInput) (options : RequiredOptions)
    (groups : List (List ChunkUnit)) (document : ChunkedDocument) : Type 0 where
  pub flat : flat_map (λ (g : List ChunkUnit). g) groups ≡ units_of input options
  pub made : All (IsGroup options.max_chars) groups
  pub texts : map (λ (c : DocumentChunk). c.content) document.chunks ≡ map group_text groups
  pub few : length document.chunks ≤ options.max_chunks
  pub short : All (λ (c : DocumentChunk). c.char_count ≤ options.max_chars) document.chunks
  pub cited :
      map (λ (a : CitationAnchor). a.chunk_id) document.anchors
      ≡ map (λ (c : DocumentChunk). c.id) document.chunks

module _ (digest : List DigestPart → Text) (sha256_hex : Text → Text) where
  chunks_from-texts :
      (input : ChunkingInput) (n max_chars : ℕ) (groups : List (List ChunkUnit))
      → All (IsGroup max_chars) groups
      → (map (λ (c : DocumentChunk). c.content) (chunks_from digest sha256_hex input n groups)
          ≡ map group_text groups)
        × (length (chunks_from digest sha256_hex input n groups) ≡ length groups)
        × All
            (λ (c : DocumentChunk). c.char_count ≤ max_chars)
            (chunks_from digest sha256_hex input n groups)
  unfolding chunks_from chunk_of
  chunks_from-texts input n max_chars [] h = (refl, refl, tt)
  chunks_from-texts input n max_chars (_ ∷ groups) (grouped first units same short, h) =
      let (texts, size, counts) = chunks_from-texts input (suc n) max_chars groups h in
      (ap (λ ts. group_text (first ∷ units) ∷ ts) texts, ap suc size, (short, counts))

  anchors_cited :
      (input : ChunkingInput) (chunks : List DocumentChunk)
      → map (λ (a : CitationAnchor). a.chunk_id) (map (anchor_of digest sha256_hex input) chunks)
        ≡ map (λ (c : DocumentChunk). c.id) chunks
  unfolding anchor_of
  anchors_cited input [] = refl
  anchors_cited input (c ∷ cs) = ap (λ ids. c.id ∷ ids) (anchors_cited input cs)

  abbrev made_document : ChunkingInput → List (List ChunkUnit) → ChunkedDocument
  made_document input groups =
      let chunks = chunks_from digest sha256_hex input 0 groups in
      record { chunks = chunks; anchors = map (anchor_of digest sha256_hex input) chunks }

  chunk_extraction_inv :
      (input : ChunkingInput) {document : ChunkedDocument}
      → chunk_extraction digest sha256_hex input ≡ ok document
      → (options : RequiredOptions) × (validate_options input.options ≡ ok options)
        × (leb (length (groups_of input options)) options.max_chunks ≡ true)
        × (made_document input (groups_of input options) ≡ document)
  unfolding chunk_extraction
  chunk_extraction_inv input {document} h =
      let ready = require (is_ready input.extraction.status) (error extraction_not_ready) in
      let (options, e, h) = >>=-ok (ready >> validate_options input.options) _ h in
      let (_, valid, e) = >>=-ok ready _ e in
      let count = leb (length (groups_of input options)) options.max_chunks in
      let (_, few, h) = >>=-ok (require count (error too_many_chunks)) _ h in
      (options, e, ground arith, ok_same h)

  -- Where the chunks of a document are returned, its blocks are split with valid options, the units
  -- are divided into groups that continue a page and a section and begin no new heading, no unit
  -- being lost, repeated or moved, and the chunks, in this order, have the joined texts of the
  -- groups; there are no more than the maximum of chunks, each has no more than the maximum of
  -- characters, and the anchors cite the chunks one by one.
  pub chunk_extraction-IsPartition :
      (input : ChunkingInput) {document : ChunkedDocument}
      → chunk_extraction digest sha256_hex input ≡ ok document
      → (options : RequiredOptions) × (groups : List (List ChunkUnit)) × (validate_options
            input.options
          ≡ ok options)
        × IsPartition input options groups document
  unfolding chunk_extraction
  chunk_extraction-IsPartition input {document} h =
      let (options, e, few, same) = chunk_extraction_inv input h in
      let units = units_of input options in
      let least = le_trans (omega arith) (validate_options_least input.options e) in
      let short =
        units_short input.extraction.blocks options.max_chars options.overlap_chars least in
      let made = group_from-IsGroup options.max_chars [] 0 units short refl in
      let groups = groups_of input options in
      let (texts, size, counts) = chunks_from-texts input 0 options.max_chars groups made in
      (
        options,
        groups,
        e,
        subst (IsPartition input options groups) same (record {
          flat = group_from-flat options.max_chars [] 0 units;
          made = made;
          texts = texts;
          few = ground arith;
          short = counts;
          cited = anchors_cited input (chunks_from digest sha256_hex input 0 groups);
        }),
      )

  mark-anchors :
      (input : ChunkingInput) (id : Text) (chunks : List DocumentChunk)
      → mark_superseded_anchors (map (anchor_of digest sha256_hex input) chunks) id ≡ (
          if text_eq input.extraction_id id
          then map (anchor_of digest sha256_hex input) chunks
          else map
              (λ (a : CitationAnchor). record a { status = needs_review })
              (map (anchor_of digest sha256_hex input) chunks))
  unfolding mark_superseded_anchors anchor_of
  mark-anchors input id [] = ground arith
  mark-anchors input id (c ∷ cs) =
      let rest = mark-anchors input id cs in
      elim (Bool-cases (text_eq input.extraction_id id)) [
        | inl e ↦
            rw (e) (ap (λ more. anchor_of digest sha256_hex input c ∷ more) (rest ∙ rw e refl))
        | inr e ↦ rw (e) (
            ap
              (λ more.
                record (anchor_of digest sha256_hex input c) { status = needs_review } ∷ more)
              (rest ∙ rw e refl))
      ]

  -- The anchors of a document stay as they are while its extraction is the current one, and once
  -- another one is, every one of them has to be reviewed and is otherwise the same.
  pub mark_superseded_anchors-chunk_extraction :
      (input : ChunkingInput) (id : Text) {document : ChunkedDocument}
      → chunk_extraction digest sha256_hex input ≡ ok document
      → mark_superseded_anchors document.anchors id ≡ (
          if text_eq input.extraction_id id
          then document.anchors
          else map (λ (a : CitationAnchor). record a { status = needs_review }) document.anchors)
  mark_superseded_anchors-chunk_extraction input id {document} h =
      let (options, _, _, same) = chunk_extraction_inv input h in
      subst
        (λ (d : ChunkedDocument). mark_superseded_anchors d.anchors id ≡ (
          if text_eq input.extraction_id id
          then d.anchors
          else map (λ (a : CitationAnchor). record a { status = needs_review }) d.anchors))
        same
        (mark-anchors input id (chunks_from digest sha256_hex input 0 (groups_of input options)))
