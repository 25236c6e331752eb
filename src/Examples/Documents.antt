-- ===== src/Examples/Documents.antt =====
-- A document of a heading and a paragraph that is split.
use ai_research_workbench.Common.{
  ◌+◌, ◌-◌, ◌≡◌, arith, false, trim_end, is_space, refl, true, ◌&&◌, none, some, List, [], ◌∷◌,
  ◌++◌, map, any, leb, ltb, max, length, if◌then◌else◌, Text, text, text_eq, All,
}
use ai_research_workbench.Common.Number.{whole, safe_integer_between}
use ai_research_workbench.Common.Outcome.{ok, throw}
use ai_research_workbench.Documents.Chunking.{
  ExtractionBlock, ChunkingInput, RequiredOptions, ChunkedDocument, ChunkUnit, CitationAnchor,
  DigestPart, last_space, segment_between, heading, paragraph, ready, needs_review, segment_end,
  trim_segment, split_block, validate_options, chunk_extraction, mark_superseded_anchors, unit_of,
}
use ai_research_workbench.Documents.Chunking.Units.{
  IsSlice, units_from, units_from_eq, split_block-IsSlice,
}
use ai_research_workbench.Documents.Chunking.Coverage.{split_block-covers}
use ai_research_workbench.Documents.Chunking.Chunks.{
  IsPartition, chunk_extraction-IsPartition, mark_superseded_anchors-chunk_extraction,
}

abbrev title : ExtractionBlock
title = record {
  id = 1 ∷ [];
  kind = heading;
  page_number = some 1;
  section_path = none;
  content = text "Market";
  start_offset = 0;
  end_offset = 6;
}

abbrev body : ExtractionBlock
body = record {
  id = 2 ∷ [];
  kind = paragraph;
  page_number = some 1;
  section_path = none;
  content =
      text
        "The market grew by a tenth in the last year, and most of the growth came from new customers in the north of the country.";
  start_offset = 8;
  end_offset = 128;
}

abbrev sample : ChunkingInput
sample = record {
  source_id = 3 ∷ [];
  document_id = 4 ∷ [];
  extraction_id = 5 ∷ [];
  extraction = record {
    status = ready;
    extractor_version = [];
    document_hash = [];
    content = [];
    blocks = title ∷ body ∷ [];
  };
  options = record {
    max_chars = some (whole 100);
    overlap_chars = some (whole 20);
    max_chunks = none;
  };
}

abbrev no_digest : List DigestPart → Text
no_digest parts = []

abbrev no_hash : Text → Text
no_hash t = t

abbrev chunked : ChunkedDocument
chunked = elim (chunk_extraction no_digest no_hash sample) [
  | ok d ↦ d
  | throw e ↦ record { chunks = []; anchors = [] }
]

chunked_ok : chunk_extraction no_digest no_hash sample ≡ ok chunked
unfolding chunk_extraction validate_options safe_integer_between text segment_end last_space
    trim_segment segment_between trim_end is_space
chunked_ok = refl

chunk_extraction-IsPartition_example :
    (options : RequiredOptions) × (groups : List (List ChunkUnit)) × (validate_options
        sample.options
      ≡ ok options)
    × IsPartition sample options groups chunked
chunk_extraction-IsPartition_example =
    chunk_extraction-IsPartition no_digest no_hash sample chunked_ok

mark_superseded_anchors-chunk_extraction_example :
    mark_superseded_anchors chunked.anchors (6 ∷ []) ≡ (
      if text_eq (5 ∷ []) (6 ∷ [])
      then chunked.anchors
      else map (λ (a : CitationAnchor). record a { status = needs_review }) chunked.anchors)
mark_superseded_anchors-chunk_extraction_example =
    mark_superseded_anchors-chunk_extraction no_digest no_hash sample (6 ∷ []) chunked_ok

split_block-IsSlice_example : All (IsSlice body 100) (split_block body 100 20)
unfolding text
split_block-IsSlice_example = split_block-IsSlice body 100 20 (omega arith) refl

units_from_eq_example :
    (units_from body 100 20 0 ≡ (
      let end = segment_end body.content 100 0 in
      let found = unit_of body (trim_segment body.content 0 end) in
      if ltb 0 (length body.content)
      then (if leb (length body.content) end
          then found
          else found ++ units_from body 100 20 (max (0 + 1) (end - 20)))
      else []))
    × (leb (length body.content) 100 ≡ false → split_block body 100 20 ≡ units_from body 100 20 0)
units_from_eq_example = units_from_eq body 100 20 0

split_block-covers_example :
    any (λ u. leb u.start_offset (8 + 2) && ltb (8 + 2) u.end_offset) (split_block body 100 20)
    ≡ true
unfolding text is_space
split_block-covers_example =
    split_block-covers body 100 20 (text "Th")
      (text
        " market grew by a tenth in the last year, and most of the growth came from new customers in the north of the country.")
      101 (omega arith) refl refl refl
