-- ===== src/Examples/Extraction.antt =====
-- An extraction of two paragraphs.
use ai_research_workbench.Common.{◌≡◌, arith, refl, none, [], ◌∷◌, flat_map, Text, text, trim, All}
use ai_research_workbench.Common.Outcome.{ok, throw}
use ai_research_workbench.Documents.Chunking.{
  DocumentExtractionResult, ChunkUnit, heading, paragraph, ready, slice, split_block,
}
use ai_research_workbench.Documents.Extraction.{
  ExtractionInput, BlockKey, blanks_to_line_end, finalize_extraction,
}
use ai_research_workbench.Documents.Extraction.Offsets.{IsPlaced}
use ai_research_workbench.Documents.Extraction.Citable.{finalize_extraction-citable}

abbrev two_drafts : ExtractionInput
two_drafts = record {
  bytes = 1 ∷ 2 ∷ [];
  extractor_version = [];
  drafts =
      record { kind = heading; content = text " Market\n"; page_number = none; section_path = none }
      ∷ record { kind = paragraph; content = text "  "; page_number = none; section_path = none }
      ∷ record {
        kind = paragraph;
        content = text "It grew.  \nMuch.";
        page_number = none;
        section_path = none;
      }
      ∷ [];
  limits = record {
    max_bytes = 10;
    max_pages = 1;
    max_blocks = 5;
    max_text_chars = 100;
    max_zip_entries = 1;
    max_expanded_bytes = 1;
    max_compression_ratio = 1;
    max_xml_bytes = 1;
    max_xml_nodes = 1;
  };
}

abbrev same_bytes : Text → Text
same_bytes t = t

abbrev no_id : Text → Text → BlockKey → Text
no_id hash version key = []

abbrev extracted : DocumentExtractionResult
extracted = elim (finalize_extraction same_bytes no_id two_drafts) [
  | ok d ↦ d
  | throw e ↦ record {
    status = ready;
    extractor_version = [];
    document_hash = [];
    content = [];
    blocks = [];
  }
]

extracted_ok : finalize_extraction same_bytes no_id two_drafts ≡ ok extracted
unfolding finalize_extraction trim text blanks_to_line_end
extracted_ok = refl

finalize_extraction-citable_example :
    All (IsPlaced extracted.content) extracted.blocks
    × All
        (λ (u : ChunkUnit). slice extracted.content u.start_offset u.end_offset ≡ u.content)
        (flat_map (λ b. split_block b 5 1) extracted.blocks)
finalize_extraction-citable_example =
    finalize_extraction-citable same_bytes no_id two_drafts 5 1 (omega arith) extracted_ok
