-- ===== src/Documents/Extraction.antt =====
-- lib/documents/extraction/types.ts: the drafts of an extractor as the blocks of a document. Of the
-- bytes only their number is read; `hash_bytes` and `stable_id`, which hash by node:crypto, are
-- parameters. Fields that nothing else models are left out, as are the security signals.
pub mod Offsets
pub mod Citable
use ai_research_workbench.Common.{
  ℕ, zero, ◌+◌, Bool, true, false, ◌||◌, Option, none, some, List, [], ◌∷◌, ◌++◌, map, length, leb,
  ltb, nat_eq, if◌then◌else◌, Text, text, trim,
}
use ai_research_workbench.Common.Number.{JsNumber, whole, max_safe_integer, safe_integer_between}
use ai_research_workbench.Common.Outcome.{
  Outcome, ok, throw, ◌>>=◌, ◌>>◌, require, error, document_malformed, document_too_large,
  extraction_limit_exceeded,
}
use ai_research_workbench.Documents.Chunking.{
  ExtractionBlock, ExtractionBlockKind, DocumentExtractionResult, join_texts, ready,
  ocr_required_unsupported,
}

-- ExtractionLimits, by the type of a limit: numbers as they are given, and validated ones.
pub record ExtractionLimits (A : Type 0) : Type 0 where
  pub max_bytes : A
  pub max_pages : A
  pub max_blocks : A
  pub max_text_chars : A
  pub max_zip_entries : A
  pub max_expanded_bytes : A
  pub max_compression_ratio : A
  pub max_xml_bytes : A
  pub max_xml_nodes : A

unfoldable pub default_extraction_limits : ExtractionLimits JsNumber
default_extraction_limits = record {
  max_bytes = whole 25000000;
  max_pages = whole 500;
  max_blocks = whole 20000;
  max_text_chars = whole 2000000;
  max_zip_entries = whole 2500;
  max_expanded_bytes = whole 100000000;
  max_compression_ratio = whole 100;
  max_xml_bytes = whole 20000000;
  max_xml_nodes = whole 500000;
}

abbrev limit_or : Option JsNumber → JsNumber → JsNumber
limit_or none default = default
limit_or (some n) default = n

abbrev positive : JsNumber → Outcome ℕ
positive n = elim (safe_integer_between 1 max_safe_integer n) [
  | none ↦ throw (error extraction_limit_exceeded)
  | some m ↦ ok m
]

unfoldable pub merge_extraction_limits :
    ExtractionLimits (Option JsNumber) → Outcome (ExtractionLimits ℕ)
unfolding default_extraction_limits
merge_extraction_limits l =
    let d = default_extraction_limits in
    positive (limit_or l.max_bytes d.max_bytes) >>= λ bytes.
    positive (limit_or l.max_pages d.max_pages) >>= λ pages.
    positive (limit_or l.max_blocks d.max_blocks) >>= λ blocks.
    positive (limit_or l.max_text_chars d.max_text_chars) >>= λ chars.
    positive (limit_or l.max_zip_entries d.max_zip_entries) >>= λ entries.
    positive (limit_or l.max_expanded_bytes d.max_expanded_bytes) >>= λ expanded.
    positive (limit_or l.max_compression_ratio d.max_compression_ratio) >>= λ ratio.
    positive (limit_or l.max_xml_bytes d.max_xml_bytes) >>= λ xml_bytes.
    positive (limit_or l.max_xml_nodes d.max_xml_nodes) >>= λ xml_nodes. ok (record {
      max_bytes = bytes;
      max_pages = pages;
      max_blocks = blocks;
      max_text_chars = chars;
      max_zip_entries = entries;
      max_expanded_bytes = expanded;
      max_compression_ratio = ratio;
      max_xml_bytes = xml_bytes;
      max_xml_nodes = xml_nodes;
    })

unfoldable pub assert_document_byte_limit : ℕ → ExtractionLimits ℕ → Outcome (Unit {0})
assert_document_byte_limit byte_length limits =
    if nat_eq byte_length 0
    then throw (error document_malformed)
    else if ltb limits.max_bytes byte_length
    then throw (error document_too_large)
    else ok tt

pub record BlockDraft : Type 0 where
  pub kind : ExtractionBlockKind
  pub content : Text
  pub page_number : Option ℕ
  pub section_path : Option Text

is_blank : ℕ → Bool
is_blank c = nat_eq c 9 || nat_eq c 32

-- Whether the blanks at the head of a text run up to a line feed.
unfoldable pub blanks_to_line_end : Text → Bool
unfolding is_blank
blanks_to_line_end [] = false
blanks_to_line_end (c ∷ s) = if is_blank c then blanks_to_line_end s else nat_eq c 10

-- `text.replace(/[\t ]+\n/g, "\n")`: a blank is dropped if only blanks stand between it and the end
-- of its line.
unfoldable pub strip_line_ends : Text → Text
unfolding is_blank
strip_line_ends [] = []
strip_line_ends (c ∷ s) =
    let rest = strip_line_ends s in
    if is_blank c then (if blanks_to_line_end s then rest else c ∷ rest) else c ∷ rest

pub record ExtractionInput : Type 0 where
  pub bytes : Text
  pub extractor_version : Text
  pub drafts : List BlockDraft
  pub limits : ExtractionLimits ℕ

-- What the identifier of a block is made of, after the hash of the document and the version.
pub record BlockKey : Type 0 where
  pub ordinal : ℕ
  pub page_number : Option ℕ
  pub section_path : Option Text
  pub content : Text

abbrev block_key : ℕ → BlockDraft → Text → BlockKey
block_key ordinal draft content = record {
  ordinal = ordinal;
  page_number = draft.page_number;
  section_path = draft.section_path;
  content = content;
}

module _ (hash_bytes : Text → Text) (stable_id : Text → Text → BlockKey → Text) where
  unfoldable pub block_of : ExtractionInput → ℕ → ℕ → BlockDraft → Text → ExtractionBlock
  block_of input ordinal offset draft content = record {
    id =
        text "block-"
        ++ stable_id (hash_bytes input.bytes) input.extractor_version
            (block_key ordinal draft content);
    kind = draft.kind;
    page_number = draft.page_number;
    section_path = draft.section_path;
    content = content;
    start_offset = offset;
    end_offset = offset + length content;
  }

  -- The loop over the drafts, from the number of blocks that are made and the offset they end at.
  unfoldable pub blocks_from :
      ExtractionInput → ℕ → ℕ → List BlockDraft → Outcome (List ExtractionBlock)
  unfolding block_of strip_line_ends
  blocks_from input ordinal offset [] = ok []
  blocks_from input ordinal offset (draft ∷ drafts) =
      let content = trim (strip_line_ends draft.content) in
      let skipped = nat_eq (length content) 0 in
      let start = if nat_eq ordinal 0 then offset else offset + 2 in
      let rest =
        blocks_from input (if skipped then ordinal else ordinal + 1)
          (if skipped then offset else start + length content) drafts in
      if skipped
      then rest
      else if ltb input.limits.max_text_chars (start + length content)
      then throw (error extraction_limit_exceeded)
      else rest >>= λ blocks. ok (block_of input ordinal start draft content ∷ blocks)

  unfoldable pub finalize_extraction : ExtractionInput → Outcome DocumentExtractionResult
  unfolding assert_document_byte_limit blocks_from
  finalize_extraction input =
      assert_document_byte_limit (length input.bytes) input.limits
      >> require (leb (length input.drafts) input.limits.max_blocks)
          (error extraction_limit_exceeded)
      >> blocks_from input 0 0 input.drafts
      >>= λ blocks. ok (record {
        status = ready;
        extractor_version = input.extractor_version;
        document_hash = hash_bytes input.bytes;
        content = join_texts (map (λ (b : ExtractionBlock). b.content) blocks);
        blocks = blocks;
      })

  unfoldable pub ocr_required_result : Text → Text → DocumentExtractionResult
  ocr_required_result bytes extractor_version = record {
    status = ocr_required_unsupported;
    extractor_version = extractor_version;
    document_hash = hash_bytes bytes;
    content = [];
    blocks = [];
  }
