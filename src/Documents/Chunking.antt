-- ===== src/Documents/Chunking.antt =====
-- lib/documents/chunking.ts: an extracted document as chunks and the anchors that cite them. The
-- security signals of a chunk are left out. `digest` and `sha256_hex`, which hash by node:crypto,
-- are parameters; numbers of pages are natural.
pub mod Units
pub mod Coverage
pub mod Groups
pub mod Chunks
use ai_research_workbench.Common.{
  ℕ, zero, suc, ◌+◌, ◌-◌, ◌*◌, ◌/◌, min, max, Bool, true, false, not, ◌&&◌, ◌||◌, Option, none,
  some, List, [], ◌∷◌, ◌++◌, map, flat_map, length, take, drop, leb, ltb, nat_eq, if◌then◌else◌,
  Text, text, text_eq, trim_start, trim_end,
}
use ai_research_workbench.Common.Number.{JsNumber, whole, max_safe_integer, safe_integer_between}
use ai_research_workbench.Common.Outcome.{
  Outcome, ok, throw, ◌>>=◌, ◌>>◌, require, error, extraction_not_ready, invalid_chunking_options,
  too_many_chunks,
}

pub data ExtractionBlockKind : Type 0 where
  heading paragraph table footnote page : ExtractionBlockKind

-- The fields of an ExtractionBlock that are read.
pub record ExtractionBlock : Type 0 where
  pub id : Text
  pub kind : ExtractionBlockKind
  pub page_number : Option ℕ
  pub section_path : Option Text
  pub content : Text
  pub start_offset : ℕ
  pub end_offset : ℕ

pub data ExtractionStatus : Type 0 where
  ready ocr_required_unsupported : ExtractionStatus

pub record DocumentExtractionResult : Type 0 where
  pub status : ExtractionStatus
  pub extractor_version : Text
  pub document_hash : Text
  pub content : Text
  pub blocks : List ExtractionBlock

pub record ChunkingOptions : Type 0 where
  pub max_chars : Option JsNumber
  pub overlap_chars : Option JsNumber
  pub max_chunks : Option JsNumber

pub record RequiredOptions : Type 0 where
  pub max_chars : ℕ
  pub overlap_chars : ℕ
  pub max_chunks : ℕ

pub record DocumentChunk : Type 0 where
  pub id : Text
  pub ordinal : ℕ
  pub extraction_id : Text
  pub content : Text
  pub start_offset : ℕ
  pub end_offset : ℕ
  pub start_block_id : Text
  pub end_block_id : Text
  pub page_number : Option ℕ
  pub section_path : Option Text
  pub char_count : ℕ
  pub content_hash : Text
  pub chunker_version : Text

pub data AnchorStatus : Type 0 where
  current stale needs_review : AnchorStatus

pub record CitationAnchor : Type 0 where
  pub id : Text
  pub source_id : Text
  pub document_id : Text
  pub extraction_id : Text
  pub chunk_id : Text
  pub page_number : Option ℕ
  pub section_path : Option Text
  pub start_offset : ℕ
  pub end_offset : ℕ
  pub content_hash : Text
  pub status : AnchorStatus

pub record ChunkUnit : Type 0 where
  pub content : Text
  pub start_offset : ℕ
  pub end_offset : ℕ
  pub block : ExtractionBlock

-- `value.slice(from, to)`
unfoldable pub slice : Text → ℕ → ℕ → Text
slice value from to = take (to - from) (drop from value)

-- The text of a segment, its start and its end.
pub record Segment : Type 0 where
  pub content : Text
  pub start : ℕ
  pub end : ℕ

unfoldable pub segment_between : Text → ℕ → ℕ → Option Segment
unfolding slice
segment_between value start end =
    if leb end start
    then none
    else some (record { content = slice value start end; start = start; end = end })

unfoldable pub trim_segment : Text → ℕ → ℕ → Option Segment
trim_segment value raw_start raw_end =
    let raw = slice value raw_start raw_end in
    let left = length raw - length (trim_start raw) in
    let right = length raw - length (trim_end raw) in
    segment_between value (raw_start + left) (raw_end - right)

abbrev here_or_none : Option ℕ → ℕ → Option ℕ
here_or_none (some i) c = some (suc i)
here_or_none none c = if nat_eq c 32 then some 0 else none

-- `value.lastIndexOf(" ", position)`
unfoldable pub last_space : Text → ℕ → Option ℕ
last_space [] n = none
last_space (c ∷ s) zero = if nat_eq c 32 then some 0 else none
last_space (c ∷ s) (suc n) = here_or_none (last_space s n) c

abbrev or_boundary : Option ℕ → ℕ → ℕ → ℕ
or_boundary none least end = end
or_boundary (some boundary) least end = if ltb least boundary then boundary else end

-- Where the segment that starts at `start` ends: at a space of its second half, if it has one.
unfoldable pub segment_end : Text → ℕ → ℕ → ℕ
segment_end value max_chars start =
    let end = min (length value) (start + max_chars) in
    if ltb end (length value)
    then or_boundary (last_space value end) (start + max_chars / 2) end
    else end

abbrev pub unit_of : ExtractionBlock → Option Segment → List ChunkUnit
unit_of block none = []
unit_of block (some s) =
    record {
      content = s.content;
      start_offset = block.start_offset + s.start;
      end_offset = block.start_offset + s.end;
      block = block;
    }
    ∷ []

-- The loop of `splitBlock` from `start`, on fuel.
unfoldable pub split_from : ℕ → ExtractionBlock → ℕ → ℕ → ℕ → List ChunkUnit
split_from zero block max_chars overlap start = []
split_from (suc fuel) block max_chars overlap start =
    let end = segment_end block.content max_chars start in
    let rest = split_from fuel block max_chars overlap (max (start + 1) (end - overlap)) in
    let found = unit_of block (trim_segment block.content start end) in
    if ltb start (length block.content)
    then (if leb (length block.content) end then found else found ++ rest)
    else []

unfoldable pub split_block : ExtractionBlock → ℕ → ℕ → List ChunkUnit
unfolding split_from
split_block block max_chars overlap =
    if leb (length block.content) max_chars
    then record {
      content = block.content;
      start_offset = block.start_offset;
      end_offset = block.end_offset;
      block = block;
    }
      ∷ []
    else split_from (length block.content) block max_chars overlap 0

abbrev given_or : Option JsNumber → ℕ → JsNumber
given_or none n = whole n
given_or (some v) n = v

abbrev valid_option : Option ℕ → Outcome ℕ
valid_option none = throw (error invalid_chunking_options)
valid_option (some n) = ok n

unfoldable pub validate_options : ChunkingOptions → Outcome RequiredOptions
validate_options options =
    valid_option (safe_integer_between 100 max_safe_integer (given_or options.max_chars 4000))
    >>= λ chars.
        valid_option (safe_integer_between 0 max_safe_integer (given_or options.overlap_chars 300))
        >>= λ overlap.
            require (ltb (overlap * 2) chars) (error invalid_chunking_options)
            >> valid_option
                (safe_integer_between 1 max_safe_integer (given_or options.max_chunks 2000))
            >>= λ chunks.
                ok (record { max_chars = chars; overlap_chars = overlap; max_chunks = chunks })

abbrev same_page : Option ℕ → Option ℕ → Bool
same_page none none = true
same_page (some a) (some b) = nat_eq a b
same_page _ _ = false

abbrev same_section : Option Text → Option Text → Bool
same_section none none = true
same_section (some a) (some b) = text_eq a b
same_section _ _ = false

abbrev is_heading : ExtractionBlockKind → Bool
is_heading heading = true
is_heading _ = false

unfoldable pub same_structure : ChunkUnit → ChunkUnit → Bool
same_structure left right =
    same_page left.block.page_number right.block.page_number
    && same_section left.block.section_path right.block.section_path
    && not (is_heading right.block.kind)

-- The last unit of a group.
unfoldable pub last_unit : ChunkUnit → List ChunkUnit → ChunkUnit
last_unit u [] = u
last_unit u (v ∷ vs) = last_unit v vs

-- A unit does not join the current group if that has units, and the unit does not fit or has
-- another structure than the last.
unfoldable pub starts_group : ℕ → List ChunkUnit → ℕ → ChunkUnit → Bool
starts_group max_chars [] current_chars u = false
starts_group max_chars (v ∷ vs) current_chars u =
    not (leb (current_chars + 2 + length u.content) max_chars)
    || not (same_structure (last_unit v vs) u)

unfoldable pub joined_chars : List ChunkUnit → ℕ → ChunkUnit → ℕ
joined_chars [] current_chars u = current_chars + length u.content
joined_chars (_ ∷ _) current_chars u = current_chars + 2 + length u.content

unfoldable pub close_group : List ChunkUnit → List (List ChunkUnit)
close_group [] = []
close_group (v ∷ vs) = (v ∷ vs) ∷ []

-- The loop over the units, from a current group and its characters.
unfoldable pub group_from : ℕ → List ChunkUnit → ℕ → List ChunkUnit → List (List ChunkUnit)
unfolding starts_group joined_chars close_group
group_from max_chars current_group current_chars [] = close_group current_group
group_from max_chars current_group current_chars (u ∷ us) =
    let new = starts_group max_chars current_group current_chars u in
    let rest =
      group_from max_chars (if new then u ∷ [] else current_group ++ u ∷ [])
        (if new then length u.content else joined_chars current_group current_chars u) us in
    if new then current_group ∷ rest else rest

-- `texts.join("\n\n")`
unfoldable pub join_texts : List Text → Text
join_texts [] = []
join_texts (t ∷ []) = t
join_texts (t ∷ u ∷ ts) = t ++ 10 ∷ 10 ∷ join_texts (u ∷ ts)

-- A part that is hashed: a text or a number.
pub data DigestPart : Type 0 where
  text_part : Text → DigestPart
  number_part : ℕ → DigestPart

abbrev pub chunker_version : Text
chunker_version = text "structure-char-v1"

-- The arguments of `chunkExtraction`, and what it returns.
pub record ChunkingInput : Type 0 where
  pub source_id : Text
  pub document_id : Text
  pub extraction_id : Text
  pub extraction : DocumentExtractionResult
  pub options : ChunkingOptions

pub record ChunkedDocument : Type 0 where
  pub chunks : List DocumentChunk
  pub anchors : List CitationAnchor

abbrev is_ready : ExtractionStatus → Bool
is_ready ready = true
is_ready ocr_required_unsupported = false

-- Every anchor of another extraction has to be reviewed.
unfoldable pub mark_superseded_anchors : List CitationAnchor → Text → List CitationAnchor
mark_superseded_anchors anchors current_extraction_id =
    map
      (λ (a : CitationAnchor).
        if text_eq a.extraction_id current_extraction_id
        then a
        else record a { status = needs_review })
      anchors

module _ (digest : List DigestPart → Text) (sha256_hex : Text → Text) where
  -- The chunk of a group, which has a first unit.
  unfoldable pub chunk_of : ChunkingInput → ℕ → ChunkUnit → List ChunkUnit → DocumentChunk
  unfolding last_unit join_texts
  chunk_of input ordinal first units =
      let last = last_unit first units in
      let content = join_texts (map (λ (u : ChunkUnit). u.content) (first ∷ units)) in
      let content_hash = sha256_hex content in
      record {
        id =
            text "chunk-"
            ++ digest (
                text_part input.extraction.document_hash
                ∷ text_part input.extraction.extractor_version
                ∷ text_part chunker_version
                ∷ number_part ordinal
                ∷ number_part first.start_offset
                ∷ number_part last.end_offset
                ∷ text_part content_hash
                ∷ []);
        ordinal = ordinal;
        extraction_id = input.extraction_id;
        content = content;
        start_offset = first.start_offset;
        end_offset = last.end_offset;
        start_block_id = first.block.id;
        end_block_id = last.block.id;
        page_number = first.block.page_number;
        section_path = first.block.section_path;
        char_count = length content;
        content_hash = content_hash;
        chunker_version = chunker_version;
      }

  -- The chunks of the groups, numbered from an ordinal; no group is empty.
  unfoldable pub chunks_from : ChunkingInput → ℕ → List (List ChunkUnit) → List DocumentChunk
  chunks_from input ordinal [] = []
  chunks_from input ordinal ([] ∷ groups) = chunks_from input (suc ordinal) groups
  chunks_from input ordinal ((first ∷ units) ∷ groups) =
      chunk_of input ordinal first units ∷ chunks_from input (suc ordinal) groups

  unfoldable pub anchor_of : ChunkingInput → DocumentChunk → CitationAnchor
  anchor_of input chunk = record {
    id =
        text "anchor-"
        ++ digest (
            text_part input.source_id
            ∷ text_part input.document_id
            ∷ text_part input.extraction_id
            ∷ text_part chunk.id
            ∷ number_part chunk.start_offset
            ∷ number_part chunk.end_offset
            ∷ text_part chunk.content_hash
            ∷ []);
    source_id = input.source_id;
    document_id = input.document_id;
    extraction_id = input.extraction_id;
    chunk_id = chunk.id;
    page_number = chunk.page_number;
    section_path = chunk.section_path;
    start_offset = chunk.start_offset;
    end_offset = chunk.end_offset;
    content_hash = chunk.content_hash;
    status = current;
  }

  unfoldable pub chunk_extraction : ChunkingInput → Outcome ChunkedDocument
  unfolding validate_options split_block group_from
  chunk_extraction input =
      require (is_ready input.extraction.status) (error extraction_not_ready)
      >> validate_options input.options
      >>= λ options.
          let units =
            flat_map (λ b. split_block b options.max_chars options.overlap_chars)
              input.extraction.blocks in
          let groups = group_from options.max_chars [] 0 units in
          require (leb (length groups) options.max_chunks) (error too_many_chunks)
          >> let chunks = chunks_from input 0 groups in
            ok (record { chunks = chunks; anchors = map (anchor_of input) chunks })
