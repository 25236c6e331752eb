-- ===== src/Domain/Qa/Sources.antt =====
-- lib/domain/qa.ts: the rules on the sources of a project.
pub mod Quiet
use ai_research_workbench.Common.{
  ℕ, ◌+◌, ◌*◌, Bool, true, false, not, ◌&&◌, ◌||◌, Option, none, some, List, [], ◌∷◌, ◌++◌, map,
  flat_map, last_match, filter, find, length, includes, any, nat_eq, leb, ltb, is_some,
  if◌then◌else◌, Text, Text_eq, text_eq, trim,
}
use ai_research_workbench.Common.Outcome.{Outcome, ok, throw, ◌>>=◌}
use ai_research_workbench.Domain.Research.Freshness.{
  SourceFreshnessStatus, outdated, assess_source_freshness,
}
use ai_research_workbench.Domain.Research.Citations.{is_citation_id}
use ai_research_workbench.Domain.Qa.Context.{QaSource, QaContext}
use ai_research_workbench.Domain.Qa.Findings.{
  QaFinding, qa_finding, plain, at_source, at_sources, outdated_source, duplicate_source,
  source_concentration, unreferenced_source,
}

-- `sourceById.get(id)`: of entries with one key a map keeps the last.
unfoldable pub source_by_id : List QaSource → Text → Option QaSource
source_by_id sources id = last_match (λ s. text_eq s.id id) sources

unfoldable pub source_freshness : QaContext → QaSource → Outcome SourceFreshnessStatus
source_freshness context source =
    assess_source_freshness source.published_at context.research_date context.source_max_age_days

-- The distinct values of a list in the order of their first occurrence, as a set keeps them.
unfoldable pub distinct_from : List Text → List Text → List Text
distinct_from seen [] = []
distinct_from seen (x ∷ xs) =
    let skipped = distinct_from seen xs in
    let kept = distinct_from (x ∷ seen) xs in if includes seen x then skipped else x ∷ kept

known_ids : List QaSource → List (Option Text) → List Text
unfolding source_by_id
known_ids sources [] = []
known_ids sources (none ∷ rest) = known_ids sources rest
known_ids sources (some id ∷ rest) =
    let others = known_ids sources rest in
    if is_citation_id id && is_some (source_by_id sources id) then id ∷ others else others

unfoldable pub cited_source_ids : QaContext → List Text
unfolding distinct_from known_ids
cited_source_ids context = distinct_from [] (known_ids context.sources context.report.citation_ids)

unfoldable pub is_outdated : SourceFreshnessStatus → Bool
is_outdated outdated = true
is_outdated _ = false

unfoldable pub outdated_finding : QaSource → SourceFreshnessStatus → List QaFinding
unfolding is_outdated
outdated_finding source status =
    if is_outdated status
    then qa_finding outdated_source (plain source.id) (at_source source.id) ∷ []
    else []

-- The loop over the cited sources, which are known.
unfoldable pub outdated_findings_of : QaContext → List Text → Outcome (List QaFinding)
unfolding outdated_finding source_freshness source_by_id
outdated_findings_of context [] = ok []
outdated_findings_of context (id ∷ ids) =
    let rest = outdated_findings_of context ids in
    elim (source_by_id context.sources id) [
      | none ↦ rest
      | some source ↦ source_freshness context source >>= λ status.
          rest >>= λ others. ok (outdated_finding source status ++ others)
    ]

unfoldable pub outdated_findings : QaContext → Outcome (List QaFinding)
unfolding outdated_findings_of cited_source_ids
outdated_findings context = outdated_findings_of context (cited_source_ids context)

-- A text that is neither missing nor empty.
is_given : Option Text → Bool
is_given none = false
is_given (some t) = not (nat_eq (length t) 0)

unfoldable pub duplicate_finding : QaSource → QaFinding
duplicate_finding source = qa_finding duplicate_source (plain source.id) (at_source source.id)

unfoldable pub marked_duplicates : List QaSource → List QaSource
unfolding is_given
marked_duplicates sources = filter (λ s. is_given s.duplicate_of_source_id) sources

-- `source.contentHash?.trim()`
unfoldable pub trimmed_hash : Option Text → Text
unfolding trim
trimmed_hash none = []
trimmed_hash (some t) = trim t

-- The loop over the sources by content hash: the hashes seen, and the sources marked so far.
unfoldable pub same_hash_findings : List Text → List Text → List QaSource → List QaFinding
unfolding trimmed_hash duplicate_finding
same_hash_findings seen marked [] = []
same_hash_findings seen marked (source ∷ rest) =
    let hash = trimmed_hash source.content_hash in
    let unchanged = same_hash_findings seen marked rest in
    let first = same_hash_findings (hash ∷ seen) marked rest in
    let again = same_hash_findings seen (source.id ∷ marked) rest in
    if nat_eq (length hash) 0
    then unchanged
    else if not (includes seen hash)
    then first
    else if includes marked source.id
    then unchanged
    else duplicate_finding source ∷ again

unfoldable pub duplicate_findings : QaContext → List QaFinding
unfolding marked_duplicates same_hash_findings duplicate_finding
duplicate_findings context =
    let marked = marked_duplicates context.sources in
    map duplicate_finding marked ++ same_hash_findings [] (map (λ s. s.id) marked) context.sources

-- The trimmed publisher of a cited source, where it has one.
publisher_of : Option QaSource → List Text
unfolding trim
publisher_of none = []
publisher_of (some source) = elim source.publisher [
  | none ↦ []
  | some p ↦ (if nat_eq (length (trim p)) 0 then [] else trim p ∷ [])
]

unfoldable pub cited_publishers : QaContext → List Text
unfolding cited_source_ids publisher_of source_by_id
cited_publishers context =
    flat_map (λ id. publisher_of (source_by_id context.sources id)) (cited_source_ids context)

unfoldable pub count_of : List Text → Text → ℕ
count_of publishers p = length (filter (λ q. text_eq q p) publishers)

-- With at least three cited publishers, one with more than half of them.
unfoldable pub concentration_findings : QaContext → List QaFinding
unfolding cited_publishers count_of distinct_from
concentration_findings context =
    let publishers = cited_publishers context in
    let dominant = λ (p : Text). ltb (length publishers) (2 * count_of publishers p) in
    if leb 3 (length publishers)
    then map (λ p. qa_finding source_concentration (plain p) at_sources)
        (filter dominant (distinct_from [] publishers))
    else []

unfoldable pub unreferenced_findings : QaContext → List QaFinding
unfolding cited_source_ids
unreferenced_findings context =
    map (λ s. qa_finding unreferenced_source (plain s.id) (at_source s.id))
      (filter (λ s. not (includes (cited_source_ids context) s.id)) context.sources)
