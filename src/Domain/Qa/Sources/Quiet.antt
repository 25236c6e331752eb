-- ===== src/Domain/Qa/Sources/Quiet.antt =====
-- The source rules report nothing that blocks.
use ai_research_workbench.Common.{
  ◌≡◌, refl, Bool, false, not, List, [], ◌∷◌, map, any, filter, length, includes, Text, Text_eq,
  arith, any-append, any-map-false, Option-cases, inl, inr, ltb, ◌*◌,
}
use ai_research_workbench.Common.Outcome.{ok, >>=-ok}
use ai_research_workbench.Domain.Qa.Context.{QaSource, QaContext}
use ai_research_workbench.Domain.Qa.Findings.{
  QaFinding, qa_finding, is_blocking_qa_finding, plain, at_source, at_sources, unreferenced_source,
  source_concentration,
}
use ai_research_workbench.Domain.Research.Freshness.{SourceFreshnessStatus}
use ai_research_workbench.Domain.Qa.Sources.{
  source_by_id, source_freshness, outdated_finding, outdated_findings_of, outdated_findings,
  cited_source_ids, duplicate_finding, trimmed_hash, marked_duplicates, same_hash_findings,
  duplicate_findings, distinct_from, count_of, cited_publishers, concentration_findings,
  unreferenced_findings,
}

abbrev blocks : List QaFinding → Bool
blocks = any is_blocking_qa_finding

pub unreferenced_findings_quiet :
    (context : QaContext) → blocks (unreferenced_findings context) ≡ false
unfolding unreferenced_findings is_blocking_qa_finding qa_finding
unreferenced_findings_quiet context =
    any-map-false is_blocking_qa_finding
      (λ (s : QaSource). qa_finding unreferenced_source (plain s.id) (at_source s.id))
      (filter (λ (s : QaSource). not (includes (cited_source_ids context) s.id)) context.sources)
      (λ x. refl)

pub concentration_findings_quiet :
    (context : QaContext) → blocks (concentration_findings context) ≡ false
unfolding concentration_findings is_blocking_qa_finding qa_finding
concentration_findings_quiet context =
    let dominant : Text → Bool =
      λ p. ltb (length (cited_publishers context)) (2 * count_of (cited_publishers context) p) in
    let none_blocks =
      any-map-false is_blocking_qa_finding
        (λ (p : Text). qa_finding source_concentration (plain p) at_sources)
        (filter dominant (distinct_from [] (cited_publishers context))) (λ x. refl) in
    ground arith

same_hash_findings_quiet :
    (seen marked : List Text) (sources : List QaSource)
    → blocks (same_hash_findings seen marked sources) ≡ false
unfolding same_hash_findings is_blocking_qa_finding qa_finding duplicate_finding
same_hash_findings_quiet seen marked [] = refl
same_hash_findings_quiet seen marked (s ∷ rest) = ground (
  arith,
  same_hash_findings_quiet seen marked rest,
  same_hash_findings_quiet (trimmed_hash s.content_hash ∷ seen) marked rest,
  same_hash_findings_quiet seen (s.id ∷ marked) rest,
)

pub duplicate_findings_quiet : (context : QaContext) → blocks (duplicate_findings context) ≡ false
unfolding duplicate_findings is_blocking_qa_finding qa_finding duplicate_finding
duplicate_findings_quiet context =
    let marked = marked_duplicates context.sources in
    ground (
      arith,
      any-append is_blocking_qa_finding (map duplicate_finding marked)
          (same_hash_findings [] (map (λ (s : QaSource). s.id) marked) context.sources),
      any-map-false is_blocking_qa_finding duplicate_finding marked (λ x. refl),
      same_hash_findings_quiet [] (map (λ (s : QaSource). s.id) marked) context.sources,
    )

outdated_finding_quiet :
    (s : QaSource) (f : SourceFreshnessStatus) → blocks (outdated_finding s f) ≡ false
unfolding outdated_finding is_blocking_qa_finding qa_finding
outdated_finding_quiet s f = ground arith

outdated_findings_of_quiet :
    (context : QaContext) (ids : List Text) {findings : List QaFinding}
    → outdated_findings_of context ids ≡ ok findings
    → blocks findings ≡ false
unfolding outdated_findings_of
outdated_findings_of_quiet context [] h = ground arith
outdated_findings_of_quiet context (id ∷ ids) {findings} h =
    elim (Option-cases (source_by_id context.sources id)) [
      | inl e ↦
          outdated_findings_of_quiet context ids {findings = findings}
            (rw (e, outdated_findings_of) at h)
      | inr (source, e) ↦
          let h' = rw (e, outdated_findings_of) at h in
          let (status, e1, h1) = >>=-ok (source_freshness context source) _ h' in
          let (others, e2, h2) = >>=-ok (outdated_findings_of context ids) _ h1 in
          let rest = outdated_findings_of_quiet context ids e2 in
          let first = outdated_finding_quiet source status in
          let both = any-append is_blocking_qa_finding (outdated_finding source status) others in
          ground arith
    ]

pub outdated_findings_quiet :
    (context : QaContext) {findings : List QaFinding}
    → outdated_findings context ≡ ok findings
    → blocks findings ≡ false
unfolding outdated_findings
outdated_findings_quiet context h = outdated_findings_of_quiet context (cited_source_ids context) h
