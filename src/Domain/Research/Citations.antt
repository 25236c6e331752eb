-- ===== src/Domain/Research/Citations.antt =====
-- lib/domain/research.ts: `findCitationIdIssues` and `validateCitationIds`.
use ai_research_workbench.Common.{
  ℕ, ℕ_eq, Bool-cases, inl, inr, length-append, ap, subst, ◌+◌, ◌≡◌, ◌↔◌, refl, sym, Bool, true,
  false, ◌&&◌, ◌||◌, not, Option, none, some, List, [], ◌∷◌, ◌++◌, map, subst, arith, length, all,
  includes, leb, ltb, if◌then◌else◌, Text, Text_eq,
}
use ai_research_workbench.Common.Outcome.{Outcome, ok, throw, error, invalid_citation_ids}

pub data CitationIdIssueCode : Type 0 where
  malformed duplicate unknown : CitationIdIssueCode

pub record CitationIdIssue : Type 0 where
  pub code : CitationIdIssueCode
  pub index : ℕ
  pub citation_id : Option Text

is_alphanumeric : ℕ → Bool
is_alphanumeric c = leb 48 c && leb c 57 || leb 65 c && leb c 90 || leb 97 c && leb c 122

-- [A-Za-z0-9._:-]
is_citation_unit : ℕ → Bool
unfolding is_alphanumeric
is_citation_unit c = is_alphanumeric c || includes (46 ∷ 95 ∷ 58 ∷ 45 ∷ []) c

-- /^[A-Za-z0-9][A-Za-z0-9._:-]{0,127}$/
unfoldable pub is_citation_id : Text → Bool
unfolding is_alphanumeric is_citation_unit
is_citation_id [] = false
is_citation_id (c ∷ rest) = is_alphanumeric c && leb (length rest) 127 && all is_citation_unit rest

abbrev pub issue : CitationIdIssueCode → ℕ → Option Text → CitationIdIssue
issue code index citation_id = record { code = code; index = index; citation_id = citation_id }

-- The issues of a well-formed identifier: it was seen before, or it is not known.
unfoldable pub issues_of : Bool → Bool → ℕ → Text → List CitationIdIssue
issues_of seen known index id =
    (if seen then issue duplicate index (some id) ∷ [] else [])
    ++ (if known then [] else issue unknown index (some id) ∷ [])

-- The loop; a value that is no string is `none`.
unfoldable pub find_issues_from :
    List Text → List Text → ℕ → List (Option Text) → List CitationIdIssue
unfolding issues_of
find_issues_from known seen index [] = []
find_issues_from known seen index (none ∷ rest) =
    issue malformed index none ∷ find_issues_from known seen (index + 1) rest
find_issues_from known seen index (some id ∷ rest) =
    let skipped = find_issues_from known seen (index + 1) rest in
    let added = find_issues_from known (id ∷ seen) (index + 1) rest in
    if not (is_citation_id id)
    then issue malformed index (some id) ∷ skipped
    else issues_of (includes seen id) (includes known id) index id ++ added

unfoldable pub find_citation_id_issues : List (Option Text) → List Text → List CitationIdIssue
find_citation_id_issues citation_ids known = find_issues_from known [] 0 citation_ids

pub strings : List (Option Text) → List Text
strings [] = []
strings (none ∷ rest) = strings rest
strings (some id ∷ rest) = id ∷ strings rest

-- The values are the ones passed in, which are all strings if there is no issue.
unfoldable pub validate_citation_ids : List (Option Text) → List Text → Outcome (List Text)
unfolding strings
validate_citation_ids citation_ids known =
    if ltb 0 (length (find_citation_id_issues citation_ids known))
    then throw (error invalid_citation_ids)
    else ok (strings citation_ids)

-- No identifier of the first list is seen, and none of them stands twice in it.
abbrev pub fresh : List Text → List Text → Bool
fresh seen [] = true
fresh seen (id ∷ rest) = not (includes seen id) && fresh (id ∷ seen) rest

issues_of-length :
    (seen known : Bool) (index : ℕ) (id : Text)
    → length (issues_of seen known index id) ≡ 0
    → (seen ≡ false) × (known ≡ true)
unfolding issues_of
issues_of-length true known index id h = absurd (omega arith)
issues_of-length false true index id h = (refl, refl)
issues_of-length false false index id h = absurd (omega arith)

-- All are well formed and known, and each is distinct from those before it.
abbrev pub Accepted : List Text → List Text → List Text → Type 0
Accepted known seen ids =
    (all is_citation_id ids ≡ true) × (all (includes known) ids ≡ true) × (fresh seen ids ≡ true)

pub no_issues_sound :
    (known seen : List Text) (index : ℕ) (ids : List (Option Text))
    → length (find_issues_from known seen index ids) ≡ 0
    → (map some (strings ids) ≡ ids) × Accepted known seen (strings ids)
unfolding find_issues_from strings
no_issues_sound known seen index [] h = (refl, (refl, refl, refl))
no_issues_sound known seen index (none ∷ rest) h = absurd (omega arith)
no_issues_sound known seen index (some id ∷ rest) h = elim (Bool-cases (is_citation_id id)) [
  | inl q ↦
      let own = issues_of (includes seen id) (includes known id) index id in
      let added = find_issues_from known (id ∷ seen) (index + 1) rest in
      let total : length (own ++ added) ≡ 0 = ground arith in
      let both = length-append own added in
      let (s, k) = issues_of-length (includes seen id) (includes known id) index id (omega arith) in
      let (same, (form, there, once)) =
        no_issues_sound known (id ∷ seen) (index + 1) rest (omega arith) in
      (ap (λ l. some id ∷ l) same, (ground arith, ground arith, ground arith))
  | inr q ↦ absurd (ground arith)
]

pub no_issues_complete :
    (known seen : List Text) (index : ℕ) (ids : List Text)
    → Accepted known seen ids
    → find_issues_from known seen index (map some ids) ≡ []
unfolding find_issues_from issues_of
no_issues_complete known seen index [] h = refl
no_issues_complete known seen index (id ∷ ids) (form, there, once) =
    let rest =
      no_issues_complete known (id ∷ seen) (index + 1) ids
        (ground arith, ground arith, ground arith) in
    ground arith

strings-some : (ids : List Text) → strings (map some ids) ≡ ids
unfolding strings
strings-some [] = refl
strings-some (id ∷ ids) = ap (λ l. id ∷ l) (strings-some ids)

-- The values are accepted exactly if all of them are strings that are well-formed identifiers,
-- each of them is known and none stands twice; what is returned is then the values passed in.
pub validate_citation_ids_iff :
    (citation_ids : List (Option Text)) (known ids : List Text)
    → (validate_citation_ids citation_ids known ≡ ok ids)
      ↔ ((citation_ids ≡ map some ids) × Accepted known [] ids)
unfolding validate_citation_ids find_citation_id_issues
validate_citation_ids_iff citation_ids known ids = (
  λ h.
      let none_found : length (find_issues_from known [] 0 citation_ids) ≡ 0 = ground arith in
      let same : strings citation_ids ≡ ids = ground arith in
      subst (λ l. (citation_ids ≡ map some l) × Accepted known [] l) same
        (let (e, accepted) = no_issues_sound known [] 0 citation_ids none_found in
          (sym e, accepted)),
  λ (e, accepted).
      let clean = no_issues_complete known [] 0 ids accepted in
      subst (λ l. validate_citation_ids l known ≡ ok ids) (sym e)
        (rw (clean, strings-some ids) refl),
)
