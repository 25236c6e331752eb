-- ===== src/Domain/Research/Support.antt =====
-- lib/domain/research.ts: `calculateClaimSupportStatus` and `countOpenResearchGaps`.
use ai_research_workbench.Common.{
  ℕ, ◌≡◌, ◌↔◌, refl, Bool, true, false, ◌&&◌, not, Option, none, some, List, [], ◌∷◌, arith, filter,
  length, any, all, ltb, nat_eq, ◌∙◌, if◌then◌else◌,
}
use ai_research_workbench.Domain.Research.Freshness.{
  SourceFreshnessStatus, current, aging, outdated,
}

pub data EvidenceRelationship : Type 0 where
  supports refutes context : EvidenceRelationship

pub data EvidenceVerificationStatus : Type 0 where
  pending verified rejected : EvidenceVerificationStatus

pub data EvidenceSupportExtent : Type 0 where
  full partial : EvidenceSupportExtent

pub data ClaimSupportStatus : Type 0 where
  supported partially_supported contested unsupported outdated_support : ClaimSupportStatus
  not_verifiable : ClaimSupportStatus

pub record ClaimEvidence : Type 0 where
  pub relationship : EvidenceRelationship
  pub verification_status : EvidenceVerificationStatus
  pub source_freshness : SourceFreshnessStatus
  pub support_extent : Option EvidenceSupportExtent

abbrev pub is_verified : EvidenceVerificationStatus → Bool
is_verified verified = true
is_verified _ = false

abbrev pub is_context : EvidenceRelationship → Bool
is_context context = true
is_context _ = false

abbrev pub is_support : ClaimEvidence → Bool
is_support item = elim item.relationship [ supports ↦ true | _ ↦ false ]

abbrev pub is_refutation : ClaimEvidence → Bool
is_refutation item = elim item.relationship [ refutes ↦ true | _ ↦ false ]

abbrev pub is_outdated : ClaimEvidence → Bool
is_outdated item = elim item.source_freshness [ outdated ↦ true | _ ↦ false ]

-- `(item.supportExtent ?? "FULL") === "FULL"` with a source that is CURRENT or AGING.
abbrev pub is_full : Option EvidenceSupportExtent → Bool
is_full none = true
is_full (some full) = true
is_full (some partial) = false

abbrev pub is_usable : SourceFreshnessStatus → Bool
is_usable current = true
is_usable aging = true
is_usable _ = false

abbrev pub is_full_usable : ClaimEvidence → Bool
is_full_usable item = is_full item.support_extent && is_usable item.source_freshness

abbrev pub counts : ClaimEvidence → Bool
counts item = is_verified item.verification_status && not (is_context item.relationship)

unfoldable pub calculate_claim_support_status : Bool → List ClaimEvidence → ClaimSupportStatus
calculate_claim_support_status verification_possible evidence =
    let usable = filter counts evidence in
    let supporting = filter is_support usable in
    let refuting = filter is_refutation usable in
    if not verification_possible
    then not_verifiable
    else if ltb 0 (length supporting) && ltb 0 (length refuting)
    then contested
    else if nat_eq (length supporting) 0
    then unsupported
    else if all is_outdated supporting
    then outdated_support
    else if any is_full_usable supporting
    then supported
    else partially_supported

pub data ResearchGapStatus : Type 0 where
  no_gap open_gap accepted_gap resolved_gap : ResearchGapStatus

abbrev pub is_open : ResearchGapStatus → Bool
is_open open_gap = true
is_open _ = false

unfoldable pub count_open_research_gaps : List ResearchGapStatus → ℕ
count_open_research_gaps gaps = length (filter is_open gaps)

module _ {ℓ} {A : Type ℓ} where
  length-filter-any : (p : A → Bool) (xs : List A) → ltb 0 (length (filter p xs)) ≡ any p xs
  length-filter-any p [] = refl
  length-filter-any p (x ∷ xs) = ground (arith, length-filter-any p xs)

  any-filter : (p q : A → Bool) (xs : List A) → any p (filter q xs) ≡ any (λ x. q x && p x) xs
  any-filter p q [] = refl
  any-filter p q (x ∷ xs) = ground (arith, any-filter p q xs)

  all-not-any : (p : A → Bool) (xs : List A) → all p xs ≡ not (any (λ x. not (p x)) xs)
  all-not-any p [] = refl
  all-not-any p (x ∷ xs) = ground (arith, all-not-any p xs)

-- Verified evidence that supports, and that refutes.
abbrev pub supporting : ClaimEvidence → Bool
supporting item = counts item && is_support item

abbrev pub refuting : ClaimEvidence → Bool
refuting item = counts item && is_refutation item

decided : Bool → Bool → Bool → Bool → Bool → ClaimSupportStatus
decided possible support refutation fresh usable =
    if not possible
    then not_verifiable
    else if support && refutation
    then contested
    else if not support
    then unsupported
    else if not fresh
    then outdated_support
    else if usable
    then supported
    else partially_supported

-- Verified evidence that supports from a source that is not outdated, and that supports fully from
-- a source that is current or aging.
abbrev pub fresh_support : ClaimEvidence → Bool
fresh_support item = counts item && (is_support item && not (is_outdated item))

abbrev pub usable_support : ClaimEvidence → Bool
usable_support item = counts item && (is_support item && is_full_usable item)

-- What the code computes, from four questions about the evidence.
calculate_claim_support_status-decided :
    (possible : Bool) (evidence : List ClaimEvidence)
    → calculate_claim_support_status possible evidence
      ≡ decided possible
          (any supporting evidence)
          (any refuting evidence)
          (any fresh_support evidence)
          (any usable_support evidence)
unfolding calculate_claim_support_status decided
calculate_claim_support_status-decided possible evidence =
    let usable = filter counts evidence in
    let s = length-filter-any is_support usable ∙ any-filter is_support counts evidence in
    let r = length-filter-any is_refutation usable ∙ any-filter is_refutation counts evidence in
    let o = all-not-any is_outdated (filter is_support usable) in
    let o' =
      any-filter (λ x. not (is_outdated x)) is_support usable
      ∙ any-filter (λ x. is_support x && not (is_outdated x)) counts evidence in
    let f =
      any-filter is_full_usable is_support usable
      ∙ any-filter (λ x. is_support x && is_full_usable x) counts evidence in
    ground arith

any-implies :
    (p q : ClaimEvidence → Bool) (xs : List ClaimEvidence)
    → ((x : ClaimEvidence) → p x ≡ true → q x ≡ true)
    → any p xs ≡ true
    → any q xs ≡ true
any-implies p q [] h e = e
any-implies p q (x ∷ xs) h e = ground (arith, h x, any-implies p q xs h)

fresh_is_support :
    (evidence : List ClaimEvidence)
    → any fresh_support evidence ≡ true
    → any supporting evidence ≡ true
fresh_is_support evidence = any-implies fresh_support supporting evidence (λ x e. ground arith)

usable_is_fresh :
    (evidence : List ClaimEvidence)
    → any usable_support evidence ≡ true
    → any fresh_support evidence ≡ true
usable_is_fresh evidence = any-implies usable_support fresh_support evidence (λ x e. ground arith)

-- Each status is characterised by which verified evidence there is.
abbrev pub ClaimCases : List ClaimEvidence → Type 0
ClaimCases evidence =
    (calculate_claim_support_status false evidence ≡ not_verifiable)
    × ((calculate_claim_support_status true evidence ≡ contested)
        ↔ ((any supporting evidence ≡ true) × (any refuting evidence ≡ true)))
    × ((calculate_claim_support_status true evidence ≡ unsupported)
        ↔ (any supporting evidence ≡ false))
    × ((calculate_claim_support_status true evidence ≡ outdated_support) ↔ (
        (any supporting evidence ≡ true)
        × (any fresh_support evidence ≡ false)
        × (any refuting evidence ≡ false)))
    × ((calculate_claim_support_status true evidence ≡ supported)
        ↔ ((any usable_support evidence ≡ true) × (any refuting evidence ≡ false)))
    × ((calculate_claim_support_status true evidence ≡ partially_supported) ↔ (
        (any fresh_support evidence ≡ true)
        × (any usable_support evidence ≡ false)
        × (any refuting evidence ≡ false)))

-- Only verified evidence counts. Where verification is possible, a claim is CONTESTED exactly if
-- some evidence supports it and some refutes it, UNSUPPORTED exactly if none supports it, OUTDATED
-- exactly if some supports it, all from outdated sources, and none refutes it, SUPPORTED exactly if
-- some supports it in full from a source that is current or aging and none refutes it, and
-- PARTIALLY_SUPPORTED in the cases that are left; where it is not, the claim is NOT_VERIFIABLE.
pub calculate_claim_support_status_cases : (evidence : List ClaimEvidence) → ClaimCases evidence
unfolding decided
calculate_claim_support_status_cases evidence =
    let code = calculate_claim_support_status-decided in
    let fresh = fresh_is_support evidence in
    let usable = usable_is_fresh evidence in
    rw (code false evidence, code true evidence)
      (
        ground arith,
        (λ e. ground arith, λ e. ground arith),
        (λ e. ground arith, λ e. ground arith),
        (λ e. ground arith, λ e. ground arith),
        (λ e. ground arith, λ e. ground arith),
        (λ e. ground arith, λ e. ground arith),
      )
