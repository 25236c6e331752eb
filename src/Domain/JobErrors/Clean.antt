-- ===== src/Domain/JobErrors/Clean.antt =====
-- What a stored error message can hold.
use ai_research_workbench.Common.{
  ℕ, ◌≤◌, ◌≡◌, ◌≢◌, refl, inl, inr, Bool, true, false, if◌then◌else◌, [], ◌∷◌, arith, length, take,
  length-take, All, All-take, All-trim, Bool-cases, Text, text, trim,
}
use ai_research_workbench.Domain.JobErrors.{
  redact_bearer, redact_secrets, is_control, blank_controls, error_limit, or_unspecified,
  sanitize_job_error,
}

abbrev pub Printable : ℕ → Type 0
Printable c = is_control c ≡ false

-- The single space of a run, unless the run has begun.
run_Printable :
    (s : Text) (in_run : Bool) → All Printable s → All Printable (if in_run then s else 32 ∷ s)
unfolding is_control
run_Printable s true h = h
run_Printable s false h = (refl, h)

blank_controls-Printable : (in_run : Bool) (s : Text) → All Printable (blank_controls in_run s)
unfolding blank_controls is_control
blank_controls-Printable in_run [] = tt
blank_controls-Printable in_run (c ∷ s) = elim (Bool-cases (is_control c)) [
  | inl e ↦ rw e (run_Printable _ in_run (blank_controls-Printable true s))
  | inr e ↦ rw e (e, blank_controls-Printable false s)
]

or_unspecified-bounds :
    (s : Text)
    → All Printable s
    → length s ≤ error_limit
    → All Printable (or_unspecified s)
      × (length (or_unspecified s) ≤ error_limit)
      × (or_unspecified s ≢ [])
unfolding or_unspecified text is_control
or_unspecified-bounds [] h k = (ground arith, omega arith, λ e. cc)
or_unspecified-bounds (c ∷ s) h k = (h, k, λ e. cc)

-- Whatever the error, the stored message is not empty, is at most 2,000 units long and holds no
-- control character.
pub sanitize_job_error_clean :
    (message : Text)
    → All Printable (sanitize_job_error message)
      × (length (sanitize_job_error message) ≤ error_limit)
      × (sanitize_job_error message ≢ [])
unfolding sanitize_job_error
sanitize_job_error_clean message =
    let safe = blank_controls false (redact_secrets (redact_bearer message)) in
    or_unspecified-bounds (take error_limit (trim safe))
      (All-take Printable error_limit (trim safe) (
        All-trim Printable safe
          (blank_controls-Printable false (redact_secrets (redact_bearer message)))))
      (omega (arith, length-take {0} error_limit (trim safe)))
