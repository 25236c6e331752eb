-- ===== src/JobQueue/Config.antt =====
-- lib/services/jobs.ts: the validation of the inputs of the queue.
use ai_research_workbench.Common.{
  ℕ, suc, ◌*◌, not, ◌||◌, Option, none, some, List, [], ◌∷◌, leb, ltb, nat_eq, length,
  has_duplicates, if◌then◌else◌, Text, Text_eq, trim, utf8_length,
}
use ai_research_workbench.Common.Int.{ℤ, pos, negsuc}
use ai_research_workbench.Common.Number.{JsNumber, millionths, negative, safe_integer_between}
use ai_research_workbench.Common.Outcome.{
  Outcome, ok, throw, Thrown, app_error, require, ◌>>=◌, ◌>>◌, invalid_job_configuration,
  invalid_job_input, invalid_job_output, job_input_too_large, job_output_too_large,
}

abbrev pub configuration_error : Thrown
configuration_error = app_error 400 invalid_job_configuration

or_configuration_error {ℓ} : {A : Type ℓ} → Option A → Outcome A
or_configuration_error none = throw configuration_error
or_configuration_error (some a) = ok a

unfoldable pub bounded_integer : JsNumber → ℕ → ℕ → Outcome ℕ
unfolding or_configuration_error safe_integer_between
bounded_integer value minimum maximum =
    or_configuration_error (safe_integer_between minimum maximum value)

-- `boundedInteger` with a negative minimum, -minimum.
signed_between : ℕ → ℕ → JsNumber → Option ℤ
unfolding safe_integer_between
signed_between minimum maximum (millionths n) =
    elim (safe_integer_between 0 maximum (millionths n)) [ none ↦ none | some k ↦ some (pos k) ]
signed_between minimum maximum (negative n) =
    elim (safe_integer_between 1 minimum (millionths (suc n))) [
      | some (suc k) ↦ some (negsuc k)
      | _ ↦ none
    ]
signed_between minimum maximum _ = none

unfoldable pub bounded_signed : JsNumber → ℕ → ℕ → Outcome ℤ
unfolding or_configuration_error signed_between
bounded_signed value minimum maximum = or_configuration_error (signed_between minimum maximum value)

unfoldable pub bounded_text : Text → ℕ → Outcome Text
unfolding trim
bounded_text value maximum =
    let normalized = trim value in
    if nat_eq (length normalized) 0 || ltb maximum (length normalized)
    then throw configuration_error
    else ok normalized

-- `values.map((value) => boundedText(value, …, maximum))`
unfoldable pub bounded_texts : List Text → ℕ → Outcome (List Text)
unfolding bounded_text
bounded_texts [] maximum = ok []
bounded_texts (value ∷ values) maximum =
    let rest = bounded_texts values maximum in
    (do first ← bounded_text value maximum; others ← rest; ok (first ∷ others))

-- A list whose entries are bounded and distinct.
distinct_texts : List Text → ℕ → Outcome (List Text)
unfolding bounded_texts has_duplicates
distinct_texts values maximum = do
  texts ← bounded_texts values maximum
  require (not (has_duplicates texts)) configuration_error
  ok texts

unfoldable pub bounded_run_ids : Option (List Text) → Outcome (Option (List Text))
unfolding distinct_texts
bounded_run_ids none = ok none
bounded_run_ids (some values) = do
  require (leb (length values) 1000) configuration_error
  run_ids ← distinct_texts values 500
  ok (some run_ids)

-- The validation of `jobTypes` in `claimJobs`.
unfoldable pub bounded_job_types : Option (List Text) → Outcome (Option (List Text))
unfolding distinct_texts
bounded_job_types none = ok none
bounded_job_types (some values) = do job_types ← distinct_texts values 200; ok (some job_types)

pub data ReferenceKind : Type 0 where
  input output : ReferenceKind

-- JOB_INPUT_MAX_BYTES and JOB_OUTPUT_MAX_BYTES
abbrev pub reference_max_bytes : ℕ
reference_max_bytes = 4 * 1024 * 1024

invalid_reference : ReferenceKind → Thrown
invalid_reference input = app_error 400 invalid_job_input
invalid_reference output = app_error 400 invalid_job_output

too_large : ReferenceKind → Thrown
too_large input = app_error 413 job_input_too_large
too_large output = app_error 413 job_output_too_large

-- `value` is what `JSON.stringify` returned, `none` where it threw or returned `undefined`.
unfoldable pub serialize_job_reference : Option Text → ReferenceKind → Outcome Text
unfolding invalid_reference too_large utf8_length
serialize_job_reference none kind = throw (invalid_reference kind)
serialize_job_reference (some serialized) kind =
    if ltb reference_max_bytes (utf8_length serialized)
    then throw (too_large kind)
    else ok serialized
