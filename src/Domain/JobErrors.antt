-- ===== src/Domain/JobErrors.antt =====
-- lib/domain/jobs.ts: `sanitizeJobError`. Each regular expression is a scan that measures the match
-- at a position and skips it; the `i` flag folds ASCII letters, which are the only ones concerned.
pub mod Clean
use ai_research_workbench.Common.{
  ℕ, zero, suc, ◌+◌, Bool, true, false, not, ◌&&◌, ◌||◌, List, [], ◌∷◌, ◌++◌, Option, none, some,
  leb, nat_eq, if◌then◌else◌, take, drop, includes, ℕ_eq, Text, text, trim, is_space,
}

-- ASCII case folding, and the classes \w and [A-Za-z0-9._~+\/-].
to_lower : ℕ → ℕ
to_lower c = if leb 65 c && leb c 90 then c + 32 else c

is_alnum : ℕ → Bool
is_alnum c = leb 48 c && leb c 57 || leb 65 c && leb c 90 || leb 97 c && leb c 122

is_word : ℕ → Bool
unfolding is_alnum
is_word c = is_alnum c || nat_eq c 95

is_token : ℕ → Bool
unfolding is_alnum
is_token c = is_alnum c || includes (text "._~+/-") c

-- The length of the run of units at the front that pass a test.
run_length : (ℕ → Bool) → Text → ℕ
run_length p [] = 0
run_length p (c ∷ s) = let rest = run_length p s in if p c then suc rest else 0

-- What follows a word at the front, case aside.
after_word : Text → Text → Option Text
unfolding to_lower
after_word [] s = some s
after_word (_ ∷ _) [] = none
after_word (w ∷ ws) (c ∷ s) =
    let rest = after_word ws s in if nat_eq w (to_lower c) then rest else none

-- A match of no length is no match.
tail_match : ℕ → ℕ → ℕ
tail_match before zero = 0
tail_match before (suc n) = before + suc n

-- The length of the match of /Bearer\s+[A-Za-z0-9._~+\/-]+/i at the front, 0 if there is none.
bearer_after : Option Text → ℕ
unfolding run_length is_token tail_match
bearer_after none = 0
bearer_after (some s) = elim (run_length is_space s) [
  | zero ↦ 0
  | suc n ↦ tail_match (6 + suc n) (run_length is_token (drop (suc n) s))
]

bearer_match : Text → ℕ
unfolding after_word bearer_after
bearer_match s = bearer_after (after_word (text "bearer") s)

-- The length of the word of /api[_-]?key|password|secret|token/i at the front, 0 if there is none.
found_word : Text → ℕ → Text → ℕ → ℕ
unfolding after_word
found_word word size s other = elim (after_word word s) [ none ↦ other | some _ ↦ size ]

key_match : Text → ℕ
unfolding found_word
key_match s = found_word (text "apikey") 6 s (
    found_word (text "api_key") 7 s (
      found_word (text "api-key") 7 s (
        found_word (text "password") 8 s
          (found_word (text "secret") 6 s (found_word (text "token") 5 s 0)))))

is_separator : ℕ → Bool
is_separator c = nat_eq c 58 || nat_eq c 61

-- The length of \s*[:=]\s*\S+ at the front, 0 if there is none.
value_match : Text → ℕ
unfolding run_length tail_match is_separator
value_match s =
    let spaces = run_length is_space s in
    elim (drop spaces s) [
      | [] ↦ 0
      | c ∷ rest ↦
          let more = run_length is_space rest in
          if is_separator c
          then tail_match (spaces + 1 + more) (run_length (λ d. not (is_space d)) (drop more rest))
          else 0
    ]

-- The lengths of the word and of the whole match of the second expression at the front, after a
-- unit `prev` (\b asks that it is no word unit).
secret_match : ℕ → Text → ℕ × ℕ
unfolding is_word key_match value_match
secret_match prev s = elim (key_match s) [
  | zero ↦ (0, 0)
  | suc k ↦
      if is_word prev
      then (0, 0)
      else elim (value_match (drop (suc k) s)) [ zero ↦ (0, 0) | suc v ↦ (suc k, suc k + suc v) ]
]

-- `.replace(/Bearer…/gi, "Bearer [REDACTED]")`: `skip` units are left of the last match.
redact_bearer_from : ℕ → Text → Text
unfolding bearer_match
redact_bearer_from skip [] = []
redact_bearer_from (suc skip) (c ∷ s) = redact_bearer_from skip s
redact_bearer_from zero (c ∷ s) = elim (bearer_match (c ∷ s)) [
  | zero ↦ c ∷ redact_bearer_from 0 s
  | suc n ↦ text "Bearer [REDACTED]" ++ redact_bearer_from n s
]

unfoldable pub redact_bearer : Text → Text
unfolding redact_bearer_from
redact_bearer s = redact_bearer_from 0 s

-- `.replace(/\b(…)\s*[:=]\s*\S+/gi, "$1=[REDACTED]")`; the start of the text counts as no word unit.
redact_secrets_from : ℕ → ℕ → Text → Text
unfolding secret_match
redact_secrets_from prev skip [] = []
redact_secrets_from prev (suc skip) (c ∷ s) = redact_secrets_from c skip s
redact_secrets_from prev zero (c ∷ s) =
    let (word, size) = secret_match prev (c ∷ s) in
    elim size [
      | zero ↦ c ∷ redact_secrets_from c 0 s
      | suc n ↦ take word (c ∷ s) ++ text "=[REDACTED]" ++ redact_secrets_from c n s
    ]

unfoldable pub redact_secrets : Text → Text
unfolding redact_secrets_from
redact_secrets s = redact_secrets_from 32 0 s

unfoldable pub is_control : ℕ → Bool
is_control c = leb c 31 || nat_eq c 127

-- `.replace(/[\u0000-\u001f\u007f]+/g, " ")`: one space for a run.
unfoldable pub blank_controls : Bool → Text → Text
blank_controls in_run [] = []
blank_controls in_run (c ∷ s) =
    let rest = blank_controls (is_control c) s in
    if is_control c then (if in_run then rest else 32 ∷ rest) else c ∷ rest

abbrev pub error_limit : ℕ
error_limit = 2000

-- `… || "Unspecified job error"`
unfoldable pub or_unspecified : Text → Text
or_unspecified [] = text "Unspecified job error"
or_unspecified (c ∷ s) = c ∷ s

-- The message of an `Error`, or the text of any other value, made safe to store.
unfoldable pub sanitize_job_error : Text → Text
unfolding redact_bearer redact_secrets blank_controls is_control or_unspecified
sanitize_job_error message =
    or_unspecified
      (take error_limit (trim (blank_controls false (redact_secrets (redact_bearer message)))))
