-- ===== src/Domain/Research/Freshness.antt =====
-- lib/domain/research.ts: `assessSourceFreshness` and the calendar that it reads dates with.
use ai_research_workbench.Common.{
  ℕ, zero, suc, all, includes, ◌↔◌, ℕ_eq, ◌+◌, ◌-◌, ◌*◌, ◌/◌, ◌%◌, ◌≤◌, ◌<◌, ◌≡◌, ◌≢◌, refl, Bool,
  ◌&&◌, ◌||◌, not, Option, none, some, [], ◌∷◌, arith, leb, ltb, nat_eq, if◌then◌else◌, Text,
}
use ai_research_workbench.Common.Number.{JsNumber, millionths, whole, scale}
use ai_research_workbench.Common.Outcome.{
  Outcome, ok, throw, ◌>>=◌, error, invalid_date, invalid_max_age,
}

pub data SourceFreshnessStatus : Type 0 where
  current aging outdated unknown : SourceFreshnessStatus

-- A `Date` by the UTC year, month (from 1) and day that it reads as, `none` if it is invalid, or a
-- string.
pub data DateInput : Type 0 where
  date : Option (ℕ × ℕ × ℕ) → DateInput
  string : Text → DateInput

unfoldable pub is_leap : ℕ → Bool
is_leap year = nat_eq (year % 4) 0 && (not (nat_eq (year % 100) 0) || nat_eq (year % 400) 0)

unfoldable pub days_in_month : ℕ → ℕ → ℕ
unfolding is_leap
days_in_month year month =
    if nat_eq month 2
    then (if is_leap year then 29 else 28)
    else if includes (4 ∷ 6 ∷ 9 ∷ 11 ∷ []) month
    then 30
    else 31

-- The days of the months before a month.
unfoldable pub days_before_month : ℕ → ℕ → ℕ
unfolding days_in_month
days_before_month year zero = 0
days_before_month year (suc month) =
    days_before_month year month + (if nat_eq month 0 then 0 else days_in_month year month)

-- `Date.UTC(year, month - 1, day)` of a date of the calendar, in days since the start of year 0;
-- years before 100 count from 1900.
unfoldable pub date_utc : ℕ → ℕ → ℕ → ℕ
unfolding days_before_month
date_utc year month day =
    let y = if ltb year 100 then 1900 + year else year in
    365 * y + (y + 3) / 4 - (y + 99) / 100 + (y + 399) / 400 + days_before_month y month + day

is_digit : ℕ → Bool
is_digit c = leb 48 c && leb c 57

-- The groups of /^\d{4}-\d{2}-\d{2}$/ as numbers.
unfoldable pub parse_date : Text → Option (ℕ × ℕ × ℕ)
unfolding is_digit
parse_date (a ∷ b ∷ c ∷ d ∷ dash ∷ e ∷ f ∷ dash' ∷ g ∷ h ∷ []) =
    if all is_digit (a ∷ b ∷ c ∷ d ∷ e ∷ f ∷ g ∷ h ∷ []) && nat_eq dash 45 && nat_eq dash' 45
    then some (
      1000 * (a - 48) + 100 * (b - 48) + 10 * (c - 48) + (d - 48),
      10 * (e - 48) + (f - 48),
      10 * (g - 48) + (h - 48),
    )
    else none
parse_date _ = none

-- The date that `Date.UTC` makes of the three numbers has them as its year, month and day.
unfoldable pub is_calendar_date : ℕ → ℕ → ℕ → Bool
unfolding days_in_month
is_calendar_date year month day =
    leb 100 year && leb 1 month && leb month 12 && leb 1 day && leb day (days_in_month year month)

abbrev day_of_string : Option (ℕ × ℕ × ℕ) → Outcome ℕ
day_of_string none = throw (error invalid_date)
day_of_string (some (year, month, day)) =
    if is_calendar_date year month day
    then ok (date_utc year month day)
    else throw (error invalid_date)

unfoldable pub utc_day : DateInput → Outcome ℕ
utc_day (date none) = throw (error invalid_date)
utc_day (date (some (year, month, day))) = ok (date_utc year month day)
utc_day (string value) = day_of_string (parse_date value)

-- The status by the days of publication and of research; `AGING_THRESHOLD_RATIO` is 0.8.
unfoldable pub freshness : ℕ → ℕ → ℕ → SourceFreshnessStatus
freshness published research max_age =
    if ltb research published
    then unknown
    else if ltb max_age (research - published)
    then outdated
    else if ltb 0 max_age && leb ((4 * max_age + 4) / 5) (research - published)
    then aging
    else current

-- `Number.isInteger(maxAgeDays) && maxAgeDays >= 0`
unfoldable pub age_limit : JsNumber → Outcome ℕ
age_limit (millionths n) =
    if nat_eq (n % scale) 0 then ok (n / scale) else throw (error invalid_max_age)
age_limit _ = throw (error invalid_max_age)

abbrev assess_from : Option DateInput → DateInput → ℕ → Outcome SourceFreshnessStatus
assess_from none research max_age = ok unknown
assess_from (some published) research max_age =
    utc_day published >>= λ from. utc_day research >>= λ to. ok (freshness from to max_age)

unfoldable pub assess_source_freshness :
    Option DateInput → DateInput → JsNumber → Outcome SourceFreshnessStatus
assess_source_freshness published research max_age_days =
    age_limit max_age_days >>= λ max_age. assess_from published research max_age

-- How usable a source of a known age is.
abbrev pub rank : SourceFreshnessStatus → ℕ
rank current = 3
rank aging = 2
rank outdated = 1
rank unknown = 0

freshness_mono :
    (published published' research max_age : ℕ)
    → published ≤ published'
    → published' ≤ research
    → rank (freshness published research max_age) ≤ rank (freshness published' research max_age)
unfolding freshness
freshness_mono published published' research max_age h k = ground arith

freshness_by_age :
    (published research max_age : ℕ)
    → published ≤ research
    → (freshness published research max_age ≢ unknown)
      × ((freshness published research max_age ≡ outdated) ↔ (published + max_age < research))
      × (published ≡ research → freshness published research max_age ≡ current)
unfolding freshness
freshness_by_age published research max_age h =
    (λ e. ground arith, (λ e. ground arith, λ e. ground arith), λ e. ground arith)

assess-freshness :
    (p r : DateInput) (max_age : ℕ) {from to : ℕ}
    → utc_day p ≡ ok from
    → utc_day r ≡ ok to
    → assess_source_freshness (some p) r (whole max_age) ≡ ok (freshness from to max_age)
unfolding assess_source_freshness age_limit
assess-freshness p r max_age h k =
    let exact : max_age * scale / scale ≡ max_age = omega arith in
    let even : max_age * scale % scale ≡ 0 = omega arith in rw (even, exact, h, k) refl

-- Of two sources with dates, published no later than the day of the research, the later one is at
-- least as fresh, where CURRENT is fresher than AGING and AGING than OUTDATED: both are assessed,
-- neither is UNKNOWN, either is OUTDATED exactly if it is more than `maxAgeDays` old, and one
-- published on the day of the research is CURRENT.
pub assess_source_freshness_mono :
    (p p' r : DateInput) (max_age : ℕ) {from from' to : ℕ}
    → utc_day p ≡ ok from
    → utc_day p' ≡ ok from'
    → utc_day r ≡ ok to
    → from ≤ from'
    → from' ≤ to
    → (f : SourceFreshnessStatus) × (f' : SourceFreshnessStatus) × (assess_source_freshness
          (some p)
          r
          (whole max_age)
        ≡ ok f)
      × (assess_source_freshness (some p') r (whole max_age) ≡ ok f')
      × (rank f ≤ rank f')
      × (f ≢ unknown)
      × (f' ≢ unknown)
      × ((f ≡ outdated) ↔ (from + max_age < to))
      × ((f' ≡ outdated) ↔ (from' + max_age < to))
      × (from' ≡ to → f' ≡ current)
assess_source_freshness_mono p p' r max_age {from} {from'} {to} h h' k early late =
    let (known, old, _) = freshness_by_age from to max_age (omega arith) in
    let (known', old', today) = freshness_by_age from' to max_age late in
    (
      freshness from to max_age,
      freshness from' to max_age,
      assess-freshness p r max_age h k,
      assess-freshness p' r max_age h' k,
      freshness_mono from from' to max_age early late,
      known,
      known',
      old,
      old',
      today,
    )
