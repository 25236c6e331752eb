-- ===== src/Providers/Limits/Grants.antt =====
-- When the transaction that acquires a permit grants one.
use ai_research_workbench.Common.{Bool, if◌then◌else◌}
use ai_research_workbench.Common.Outcome.{Outcome, ok, throw, Thrown}
use ai_research_workbench.Providers.Limits.{Limits, Decision}

abbrev branch :
    Bool
    → Bool
    → Bool
    → Decision × Limits
    → Decision × Limits
    → Thrown
    → Decision × Limits
    → Outcome (Decision × Limits)
branch full over taken x y e z =
    if full then ok x else if over then ok y else if taken then throw e else ok z
