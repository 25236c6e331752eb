-- ===== src/Examples/Limits.antt =====
-- Permits of a provider.
use ai_research_workbench.Common.{none, [], ◌∷◌, List, Text}
use ai_research_workbench.Common.Number.{whole}
use ai_research_workbench.Providers.Limits.{ProviderLimitPolicy, AcquireInput, Limits}
use ai_research_workbench.Providers.Limits.Bounds.{
  Call, acquire_permit, extend_permit, release_permit, pass_time, run_calls, no_permits, IsWithin,
  run_calls-IsWithin,
}

abbrev one_call : ProviderLimitPolicy
one_call = record {
  request_limit = 2;
  window_seconds = 1;
  concurrency_limit = 1;
  permit_ttl_ms = 500;
}

abbrev ask : Text → AcquireInput
ask id = record {
  permit_id = id;
  provider = 1 ∷ [];
  operation = 2 ∷ [];
  owner_id = 3 ∷ [];
  job_id = none;
}

abbrev calls : List Call
calls =
    acquire_permit (ask (7 ∷ []))
    ∷ acquire_permit (ask (8 ∷ []))
    ∷ extend_permit (7 ∷ []) (3 ∷ []) (whole 900)
    ∷ release_permit (7 ∷ []) (3 ∷ [])
    ∷ pass_time 100
    ∷ acquire_permit (ask (9 ∷ []))
    ∷ []

run_calls-IsWithin_example :
    IsWithin (λ p o. one_call) (run_calls (λ p o. one_call) calls (no_permits 5))
run_calls-IsWithin_example = run_calls-IsWithin (λ p o. one_call) calls 5
