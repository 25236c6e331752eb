-- ===== src/Examples/Receipts.antt =====
-- A mutation that counts its executions, repeated after another one.
use ai_research_workbench.Common.{
  ℕ, ◌+◌, ◌≡◌, refl, true, false, Bool, none, some, List, [], ◌∷◌, if◌then◌else◌, Text, text_eq,
  utf8_length,
}
use ai_research_workbench.Common.Number.{whole, safe_integer_between}
use ai_research_workbench.Common.Outcome.{Outcome, ok, throw, conflict, idempotency_key_reused}
use ai_research_workbench.MutationReceipts.{
  post, MutationReceiptScope, MutationReceipt, MutationResponse, MutationReceiptResult, same_key,
  execute_idempotent_response,
}
use ai_research_workbench.MutationReceipts.Memo.{
  run_all, request_receipt, request_memo, run_receipts-run_memo,
}
use ai_research_workbench.MutationReceipts.Replay.{
  Request, run_requests, execute_idempotent_response-replays,
}

abbrev any_text : Text → Bool
any_text t = true

abbrev count_up : ℕ → Outcome (MutationResponse × ℕ)
count_up n = ok (record { response_status = whole 201; response_body = 123 ∷ 125 ∷ [] }, n + 1)

abbrev with_key : Text → MutationReceiptScope
with_key key = record {
  principal_scope = 1 ∷ [];
  method = post;
  request_path = 2 ∷ [];
  idempotency_key = key;
  request_hash = 3 ∷ [];
}

abbrev counted : MutationReceiptResult × List MutationReceipt × ℕ
counted = (
  record { response_status = 201; response_body = 123 ∷ 125 ∷ []; replayed = false },
  record {
    scope = with_key (4 ∷ []);
    response_status = some 201;
    response_body = some (123 ∷ 125 ∷ []);
  }
      ∷ [],
  1,
)

counted_ok : execute_idempotent_response any_text (with_key (4 ∷ [])) count_up ([], 0) ≡ ok counted
unfolding execute_idempotent_response safe_integer_between utf8_length text_eq
counted_ok = refl

abbrev others : List (Request ℕ)
others = record { scope = with_key (5 ∷ []); operation = count_up } ∷ []

execute_idempotent_response-replays_example :
    (let later = run_requests any_text others (counted.1, counted.2) in
      execute_idempotent_response any_text (with_key (4 ∷ [])) count_up later ≡ (
        if text_eq (3 ∷ []) (3 ∷ [])
        then ok (record counted.0 { replayed = true }, later.0, later.1)
        else throw (conflict idempotency_key_reused)))
unfolding same_key text_eq
execute_idempotent_response-replays_example =
    execute_idempotent_response-replays any_text (with_key (4 ∷ [])) count_up ([], 0) others
      (with_key (4 ∷ [])) count_up counted_ok refl

abbrev repeated : List (Request ℕ)
repeated =
    record { scope = with_key (4 ∷ []); operation = count_up }
    ∷ record { scope = with_key (5 ∷ []); operation = count_up }
    ∷ record { scope = with_key (4 ∷ []); operation = count_up }
    ∷ []

run_receipts-run_memo_example :
    run_all (request_receipt any_text) repeated ([], 0)
    ≡ run_all (request_memo any_text) repeated (λ scope. none, 0)
run_receipts-run_memo_example = run_receipts-run_memo any_text repeated 0
