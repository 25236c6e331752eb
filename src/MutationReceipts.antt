-- ===== src/MutationReceipts.antt =====
-- lib/services/mutation-receipts.ts: a mutation that is repeated with its idempotency key gets the
-- stored response. The tables that a mutation changes are a parameter, and so is what JSON.parse
-- accepts. A call is one transaction: where it throws, nothing has changed.
pub mod Replay
pub mod Memo
use ai_research_workbench.Common.{
  ℕ, ◌*◌, Bool, true, false, not, ◌&&◌, Option, none, some, List, [], ◌∷◌, ◌++◌, map, find, leb,
  if◌then◌else◌, Text, text_eq, utf8_length,
}
use ai_research_workbench.Common.Number.{JsNumber, safe_integer_between}
use ai_research_workbench.Common.Outcome.{
  Outcome, ok, throw, ◌>>=◌, ◌>>◌, require, app_error, conflict, idempotency_key_reused,
  idempotency_request_incomplete, idempotency_response_invalid, idempotency_response_too_large,
}

pub data Method : Type 0 where
  post put patch delete : Method

unfoldable pub method_eq : Method → Method → Bool
method_eq post post = true
method_eq put put = true
method_eq patch patch = true
method_eq delete delete = true
method_eq _ _ = false

pub record MutationReceiptScope : Type 0 where
  pub principal_scope : Text
  pub method : Method
  pub request_path : Text
  pub idempotency_key : Text
  pub request_hash : Text

-- A row of mutation_receipts.
pub record MutationReceipt : Type 0 where
  pub scope : MutationReceiptScope
  pub response_status : Option ℕ
  pub response_body : Option Text

pub record MutationResponse : Type 0 where
  pub response_status : JsNumber
  pub response_body : Text

pub record MutationReceiptResult : Type 0 where
  pub response_status : ℕ
  pub response_body : Text
  pub replayed : Bool

abbrev max_receipt_response_bytes : ℕ
max_receipt_response_bytes = 4 * 1024 * 1024

-- The primary key of the table.
unfoldable pub same_key : MutationReceiptScope → MutationReceiptScope → Bool
unfolding method_eq
same_key a b =
    text_eq a.principal_scope b.principal_scope
    && method_eq a.method b.method
    && text_eq a.request_path b.request_path
    && text_eq a.idempotency_key b.idempotency_key

abbrev pub of_key : MutationReceiptScope → MutationReceipt → Bool
of_key scope receipt = same_key receipt.scope scope

unfoldable pub insert_receipt : MutationReceiptScope → List MutationReceipt → List MutationReceipt
insert_receipt scope receipts =
    receipts ++ record { scope = scope; response_status = none; response_body = none } ∷ []

unfoldable pub complete_receipt :
    MutationReceiptScope → ℕ → Text → List MutationReceipt → List MutationReceipt
unfolding same_key
complete_receipt scope status body receipts =
    map
      (λ (r : MutationReceipt).
        if same_key r.scope scope
        then record r { response_status = some status; response_body = some body }
        else r)
      receipts

abbrev stored_response : Option ℕ → Option Text → Outcome MutationReceiptResult
stored_response (some status) (some body) =
    ok (record { response_status = status; response_body = body; replayed = true })
stored_response _ _ = throw (conflict idempotency_request_incomplete)

-- What is answered where the key has a receipt.
unfoldable pub replay : MutationReceiptScope → MutationReceipt → Outcome MutationReceiptResult
replay scope receipt =
    require (text_eq receipt.scope.request_hash scope.request_hash)
      (conflict idempotency_key_reused)
    >> stored_response receipt.response_status receipt.response_body

abbrev valid_status : Option ℕ → Outcome ℕ
valid_status none = throw (app_error 500 idempotency_response_invalid)
valid_status (some n) = ok n

module _ (is_json : Text → Bool) where
  -- The status, where the response is valid.
  unfoldable pub validate_response : MutationResponse → Outcome ℕ
  validate_response response =
      valid_status (safe_integer_between 200 499 response.response_status) >>= λ status.
      require (leb (utf8_length response.response_body) max_receipt_response_bytes)
        (app_error 500 idempotency_response_too_large)
      >> require (is_json response.response_body) (app_error 500 idempotency_response_invalid)
      >> ok status

module _ (is_json : Text → Bool) {S : Type 0} where
  abbrev or_execute :
      Option MutationReceipt
      → MutationReceiptScope
      → (S → Outcome (MutationResponse × S))
      → List MutationReceipt
      → S
      → Outcome (MutationReceiptResult × List MutationReceipt × S)
  or_execute (some receipt) scope operation receipts s =
      replay scope receipt >>= λ result. ok (result, receipts, s)
  or_execute none scope operation receipts s = operation s >>= λ answer.
      validate_response is_json answer.0 >>= λ status. ok (
        record {
          response_status = status;
          response_body = answer.0.response_body;
          replayed = false;
        },
        complete_receipt scope status answer.0.response_body (insert_receipt scope receipts),
        answer.1,
      )

  -- The operation is a function of the tables that it changes.
  unfoldable pub execute_idempotent_response :
      MutationReceiptScope
      → (S → Outcome (MutationResponse × S))
      → List MutationReceipt × S
      → Outcome (MutationReceiptResult × List MutationReceipt × S)
  unfolding replay validate_response insert_receipt complete_receipt
  execute_idempotent_response scope operation (receipts, s) =
      or_execute (find (of_key scope) receipts) scope operation receipts s

  -- `JSON.stringify({ data })` of what the operation returns is a parameter.
  unfoldable pub execute_idempotent_mutation :
      {B : Type 0}
      → (B → Text)
      → MutationReceiptScope
      → JsNumber
      → (S → Outcome (B × S))
      → List MutationReceipt × S
      → Outcome (MutationReceiptResult × List MutationReceipt × S)
  unfolding execute_idempotent_response
  execute_idempotent_mutation stringify scope status operation =
      execute_idempotent_response scope (λ s. operation s >>= λ answer.
      ok (record { response_status = status; response_body = stringify answer.0 }, answer.1))
