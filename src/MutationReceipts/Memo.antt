-- ===== src/MutationReceipts/Memo.antt =====
-- What the receipts are for: a memory of answers by key, which forgets rows and their order.
use ai_research_workbench.Common.{
  ℕ, ◌≡◌, refl, ap, ◌∙◌, Bool, true, false, is_some, Bool-cases, Option-cases, inl, inr, Option,
  none, some, List, [], ◌∷◌, ◌++◌, map, find, if◌then◌else◌, Text, text_eq, arith, All, All-find,
}
use ai_research_workbench.Common.Outcome.{
  Outcome, Outcome-cases, ok, throw, ◌>>=◌, Thrown, conflict, idempotency_key_reused,
}
use ai_research_workbench.MutationReceipts.{
  MutationReceiptScope, MutationReceipt, MutationReceiptResult, same_key, of_key, insert_receipt,
  complete_receipt, replay, validate_response, execute_idempotent_response,
}
use ai_research_workbench.MutationReceipts.Replay.{
  Request, same_key-same, same_key_sym, same_key_self, find-same, find-append_none, completed,
  completed_key, complete_keeps, complete_found,
}

-- An answer that is remembered: the hash of its request, and the response.
pub record Answer : Type 0 where
  pub hash : Text
  pub status : ℕ
  pub body : Text

abbrev pub Memo : Type 0
Memo = MutationReceiptScope → Option Answer

abbrev remember : MutationReceiptScope → Answer → Memo → Memo
remember scope answer memo other = if same_key other scope then some answer else memo other

-- The outcomes of requests and the tables that they change, for any way of remembering answers; a
-- request that throws changes nothing.
abbrev with_result :
    {S : Type 0}
    → Outcome MutationReceiptResult
    → List (Outcome MutationReceiptResult) × S
    → List (Outcome MutationReceiptResult) × S
with_result result rest = (result ∷ rest.0, rest.1)

module _ {S T : Type 0} where
  abbrev result_of : Outcome (MutationReceiptResult × T × S) → Outcome MutationReceiptResult
  result_of (ok answer) = ok answer.0
  result_of (throw e) = throw e

  abbrev state_or : T × S → Outcome (MutationReceiptResult × T × S) → T × S
  state_or before (ok answer) = (answer.1, answer.2)
  state_or before (throw e) = before

  unfoldable pub run_all :
      (Request S → T × S → Outcome (MutationReceiptResult × T × S))
      → List (Request S)
      → T × S
      → List (Outcome MutationReceiptResult) × S
  run_all step [] state = ([], state.1)
  run_all step (r ∷ rs) state =
      let outcome = step r state in
      with_result (result_of outcome) (run_all step rs (state_or state outcome))

module _ (is_json : Text → Bool) {S : Type 0} where
  abbrev recall_or :
      Option Answer → Request S → Memo × S → Outcome (MutationReceiptResult × Memo × S)
  recall_or (some a) r (memo, s) =
      if text_eq a.hash r.scope.request_hash
      then ok
          (record { response_status = a.status; response_body = a.body; replayed = true }, memo, s)
      else throw (conflict idempotency_key_reused)
  recall_or none r (memo, s) = r.operation s >>= λ done.
      validate_response is_json done.0 >>= λ status.
      let body = done.0.response_body in
      ok (
        record { response_status = status; response_body = body; replayed = false },
        remember r.scope (record { hash = r.scope.request_hash; status = status; body = body })
            memo,
        done.1,
      )

  -- The specification of a request: a remembered answer is given again, else the operation is
  -- executed and its answer remembered.
  unfoldable pub request_memo : Request S → Memo × S → Outcome (MutationReceiptResult × Memo × S)
  request_memo r (memo, s) = recall_or (memo r.scope) r (memo, s)

  abbrev pub request_receipt :
      Request S
      → List MutationReceipt × S
      → Outcome (MutationReceiptResult × List MutationReceipt × S)
  request_receipt r = execute_idempotent_response is_json r.scope r.operation

abbrev answer_from : Text → Option ℕ → Option Text → Option Answer
answer_from hash (some n) (some b) = some (record { hash = hash; status = n; body = b })
answer_from hash _ _ = none

abbrev answer_of : Option MutationReceipt → Option Answer
answer_of none = none
answer_of (some r) = answer_from r.scope.request_hash r.response_status r.response_body

abbrev IsComplete : MutationReceipt → Type 0
IsComplete r = (is_some r.response_status ≡ true) × (is_some r.response_body ≡ true)

-- The receipts that a memory stands for.
record Stands (receipts : List MutationReceipt) (memo : Memo) : Type 0 where
  lookup : (scope : MutationReceiptScope) → memo scope ≡ answer_of (find (of_key scope) receipts)
  complete : All IsComplete receipts

complete_receipt-IsComplete :
    (scope : MutationReceiptScope) (n : ℕ) (b : Text) (receipts : List MutationReceipt)
    → All IsComplete receipts
    → All IsComplete (complete_receipt scope n b (insert_receipt scope receipts))
unfolding complete_receipt insert_receipt
complete_receipt-IsComplete scope n b [] h = rw (same_key_self scope) ((refl, refl), tt)
complete_receipt-IsComplete scope n b (r ∷ rs) h = elim (Bool-cases (same_key r.scope scope)) [
  | inl e ↦ rw e ((refl, refl), complete_receipt-IsComplete scope n b rs h.1)
  | inr e ↦ rw e (h.0, complete_receipt-IsComplete scope n b rs h.1)
]

find-map-none {ℓ} :
    {A : Type ℓ} (p : A → Bool) (f : A → A)
    → ((x : A) → p (f x) ≡ p x)
    → (xs : List A) → find p xs ≡ none
    → find p (map f xs) ≡ none
find-map-none p f same [] h = refl
find-map-none p f same (x ∷ xs) h = ground (arith, same x, find-map-none p f same xs)

complete_absent :
    (new scope : MutationReceiptScope) (n : ℕ) (b : Text) (receipts : List MutationReceipt)
    → same_key scope new ≡ false
    → find (of_key scope) receipts ≡ none
    → find (of_key scope) (complete_receipt new n b (insert_receipt new receipts)) ≡ none
unfolding complete_receipt insert_receipt
complete_absent new scope n b receipts other absent =
    let new_row : MutationReceipt = record {
      scope = new;
      response_status = none;
      response_body = none;
    } in
    let apart = same_key_sym new scope ∙ other in
    let last = find-append_none (of_key scope) receipts (new_row ∷ []) absent in
    let missing : find (of_key scope) (receipts ++ new_row ∷ []) ≡ none = last ∙ rw apart refl in
    find-map-none (of_key scope) (completed new n b) (completed_key new scope n b) _ missing

remembered :
    (new : MutationReceiptScope) (n : ℕ) (b : Text) (receipts : List MutationReceipt) (memo : Memo)
    → find (of_key new) receipts ≡ none
    → Stands receipts memo
    → Stands
        (complete_receipt new n b (insert_receipt new receipts))
        (remember new (record { hash = new.request_hash; status = n; body = b }) memo)
remembered new n b receipts memo absent h = record {
  lookup = λ scope. elim (Bool-cases (same_key scope new)) [
    | inl e ↦
        let made = complete_receipt new n b (insert_receipt new receipts) in
        let same =
          find-same (of_key scope) (of_key new) (λ x. same_key-same x.scope scope new e) made in
        let found = same ∙ complete_found new n b receipts absent in rw (e, found) refl
    | inr e ↦ elim (Option-cases (find (of_key scope) receipts)) [
      | inl none_yet ↦
          let still = complete_absent new scope n b receipts e none_yet in
          rw (e, still, h.lookup scope, none_yet) refl
      | inr (old, found) ↦
          let kept = complete_keeps new scope n b receipts absent found in
          rw (e, kept, h.lookup scope, found) refl
    ]
  ];
  complete = complete_receipt-IsComplete new n b receipts h.complete;
}

-- A request of the receipts and of a memory that they stand for has one outcome.
data Agree {S : Type 0}
    : Outcome (MutationReceiptResult × List MutationReceipt × S)
      → Outcome (MutationReceiptResult × Memo × S)
      → Type 0 where
  both_ok :
      (result : MutationReceiptResult) (receipts : List MutationReceipt) (memo : Memo) (s : S)
      → Stands receipts memo
      → Agree (ok (result, receipts, s)) (ok (result, memo, s))
  both_throw : (e : Thrown) → Agree (throw e) (throw e)

some_of : {A : Type 0} (o : Option A) → is_some o ≡ true → (a : A) × (o ≡ some a)
some_of none h = absurd (cc)
some_of (some a) h = (a, refl)

stored_complete :
    (r : MutationReceipt)
    → IsComplete r
    → (n : ℕ) × (b : Text) × (r.response_status ≡ some n) × (r.response_body ≡ some b)
stored_complete r h =
    let (n, e) = some_of r.response_status h.0 in
    let (b, f) = some_of r.response_body h.1 in (n, b, e, f)

module _ (is_json : Text → Bool) {S : Type 0} where
  request_agrees :
      (r : Request S) (receipts : List MutationReceipt) (memo : Memo) (s : S)
      → Stands receipts memo
      → Agree (request_receipt is_json r (receipts, s)) (request_memo is_json r (memo, s))
  unfolding execute_idempotent_response request_memo replay
  request_agrees r receipts memo s h = elim (Option-cases (find (of_key r.scope) receipts)) [
    | inr (old, e) ↦
        let (done, _) = All-find IsComplete (of_key r.scope) receipts h.complete e in
        let (n, b, status, body) = stored_complete old done in
        elim (Bool-cases (text_eq old.scope.request_hash r.scope.request_hash)) [
          | inl same ↦ rw (e, h.lookup r.scope, e, status, body, same) (both_ok _ receipts memo s h)
          | inr other ↦ rw (e, h.lookup r.scope, e, status, body, other) (both_throw _)
        ]
    | inl e ↦ elim (Outcome-cases (r.operation s)) [
      | inr (x, f) ↦ rw (e, h.lookup r.scope, e, f) (both_throw x)
      | inl (done, f) ↦ elim (Outcome-cases (validate_response is_json done.0)) [
        | inr (x, g) ↦ rw (e, h.lookup r.scope, e, f, g) (both_throw x)
        | inl (n, g) ↦
            rw (e, h.lookup r.scope, e, f, g)
              (both_ok _ _ _ done.1 (remembered r.scope n done.0.response_body receipts memo e h))
      ]
    ]
  ]

  agreed_run :
      (rs : List (Request S)) (receipts : List MutationReceipt) (memo : Memo) (s : S)
      {o : Outcome (MutationReceiptResult × List MutationReceipt × S)}
      {p : Outcome (MutationReceiptResult × Memo × S)}
      → Agree o p
      → Stands receipts memo
      → ((receipts : List MutationReceipt) (memo : Memo) (s : S)
          → Stands receipts memo
          → run_all (request_receipt is_json) rs (receipts, s)
            ≡ run_all (request_memo is_json) rs (memo, s))
      → with_result (result_of o) (run_all (request_receipt is_json) rs (state_or (receipts, s) o))
        ≡ with_result (result_of p) (run_all (request_memo is_json) rs (state_or (memo, s) p))
  agreed_run rs receipts memo s (both_ok result receipts' memo' s' h') h later =
      ap (with_result (ok result)) (later receipts' memo' s' h')
  agreed_run rs receipts memo s (both_throw e) h later =
      ap (with_result (throw e)) (later receipts memo s h)

  run_agrees :
      (rs : List (Request S)) (receipts : List MutationReceipt) (memo : Memo) (s : S)
      → Stands receipts memo
      → run_all (request_receipt is_json) rs (receipts, s)
        ≡ run_all (request_memo is_json) rs (memo, s)
  unfolding run_all
  run_agrees [] receipts memo s h = refl
  run_agrees (r ∷ rs) receipts memo s h =
      agreed_run rs receipts memo s (request_agrees r receipts memo s h) h (run_agrees rs)

  -- Requests with idempotency keys, one after another and from a table with no receipt, have the
  -- outcomes, and leave the other tables, of a memory that keeps the first answer to each key: that
  -- answer is given to every later request with the key and the same hash, which does not execute its
  -- operation, and a request with the key and another hash is refused.
  pub run_receipts-run_memo :
      (rs : List (Request S)) (s : S)
      → run_all (request_receipt is_json) rs ([], s)
        ≡ run_all (request_memo is_json) rs (λ scope. none, s)
  run_receipts-run_memo rs s =
      run_agrees rs [] (λ scope. none) s (record { lookup = λ scope. refl; complete = tt })
