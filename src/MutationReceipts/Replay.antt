-- ===== src/MutationReceipts/Replay.antt =====
-- A mutation is executed once for its key, whatever other requests are made.
use ai_research_workbench.Common.{
  ℕ, ◌≡◌, refl, sym, ap, ◌∙◌, subst, Bool, true, Bool-cases, Option-cases, inl, inr, Option, none,
  some, List, [], ◌∷◌, ◌++◌, map, find, if◌then◌else◌, Text, text_eq, text_eq_iff, arith,
}
use ai_research_workbench.Common.Outcome.{
  Outcome, Outcome-cases, ok, throw, ◌>>=◌, require, >>=-ok, ok_same, conflict,
  idempotency_key_reused,
}
use ai_research_workbench.MutationReceipts.{
  Method, post, put, patch, delete, method_eq, MutationReceiptScope, MutationReceipt,
  MutationResponse, MutationReceiptResult, same_key, of_key, insert_receipt, complete_receipt,
  replay, stored_response, validate_response, execute_idempotent_response,
}

method_eq_iff_self : (m : Method) → method_eq m m ≡ true
unfolding method_eq
method_eq_iff_self post = refl
method_eq_iff_self put = refl
method_eq_iff_self patch = refl
method_eq_iff_self delete = refl

method_eq_sound : (m n : Method) → method_eq m n ≡ true → m ≡ n
unfolding method_eq
method_eq_sound m n h = ground arith

-- The fields of the key.
abbrev Key : Type 0
Key = Text × Method × Text × Text

abbrev key_of : MutationReceiptScope → Key
key_of s = (s.principal_scope, s.method, s.request_path, s.idempotency_key)

same_key_sound : (a b : MutationReceiptScope) → same_key a b ≡ true → key_of a ≡ key_of b
unfolding same_key
same_key_sound a b h =
    let p = (text_eq_iff a.principal_scope b.principal_scope).0 (ground arith) in
    let m = method_eq_sound a.method b.method (ground arith) in
    let r = (text_eq_iff a.request_path b.request_path).0 (ground arith) in
    let k = (text_eq_iff a.idempotency_key b.idempotency_key).0 (ground arith) in cc

same_key_complete : (a b : MutationReceiptScope) → key_of a ≡ key_of b → same_key a b ≡ true
unfolding same_key
same_key_complete a b h =
    let p = (text_eq_iff a.principal_scope b.principal_scope).1 (ap (λ (k : Key). k.0) h) in
    let m : method_eq a.method b.method ≡ true =
      ap (λ n. method_eq a.method n) (sym (ap (λ (k : Key). k.1) h))
      ∙ method_eq_iff_self a.method in
    let r = (text_eq_iff a.request_path b.request_path).1 (ap (λ (k : Key). k.2) h) in
    let k = (text_eq_iff a.idempotency_key b.idempotency_key).1 (ap (λ (k : Key). k.3) h) in
    ground arith

module _ {ℓ} {A : Type ℓ} (p : A → Bool) where
  find-append : (xs ys : List A) {a : A} → find p xs ≡ some a → find p (xs ++ ys) ≡ some a
  find-append [] ys h = absurd (cc)
  find-append (x ∷ xs) ys {a} h = elim (Bool-cases (p x)) [
    | inl e ↦ ground arith
    | inr e ↦ let rest = find-append xs ys {a = a} (ground arith) in ground arith
  ]

  pub find-append_none : (xs ys : List A) → find p xs ≡ none → find p (xs ++ ys) ≡ find p ys
  find-append_none [] ys h = refl
  find-append_none (x ∷ xs) ys h = ground (arith, find-append_none xs ys)

  find-map :
      (f : A → A)
      → ((x : A) → p (f x) ≡ p x)
      → (xs : List A) {a : A} → find p xs ≡ some a
      → find p (map f xs) ≡ some (f a)
  find-map f same [] h = absurd (cc)
  find-map f same (x ∷ xs) {a} h = elim (Bool-cases (p x)) [
    | inl e ↦ let k = same x in ground arith
    | inr e ↦ let k = same x in let rest = find-map f same xs {a = a} (ground arith) in ground arith
  ]

-- Of two scopes, one of which has the key of a third, both or neither have it.
pub same_key-same :
    (a b c : MutationReceiptScope) → same_key b c ≡ true → same_key a b ≡ same_key a c
same_key-same a b c h = elim (Bool-cases (same_key a c)) [
  | inl e ↦ same_key_complete a b (same_key_sound a c e ∙ sym (same_key_sound b c h)) ∙ sym e
  | inr e ↦ elim (Bool-cases (same_key a b)) [
    | inl d ↦ absurd (
        let f = same_key_complete a c (same_key_sound a b d ∙ same_key_sound b c h) in ground arith)
    | inr d ↦ d ∙ sym e
  ]
]

pub find-same {ℓ} :
    {A : Type ℓ} (p q : A → Bool) → ((x : A) → p x ≡ q x) → (xs : List A) → find p xs ≡ find q xs
find-same p q h [] = refl
find-same p q h (x ∷ xs) = ground (arith, h x, find-same p q h xs)

find_passes {ℓ} :
    {A : Type ℓ} (p : A → Bool) (xs : List A) {a : A} → find p xs ≡ some a → p a ≡ true
find_passes p [] h = absurd (cc)
find_passes p (x ∷ xs) {a} h = elim (Bool-cases (p x)) [
  | inl e ↦ let at : x ≡ a = ground arith in subst (λ y. p y ≡ true) at e
  | inr e ↦ find_passes p xs (ground arith)
]

abbrev pub completed : MutationReceiptScope → ℕ → Text → MutationReceipt → MutationReceipt
completed scope status body r =
    if same_key r.scope scope
    then record r { response_status = some status; response_body = some body }
    else r

pub completed_key :
    (scope other : MutationReceiptScope) (status : ℕ) (body : Text) (r : MutationReceipt)
    → of_key other (completed scope status body r) ≡ of_key other r
completed_key scope other status body r = elim (Bool-cases (same_key r.scope scope)) [
  | inl e ↦ rw e refl
  | inr e ↦ rw e refl
]

-- A new receipt does not touch the receipt of another key.
pub complete_keeps :
    (new scope : MutationReceiptScope) (status : ℕ) (body : Text) (receipts : List MutationReceipt)
    {receipt : MutationReceipt}
    → find (of_key new) receipts ≡ none
    → find (of_key scope) receipts ≡ some receipt
    → find (of_key scope) (complete_receipt new status body (insert_receipt new receipts))
      ≡ some receipt
unfolding complete_receipt insert_receipt
complete_keeps new scope status body receipts {receipt} absent h =
    let found =
      find-append (of_key scope) receipts
        (record { scope = new; response_status = none; response_body = none } ∷ []) h in
    let moved =
      find-map (of_key scope) (completed new status body) (completed_key new scope status body) _
        found in
    let own = find_passes (of_key scope) receipts h in
    elim (Bool-cases (same_key receipt.scope new)) [
      | inl e ↦
          let same_keys =
            same_key_complete new scope
              (sym (same_key_sound receipt.scope new e) ∙ same_key_sound receipt.scope scope own) in
          let same =
            find-same (of_key new) (of_key scope) (λ x. same_key-same x.scope new scope same_keys)
              receipts in
          absurd (ground arith)
      | inr e ↦ moved ∙ rw e refl
    ]

pub same_key_sym : (a b : MutationReceiptScope) → same_key a b ≡ same_key b a
same_key_sym a b = elim (Bool-cases (same_key b a)) [
  | inl e ↦ same_key_complete a b (sym (same_key_sound b a e)) ∙ sym e
  | inr e ↦ elim (Bool-cases (same_key a b)) [
    | inl d ↦ absurd (let f = same_key_complete b a (sym (same_key_sound a b d)) in ground arith)
    | inr d ↦ d ∙ sym e
  ]
]

pub same_key_self : (scope : MutationReceiptScope) → same_key scope scope ≡ true
same_key_self scope = same_key_complete scope scope refl

-- The receipt of a key that had none.
pub complete_found :
    (scope : MutationReceiptScope) (status : ℕ) (body : Text) (receipts : List MutationReceipt)
    → find (of_key scope) receipts ≡ none
    → find (of_key scope) (complete_receipt scope status body (insert_receipt scope receipts))
      ≡ some (record { scope = scope; response_status = some status; response_body = some body })
unfolding complete_receipt insert_receipt
complete_found scope status body receipts absent =
    let self = same_key_self scope in
    let new : MutationReceipt = record {
      scope = scope;
      response_status = none;
      response_body = none;
    } in
    let last = find-append_none (of_key scope) receipts (new ∷ []) absent in
    let found : find (of_key scope) (receipts ++ new ∷ []) ≡ some new = last ∙ rw self refl in
    find-map (of_key scope) (completed scope status body) (completed_key scope scope status body) _
      found
    ∙ rw self refl

-- The receipt of a key holds the hash of a scope and a response.
record IsStored (scope : MutationReceiptScope) (receipts : List MutationReceipt)
    (result : MutationReceiptResult) : Type 0 where
  receipt : MutationReceipt
  found : find (of_key scope) receipts ≡ some receipt
  same_hash : receipt.scope.request_hash ≡ scope.request_hash
  same_status : receipt.response_status ≡ some result.response_status
  same_body : receipt.response_body ≡ some result.response_body

stored_inv :
    (status : Option ℕ) (body : Option Text) {result : MutationReceiptResult}
    → stored_response status body ≡ ok result
    → (status ≡ some result.response_status) × (body ≡ some result.response_body)
stored_inv (some n) (some b) h =
    let same = ok_same h in
    (
      ap (λ (r : MutationReceiptResult). some r.response_status) same,
      ap (λ (r : MutationReceiptResult). some r.response_body) same,
    )
stored_inv none b h = absurd (cc)
stored_inv (some n) none h = absurd (cc)

replay-IsStored :
    (scope : MutationReceiptScope) (receipts : List MutationReceipt) (old : MutationReceipt)
    {result : MutationReceiptResult}
    → find (of_key scope) receipts ≡ some old
    → replay scope old ≡ ok result
    → IsStored scope receipts result
unfolding replay
replay-IsStored scope receipts old {result} e h =
    let hashes = text_eq old.scope.request_hash scope.request_hash in
    let (_, valid, k) = >>=-ok (require hashes (conflict idempotency_key_reused)) _ h in
    let (status, body) = stored_inv old.response_status old.response_body k in
    record {
      receipt = old;
      found = e;
      same_hash = (text_eq_iff old.scope.request_hash scope.request_hash).0 (ground arith);
      same_status = status;
      same_body = body;
    }

-- A request: its scope, and what its operation does.
pub record Request (S : Type 0) : Type 0 where
  pub scope : MutationReceiptScope
  pub operation : S → Outcome (MutationResponse × S)

module _ (is_json : Text → Bool) {S : Type 0} where
  abbrev tables_or :
      List MutationReceipt × S
      → Outcome (MutationReceiptResult × List MutationReceipt × S)
      → List MutationReceipt × S
  tables_or before (ok answer) = (answer.1, answer.2)
  tables_or before (throw e) = before

  -- The tables after requests, one after another; one that throws changes nothing.
  unfoldable pub run_requests :
      List (Request S) → List MutationReceipt × S → List MutationReceipt × S
  run_requests [] tables = tables
  run_requests (r ∷ rs) tables =
      run_requests rs
        (tables_or tables (execute_idempotent_response is_json r.scope r.operation tables))

  replay_tables :
      (m : Outcome MutationReceiptResult) (receipts : List MutationReceipt) (s : S)
      → tables_or (receipts, s) (m >>= λ result. ok (result, receipts, s)) ≡ (receipts, s)
  replay_tables (ok a) receipts s = refl
  replay_tables (throw e) receipts s = refl

  -- A receipt with its response stays as it is whatever request follows.
  step_keeps :
      (scope : MutationReceiptScope) (r : Request S) (tables : List MutationReceipt × S)
      {receipt : MutationReceipt}
      → find (of_key scope) tables.0 ≡ some receipt
      → find
          (of_key scope)
          (tables_or tables (execute_idempotent_response is_json r.scope r.operation tables)).0
        ≡ some receipt
  unfolding execute_idempotent_response
  step_keeps scope r (receipts, s) {receipt} h =
      elim (Option-cases (find (of_key r.scope) receipts)) [
        | inr (old, e) ↦ rw (e, replay_tables (replay r.scope old) receipts s) h
        | inl e ↦ elim (Outcome-cases (r.operation s)) [
          | inr (x, f) ↦ rw (e, f) h
          | inl (answer, f) ↦ elim (Outcome-cases (validate_response is_json answer.0)) [
            | inr (x, g) ↦ rw (e, f, g) h
            | inl (status, g) ↦
                rw (e, f, g)
                  (complete_keeps r.scope scope status answer.0.response_body receipts e h)
          ]
        ]
      ]

  run_keeps :
      (scope : MutationReceiptScope) (rs : List (Request S)) (tables : List MutationReceipt × S)
      {receipt : MutationReceipt}
      → find (of_key scope) tables.0 ≡ some receipt
      → find (of_key scope) (run_requests rs tables).0 ≡ some receipt
  unfolding run_requests
  run_keeps scope [] tables h = h
  run_keeps scope (r ∷ rs) tables h = run_keeps scope rs _ (step_keeps scope r tables h)

  -- After a request that is answered, the key has a receipt of its hash with the answer.
  answered_receipt :
      (scope : MutationReceiptScope) (operation : S → Outcome (MutationResponse × S))
      (tables : List MutationReceipt × S)
      {answer : MutationReceiptResult × List MutationReceipt × S}
      → execute_idempotent_response is_json scope operation tables ≡ ok answer
      → IsStored scope answer.1 answer.0
  unfolding execute_idempotent_response
  answered_receipt scope operation (receipts, s) {answer} h =
      elim (Option-cases (find (of_key scope) receipts)) [
        | inr (old, e) ↦
            let (result, made, k) = >>=-ok (replay scope old) _ (rw e at h) in
            subst (λ (a : MutationReceiptResult × List MutationReceipt × S). IsStored scope a.1 a.0)
              (ok_same k) (replay-IsStored scope receipts old e made)
        | inl e ↦
            let (done, f, k) = >>=-ok (operation s) _ (rw e at h) in
            let (status, g, k) = >>=-ok (validate_response is_json done.0) _ k in
            subst (λ (a : MutationReceiptResult × List MutationReceipt × S). IsStored scope a.1 a.0)
              (ok_same k)
              (record {
                receipt = _;
                found = complete_found scope status done.0.response_body receipts e;
                same_hash = refl;
                same_status = refl;
                same_body = refl;
              })
      ]

  -- Once a request is answered, then whatever requests follow, a request with its key and hash gets
  -- the same response, marked as replayed, and a request with its key and another hash the error of a
  -- reused key; in neither case is the operation executed or a table changed.
  pub execute_idempotent_response-replays :
      (scope : MutationReceiptScope) (operation : S → Outcome (MutationResponse × S))
      (tables : List MutationReceipt × S)
      {answer : MutationReceiptResult × List MutationReceipt × S} (rs : List (Request S))
      (again : MutationReceiptScope) (other : S → Outcome (MutationResponse × S))
      → execute_idempotent_response is_json scope operation tables ≡ ok answer
      → same_key again scope ≡ true
      → (let later = run_requests rs (answer.1, answer.2) in
          execute_idempotent_response is_json again other later ≡ (
            if text_eq scope.request_hash again.request_hash
            then ok (record answer.0 { replayed = true }, later.0, later.1)
            else throw (conflict idempotency_key_reused)))
  unfolding execute_idempotent_response replay
  execute_idempotent_response-replays scope operation tables {answer} rs again other h k =
      let stored = answered_receipt scope operation tables h in
      let later = run_keeps scope rs (answer.1, answer.2) stored.found in
      let same =
        find-same (of_key again) (of_key scope) (λ x. same_key-same x.scope again scope k)
          (run_requests rs (answer.1, answer.2)).0 in
      let found : find (of_key again) (run_requests rs (answer.1, answer.2)).0
          ≡ some stored.receipt =
        same ∙ later in
      elim (Bool-cases (text_eq scope.request_hash again.request_hash)) [
        | inl e ↦ rw (found, stored.same_hash, e, stored.same_status, stored.same_body) refl
        | inr e ↦ rw (found, stored.same_hash, e) refl
      ]
