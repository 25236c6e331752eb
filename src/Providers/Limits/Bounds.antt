-- ===== src/Providers/Limits/Bounds.antt =====
-- The limits hold whatever calls are made, in any order.
use native.Mathlib.Nat.{le_trans}
use ai_research_workbench.Common.{
  ℕ, ◌+◌, ◌≤◌, ◌<◌, ◌≡◌, refl, subst, Bool, Bool-cases, Option-cases, inl, inr, true, false, not,
  ◌&&◌, Option, none, some, List, [], ◌∷◌, ◌++◌, map, filter, length, leb, is_some, if◌then◌else◌,
  Text, text_eq, text_eq_iff, arith,
}
use ai_research_workbench.Common.Number.{JsNumber, safe_integer_between}
use ai_research_workbench.Common.Outcome.{Outcome, ok, throw, Thrown}
use ai_research_workbench.Providers.Limits.{
  ProviderLimitPolicy, RateWindow, Permit, Limits, Decision, write_window, window_or_new,
  current_window, belongs, is_live, live_permits, release_expired, AcquireInput, granted_window,
  new_permit, acquire, is_held_by, extend_provider_permit, recount_window, after_release,
  release_provider_permit,
}

pub data Call : Type 0 where
  acquire_permit : AcquireInput → Call
  extend_permit : Text → Text → JsNumber → Call
  release_permit : Text → Text → Call
  pass_time : ℕ → Call

abbrev tables_after : {A : Type 0} → Limits → Outcome (A × Limits) → Limits
tables_after s (ok (a, s')) = s'
tables_after s (throw e) = s

-- The tables after a call, with one policy for each provider and operation.
unfoldable pub run_call : (Text → Text → ProviderLimitPolicy) → Call → Limits → Limits
run_call policy (acquire_permit input) s =
    tables_after s (acquire (policy input.provider input.operation) input s)
run_call policy (extend_permit id owner ttl) s =
    tables_after s (extend_provider_permit id owner ttl s)
run_call policy (release_permit id owner) s = (release_provider_permit id owner s).1
run_call policy (pass_time ms) s = record s { now = s.now + ms }

unfoldable pub run_calls : (Text → Text → ProviderLimitPolicy) → List Call → Limits → Limits
unfolding run_call
run_calls policy [] s = s
run_calls policy (c ∷ cs) s = run_calls policy cs (run_call policy c s)

abbrev pub no_permits : ℕ → Limits
no_permits now = record { now = now; windows = λ p o. none; permits = [] }

abbrev pub CountWithin :
    (Text → Text → ProviderLimitPolicy) → (Text → Text → Option RateWindow) → Type 0
CountWithin policy windows =
    (p o : Text) (w : RateWindow)
    → windows p o ≡ some w
    → w.request_count ≤ (policy p o).request_limit

-- No key has more live permits, and no window more requests, than its policy allows.
pub record IsWithin (policy : Text → Text → ProviderLimitPolicy) (s : Limits) : Type 0 where
  pub calls : (p o : Text) → live_permits p o s.now s.permits ≤ (policy p o).concurrency_limit
  pub requests : CountWithin policy s.windows

module _ {ℓ} {A : Type ℓ} (p q : A → Bool) where
  count-le :
      ((x : A) → p x ≡ true → q x ≡ true)
      → (xs : List A) → length (filter p xs) ≤ length (filter q xs)
  count-le h [] = omega arith
  count-le h (x ∷ xs) = ground (arith, h x, count-le h xs)

  count-map-le :
      (f : A → A)
      → ((x : A) → p (f x) ≡ true → q x ≡ true)
      → (xs : List A) → length (filter p (map f xs)) ≤ length (filter q xs)
  count-map-le f h [] = omega arith
  count-map-le f h (x ∷ xs) = ground (arith, h x, count-map-le f h xs)

count-append_one {ℓ} :
    {A : Type ℓ} (p : A → Bool) (xs : List A) (y : A)
    → length (filter p (xs ++ y ∷ [])) ≡ (length (filter p xs) + (if p y then 1 else 0))
count-append_one p [] y = ground arith
count-append_one p (x ∷ xs) y = ground (arith, count-append_one p xs y)

release_expired-live :
    (provider operation p o : Text) (now : ℕ) (permits : List Permit)
    → live_permits p o now (release_expired provider operation now permits)
      ≤ live_permits p o now permits
unfolding live_permits release_expired
release_expired-live provider operation p o now permits =
    count-map-le _ _ _ (λ x h. ground arith) permits

-- A key is that of the new permit, or the permit does not count for it.
new_permit-live :
    (policy : ProviderLimitPolicy) (input : AcquireInput) (p o : Text) (now : ℕ)
    (permits : List Permit)
    → live_permits p o now (permits ++ new_permit policy input now ∷ [])
      ≤ live_permits p o now permits
        + (if text_eq input.provider p && text_eq input.operation o then 1 else 0)
unfolding live_permits new_permit
new_permit-live policy input p o now permits =
    let added =
      count-append_one (λ (x : Permit). belongs p o x && is_live now x) permits
        (new_permit policy input now) in
    ground arith

window_within :
    (policy : ProviderLimitPolicy) (now : ℕ) (o : Option RateWindow)
    → ((w : RateWindow) → o ≡ some w → w.request_count ≤ policy.request_limit)
    → (current_window policy now (window_or_new policy now o)).request_count ≤ policy.request_limit
unfolding current_window window_or_new
window_within policy now none h = ground arith
window_within policy now (some w) h = ground (arith, h w refl)

write_window-within :
    (policy : Text → Text → ProviderLimitPolicy) (p o : Text) (new : RateWindow)
    (windows : Text → Text → Option RateWindow)
    → new.request_count ≤ (policy p o).request_limit
    → CountWithin policy windows
    → CountWithin policy (write_window p o new windows)
unfolding write_window
write_window-within policy p o new windows h k p' o' w e =
    elim (Bool-cases (text_eq p' p && text_eq o' o)) [
      | inl y ↦
          let same_p = (text_eq_iff p' p).0 (ground arith) in
          let same_o = (text_eq_iff o' o).0 (ground arith) in
          let at : new ≡ w = ground arith in
          rw (same_p, same_o)
            (subst (λ (v : RateWindow). v.request_count ≤ (policy p o).request_limit) at h)
      | inr n ↦ k p' o' w (ground arith)
    ]

branches :
    (P : Limits → Type 0) (s : Limits) (full over taken : Bool) (x y z : Decision × Limits)
    (e : Thrown)
    → P s
    → P x.1
    → P y.1
    → (full ≡ false → over ≡ false → P z.1)
    → P (
        tables_after s
          (if full then ok x else if over then ok y else if taken then throw e else ok z))
branches P s true over taken x y z e ps px py pz = px
branches P s false true taken x y z e ps px py pz = py
branches P s false false true x y z e ps px py pz = ps
branches P s false false false x y z e ps px py pz = pz refl refl

granted-calls :
    (policy : Text → Text → ProviderLimitPolicy) (input : AcquireInput) (now : ℕ)
    (permits : List Permit)
    → leb
        (policy input.provider input.operation).concurrency_limit
        (live_permits input.provider input.operation now permits)
      ≡ false
    → ((p o : Text) → live_permits p o now permits ≤ (policy p o).concurrency_limit)
    → (p o : Text)
    → live_permits p o now
        (permits ++ new_permit (policy input.provider input.operation) input now ∷ [])
      ≤ (policy p o).concurrency_limit
granted-calls policy input now permits room h p o =
    let limit = policy input.provider input.operation in
    let more = new_permit-live limit input p o now permits in
    elim (Bool-cases (text_eq input.provider p && text_eq input.operation o)) [
      | inl y ↦
          let same_p = (text_eq_iff input.provider p).0 (ground arith) in
          let same_o = (text_eq_iff input.operation o).0 (ground arith) in
          let room' : live_permits p o now permits < (policy p o).concurrency_limit =
            subst (λ q. live_permits q o now permits < (policy q o).concurrency_limit) same_p
              (subst
                (λ q.
                  live_permits input.provider q now permits
                  < (policy input.provider q).concurrency_limit)
                same_o (ground arith)) in
          ground arith
      | inr n ↦ let old = h p o in ground arith
    ]

granted-count :
    (limit : ProviderLimitPolicy) (in_flight : ℕ) (window : RateWindow)
    → leb limit.request_limit window.request_count ≡ false
    → (granted_window limit in_flight window).request_count ≤ limit.request_limit
unfolding granted_window
granted-count limit in_flight window h = ground arith

acquire-IsWithin :
    (policy : Text → Text → ProviderLimitPolicy) (input : AcquireInput) (s : Limits)
    → IsWithin policy s
    → IsWithin policy (tables_after s (acquire (policy input.provider input.operation) input s))
unfolding acquire
acquire-IsWithin policy input s v =
    let limit = policy input.provider input.operation in
    let locked = window_or_new limit s.now (s.windows input.provider input.operation) in
    let window = current_window limit s.now locked in
    let permits = release_expired input.provider input.operation s.now s.permits in
    let in_flight = live_permits input.provider input.operation s.now permits in
    let counted =
      window_within limit s.now (s.windows input.provider input.operation)
        (v.requests input.provider input.operation) in
    let calls : (p o : Text) → live_permits p o s.now permits ≤ (policy p o).concurrency_limit =
      λ p o.
        le_trans (release_expired-live input.provider input.operation p o s.now s.permits)
          (v.calls p o) in
    let kept = λ (new : RateWindow) (h : new.request_count ≤ limit.request_limit).
      write_window-within policy input.provider input.operation new s.windows h v.requests in
    branches (IsWithin policy) s (leb limit.concurrency_limit in_flight)
      (leb limit.request_limit window.request_count) _ _ _ _ _ v
      (record { calls = calls; requests = kept (record window { in_flight = in_flight }) counted })
      (record { calls = calls; requests = kept window counted })
      (λ room left. record {
        calls = granted-calls policy input s.now permits room calls;
        requests =
            kept (granted_window limit in_flight window)
              (granted-count limit in_flight window left);
      })

extend-live :
    (id owner p o : Text) (now ms : ℕ) (permits : List Permit)
    → live_permits p o now (
        map
          (λ x.
            if is_held_by id owner x && is_live now x
            then record x { expires_at = now + ms }
            else x)
          permits)
      ≤ live_permits p o now permits
unfolding live_permits
extend-live id owner p o now ms permits = count-map-le _ _ _ (λ x h. ground arith) permits

extend-IsWithin :
    (policy : Text → Text → ProviderLimitPolicy) (id owner : Text) (ttl : JsNumber) (s : Limits)
    → IsWithin policy s
    → IsWithin policy (tables_after s (extend_provider_permit id owner ttl s))
unfolding extend_provider_permit
extend-IsWithin policy id owner ttl s v = elim (Option-cases (safe_integer_between 1 3600000 ttl)) [
  | inl e ↦ rw e v
  | inr (ms, e) ↦ rw e (record {
    calls = λ p o. le_trans (extend-live id owner p o s.now ms s.permits) (v.calls p o);
    requests = v.requests;
  })
]

recount_window-within :
    (policy : Text → Text → ProviderLimitPolicy) (p o : Text) (n : ℕ)
    (windows : Text → Text → Option RateWindow)
    → CountWithin policy windows
    → CountWithin policy (recount_window p o n windows)
unfolding recount_window
recount_window-within policy p o n windows h p' o' w e = elim (Option-cases (windows p' o')) [
  | inl missing ↦ ground arith
  | inr (old, found) ↦ let bound = h p' o' old found in ground arith
]

release-live :
    (id owner p o : Text) (now : ℕ) (permits : List Permit)
    → live_permits p o now (
        map
          (λ x.
            if is_held_by id owner x && not (is_some x.released_at)
            then record x { released_at = some now }
            else x)
          permits)
      ≤ live_permits p o now permits
unfolding live_permits
release-live id owner p o now permits = count-map-le _ _ _ (λ x h. ground arith) permits

after_release-IsWithin :
    (policy : Text → Text → ProviderLimitPolicy) (found : Option Permit) (permits : List Permit)
    (s : Limits)
    → ((p o : Text) → live_permits p o s.now permits ≤ live_permits p o s.now s.permits)
    → IsWithin policy s
    → IsWithin policy (after_release found permits s).1
after_release-IsWithin policy none permits s fewer v = v
after_release-IsWithin policy (some x) permits s fewer v = record {
  calls = λ p o. le_trans (fewer p o) (v.calls p o);
  requests =
      recount_window-within policy x.provider x.operation
        (live_permits x.provider x.operation s.now permits) s.windows v.requests;
}

release-IsWithin :
    (policy : Text → Text → ProviderLimitPolicy) (id owner : Text) (s : Limits)
    → IsWithin policy s
    → IsWithin policy (release_provider_permit id owner s).1
unfolding release_provider_permit
release-IsWithin policy id owner s v =
    after_release-IsWithin policy _ _ s (λ p o. release-live id owner p o s.now s.permits) v

live_permits-later :
    (p o : Text) (now ms : ℕ) (permits : List Permit)
    → live_permits p o (now + ms) permits ≤ live_permits p o now permits
unfolding live_permits is_live
live_permits-later p o now ms permits = count-le _ _ (λ x h. ground arith) permits

run_call-IsWithin :
    (policy : Text → Text → ProviderLimitPolicy) (c : Call) (s : Limits)
    → IsWithin policy s
    → IsWithin policy (run_call policy c s)
unfolding run_call
run_call-IsWithin policy (acquire_permit input) s v = acquire-IsWithin policy input s v
run_call-IsWithin policy (extend_permit id owner ttl) s v = extend-IsWithin policy id owner ttl s v
run_call-IsWithin policy (release_permit id owner) s v = release-IsWithin policy id owner s v
run_call-IsWithin policy (pass_time ms) s v = record {
  calls = λ p o. le_trans (live_permits-later p o s.now ms s.permits) (v.calls p o);
  requests = v.requests;
}

run_calls_keep :
    (policy : Text → Text → ProviderLimitPolicy) (cs : List Call) (s : Limits)
    → IsWithin policy s
    → IsWithin policy (run_calls policy cs s)
unfolding run_calls
run_calls_keep policy [] s v = v
run_calls_keep policy (c ∷ cs) s v = run_calls_keep policy cs _ (run_call-IsWithin policy c s v)

-- With one policy for each provider and operation, any calls that acquire, extend and release
-- permits, in any order, by any owners and with time passing, from tables with no window and no
-- permit, leave no provider and operation with more live permits than its concurrency limit, nor a
-- window with a higher count of requests than its request limit.
pub run_calls-IsWithin :
    (policy : Text → Text → ProviderLimitPolicy) (cs : List Call) (now : ℕ)
    → IsWithin policy (run_calls policy cs (no_permits now))
unfolding live_permits
run_calls-IsWithin policy cs now =
    run_calls_keep policy cs (no_permits now)
      (record { calls = λ p o. omega arith; requests = λ p o w e. absurd (cc) })
