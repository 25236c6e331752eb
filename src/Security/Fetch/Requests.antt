-- ===== src/Security/Fetch/Requests.antt =====
-- The requests that `safeFetch` of lib/security/url.ts makes, and the number of its rounds.
use ai_research_workbench.Common.{
  ℕ, zero, suc, ◌+◌, ◌-◌, ◌<◌, ltb, ◌≤◌, ◌≡◌, refl, sym, ap, subst, Bool, true, false, not, ◌&&◌,
  Bool-cases, inl, inr, Option, none, some, List, [], ◌∷◌, ◌++◌, any, length, leb, if◌then◌else◌,
  Text, text, text_eq, All, All-append, length-append, arith,
}
use ai_research_workbench.Common.Outcome.{
  Outcome, ok, throw, ◌>>=◌, ◌>>◌, require, >>=-ok, ok_same, error, too_many_redirects,
  response_too_large, http_error, unsupported_mime_type,
}
use ai_research_workbench.Common.Number.{safe_integer_between_bounds}
use ai_research_workbench.Security.Urls.{Url, ResolvedUrl, validate_external_url}
use ai_research_workbench.Security.Fetch.{
  SafeFetchOptions, FetchLimits, fetch_limits, bounded, number_or, agent_of, mime_types_of,
  check_texts, positive_integer, non_negative_integer, PinnedRequest, SafeFetchResult, Hop, Round,
  Step, redirected, finished, UrlLibrary, FetchHopMetadata, answered_round, after_round, after_step,
  fetch_round, fetch_from, from_url, decide, fetched, hop_metadata, is_redirect, declared_too_large,
  mime_type, header, PinnedResponse, fetch_rounds, safe_fetch,
}
use ai_research_workbench.Security.Fetch.Hosts.{IsSafe, resolved-IsSafe}

bounded_ok : (o : Option ℕ) {n : ℕ} → bounded o ≡ ok n → o ≡ some n
bounded_ok none h = absurd (cc)
bounded_ok (some m) h = ground arith

fetch_limits_redirects :
    (options : SafeFetchOptions) {limits : FetchLimits}
    → fetch_limits options ≡ ok limits
    → limits.max_redirects ≤ 10
unfolding fetch_limits
fetch_limits_redirects options e =
    let (timeout, _, e) =
      >>=-ok (positive_integer (number_or options.timeout_ms 10000) 30000) _ e in
    let (bytes, _, e) =
      >>=-ok (positive_integer (number_or options.max_bytes 2097152) 10000000) _ e in
    let (redirects, e1, e) =
      >>=-ok (non_negative_integer (number_or options.max_redirects 3) 10) _ e in
    let (_, few, _) =
      safe_integer_between_bounds 0 10 (number_or options.max_redirects 3) (bounded_ok _ e1) in
    let (_, _, e) = >>=-ok (check_texts (agent_of options) (mime_types_of options)) _ e in
    let same = ap (λ (l : FetchLimits). l.max_redirects) (ok_same e) in
    subst (λ (k : ℕ). k ≤ 10) same few

-- Safe requests, of which there are so many at most.
pub record AtMost (is_ip : Text → ℕ) (n : ℕ) (made : List PinnedRequest) : Type 0 where
  pub safe : All (λ (r : PinnedRequest). IsSafe is_ip r.resolved) made
  pub few : length made ≤ n

module _ (library : UrlLibrary) where
  answered_round-AtMost :
      (may_redirect : Bool) (limits : FetchLimits) (hop : Hop) (resolved : Outcome ResolvedUrl)
      → ((r : ResolvedUrl) → resolved ≡ ok r → IsSafe library.is_ip r)
      → AtMost library.is_ip 1 (answered_round library may_redirect limits hop resolved).0
  answered_round-AtMost may_redirect limits hop (throw e) h = record {
    safe = tt;
    few = omega arith;
  }
  answered_round-AtMost may_redirect limits hop (ok r) h = record {
    safe = (h r refl, tt);
    few = omega arith;
  }

  fetch_round-AtMost :
      (may_redirect : Bool) (limits : FetchLimits) (hop : Hop) (at : Text) (visited : List Text)
      → AtMost library.is_ip 1 (fetch_round library may_redirect limits hop at visited).0
  unfolding fetch_round
  fetch_round-AtMost may_redirect limits hop at visited =
      elim (Bool-cases (any (text_eq at) visited)) [
        | inl e ↦ rw e (record { safe = tt; few = omega arith })
        | inr e ↦ elim (Bool-cases (leb limits.timeout_ms hop.elapsed)) [
          | inl f ↦ rw (e, f) (record { safe = tt; few = omega arith })
          | inr f ↦
              rw (e, f)
                (answered_round-AtMost may_redirect limits hop _
                  (λ r made. resolved-IsSafe library.is_ip hop.resolve (library.parse_url at) made))
        ]
      ]

  after_step-AtMost :
      (n : ℕ) (next : Round → Url → List PinnedRequest × Outcome SafeFetchResult)
      (last : Round → Text → SafeFetchResult) (made : List PinnedRequest) (round : Round)
      (step : Step)
      → AtMost library.is_ip 1 made
      → ((r : Round) (url : Url) → AtMost library.is_ip n (next r url).0)
      → AtMost library.is_ip (suc n) (after_step library next last made round step).0
  after_step-AtMost n next last made round (finished content_type) one more = record {
    safe = one.safe;
    few = let k = one.few in omega arith;
  }
  after_step-AtMost n next last made round (redirected url) one more =
      let later = more round url in
      record {
        safe = All-append _ made (next round url).0 one.safe later.safe;
        few =
            let total = length-append made (next round url).0 in
            let k = one.few in let l = later.few in omega arith;
      }

  after_round-AtMost :
      (n : ℕ) (next : Round → Url → List PinnedRequest × Outcome SafeFetchResult)
      (last : Round → Text → SafeFetchResult) (round : List PinnedRequest × Outcome Round)
      → AtMost library.is_ip 1 round.0
      → ((r : Round) (url : Url) → AtMost library.is_ip n (next r url).0)
      → AtMost library.is_ip (suc n) (after_round library next last round).0
  after_round-AtMost n next last (made, throw e) one more = record {
    safe = one.safe;
    few = let k = one.few in omega arith;
  }
  after_round-AtMost n next last (made, ok round) one more =
      after_step-AtMost n next last made round round.step one more

  abbrev is_finished : Step → Bool
  is_finished (redirected url) = false
  is_finished (finished content_type) = true

  -- The round throws, or is the last.
  abbrev is_last : Outcome Round → Bool
  is_last (throw e) = true
  is_last (ok round) = is_finished round.step

  if_finished :
      (b : Bool) (m n : Outcome Step) (step : Step)
      → (m ≡ ok step → is_finished step ≡ true)
      → (n ≡ ok step → is_finished step ≡ true)
      → (if b then m else n) ≡ ok step
      → is_finished step ≡ true
  if_finished true m n step h k e = h e
  if_finished false m n step h k e = k e

  -- Without leave to redirect, a redirect is refused.
  decide-finished :
      (limits : FetchLimits) (resolved : ResolvedUrl) (response : PinnedResponse) (step : Step)
      → decide library false limits resolved response ≡ ok step
      → is_finished step ≡ true
  unfolding decide
  decide-finished limits resolved response step e =
      let type = mime_type response.headers in
      let declared =
        declared_too_large library limits.max_bytes
          (header response.headers (text "content-length")) in
      let size =
        require (leb (length response.body) limits.max_bytes) (error response_too_large)
        >> require (not declared) (error response_too_large) in
      let answered =
        require (leb 200 response.status && ltb response.status 300) (error http_error)
        >> require (leb 1 (length type) && any (text_eq type) limits.allowed_mime_types)
            (error unsupported_mime_type) in
      let (_, _, e) = >>=-ok size _ e in
      if_finished (is_redirect response.status) _ _ step (λ h. absurd (cc))
        (λ h. let (_, _, h) = >>=-ok answered _ h in ap is_finished (sym (ok_same h))) e

  decided-is_last :
      (resolved : ResolvedUrl) (response : PinnedResponse) (o : Outcome Step)
      → ((step : Step) → o ≡ ok step → is_finished step ≡ true)
      → is_last
          (o >>= λ step. ok (record { resolved = resolved; response = response; step = step }))
        ≡ true
  decided-is_last resolved response (throw e) h = refl
  decided-is_last resolved response (ok step) h = h step refl

  responded-is_last :
      (limits : FetchLimits) (resolved : ResolvedUrl) (o : Outcome PinnedResponse)
      → is_last (
          o >>= λ response. decide library false limits resolved response >>= λ step.
          ok (record { resolved = resolved; response = response; step = step }))
        ≡ true
  responded-is_last limits resolved (throw e) = refl
  responded-is_last limits resolved (ok response) =
      decided-is_last resolved response _ (decide-finished limits resolved response)

  answered_round-is_last :
      (limits : FetchLimits) (hop : Hop) (resolved : Outcome ResolvedUrl)
      → is_last (answered_round library false limits hop resolved).1 ≡ true
  answered_round-is_last limits hop (throw e) = refl
  answered_round-is_last limits hop (ok resolved) = responded-is_last limits resolved _

  fetch_round-is_last :
      (limits : FetchLimits) (hop : Hop) (at : Text) (visited : List Text)
      → is_last (fetch_round library false limits hop at visited).1 ≡ true
  unfolding fetch_round
  fetch_round-is_last limits hop at visited = elim (Bool-cases (any (text_eq at) visited)) [
    | inl e ↦ rw e refl
    | inr e ↦ elim (Bool-cases (leb limits.timeout_ms hop.elapsed)) [
      | inl f ↦ rw (e, f) refl
      | inr f ↦ rw (e, f) (answered_round-is_last limits hop _)
    ]
  ]

  -- What goes on after the last round does not matter, and is never looked at twice.
  after_round-last :
      (next next' : Round → Url → List PinnedRequest × Outcome SafeFetchResult)
      (last : Round → Text → SafeFetchResult) (made : List PinnedRequest) (round : Outcome Round)
      → is_last round ≡ true
      → after_round library next last (made, round) ≡ after_round library next' last (made, round)
  after_round-last next next' last made (throw e) h = refl
  after_round-last next next' last made (ok round) h =
      elim round.step
          as (λ (s : Step).
            is_finished s ≡ true
            → after_step library next last made round s
              ≡ after_step library next' last made round s) [
                | redirected url ↦ λ h. absurd (cc)
                | finished content_type ↦ λ h. refl
              ]
        h

  after_round-same :
      (next next' : Round → Url → List PinnedRequest × Outcome SafeFetchResult)
      (last : Round → Text → SafeFetchResult) (round : List PinnedRequest × Outcome Round)
      → ((r : Round) (url : Url) → next r url ≡ next' r url)
      → after_round library next last round ≡ after_round library next' last round
  after_round-same next next' last (made, throw e) h = refl
  after_round-same next next' last (made, ok round) h =
      elim round.step
        as (λ (s : Step).
          after_step library next last made round s ≡ after_step library next' last made round s) [
            | redirected url ↦ rw (h round url) refl
            | finished content_type ↦ refl
          ]

  stopped : Round → Url → List PinnedRequest × Outcome SafeFetchResult
  stopped round url = ([], throw (error too_many_redirects))

  module _ (limits : FetchLimits) (world : ℕ → Hop) (requested : Text) where
    abbrev go_on :
        ℕ
        → ℕ
        → Text
        → List Text
        → List FetchHopMetadata
        → Round
        → Url
        → List PinnedRequest × Outcome SafeFetchResult
    go_on rounds count at visited hops round url =
        fetch_from library rounds (suc count) limits world requested (library.to_text url)
          (at ∷ visited) (hops ++ hop_metadata library round ∷ [])

    fetch_from-AtMost :
        (rounds count : ℕ) (at : Text) (visited : List Text) (hops : List FetchHopMetadata)
        → AtMost library.is_ip
            (suc (limits.max_redirects - count))
            (fetch_from library rounds count limits world requested at visited hops).0
    unfolding fetch_from stopped
    fetch_from-AtMost zero count at visited hops = record { safe = tt; few = omega arith }
    fetch_from-AtMost (suc rounds) count at visited hops =
        elim (Bool-cases (ltb count limits.max_redirects)) [
          | inl e ↦
              let left : suc (limits.max_redirects - suc count) ≡ limits.max_redirects - count =
                ground arith in
              rw e (
                after_round-AtMost (limits.max_redirects - count)
                  (go_on rounds count at visited hops) _
                  (fetch_round library true limits (world count) at visited)
                  (fetch_round-AtMost true limits (world count) at visited)
                  (λ r url.
                    subst (λ n. AtMost library.is_ip n (go_on rounds count at visited hops r url).0)
                      left
                      (fetch_from-AtMost rounds (suc count) (library.to_text url) (at ∷ visited)
                        (hops ++ hop_metadata library r ∷ []))))
          | inr e ↦
              let round = fetch_round library false limits (world count) at visited in
              let final =
                after_round-last (go_on rounds count at visited hops) stopped
                  (fetched library requested count hops) round.0 round.1
                  (fetch_round-is_last limits (world count) at visited) in
              rw (e, final)
                (after_round-AtMost (limits.max_redirects - count) stopped _ round
                  (fetch_round-AtMost false limits (world count) at visited)
                  (λ r url. record { safe = tt; few = omega arith }))
        ]

    -- Two numbers of rounds that are both enough give the same.
    fetch_from-enough :
        (rounds rounds' count : ℕ) (at : Text) (visited : List Text) (hops : List FetchHopMetadata)
        → limits.max_redirects - count < rounds
        → limits.max_redirects - count < rounds'
        → fetch_from library rounds count limits world requested at visited hops
          ≡ fetch_from library rounds' count limits world requested at visited hops
    unfolding fetch_from
    fetch_from-enough zero rounds' count at visited hops h k = absurd (omega arith)
    fetch_from-enough (suc rounds) zero count at visited hops h k = absurd (omega arith)
    fetch_from-enough (suc rounds) (suc rounds') count at visited hops h k =
        elim (Bool-cases (ltb count limits.max_redirects)) [
          | inl e ↦
              after_round-same (go_on rounds count at visited hops)
                (go_on rounds' count at visited hops) (fetched library requested count hops)
                (fetch_round library (ltb count limits.max_redirects) limits (world count) at
                  visited)
                (λ r url.
                  fetch_from-enough rounds rounds' (suc count) (library.to_text url) (at ∷ visited)
                    (hops ++ hop_metadata library r ∷ []) (ground arith) (ground arith))
          | inr e ↦
              let round = fetch_round library false limits (world count) at visited in
              rw e (
                after_round-last (go_on rounds count at visited hops)
                  (go_on rounds' count at visited hops) (fetched library requested count hops)
                  round.0 round.1 (fetch_round-is_last limits (world count) at visited))
        ]

  from_url-AtMost :
      (run : FetchLimits → Text → List PinnedRequest × Outcome SafeFetchResult)
      (given : Outcome (FetchLimits × Text)) (n : ℕ)
      → ((limits : FetchLimits) (requested : Text)
          → given ≡ ok (limits, requested)
          → AtMost library.is_ip n (run limits requested).0)
      → AtMost library.is_ip n (from_url library run given).0
  from_url-AtMost run (throw e) n h = record { safe = tt; few = omega arith }
  from_url-AtMost run (ok (limits, requested)) n h = h limits requested refl

  from_url-same :
      (run run' : FetchLimits → Text → List PinnedRequest × Outcome SafeFetchResult)
      (given : Outcome (FetchLimits × Text))
      → ((limits : FetchLimits) (requested : Text)
          → given ≡ ok (limits, requested)
          → run limits requested ≡ run' limits requested)
      → from_url library run given ≡ from_url library run' given
  from_url-same run run' (throw e) h = refl
  from_url-same run run' (ok (limits, requested)) h = h limits requested refl

  abbrev start : SafeFetchOptions → Text → Outcome (FetchLimits × Text)
  start options value = fetch_limits options >>= λ limits.
      validate_external_url library.is_ip (library.parse_url value) >>= λ url.
      ok (limits, library.to_text url)

  start_redirects :
      (options : SafeFetchOptions) (value : Text) (limits : FetchLimits) (requested : Text)
      → start options value ≡ ok (limits, requested)
      → limits.max_redirects ≤ 10
  start_redirects options value limits requested e =
      let (l, e1, e) = >>=-ok (fetch_limits options) _ e in
      let (url, _, e) =
        >>=-ok (validate_external_url library.is_ip (library.parse_url value)) _ e in
      let same : l ≡ limits = ap (λ (p : FetchLimits × Text). p.0) (ok_same e) in
      subst (λ (m : FetchLimits). m.max_redirects ≤ 10) same (fetch_limits_redirects options e1)

  -- Whatever the URL, the options and the answers of resolver and servers at each hop, and however
  -- many rounds the loop may take: every request that is made, redirects included, is to an HTTP or
  -- HTTPS URL with a host that is no local name, and is pinned to one or more addresses that are all
  -- public; at most 11 requests are made; and more than 12 rounds make no difference.
  pub safe_fetch-AtMost :
      (rounds : ℕ) (options : SafeFetchOptions) (world : ℕ → Hop) (value : Text)
      → AtMost library.is_ip 11 (fetch_rounds library rounds options world value).0
        × (fetch_rounds library (rounds + 12) options world value
            ≡ safe_fetch library options world value)
  unfolding safe_fetch fetch_rounds
  safe_fetch-AtMost rounds options world value = (
    from_url-AtMost _ (start options value) 11 (λ limits requested e.
        let few = start_redirects options value limits requested e in
        let made = fetch_from-AtMost limits world requested rounds 0 requested [] [] in
        record { safe = made.safe; few = let k = made.few in omega arith }),
    from_url-same _ _ (start options value) (λ limits requested e.
        let few = start_redirects options value limits requested e in
        fetch_from-enough limits world requested (rounds + 12) 12 0 requested [] [] (omega arith)
          (omega arith)),
  )
