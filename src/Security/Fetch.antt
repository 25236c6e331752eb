-- ===== src/Security/Fetch.antt =====
-- lib/security/url.ts: `safeFetch`, with the requests that it makes. What the resolver and the
-- requester answer at a hop, throwing where they time out, is a parameter, as are the parser of
-- URLs and numbers. The sanitised body of a result and its text are left out.
pub mod Hosts
pub mod Requests
use ai_research_workbench.Common.{
  ℕ, zero, suc, ◌+◌, ◌-◌, ◌*◌, Bool, true, false, not, ◌&&◌, ◌||◌, Option, none, some, List, [],
  ◌∷◌, ◌++◌, map, any, last_match, length, leb, ltb, nat_eq, if◌then◌else◌, Text, text, text_eq,
  trim,
}
use ai_research_workbench.Common.Number.{
  JsNumber, millionths, negative, whole, scale, safe_integer_between,
}
use ai_research_workbench.Common.Outcome.{
  Outcome, ok, throw, ◌>>=◌, ◌>>◌, require, error, redirect_loop, too_many_redirects,
  invalid_redirect, fetch_timeout, response_too_large, unsupported_mime_type, http_error,
  fetch_failed,
}
use ai_research_workbench.Security.Addresses.{lower_case, split_at}
use ai_research_workbench.Security.Urls.{
  Url, ResolvedAddress, ResolvedUrl, validate_external_url, resolve_and_validate_external_url,
}

pub record SafeFetchOptions : Type 0 where
  pub timeout_ms : Option JsNumber
  pub max_bytes : Option JsNumber
  pub max_redirects : Option JsNumber
  pub allowed_mime_types : Option (List Text)
  pub user_agent : Option Text

-- The validated options.
pub record FetchLimits : Type 0 where
  pub timeout_ms : ℕ
  pub max_bytes : ℕ
  pub max_redirects : ℕ
  pub allowed_mime_types : List Text
  pub user_agent : Text

pub record PinnedRequest : Type 0 where
  pub resolved : ResolvedUrl
  pub timeout_ms : ℕ
  pub limits : FetchLimits

pub record PinnedResponse : Type 0 where
  pub status : ℕ
  pub headers : List (Text × Text)
  pub body : Text

pub record FetchHopMetadata : Type 0 where
  pub url : Text
  pub resolved_addresses : List Text
  pub status : ℕ

pub record SafeFetchResult : Type 0 where
  pub requested_url : Text
  pub final_url : Text
  pub status : ℕ
  pub content_type : Text
  pub redirect_count : ℕ
  pub hops : List FetchHopMetadata
  pub hostname : Text
  pub protocol : Text

-- What happens at a hop: the time since the start, the records of a host, and the response.
pub record Hop : Type 0 where
  pub elapsed : ℕ
  pub resolve : Text → Outcome (List ResolvedAddress)
  pub respond : PinnedRequest → Outcome PinnedResponse

abbrev default_mime_types : List Text
default_mime_types =
    text "application/json"
    ∷ text "application/pdf"
    ∷ text "application/xhtml+xml"
    ∷ text "text/csv"
    ∷ text "text/html"
    ∷ text "text/markdown"
    ∷ text "text/plain"
    ∷ []

abbrev number_or : Option JsNumber → ℕ → JsNumber
number_or none n = whole n
number_or (some v) n = v

abbrev bounded : Option ℕ → Outcome ℕ
bounded none = throw (error fetch_failed)
bounded (some n) = ok n

unfoldable pub positive_integer : JsNumber → ℕ → Outcome ℕ
positive_integer value maximum = bounded (safe_integer_between 1 maximum value)

unfoldable pub non_negative_integer : JsNumber → ℕ → Outcome ℕ
non_negative_integer value maximum = bounded (safe_integer_between 0 maximum value)

abbrev texts_or : Option (List Text) → List Text → List Text
texts_or none ts = ts
texts_or (some us) ts = us

abbrev text_or : Option Text → Text → Text
text_or none t = t
text_or (some u) t = u

abbrev agent_of : SafeFetchOptions → Text
agent_of options =
    trim (text_or options.user_agent (text "ai-research-workbench/0.1 research-source-fetcher"))

abbrev mime_types_of : SafeFetchOptions → List Text
mime_types_of options = map lower_case (texts_or options.allowed_mime_types default_mime_types)

abbrev check_texts : Text → List Text → Outcome (Unit {0})
check_texts agent types =
    require
      (leb 1 (length agent)
        && leb (length agent) 256
        && not (any (λ c. nat_eq c 10 || nat_eq c 13) agent))
      (error fetch_failed)
    >> require (leb 1 (length types)) (error fetch_failed)

unfoldable pub fetch_limits : SafeFetchOptions → Outcome FetchLimits
unfolding positive_integer non_negative_integer
fetch_limits options = positive_integer (number_or options.timeout_ms 10000) 30000 >>= λ timeout.
    positive_integer (number_or options.max_bytes 2097152) 10000000 >>= λ bytes.
    non_negative_integer (number_or options.max_redirects 3) 10 >>= λ redirects.
    check_texts (agent_of options) (mime_types_of options)
    >> ok (record {
      timeout_ms = timeout;
      max_bytes = bytes;
      max_redirects = redirects;
      allowed_mime_types = mime_types_of options;
      user_agent = agent_of options;
    })

-- A header, of those with one name the last.
unfoldable pub header : List (Text × Text) → Text → Option Text
header headers name =
    elim (last_match (λ (h : Text × Text). text_eq (lower_case h.0) name) headers) [
      | none ↦ none
      | some h ↦ some h.1
    ]

abbrev first_text : List Text → Text
first_text [] = []
first_text (t ∷ ts) = t

unfoldable pub mime_type : List (Text × Text) → Text
unfolding header
mime_type headers =
    lower_case (trim (first_text (split_at 59 (text_or (header headers (text "content-type")) []))))

abbrev is_redirect : ℕ → Bool
is_redirect status =
    nat_eq status 301
    || nat_eq status 302
    || nat_eq status 303
    || nat_eq status 307
    || nat_eq status 308

abbrev exceeds : ℕ → JsNumber → Bool
exceeds maximum (millionths n) = ltb (maximum * scale) n
exceeds maximum _ = false

-- What a response leads to: a redirect to a URL, or the end.
pub data Step : Type 0 where
  redirected : Url → Step
  finished : Text → Step

pub record UrlLibrary : Type 0 where
  pub is_ip : Text → ℕ
  pub parse_url : Text → Option Url
  pub resolve_location : Text → Url → Option Url
  pub to_text : Url → Text
  pub parse_number : Text → JsNumber

-- One round of the loop: where it went, what was answered and what that leads to.
pub record Round : Type 0 where
  pub resolved : ResolvedUrl
  pub response : PinnedResponse
  pub step : Step

module _ (library : UrlLibrary) where
  unfoldable pub declared_too_large : ℕ → Option Text → Bool
  declared_too_large maximum none = false
  declared_too_large maximum (some value) = exceeds maximum (library.parse_number value)

  abbrev located : Option Url → Outcome Url
  located none = throw (error invalid_redirect)
  located (some url) = ok url

  unfoldable pub redirect_target : ResolvedUrl → Option Text → Outcome Step
  redirect_target resolved none = throw (error invalid_redirect)
  redirect_target resolved (some location) =
      require (leb 1 (length location)) (error invalid_redirect)
      >> located (library.resolve_location location resolved.url)
      >>= λ url. validate_external_url library.is_ip (some url) >>= λ next.
          require
            (not (
              text_eq resolved.url.protocol (text "https:")
              && text_eq next.protocol (text "http:")))
            (error invalid_redirect)
          >> ok (redirected next)

  unfoldable pub decide : Bool → FetchLimits → ResolvedUrl → PinnedResponse → Outcome Step
  unfolding declared_too_large redirect_target mime_type
  decide may_redirect limits resolved response =
      let content_type = mime_type response.headers in
      require (leb (length response.body) limits.max_bytes) (error response_too_large)
      >> require
          (not
            (declared_too_large limits.max_bytes (header response.headers (text "content-length"))))
          (error response_too_large)
      >> (if is_redirect response.status
          then require may_redirect (error too_many_redirects)
            >> redirect_target resolved (header response.headers (text "location"))
          else require (leb 200 response.status && ltb response.status 300) (error http_error)
            >> require
                (leb 1 (length content_type)
                  && any (text_eq content_type) limits.allowed_mime_types)
                (error unsupported_mime_type)
            >> ok (finished content_type))

  abbrev request_at : FetchLimits → Hop → ResolvedUrl → PinnedRequest
  request_at limits hop resolved = record {
    resolved = resolved;
    timeout_ms = limits.timeout_ms - hop.elapsed;
    limits = limits;
  }

  abbrev answered_round :
      Bool → FetchLimits → Hop → Outcome ResolvedUrl → List PinnedRequest × Outcome Round
  answered_round may_redirect limits hop (throw e) = ([], throw e)
  answered_round may_redirect limits hop (ok resolved) = (
    request_at limits hop resolved ∷ [],
    hop.respond (request_at limits hop resolved) >>= λ response.
        decide may_redirect limits resolved response >>= λ step.
        ok (record { resolved = resolved; response = response; step = step }),
  )

  unfoldable pub fetch_round :
      Bool → FetchLimits → Hop → Text → List Text → List PinnedRequest × Outcome Round
  unfolding decide
  fetch_round may_redirect limits hop at visited =
      if any (text_eq at) visited
      then ([], throw (error redirect_loop))
      else if leb limits.timeout_ms hop.elapsed
      then ([], throw (error fetch_timeout))
      else answered_round may_redirect limits hop
          (resolve_and_validate_external_url library.is_ip hop.resolve (library.parse_url at))

  abbrev hop_metadata : Round → FetchHopMetadata
  hop_metadata round = record {
    url = library.to_text round.resolved.url;
    resolved_addresses = map (λ (a : ResolvedAddress). a.address) round.resolved.addresses;
    status = round.response.status;
  }

  abbrev fetched : Text → ℕ → List FetchHopMetadata → Round → Text → SafeFetchResult
  fetched requested count hops round content_type = record {
    requested_url = requested;
    final_url = library.to_text round.resolved.url;
    status = round.response.status;
    content_type = content_type;
    redirect_count = count;
    hops = hops ++ hop_metadata round ∷ [];
    hostname = round.resolved.hostname;
    protocol = round.resolved.url.protocol;
  }

  abbrev after_step :
      (Round → Url → List PinnedRequest × Outcome SafeFetchResult)
      → (Round → Text → SafeFetchResult)
      → List PinnedRequest
      → Round
      → Step
      → List PinnedRequest × Outcome SafeFetchResult
  after_step next last made round (finished content_type) = (made, ok (last round content_type))
  after_step next last made round (redirected url) =
      let more = next round url in (made ++ more.0, more.1)

  -- The end of the loop after a round, where `next` goes on with a redirect.
  abbrev after_round :
      (Round → Url → List PinnedRequest × Outcome SafeFetchResult)
      → (Round → Text → SafeFetchResult)
      → List PinnedRequest × Outcome Round
      → List PinnedRequest × Outcome SafeFetchResult
  after_round next last (made, throw e) = (made, throw e)
  after_round next last (made, ok round) = after_step next last made round round.step

  -- The loop, with the rounds that it may take as fuel; `count` is `redirectCount`, and the first
  -- result lists the requests made.
  unfoldable pub fetch_from :
      ℕ
      → ℕ
      → FetchLimits
      → (ℕ → Hop)
      → Text
      → Text
      → List Text
      → List FetchHopMetadata
      → List PinnedRequest × Outcome SafeFetchResult
  fetch_from zero count limits world requested at visited hops =
      ([], throw (error too_many_redirects))
  fetch_from (suc rounds) count limits world requested at visited hops =
      after_round
        (λ round url.
          fetch_from rounds (suc count) limits world requested (library.to_text url) (at ∷ visited)
            (hops ++ hop_metadata round ∷ []))
        (fetched requested count hops)
        (fetch_round (ltb count limits.max_redirects) limits (world count) at visited)

  abbrev from_url :
      (FetchLimits → Text → List PinnedRequest × Outcome SafeFetchResult)
      → Outcome (FetchLimits × Text)
      → List PinnedRequest × Outcome SafeFetchResult
  from_url run (throw e) = ([], throw e)
  from_url run (ok (limits, requested)) = run limits requested

  -- `safeFetch` where its loop may take so many rounds.
  unfoldable pub fetch_rounds :
      ℕ → SafeFetchOptions → (ℕ → Hop) → Text → List PinnedRequest × Outcome SafeFetchResult
  unfolding fetch_limits fetch_from
  fetch_rounds rounds options world value =
      from_url (λ limits requested. fetch_from rounds 0 limits world requested requested [] [])
        (fetch_limits options >>= λ limits.
          validate_external_url library.is_ip (library.parse_url value) >>= λ url.
          ok (limits, library.to_text url))

  -- More rounds than the guard on `redirectCount` lets through.
  unfoldable pub safe_fetch :
      SafeFetchOptions → (ℕ → Hop) → Text → List PinnedRequest × Outcome SafeFetchResult
  safe_fetch = fetch_rounds 12
