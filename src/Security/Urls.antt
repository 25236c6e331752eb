-- ===== src/Security/Urls.antt =====
-- lib/security/url.ts: the URLs that may be fetched, and the addresses that their hosts resolve to.
-- The parser and the printer of URLs and `is_ip` (node:net) are parameters.
use ai_research_workbench.Common.{
  ℕ, ◌-◌, Bool, true, false, not, ◌&&◌, ◌||◌, Option, none, some, List, [], ◌∷◌, ◌++◌, any, length,
  take, drop, leb, nat_eq, if◌then◌else◌, Text, text, text_eq,
}
use ai_research_workbench.Common.Outcome.{
  Outcome, ok, throw, ◌>>=◌, ◌>>◌, require, error, invalid_url, disallowed_address, dns_failure,
}
use ai_research_workbench.Security.Addresses.{is_public_ip_address, lower_case}

-- The parts of a WHATWG URL that are read; `path` is the rest of it.
pub record Url : Type 0 where
  pub protocol : Text
  pub username : Text
  pub password : Text
  pub hostname : Text
  pub path : Text
  pub fragment : Text

unfoldable pub ends_with : Text → Text → Bool
ends_with value suffix =
    leb (length suffix) (length value) && text_eq (drop (length value - length suffix) value) suffix

abbrev starts_with_bracket : Text → Bool
starts_with_bracket [] = false
starts_with_bracket (c ∷ s) = nat_eq c 91

-- Without the brackets of an IPv6 address and a dot at the end, in lower case.
unfoldable pub normalize_hostname : Text → Text
unfolding ends_with lower_case
normalize_hostname hostname =
    let without_brackets =
      if starts_with_bracket hostname && ends_with hostname (93 ∷ [])
      then take (length hostname - 2) (drop 1 hostname)
      else hostname in
    let dotless =
      if ends_with without_brackets (46 ∷ [])
      then take (length without_brackets - 1) without_brackets
      else without_brackets in
    lower_case dotless

unfoldable pub is_local_name : Text → Bool
unfolding ends_with
is_local_name hostname =
    text_eq hostname (text "localhost")
    || ends_with hostname (text ".localhost")
    || text_eq hostname (text "localhost.localdomain")
    || ends_with hostname (text ".localhost.localdomain")

abbrev pub is_http : Text → Bool
is_http protocol = text_eq protocol (text "http:") || text_eq protocol (text "https:")

abbrev pub is_empty : Text → Bool
is_empty s = nat_eq (length s) 0

abbrev pub parsed : Option Url → Outcome Url
parsed none = throw (error invalid_url)
parsed (some url) = ok url

pub record ResolvedAddress : Type 0 where
  pub address : Text
  pub family : ℕ

pub record ResolvedUrl : Type 0 where
  pub url : Url
  pub hostname : Text
  pub addresses : List ResolvedAddress

abbrev pub same_address : ResolvedAddress → ResolvedAddress → Bool
same_address a b = nat_eq a.family b.family && text_eq a.address b.address

module _ (is_ip : Text → ℕ) where
  -- A literal address has to be public.
  abbrev pub literal_allowed : Text → Outcome Bool
  literal_allowed hostname =
      if nat_eq (is_ip hostname) 0 then ok true else is_public_ip_address is_ip hostname

  -- `validateExternalUrl`, from what the parser makes of its argument.
  unfoldable pub validate_external_url : Option Url → Outcome Url
  unfolding normalize_hostname is_local_name
  validate_external_url value = parsed value >>= λ url.
      let hostname = normalize_hostname url.hostname in
      require (is_http url.protocol) (error invalid_url)
      >> require (is_empty url.username && is_empty url.password) (error invalid_url)
      >> require (not (is_empty hostname)) (error invalid_url)
      >> require (not (is_local_name hostname)) (error disallowed_address)
      >> literal_allowed hostname
      >>= λ allowed. require allowed (error disallowed_address) >> ok (record url { fragment = [] })

  -- The records of a resolver, checked one by one; of equal ones the first is kept.
  unfoldable pub check_records :
      List ResolvedAddress → List ResolvedAddress → Outcome (List ResolvedAddress)
  check_records addresses [] = ok addresses
  check_records addresses (r ∷ rs) =
      let detected = is_ip r.address in
      let rest =
        check_records (if any (same_address r) addresses then addresses else addresses ++ r ∷ [])
          rs in
      require ((nat_eq detected 4 || nat_eq detected 6) && nat_eq detected r.family)
        (error dns_failure)
      >> is_public_ip_address is_ip r.address
      >>= λ public. require public (error disallowed_address) >> rest

  -- `resolver` is what the resolver answers.
  unfoldable pub resolve_and_validate_external_url :
      (Text → Outcome (List ResolvedAddress)) → Option Url → Outcome ResolvedUrl
  unfolding validate_external_url check_records
  resolve_and_validate_external_url resolver value = validate_external_url value >>= λ url.
      let hostname = normalize_hostname url.hostname in
      let family = is_ip hostname in
      (if nat_eq family 0
        then resolver hostname
        else ok (record { address = hostname; family = family } ∷ []))
      >>= λ resolved.
          require (not (nat_eq (length resolved) 0)) (error dns_failure)
          >> check_records [] resolved
          >>= λ addresses. ok (record { url = url; hostname = hostname; addresses = addresses })
