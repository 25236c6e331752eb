-- ===== src/Security/Fetch/Hosts.antt =====
-- The hosts that `resolveAndValidateExternalUrl` of lib/security/url.ts returns.
use ai_research_workbench.Common.{
  ℕ, ◌+◌, ◌≤◌, ◌≡◌, refl, ap, ◌∙◌, subst, Bool, true, false, not, ◌&&◌, ◌||◌, Option, List, [], ◌∷◌,
  ◌++◌, any, length, nat_eq, if◌then◌else◌, Text, All, All-append, length-append, arith,
}
use ai_research_workbench.Common.Outcome.{
  Outcome, ok, ◌>>◌, require, >>=-ok, ok_same, Thrown, error, invalid_url, disallowed_address,
  dns_failure,
}
use ai_research_workbench.Security.Addresses.{is_public_ip_address}
use ai_research_workbench.Security.Urls.{
  Url, ResolvedAddress, ResolvedUrl, is_http, is_local_name, is_empty, parsed, literal_allowed,
  normalize_hostname, same_address, validate_external_url, check_records,
  resolve_and_validate_external_url,
}

pub require-holds : (b : Bool) (e : Thrown) {x : Unit {0}} → require b e ≡ ok x → b ≡ true
require-holds true e h = refl
require-holds false e h = absurd (cc)

not-holds : {b : Bool} → not b ≡ true → b ≡ false
not-holds {b} h = ground arith

module _ (is_ip : Text → ℕ) where
  -- A host that may be asked: its name is not local, the protocol is HTTP or HTTPS, and it has at
  -- least one address, all of which are public.
  pub record IsSafe (resolved : ResolvedUrl) : Type 0 where
    pub web : is_http resolved.url.protocol ≡ true
    pub reached : 1 ≤ length resolved.addresses
    pub remote : is_local_name resolved.hostname ≡ false
    pub public :
        All
          (λ (a : ResolvedAddress). is_public_ip_address is_ip a.address ≡ ok true)
          resolved.addresses

  added :
      (addresses : List ResolvedAddress) (r : ResolvedAddress)
      → All (λ (a : ResolvedAddress). is_public_ip_address is_ip a.address ≡ ok true) addresses
      → is_public_ip_address is_ip r.address ≡ ok true
      → (seen : Bool)
      → All
          (λ (a : ResolvedAddress). is_public_ip_address is_ip a.address ≡ ok true)
          (if seen then addresses else addresses ++ r ∷ [])
  added addresses r h fine true = h
  added addresses r h fine false = All-append _ addresses (r ∷ []) h (fine, tt)

  check_records-public :
      (records addresses : List ResolvedAddress) {checked : List ResolvedAddress}
      → All (λ (a : ResolvedAddress). is_public_ip_address is_ip a.address ≡ ok true) addresses
      → check_records is_ip addresses records ≡ ok checked
      → All (λ (a : ResolvedAddress). is_public_ip_address is_ip a.address ≡ ok true) checked
  unfolding check_records
  check_records-public [] addresses h e = subst (All _) (ok_same e) h
  check_records-public (r ∷ rs) addresses h e =
      let detected = is_ip r.address in
      let family = (nat_eq detected 4 || nat_eq detected 6) && nat_eq detected r.family in
      let checked = require family (error dns_failure) >> is_public_ip_address is_ip r.address in
      let (public, e1, e) = >>=-ok checked _ e in
      let (_, _, e1) = >>=-ok (require family (error dns_failure)) _ e1 in
      let (_, allowed, e) = >>=-ok (require public (error disallowed_address)) _ e in
      let fine : is_public_ip_address is_ip r.address ≡ ok true =
        e1 ∙ ap (λ b. ok b) (require-holds public (error disallowed_address) allowed) in
      check_records-public rs _ (added addresses r h fine (any (same_address r) addresses)) e

  added_some :
      (addresses : List ResolvedAddress) (r : ResolvedAddress) (seen : Bool)
      → (seen ≡ true → 1 ≤ length addresses)
      → 1 ≤ length (if seen then addresses else addresses ++ r ∷ [])
  added_some addresses r true h = h refl
  added_some addresses r false h = let total = length-append addresses (r ∷ []) in omega arith

  any-length :
      (p : ResolvedAddress → Bool) (xs : List ResolvedAddress) → any p xs ≡ true → 1 ≤ length xs
  any-length p [] h = absurd (cc)
  any-length p (x ∷ xs) h = omega arith

  check_records-some :
      (records addresses : List ResolvedAddress) {checked : List ResolvedAddress}
      → 1 ≤ length addresses + length records
      → check_records is_ip addresses records ≡ ok checked
      → 1 ≤ length checked
  unfolding check_records
  check_records-some [] addresses h e =
      subst (λ (xs : List ResolvedAddress). 1 ≤ length xs) (ok_same e) (omega arith)
  check_records-some (r ∷ rs) addresses h e =
      let detected = is_ip r.address in
      let family = (nat_eq detected 4 || nat_eq detected 6) && nat_eq detected r.family in
      let checked = require family (error dns_failure) >> is_public_ip_address is_ip r.address in
      let (public, _, e) = >>=-ok checked _ e in
      let (_, _, e) = >>=-ok (require public (error disallowed_address)) _ e in
      let seen = any (same_address r) addresses in
      let some_there = added_some addresses r seen (any-length (same_address r) addresses) in
      check_records-some rs _ (omega arith) e

  nonempty : (n : ℕ) → not (nat_eq n 0) ≡ true → 1 ≤ n
  nonempty n h = ground arith

  validated_url :
      (value : Option Url) {url : Url}
      → validate_external_url is_ip value ≡ ok url
      → (is_http url.protocol ≡ true) × (is_local_name (normalize_hostname url.hostname) ≡ false)
  unfolding validate_external_url
  validated_url value e =
      let (u, _, e) = >>=-ok (parsed value) _ e in
      let hostname = normalize_hostname u.hostname in
      let web = require (is_http u.protocol) (error invalid_url) in
      let plain = web >> require (is_empty u.username && is_empty u.password) (error invalid_url) in
      let named = plain >> require (not (is_empty hostname)) (error invalid_url) in
      let remote = named >> require (not (is_local_name hostname)) (error disallowed_address) in
      let (allowed, e1, e) = >>=-ok (remote >> literal_allowed is_ip hostname) _ e in
      let (_, e2, _) = >>=-ok remote _ e1 in
      let (_, e3, away) = >>=-ok named _ e2 in
      let (_, e4, _) = >>=-ok plain _ e3 in
      let (_, http, _) = >>=-ok web _ e4 in
      let (_, _, e) = >>=-ok (require allowed (error disallowed_address)) _ e in
      let distant = require-holds (not (is_local_name hostname)) (error disallowed_address) away in
      subst
        (λ (v : Url).
          (is_http v.protocol ≡ true) × (is_local_name (normalize_hostname v.hostname) ≡ false))
        (ok_same e) (require-holds (is_http u.protocol) (error invalid_url) http, not-holds distant)

  pub resolved-IsSafe :
      (resolver : Text → Outcome (List ResolvedAddress)) (value : Option Url)
      {resolved : ResolvedUrl}
      → resolve_and_validate_external_url is_ip resolver value ≡ ok resolved
      → IsSafe resolved
  unfolding resolve_and_validate_external_url
  resolved-IsSafe resolver value e =
      let (url, e1, e) = >>=-ok (validate_external_url is_ip value) _ e in
      let (web, remote) = validated_url value e1 in
      let hostname = normalize_hostname url.hostname in
      let family = is_ip hostname in
      let asked : Outcome (List ResolvedAddress) =
        if nat_eq family 0
        then resolver hostname
        else ok (record { address = hostname; family = family } ∷ []) in
      let (records, _, e) = >>=-ok asked _ e in
      let some_given = require (not (nat_eq (length records) 0)) (error dns_failure) in
      let (addresses, e2, e) = >>=-ok (some_given >> check_records is_ip [] records) _ e in
      let (_, given, e2) = >>=-ok some_given _ e2 in
      let few = require-holds (not (nat_eq (length records) 0)) (error dns_failure) given in
      let many = nonempty (length records) few in
      subst IsSafe (ok_same e) (record {
        web = web;
        reached = check_records-some records [] (omega arith) e2;
        remote = remote;
        public = check_records-public records [] tt e2;
      })
