-- ===== src/Security/Addresses.antt =====
-- lib/security/url.ts: which IP addresses are public. `is_ip`, the family of an address or 0
-- (node:net), is a parameter. The digits of an address are read as they stand, which is what
-- `Number` does on an address that `is_ip` accepts; a mask of a prefix compares quotients.
pub mod Ranges
use ai_research_workbench.Common.{
  ℕ, zero, suc, ◌+◌, ◌-◌, ◌*◌, ◌/◌, ◌%◌, ◌^◌, Bool, true, false, not, ◌&&◌, ◌||◌, Option, none,
  some, List, [], ◌∷◌, ◌++◌, map, any, all, length, take, leb, ltb, nat_eq, if◌then◌else◌, Text,
  text,
}
use ai_research_workbench.Common.Outcome.{
  Outcome, ok, throw, ◌>>=◌, ◌>>◌, require, error, invalid_url, disallowed_address,
}

-- `value.split(separator)` at one unit.
abbrev onto_head : ℕ → List Text → List Text
onto_head c [] = (c ∷ []) ∷ []
onto_head c (t ∷ ts) = (c ∷ t) ∷ ts

unfoldable pub split_at : ℕ → Text → List Text
split_at separator [] = [] ∷ []
split_at separator (c ∷ s) =
    let rest = split_at separator s in if nat_eq c separator then [] ∷ rest else onto_head c rest

-- `value.split("::")`
unfoldable pub split_double : Text → List Text
split_double [] = [] ∷ []
split_double (c ∷ []) = (c ∷ []) ∷ []
split_double (c ∷ d ∷ s) =
    let apart = split_double s in
    let next = split_double (d ∷ s) in
    if nat_eq c 58 && nat_eq d 58 then [] ∷ apart else onto_head c next

unfoldable pub lower_case : Text → Text
lower_case s = map (λ c. if leb 65 c && leb c 90 then c + 32 else c) s

-- The number of a text of digits, from that of the digits before.
unfoldable pub decimal_from : ℕ → Text → ℕ
decimal_from n [] = n
decimal_from n (c ∷ s) = decimal_from (n * 10 + (c - 48)) s

unfoldable pub octets_from : ℕ → List Text → ℕ
unfolding decimal_from
octets_from value [] = value
octets_from value (octet ∷ octets) = octets_from (value * 256 + decimal_from 0 octet) octets

unfoldable pub ipv4_to_number : Text → ℕ
unfolding split_at octets_from
ipv4_to_number address = octets_from 0 (split_at 46 address) % 2 ^ 32

unfoldable pub ipv4_in_cidr : ℕ → ℕ → ℕ → Bool
ipv4_in_cidr address network prefix =
    nat_eq (address / 2 ^ (32 - prefix)) (network / 2 ^ (32 - prefix))

abbrev pub blocked_ipv4 : List (Text × ℕ)
blocked_ipv4 =
    (text "0.0.0.0", 8)
    ∷ (text "10.0.0.0", 8)
    ∷ (text "100.64.0.0", 10)
    ∷ (text "127.0.0.0", 8)
    ∷ (text "169.254.0.0", 16)
    ∷ (text "172.16.0.0", 12)
    ∷ (text "192.0.0.0", 24)
    ∷ (text "192.0.2.0", 24)
    ∷ (text "192.88.99.0", 24)
    ∷ (text "192.168.0.0", 16)
    ∷ (text "198.18.0.0", 15)
    ∷ (text "198.51.100.0", 24)
    ∷ (text "203.0.113.0", 24)
    ∷ (text "224.0.0.0", 4)
    ∷ (text "240.0.0.0", 4)
    ∷ []

-- Whether the number of an address is in none of the blocked networks.
unfoldable pub is_public_number : ℕ → Bool
unfolding ipv4_in_cidr ipv4_to_number text
is_public_number value = not (any (λ b. ipv4_in_cidr value (ipv4_to_number b.0) b.1) blocked_ipv4)

unfoldable pub is_public_ipv4 : Text → Bool
is_public_ipv4 address = is_public_number (ipv4_to_number address)

-- `value.toString(16)` of a number below 65536.
abbrev hex_digit : ℕ → ℕ
hex_digit n = if ltb n 10 then 48 + n else 87 + n

unfoldable pub to_hex : ℕ → Text
to_hex n =
    if ltb n 16
    then hex_digit n ∷ []
    else if ltb n 256
    then hex_digit (n / 16) ∷ hex_digit (n % 16) ∷ []
    else if ltb n 4096
    then hex_digit (n / 256) ∷ hex_digit (n / 16 % 16) ∷ hex_digit (n % 16) ∷ []
    else hex_digit (n / 4096)
      ∷ hex_digit (n / 256 % 16)
      ∷ hex_digit (n / 16 % 16)
      ∷ hex_digit (n % 16)
      ∷ []

abbrev is_digit : ℕ → Bool
is_digit c = leb 48 c && leb c 57

abbrev is_hex_digit : ℕ → Bool
is_hex_digit c = is_digit c || leb 97 c && leb c 102

-- `/^\d{1,3}(?:\.\d{1,3}){3}$/`
unfoldable pub is_dotted : Text → Bool
is_dotted s =
    let octets = split_at 46 s in
    nat_eq (length octets) 4
    && all (λ o. leb 1 (length o) && leb (length o) 3 && all is_digit o) octets

-- `/^[0-9a-f]{1,4}$/`
unfoldable pub is_hex_group : Text → Bool
is_hex_group group = leb 1 (length group) && leb (length group) 4 && all is_hex_digit group

unfoldable pub hex_from : ℕ → Text → ℕ
hex_from n [] = n
hex_from n (c ∷ s) = hex_from (n * 16 + (if is_digit c then c - 48 else c - 87)) s

unfoldable pub last_text : Text → List Text → Text
last_text t [] = t
last_text t (u ∷ us) = last_text u us

unfoldable pub repeat : ℕ → List Text
repeat zero = []
repeat (suc n) = (48 ∷ []) ∷ repeat n

unfoldable pub groups_to_number : ℕ → List Text → ℕ
unfolding hex_from
groups_to_number value [] = value
groups_to_number value (group ∷ groups) = groups_to_number (value * 65536 + hex_from 0 group) groups

abbrev parts_of : Text → List Text
parts_of [] = []
parts_of (c ∷ s) = split_at 58 (c ∷ s)

-- The groups of the halves, of which `::` stands between two.
unfoldable pub groups_of_halves : List Text → Outcome (List Text)
unfolding repeat is_hex_group
groups_of_halves [] = throw (error invalid_url)
groups_of_halves (half ∷ []) =
    let left = parts_of half in
    require (nat_eq (length left) 8 && all is_hex_group left) (error invalid_url) >> ok left
groups_of_halves (half ∷ other ∷ []) =
    let left = parts_of half in
    let right = parts_of other in
    let groups = left ++ (repeat (8 - (length left + length right)) ++ right) in
    require (leb (length left + length right) 8) (error invalid_url)
    >> require (nat_eq (length groups) 8 && all is_hex_group groups) (error invalid_url)
    >> ok groups
groups_of_halves (_ ∷ _ ∷ _ ∷ _) = throw (error invalid_url)

module _ (is_ip : Text → ℕ) where
  -- A dotted address at the end is replaced by two groups.
  unfoldable pub replace_dotted : Text → Outcome Text
  unfolding is_dotted last_text ipv4_to_number to_hex
  replace_dotted normalized =
      let tail = last_text [] (split_at 58 normalized) in
      let value = ipv4_to_number tail in
      let front = take (length normalized - length tail) normalized in
      if is_dotted tail
      then require (nat_eq (is_ip tail) 4) (error invalid_url)
        >> ok (front ++ (to_hex (value / 65536) ++ 58 ∷ to_hex (value % 65536)))
      else ok normalized

  unfoldable pub ipv6_to_big_int : Text → Outcome ℕ
  unfolding lower_case split_double groups_of_halves groups_to_number
  ipv6_to_big_int address =
      require (not (any (λ c. nat_eq c 37) address)) (error disallowed_address)
      >> replace_dotted (lower_case address)
      >>= λ normalized.
          groups_of_halves (split_double normalized) >>= λ groups. ok (groups_to_number 0 groups)

  unfoldable pub ipv6_in_cidr : ℕ → ℕ → ℕ → Bool
  ipv6_in_cidr address network prefix =
      nat_eq (address / 2 ^ (128 - prefix)) (network / 2 ^ (128 - prefix))

  abbrev blocked_ipv6 : List (Text × ℕ)
  blocked_ipv6 =
      (text "::", 96)
      ∷ (text "::1", 128)
      ∷ (text "::ffff:0:0", 96)
      ∷ (text "64:ff9b::", 96)
      ∷ (text "64:ff9b:1::", 48)
      ∷ (text "100::", 64)
      ∷ (text "2001::", 23)
      ∷ (text "2001:db8::", 32)
      ∷ (text "2002::", 16)
      ∷ (text "fc00::", 7)
      ∷ (text "fe80::", 10)
      ∷ (text "fec0::", 10)
      ∷ (text "ff00::", 8)
      ∷ []

  unfoldable pub is_blocked_ipv6 : ℕ → List (Text × ℕ) → Outcome Bool
  unfolding ipv6_in_cidr ipv6_to_big_int
  is_blocked_ipv6 value [] = ok false
  is_blocked_ipv6 value ((network, prefix) ∷ networks) =
      let rest = is_blocked_ipv6 value networks in
      ipv6_to_big_int network >>= λ n. if ipv6_in_cidr value n prefix then ok true else rest

  unfoldable pub is_public_ipv6 : Text → Outcome Bool
  unfolding is_blocked_ipv6
  is_public_ipv6 address = ipv6_to_big_int address >>= λ value.
      is_blocked_ipv6 value blocked_ipv6 >>= λ blocked. ok (not blocked)

  unfoldable pub is_public_ip_address : Text → Outcome Bool
  unfolding is_public_ipv4 is_public_ipv6
  is_public_ip_address address =
      let family = is_ip address in
      if nat_eq family 4
      then ok (is_public_ipv4 address)
      else if nat_eq family 6
      then is_public_ipv6 address
      else ok false
