-- ===== src/Security/Addresses/Ranges.antt =====
-- The ranges of the IPv4 addresses that are not public.
use ai_research_workbench.Common.{
  ℕ, ◌+◌, ◌*◌, ◌/◌, ◌≡◌, refl, Bool, false, not, ◌||◌, ◌&&◌, leb, nat_eq, arith,
}
use ai_research_workbench.Security.Addresses.{is_public_number, split_at, octets_from, decimal_from}

-- The number of four octets.
abbrev pub dotted : ℕ → ℕ → ℕ → ℕ → ℕ
dotted a b c d = ((a * 256 + b) * 256 + c) * 256 + d

abbrev pub between : ℕ → ℕ → ℕ → Bool
between low value high = leb low value && leb value high

network_8 : (n v : ℕ) → nat_eq (v / 16777216) n ≡ between (n * 16777216) v (n * 16777216 + 16777215)
network_8 n v = ground arith

network_24 : (n v : ℕ) → nat_eq (v / 256) n ≡ between (n * 256) v (n * 256 + 255)
network_24 n v = ground arith

network_16 : (n v : ℕ) → nat_eq (v / 65536) n ≡ between (n * 65536) v (n * 65536 + 65535)
network_16 n v = ground arith

network_4 :
    (n v : ℕ) → nat_eq (v / 268435456) n ≡ between (n * 268435456) v (n * 268435456 + 268435455)
network_4 n v = ground arith

network_10 : (n v : ℕ) → nat_eq (v / 4194304) n ≡ between (n * 4194304) v (n * 4194304 + 4194303)
network_10 n v = ground arith

network_12 : (n v : ℕ) → nat_eq (v / 1048576) n ≡ between (n * 1048576) v (n * 1048576 + 1048575)
network_12 n v = ground arith

network_15 : (n v : ℕ) → nat_eq (v / 131072) n ≡ between (n * 131072) v (n * 131072 + 131071)
network_15 n v = ground arith

-- An IPv4 address is public exactly if it lies in none of these ranges of addresses.
pub is_public_number_ranges :
    (value : ℕ)
    → is_public_number value
      ≡ not (
          between (dotted 0 0 0 0) value (dotted 0 255 255 255)
          || (between (dotted 10 0 0 0) value (dotted 10 255 255 255)
              || (between (dotted 100 64 0 0) value (dotted 100 127 255 255)
                  || (between (dotted 127 0 0 0) value (dotted 127 255 255 255)
                      || (between (dotted 169 254 0 0) value (dotted 169 254 255 255)
                          || (between (dotted 172 16 0 0) value (dotted 172 31 255 255)
                              || (between (dotted 192 0 0 0) value (dotted 192 0 0 255)
                                  || (between (dotted 192 0 2 0) value (dotted 192 0 2 255)
                                      || (between (dotted 192 88 99 0) value (dotted 192 88 99 255)
                                          || (between
                                                (dotted 192 168 0 0)
                                                value
                                                (dotted 192 168 255 255)
                                              || (between
                                                    (dotted 198 18 0 0)
                                                    value
                                                    (dotted 198 19 255 255)
                                                  || (between
                                                        (dotted 198 51 100 0)
                                                        value
                                                        (dotted 198 51 100 255)
                                                      || (between
                                                            (dotted 203 0 113 0)
                                                            value
                                                            (dotted 203 0 113 255)
                                                          || (between
                                                            (dotted 224 0 0 0)
                                                            value
                                                            (dotted 239 255 255 255)
                                                            || (between
                                                            (dotted 240 0 0 0)
                                                            value
                                                            (dotted 255 255 255 255)
                                                            || false)))))))))))))))
unfolding is_public_number split_at octets_from decimal_from
is_public_number_ranges value =
    rw
      (
        network_8 0 value,
        network_8 10 value,
        network_10 401 value,
        network_8 127 value,
        network_16 43518 value,
        network_12 2753 value,
        network_24 12582912 value,
        network_24 12582914 value,
        network_24 12605539 value,
        network_16 49320 value,
        network_15 25353 value,
        network_24 12989284 value,
        network_24 13303921 value,
        network_4 14 value,
        network_4 15 value,
      )
      refl
