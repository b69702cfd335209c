-- ===== src/Types.antt =====
-- dns_wire.c, "DNS type name utilities": `type2str` and `str2type`. The two functions name the same
-- types in the same order, so their cases are one table here.
pub mod Laws
use simple_dns.Common.{
  ℕ, ◌%◌, ◌^◌, Bool, false, ◌&&◌, Option, none, some, List, [], ◌∷◌, ◌++◌, Bytes, take, drop, ◌==◌,
  if◌then◌else◌,
}
use simple_dns.Common.Text.{strcase_eq}
use simple_dns.Common.Text.Decimal.{bytes, digits, is_digit, atoi}

unfoldable pub type_names : List (ℕ × Bytes)
unfolding bytes
type_names =
    (1, bytes "A")
    ∷ (2, bytes "NS")
    ∷ (5, bytes "CNAME")
    ∷ (6, bytes "SOA")
    ∷ (12, bytes "PTR")
    ∷ (15, bytes "MX")
    ∷ (16, bytes "TXT")
    ∷ (24, bytes "SIG")
    ∷ (25, bytes "KEY")
    ∷ (28, bytes "AAAA")
    ∷ (29, bytes "LOC")
    ∷ (33, bytes "SRV")
    ∷ (35, bytes "NAPTR")
    ∷ (39, bytes "DNAME")
    ∷ (44, bytes "SSHFP")
    ∷ (43, bytes "DS")
    ∷ (46, bytes "RRSIG")
    ∷ (47, bytes "NSEC")
    ∷ (48, bytes "DNSKEY")
    ∷ (50, bytes "NSEC3")
    ∷ (51, bytes "NSEC3PARAM")
    ∷ (52, bytes "TLSA")
    ∷ (59, bytes "CDS")
    ∷ (60, bytes "CDNSKEY")
    ∷ (62, bytes "CSYNC")
    ∷ (63, bytes "ZONEMD")
    ∷ (64, bytes "SVCB")
    ∷ (65, bytes "HTTPS")
    ∷ (256, bytes "URI")
    ∷ (257, bytes "CAA")
    ∷ (251, bytes "IXFR")
    ∷ (252, bytes "AXFR")
    ∷ (255, bytes "ANY")
    ∷ []

-- The case of the `switch`.
unfoldable pub name_of : List (ℕ × Bytes) → ℕ → Option Bytes
name_of [] t = none
name_of ((k, name) ∷ names) t = if t == k then some name else name_of names t

-- The first `strcasecmp` that succeeds.
unfoldable pub type_of : List (ℕ × Bytes) → Bytes → Option ℕ
type_of [] s = none
type_of ((k, name) ∷ names) s = if strcase_eq s name then some k else type_of names s

-- `%u` of a 16-bit number has at most 5 digits.
unfoldable pub number_name : ℕ → Bytes
unfolding bytes
number_name t = bytes "TYPE" ++ digits 5 t

abbrev pub named_or {ℓ} : {A : Type ℓ} → Option A → A → A
named_or (some a) other = a
named_or none other = other

unfoldable pub type2str : ℕ → Bytes
type2str t = named_or (name_of type_names t) (number_name t)

-- Is the first character a digit?
unfoldable pub starts_with_digit : Bytes → Bool
starts_with_digit [] = false
starts_with_digit (c ∷ s) = is_digit c

-- Behind the named types: "TYPE" and a number, or a number.
unfoldable pub number_of : Bytes → ℕ
unfolding bytes
number_of s =
    if strcase_eq (take 4 s) (bytes "TYPE") && starts_with_digit (drop 4 s)
    then atoi (drop 4 s) % 2 ^ 16
    else if starts_with_digit s
    then atoi s % 2 ^ 16
    else 0

unfoldable pub str2type : Bytes → ℕ
str2type s = named_or (type_of type_names s) (number_of s)
