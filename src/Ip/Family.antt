-- ===== src/Ip/Family.antt =====
-- object_graph.c, addresses of both families: `pog_ip`, `pog_parse_ip` and `pog_format_ip`.
use simple_dns.Common.{
  ℕ, ◌%◌, ◌^◌, Bool, false, ◌||◌, Option, none, some, [], ◌∷◌, Bytes, ◌==◌, if◌then◌else◌,
}
use simple_dns.Ip.{pog_parse_ipv4, pog_format_ipv4}
use simple_dns.Ip.V6.{pog_parse_ipv6}
use simple_dns.Ip.Printed.{pog_format_ipv6}

-- `family` is 4 or 6.
pub record PogIp : Type 0 where
  pub family : ℕ
  pub v : ℕ

-- `strchr(s, c)`, as a test
unfoldable pub has_char : Bytes → ℕ → Bool
has_char [] c = false
has_char (x ∷ s) c = (x == c) || has_char s c

abbrev pub family_ip : ℕ → Option ℕ → Option PogIp
family_ip family none = none
family_ip family (some v) = some (record { family = family; v = v })

unfoldable pub pog_parse_ip : Bytes → Option PogIp
pog_parse_ip s =
    if has_char s b':'
    then family_ip 6 (pog_parse_ipv6 s)
    else if has_char s b'.'
    then family_ip 4 (pog_parse_ipv4 s)
    else none

-- The text in a buffer of `n` bytes.
unfoldable pub pog_format_ip : PogIp → ℕ → Bytes
pog_format_ip a n =
    if n == 0
    then []
    else if a.family == 4
    then pog_format_ipv4 (a.v % 2 ^ 32) n
    else pog_format_ipv6 a.v n
