-- ===== src/Tests/Sorting.antt =====
-- Names in canonical order, from the list of RFC 4034 §6.1.
use simple_dns.Common.{Bytes, ◌≡◌, ◌↔◌, refl}
use simple_dns.Common.Text.{to_lower, strlower, safe_strcpy, cut, tokens}
use simple_dns.Common.Text.Decimal.{bytes}
use simple_dns.Order.{memcmp, label_cmp, name_labels, cmp_from, canon_name_cmp}
use simple_dns.Order.Lex.{flip}
use simple_dns.Order.Names.{
  canonical, canon_name_cmp-canonical, canon_name_cmp-Total, canon_name_cmp_trans,
}
use Prim.Native.Nat.{Ordering}

abbrev first : Bytes
first = bytes "example"

abbrev second : Bytes
second = bytes "Z.a.Example."

abbrev third : Bytes
third = bytes "zABC.a.EXAMPLE"

first-second : canon_name_cmp first second ≡ Ordering.lt
unfolding canon_name_cmp cmp_from label_cmp memcmp name_labels strlower to_lower safe_strcpy tokens
    cut bytes
first-second = refl

second-third : canon_name_cmp second third ≡ Ordering.lt
unfolding canon_name_cmp cmp_from label_cmp memcmp name_labels strlower to_lower safe_strcpy tokens
    cut bytes
second-third = refl

canon_name_cmp-canonical_example :
    canon_name_cmp first second ≡ canonical (name_labels first) (name_labels second)
canon_name_cmp-canonical_example = canon_name_cmp-canonical first second

canon_name_cmp-Total_example :
    (canon_name_cmp third second ≡ flip (canon_name_cmp second third))
    × ((canon_name_cmp second third ≡ Ordering.eq) ↔ (name_labels second ≡ name_labels third))
canon_name_cmp-Total_example = canon_name_cmp-Total second third

canon_name_cmp_trans_example : canon_name_cmp first third ≡ Ordering.lt
canon_name_cmp_trans_example = canon_name_cmp_trans first second third first-second second-third
