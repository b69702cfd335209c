-- ===== src/Tests/Addresses.antt =====
-- Addresses of object_graph.c and its lists of a network's addresses.
use simple_dns.Common.{ℕ, Option, none, some, length, get_elem?, ◌≡◌, ◌↔◌, List, refl, inl, arith}
use simple_dns.Common.Int.{ℤ, to_int}
use simple_dns.Common.Text.Decimal.{digits, bytes, digits, is_digit}
use simple_dns.Ip.{read_octet, ipv4_loop, add_octet, pog_parse_ipv4, pog_format_ipv4}
use simple_dns.Ip.V6.{
  pog_hex_digit, v4_suffix, read_group, ipv6_loop, add_group, join_groups, ipv6_number,
  pog_parse_ipv6,
}
use simple_dns.Ip.Printed.{
  groups, run_step, run_loop, best_run, hex_text, put_groups, pog_format_ipv6,
}
use simple_dns.Ip.Family.{PogIp, has_char, pog_parse_ip, pog_format_ip}
use simple_dns.Ip.Both.{pog_parse_ip-pog_format_ip}
use simple_dns.Common.Text.{str_eq}
use simple_dns.Cidr.{
  Object, Fields, Items, cidr_get_net, get_field_unlocked, find_field, pog_apply_mask,
  cidr_host_count, probe, cidr_is_assigned, assigned_loop,
}
use simple_dns.Cidr.Lists.{cidr_free_len, cidr_free_at, free_at_loop}
use mathlib.Core.List.{Memᴰ}
use simple_dns.Cidr.Visits.{Ascending}
use simple_dns.Cidr.Free.{texts, IsFree, cidr_free_at-IsFree}

-- 2001:db8::1
abbrev documentation : ℕ
documentation = 0x20010db8000000000000000000000001

documentation_text : pog_format_ipv6 documentation 48 ≡ bytes "2001:db8::1"
unfolding groups run_step run_loop best_run hex_text put_groups pog_format_ipv6 bytes
documentation_text = refl

mapped_text : pog_parse_ipv6 (bytes "::ffff:192.0.2.1") ≡ some 0xffffc0000201
unfolding pog_hex_digit v4_suffix read_group ipv6_loop add_group join_groups ipv6_number
    pog_parse_ipv6 bytes read_octet ipv4_loop add_octet pog_parse_ipv4 is_digit
mapped_text = refl

two_compressed : pog_parse_ipv6 (bytes "1::2::3") ≡ none
unfolding pog_hex_digit v4_suffix read_group ipv6_loop add_group join_groups ipv6_number
    pog_parse_ipv6 bytes
two_compressed = refl

-- 192.0.2.1
abbrev test_net : PogIp
test_net = record { family = 4; v = 0xc0000201 }

pog_parse_ip-pog_format_ip_example : pog_parse_ip (pog_format_ip test_net 48) ≡ some test_net
pog_parse_ip-pog_format_ip_example =
    pog_parse_ip-pog_format_ip test_net 48 (inl (refl, omega arith)) (omega arith)

-- 192.0.2.0/29 with one address in use
abbrev params : Option Object
params = some (
    Object.composite (
      Fields.field (bytes "prefix") (Object.string (some (bytes "192.0.2.0"))) (
        Fields.field (bytes "bits") (Object.int (ℤ.pos 29)) (
          Fields.field (bytes "assigned")
            (Object.list (Items.item (Object.string (some (bytes "192.0.2.1"))) Items.no_item))
            Fields.no_field))))

cidr_free_at-IsFree_example :
    (ips : List PogIp) × Ascending ips
    × ((ip : PogIp) → Memᴰ ip ips ↔ IsFree params ip)
    × (cidr_free_len params ≡ length ips)
    × ((i : ℕ) → cidr_free_at params i ≡ get_elem? (texts ips) i)
cidr_free_at-IsFree_example = cidr_free_at-IsFree params

second_free : cidr_free_at params 0 ≡ some (bytes "192.0.2.2")
unfolding cidr_free_at free_at_loop cidr_get_net get_field_unlocked find_field str_eq to_int
    pog_parse_ip has_char pog_parse_ipv4 ipv4_loop read_octet add_octet is_digit pog_apply_mask
    cidr_host_count probe cidr_is_assigned assigned_loop pog_format_ip pog_format_ipv4 digits bytes
second_free = refl
