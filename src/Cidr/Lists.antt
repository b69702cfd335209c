-- ===== src/Cidr/Lists.antt =====
-- object_graph.c, the lengths and the items of `cidr.all`, `cidr.free` and `cidr.subnets`.
use simple_dns.Common.{
  ℕ, zero, suc, ◌+◌, ◌-◌, ◌%◌, ◌^◌, ◌&&◌, ◌||◌, Option, none, some, ◌∷◌, ◌++◌, Bytes, take, ltb,
  leb, ◌==◌, if◌then◌else◌,
}
use simple_dns.Common.Bits.{shl}
use simple_dns.Common.Text.Decimal.{bytes, digits}
use simple_dns.Ip.{◌>>=◌, refuse_if}
use simple_dns.Ip.Family.{PogIp, pog_format_ip}
use simple_dns.Cidr.{
  Object, get_field_unlocked, an_int, max_bits, cidr_get_net, cidr_host_count, probe, cidr_nth_ip,
  cidr_is_assigned,
}

-- A size of 0 where the parameters are refused.
abbrev pub size_or_zero : Option ℕ → ℕ
size_or_zero none = 0
size_or_zero (some n) = n

unfoldable pub cidr_all_len : Option Object → ℕ
cidr_all_len params =
    size_or_zero (do (base, bits) ← cidr_get_net params; some (cidr_host_count base.family bits))

unfoldable pub cidr_all_at : Option Object → ℕ → Option Bytes
cidr_all_at params i = do ip ← cidr_nth_ip params i; some (pog_format_ip ip 48)

-- The loop from `k` on, with `left` hosts left.
unfoldable pub free_len_loop : Option Object → PogIp → ℕ → ℕ → ℕ → ℕ → ℕ
free_len_loop assigned base bits zero k free_count = free_count
free_len_loop assigned base bits (suc left) k free_count =
    free_len_loop assigned base bits left (k + 1)
      (if cidr_is_assigned assigned (probe base bits k) then free_count else free_count + 1)

abbrev pub free_len : Option Object → PogIp → ℕ → ℕ
free_len none base bits = cidr_host_count base.family bits
free_len (some assigned) base bits =
    free_len_loop (some assigned) base bits (cidr_host_count base.family bits) 0 0

unfoldable pub cidr_free_len : Option Object → ℕ
unfolding free_len_loop bytes
cidr_free_len params = size_or_zero (do
  (base, bits) ← cidr_get_net params
  some (free_len (get_field_unlocked params (bytes "assigned")) base bits))

unfoldable pub free_at_loop : Option Object → PogIp → ℕ → ℕ → ℕ → ℕ → ℕ → Option Bytes
free_at_loop assigned base bits i zero k found = none
free_at_loop assigned base bits i (suc left) k found =
    let rest = free_at_loop assigned base bits i left (k + 1) in
    if cidr_is_assigned assigned (probe base bits k)
    then rest found
    else if found == i
    then some (pog_format_ip (probe base bits k) 48)
    else rest (found + 1)

unfoldable pub cidr_free_at : Option Object → ℕ → Option Bytes
unfolding free_at_loop bytes
cidr_free_at params i = do
  (base, bits) ← cidr_get_net params
  free_at_loop (get_field_unlocked params (bytes "assigned")) base bits i
      (cidr_host_count base.family bits) 0 0

unfoldable pub cidr_subnets_params : Option Object → Option (PogIp × ℕ × ℕ)
unfolding bytes
cidr_subnets_params params = do
  (base, parent_bits) ← cidr_get_net params
  subnet_bits ← an_int (get_field_unlocked params (bytes "subnet_bits"))
  refuse_if (ltb subnet_bits parent_bits || ltb (max_bits base.family) subnet_bits)
      (some (base, parent_bits, subnet_bits))

unfoldable pub cidr_subnets_len : Option Object → ℕ
cidr_subnets_len params = size_or_zero (do
  (base, parent_bits, subnet_bits) ← cidr_subnets_params params
  some (if ltb 24 (subnet_bits - parent_bits) then 0 else 2 ^ (subnet_bits - parent_bits)))

unfoldable pub subnet : PogIp → ℕ → ℕ → ℕ → PogIp
subnet base parent_bits subnet_bits i =
    let step = subnet_bits - parent_bits in
    let width = max_bits base.family - subnet_bits in
    let offset = if ltb 0 step && ltb width 128 then shl i width % 2 ^ 128 else 0 in
    record base { v = (base.v + offset) % 2 ^ 128 }

-- `%s/%d` in 64 bytes
unfoldable pub subnet_text : PogIp → ℕ → Bytes
subnet_text sub subnet_bits = take 63 (pog_format_ip sub 48 ++ b'/' ∷ digits 3 subnet_bits)

unfoldable pub cidr_subnets_at : Option Object → ℕ → Option Bytes
unfolding subnet subnet_text
cidr_subnets_at params i = do
  (base, parent_bits, subnet_bits) ← cidr_subnets_params params
  refuse_if (ltb 24 (subnet_bits - parent_bits) || leb (2 ^ (subnet_bits - parent_bits)) i)
      (some (subnet_text (subnet base parent_bits subnet_bits i) subnet_bits))
