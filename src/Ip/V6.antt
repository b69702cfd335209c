-- ===== src/Ip/V6.antt =====
-- object_graph.c, IPv6 addresses: `pog_hex_digit`, `pog_parse_ipv6` and `pog_format_ipv6`. A `uint16_t`
-- array with its count is the list of the groups stored.
use simple_dns.Common.{
  ℕ, zero, suc, ◌+◌, ◌-◌, ◌%◌, ◌^◌, bit_and, bit_or, Bool, true, false, ◌&&◌, not, Option, none,
  some, List, [], ◌∷◌, ◌++◌, Bytes, length, replicate, ltb, leb, ◌==◌, if◌then◌else◌,
}
use simple_dns.Common.Bits.{shl, shr}
use simple_dns.Ip.{◌>>=◌, refuse_if, pog_parse_ipv4}

unfoldable pub pog_hex_digit : ℕ → Option ℕ
pog_hex_digit c =
    if leb b'0' c && leb c b'9'
    then some (c - b'0')
    else if leb b'a' c && leb c b'f'
    then some (10 + c - b'a')
    else if leb b'A' c && leb c b'F'
    then some (10 + c - b'A')
    else none

-- `cur` is `tail` once `have_dc` is set, and `head` before.
pub record Groups : Type 0 where
  pub have_dc : Bool
  pub head : List ℕ
  pub tail : List ℕ

-- `*curN`
abbrev pub current : Groups → ℕ
current g = if g.have_dc then length g.tail else length g.head

-- `cur[(*curN)++] = (uint16_t) v`
abbrev pub put_group : Groups → ℕ → Groups
put_group g v =
    if g.have_dc
    then record g { tail = g.tail ++ ((v % 2 ^ 16) ∷ []) }
    else record g { head = g.head ++ ((v % 2 ^ 16) ∷ []) }

-- The look ahead for a `.` before the next `:`.
unfoldable pub v4_suffix : Bytes → Bool
v4_suffix [] = false
v4_suffix (c ∷ s) =
    let rest = v4_suffix s in if c == b'.' then true else if c == b':' then false else rest

-- The hexadecimal digits of a group, behind `count` of them with the value `g`.
unfoldable pub read_group : Bytes → ℕ → ℕ → Option (ℕ × Bytes)
unfolding pog_hex_digit
read_group [] g count = refuse_if (count == 0) (some (g, []))
read_group (c ∷ s) g count =
    let more = λ (d : ℕ).
      refuse_if (ltb 4 (count + 1)) (read_group s (bit_or (shl g 4 % 2 ^ 32) d) (count + 1)) in
    if c == b':' then refuse_if (count == 0) (some (g, c ∷ s)) else pog_hex_digit c >>= more

-- What follows `::`.
abbrev pub behind_dc : (Groups → Bytes → Option Groups) → Groups → Bytes → Option Groups
behind_dc loop g [] = some g
behind_dc loop g (c ∷ s) = loop g (c ∷ s)

-- What follows a group: the end, or a `:` and the next round.
abbrev pub behind_group : (Groups → Bytes → Option Groups) → Groups → Bytes → Option Groups
behind_group loop g [] = some g
behind_group loop g (c ∷ []) = none
behind_group loop g (c ∷ d ∷ s) =
    if d == b':'
    then refuse_if g.have_dc (behind_dc loop (record g { have_dc = true }) s)
    else loop g (d ∷ s)

-- The `for (;;)` loop. Every round that is not the last one consumes a byte, so that the length of
-- the text is fuel enough; an empty text is refused.
unfoldable pub ipv6_loop : ℕ → Groups → Bytes → Option Groups
ipv6_loop zero g s = none
ipv6_loop (suc fuel) g s =
    let suffix = (do
      v4 ← pog_parse_ipv4 s
      refuse_if (ltb 6 (current g))
          (some (put_group (put_group g (shr v4 16)) (bit_and v4 0xffff)))) in
    let group = (do
      (v, s1) ← read_group s 0 0
      g1 ← refuse_if (leb 8 (current g)) (some (put_group g v))
      behind_group (ipv6_loop fuel) g1 s1) in
    if v4_suffix s then suffix else group

-- `r = (r << 16) | full[i]` of 128 bits
unfoldable pub add_group : ℕ → ℕ → ℕ
add_group r v = bit_or (shl r 16 % 2 ^ 128) v

unfoldable pub join_groups : ℕ → List ℕ → ℕ
join_groups r [] = r
join_groups r (v ∷ gs) = join_groups (add_group r v) gs

-- The array `full`: with no more than 8 groups in all, the tail ends it.
abbrev pub full : Groups → List ℕ
full g = g.head ++ (replicate (8 - (length g.head + length g.tail)) 0 ++ g.tail)

unfoldable pub ipv6_number : Groups → Option ℕ
unfolding join_groups
ipv6_number g =
    let total = length g.head + length g.tail in
    refuse_if (if g.have_dc then ltb 7 total else not (total == 8)) (some (join_groups 0 (full g)))

abbrev pub no_groups : Groups
no_groups = record { have_dc = false; head = []; tail = [] }

abbrev pub leading_dc : Bytes → Option ℕ
leading_dc [] = none
leading_dc (d ∷ []) = if d == b':' then some 0 else none
leading_dc (d ∷ e ∷ s) =
    if d == b':'
    then ipv6_loop (length (e ∷ s)) (record no_groups { have_dc = true }) (e ∷ s) >>= ipv6_number
    else none

unfoldable pub pog_parse_ipv6 : Bytes → Option ℕ
pog_parse_ipv6 [] = none
pog_parse_ipv6 (c ∷ s) =
    if c == b':' then leading_dc s else ipv6_loop (length (c ∷ s)) no_groups (c ∷ s) >>= ipv6_number
