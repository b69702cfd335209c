-- ===== src/Ip/Both.antt =====
-- Addresses of both families in object_graph.c: `pog_parse_ip` reads what `pog_format_ip` prints.
use simple_dns.Common.{
  ℕ, ◌%◌, ◌^◌, ◌<◌, ◌≤◌, true, false, some, List, [], ◌∷◌, ◌++◌, Bytes, ◌==◌, ◌≡◌, refl, ap, ◌∙◌,
  ◌⊎◌, inl, inr, arith,
}
use simple_dns.Common.Text.Decimal.{is_digit, digits-All, AllDigits}
use simple_dns.Ip.{octet_text, pog_format_ipv4}
use simple_dns.Ip.V4.{quad, pog_format_ipv4_lem, pog_parse_ipv4-pog_format_ipv4}
use simple_dns.Ip.Printed.{groups, hex_text, pog_format_ipv6}
use simple_dns.Ip.Joined.{joined}
use simple_dns.Ip.Compressed.{IsPrinted, pog_format_ipv6-IsPrinted}
use simple_dns.Ip.RoundTrip.{pog_parse_ipv6-pog_format_ipv6}
use simple_dns.Ip.Family.{PogIp, has_char, pog_parse_ip, pog_format_ip}

-- An address of one of the families.
abbrev pub IsIp : PogIp → Type 0
IsIp a = ((a.family ≡ 4) × (a.v < 2 ^ 32)) ⊎ ((a.family ≡ 6) × (a.v < 2 ^ 128))

has_char_behind : (s t : Bytes) (c : ℕ) → has_char t c ≡ true → has_char (s ++ t) c ≡ true
unfolding has_char
has_char_behind [] t c h = h
has_char_behind (x ∷ s) t c h = ground (arith, has_char_behind s t c h)

has_char_neither :
    (s t : Bytes) (c : ℕ)
    → has_char s c ≡ false
    → has_char t c ≡ false
    → has_char (s ++ t) c ≡ false
unfolding has_char
has_char_neither [] t c h k = k
has_char_neither (x ∷ s) t c h k = ground (arith, has_char_neither s t c)

has_char_here : (c : ℕ) (t : Bytes) → has_char (c ∷ t) c ≡ true
unfolding has_char
has_char_here c t = ground arith

no_colon : (s : Bytes) → AllDigits s → has_char s b':' ≡ false
unfolding has_char is_digit
no_colon [] h = refl
no_colon (x ∷ s) h = ground (arith, h.0, no_colon s h.1)

octet_no_colon : (o : ℕ) → has_char (octet_text o) b':' ≡ false
octet_no_colon o = no_colon (octet_text o) (digits-All 3 o)

behind_dot_no_colon :
    (s t : Bytes)
    → has_char s b':' ≡ false
    → has_char t b':' ≡ false
    → has_char (s ++ b'.' ∷ t) b':' ≡ false
behind_dot_no_colon s t h k =
    has_char_neither s (b'.' ∷ t) b':' h (unfold has_char in ground (arith, k))

quad_no_colon : (a b c d : ℕ) → has_char (quad a b c d) b':' ≡ false
quad_no_colon a b c d = behind_dot_no_colon (octet_text a) _ (octet_no_colon a) (
    behind_dot_no_colon (octet_text b) _ (octet_no_colon b)
      (behind_dot_no_colon (octet_text c) _ (octet_no_colon c) (octet_no_colon d)))

quad_dot : (a b c d : ℕ) → has_char (quad a b c d) b'.' ≡ true
quad_dot a b c d = has_char_behind (octet_text a) _ b'.' (has_char_here b'.' _)

colon_behind :
    (gs : List ℕ) (rest : Bytes) → has_char rest b':' ≡ true → has_char (joined gs rest) b':' ≡ true
unfolding joined
colon_behind [] rest h = h
colon_behind (v ∷ []) rest h = has_char_behind (hex_text v) rest b':' h
colon_behind (v ∷ w ∷ gs) rest h = has_char_behind (hex_text v) _ b':' (has_char_here b':' _)

printed_colon :
    (v w : ℕ) (gs : List ℕ) (text : Bytes) → IsPrinted (v ∷ w ∷ gs) text → has_char text b':' ≡ true
unfolding IsPrinted joined
printed_colon v w gs text (inl e) =
    ap (λ (t : Bytes). has_char t b':') e
    ∙ has_char_behind (hex_text v) _ b':' (has_char_here b':' _)
printed_colon v w gs text (inr (pre, l, post, split, e)) =
    ap (λ (t : Bytes). has_char t b':') e ∙ colon_behind pre _ (has_char_here b':' _)

ipv6_colon : (ip n : ℕ) → 40 ≤ n → has_char (pog_format_ipv6 ip n) b':' ≡ true
unfolding groups
ipv6_colon ip n h = printed_colon _ _ _ (pog_format_ipv6 ip n) (pog_format_ipv6-IsPrinted ip n h)

-- An address of either family, within its 32 or 128 bits, that `pog_format_ip` prints into at least
-- 40 bytes is read back by `pog_parse_ip`, as an address of the same family.
pub pog_parse_ip-pog_format_ip :
    (a : PogIp) (n : ℕ) → IsIp a → 40 ≤ n → pog_parse_ip (pog_format_ip a n) ≡ some a
unfolding pog_parse_ip pog_format_ip
pog_parse_ip-pog_format_ip a n (inl (four, small)) h =
    let some_room : (n == 0) ≡ false = ground arith in
    let m : a.v % 2 ^ 32 ≡ a.v = omega arith in
    let form = pog_format_ipv4_lem a.v n (omega arith) in
    let colon : has_char (pog_format_ipv4 a.v n) b':' ≡ false =
      ap (λ (t : Bytes). has_char t b':') form ∙ quad_no_colon _ _ _ _ in
    let dot : has_char (pog_format_ipv4 a.v n) b'.' ≡ true =
      ap (λ (t : Bytes). has_char t b'.') form ∙ quad_dot _ _ _ _ in
    rw (some_room, four, m, colon, dot, pog_parse_ipv4-pog_format_ipv4 a.v n small (omega arith))
      refl
pog_parse_ip-pog_format_ip a n (inr (six, small)) h =
    let some_room : (n == 0) ≡ false = ground arith in
    rw (some_room, six, ipv6_colon a.v n h, pog_parse_ipv6-pog_format_ipv6 a.v n small h) refl
