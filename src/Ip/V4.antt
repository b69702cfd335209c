-- ===== src/Ip/V4.antt =====
-- IPv4 addresses in object_graph.c.
use simple_dns.Common.{
  ℕ, suc, ◌+◌, ◌-◌, ◌*◌, ◌/◌, ◌%◌, ◌^◌, ◌≤◌, ◌<◌, false, Option, none, some, [], ◌∷◌, ◌++◌, Bytes,
  length, length-append, append-nil, take_all, ◌==◌, Bool-cases, ◌≡◌, refl, sym, ap, inl, inr,
  arith,
}
use simple_dns.Common.Bits.{bit_or-shl, bit_and_byte, agree_below, all_below}
use simple_dns.Common.Text.Decimal.{digits, is_digit, length-digits_pos}
use simple_dns.Common.Text.Strings.{length-digits}
use simple_dns.Ip.{
  read_octet, some_text, add_octet, ipv4_loop, pog_parse_ipv4, octet_text, pog_format_ipv4,
}

-- A text that no digit begins.
abbrev pub Stops : Bytes → Type 0
Stops [] = Unit {0}
Stops (c ∷ s) = is_digit c ≡ false

abbrev value : Option (ℕ × Bytes) → ℕ
value none = 999
value (some (o, [])) = o
value (some (o, c ∷ s)) = 999

value-some : (o : Option (ℕ × Bytes)) (n : ℕ) → value o ≡ n → n < 256 → o ≡ some (n, [])
value-some none n h k = absurd (omega arith)
value-some (some (o, [])) n h k = ap (λ (t : ℕ). some (t, [])) h
value-some (some (o, c ∷ s)) n h k = absurd (omega arith)

value-read_octet : (n : ℕ) → n < 256 → value (read_octet (octet_text n) 0 0) ≡ n
unfolding all_below read_octet digits
value-read_octet = agree_below 256 _ (λ n. n) refl

-- What is read in front of nothing is read in front of what no digit begins.
read_octet-append :
    (s rest : Bytes) (octet count o : ℕ)
    → Stops rest
    → read_octet s octet count ≡ some (o, [])
    → read_octet (s ++ rest) octet count ≡ some (o, rest)
unfolding read_octet
read_octet-append [] [] octet count o stop h = h
read_octet-append [] (c ∷ rest) octet count o stop h = elim (Bool-cases (count == 0)) [
  | inl e ↦ ground arith
  | inr e ↦ ground arith
]
read_octet-append (c ∷ s) rest octet count o stop h =
    ground (arith, read_octet-append s rest (octet * 10 + (c - b'0')) (count + 1) o stop)

octet_read :
    (n : ℕ) (rest : Bytes)
    → n < 256
    → Stops rest
    → read_octet (octet_text n ++ rest) 0 0 ≡ some (n, rest)
octet_read n rest h stop =
    read_octet-append (octet_text n) rest 0 0 n stop (value-some _ n (value-read_octet n h) h)

some_text-append : (s rest : Bytes) → 0 < length s → some_text (s ++ rest) ≡ some (s ++ rest)
some_text-append [] rest h = absurd (omega arith)
some_text-append (c ∷ s) rest h = refl

some_octet : (n : ℕ) (rest : Bytes) → some_text (octet_text n ++ rest) ≡ some (octet_text n ++ rest)
some_octet n rest = some_text-append (octet_text n) rest (length-digits_pos 2 n)

no_digit_dot : is_digit b'.' ≡ false
unfolding is_digit
no_digit_dot = refl

one_octet :
    (left ip o : ℕ) (rest : Bytes)
    → o < 256
    → ipv4_loop (suc left) ip (octet_text o ++ b'.' ∷ rest) ≡ ipv4_loop left (add_octet ip o) rest
unfolding ipv4_loop
one_octet left ip o rest h =
    rw (some_octet o (b'.' ∷ rest), octet_read o (b'.' ∷ rest) h no_digit_dot) refl

add_octet_lem : (ip o : ℕ) → ip < 2 ^ 24 → o < 256 → add_octet ip o ≡ ip * 256 + o
unfolding add_octet
add_octet_lem ip o h k =
    let m : ip * 256 % 4294967296 ≡ ip * 256 = omega arith in rw m (bit_or-shl 8 ip o k)

no_more : (ip : ℕ) (s : Bytes) → ipv4_loop 0 ip s ≡ some (ip, s)
unfolding ipv4_loop
no_more ip s = refl

abbrev pub quad : ℕ → ℕ → ℕ → ℕ → Bytes
quad a b c d = octet_text a ++ b'.' ∷ (octet_text b ++ b'.' ∷ (octet_text c ++ b'.' ∷ octet_text d))

last_octet : (n : ℕ) → n < 256 → read_octet (octet_text n) 0 0 ≡ some (n, [])
last_octet n h = value-some _ n (value-read_octet n h) h

some_last : (n : ℕ) → some_text (octet_text n) ≡ some (octet_text n)
some_last n = rw (sym (append-nil (octet_text n))) (some_octet n [])

quad_read :
    (a b c d : ℕ)
    → a < 256
    → b < 256
    → c < 256
    → d < 256
    → pog_parse_ipv4 (quad a b c d) ≡ some (((a * 256 + b) * 256 + c) * 256 + d)
unfolding pog_parse_ipv4
quad_read a b c d ha hb hc hd =
    let first : add_octet 0 a ≡ a = omega (arith, add_octet_lem 0 a (omega arith) ha) in
    rw
      (
        one_octet 2 0 a (octet_text b ++ b'.' ∷ (octet_text c ++ b'.' ∷ octet_text d)) ha,
        one_octet 1 (add_octet 0 a) b (octet_text c ++ b'.' ∷ octet_text d) hb,
        one_octet 0 (add_octet (add_octet 0 a) b) c (octet_text d) hc,
        first,
        add_octet_lem a b (omega arith) hb,
        add_octet_lem (a * 256 + b) c (omega arith) hc,
        no_more ((a * 256 + b) * 256 + c) (octet_text d),
        some_last d,
        last_octet d hd,
        add_octet_lem ((a * 256 + b) * 256 + c) d (omega arith) hd,
      )
      refl

length-quad : (a b c d : ℕ) → length (quad a b c d) ≤ 15
length-quad a b c d = omega (
  arith,
  length-append (octet_text a)
      (b'.' ∷ (octet_text b ++ b'.' ∷ (octet_text c ++ b'.' ∷ octet_text d))),
  length-append (octet_text b) (b'.' ∷ (octet_text c ++ b'.' ∷ octet_text d)),
  length-append (octet_text c) (b'.' ∷ octet_text d),
  length-digits 3 a,
  length-digits 3 b,
  length-digits 3 c,
  length-digits 3 d,
)

pub pog_format_ipv4_lem :
    (ip n : ℕ)
    → 16 ≤ n
    → pog_format_ipv4 ip n
      ≡ quad (ip / 2 ^ 24 % 256) (ip / 2 ^ 16 % 256) (ip / 2 ^ 8 % 256) (ip % 256)
unfolding pog_format_ipv4
pog_format_ipv4_lem ip n h =
    rw
      (
        bit_and_byte (ip / 2 ^ 24),
        bit_and_byte (ip / 2 ^ 16),
        bit_and_byte (ip / 2 ^ 8),
        bit_and_byte ip,
      )
      (take_all (n - 1) _ (
        omega (
          arith,
          length-quad (ip / 2 ^ 24 % 256) (ip / 2 ^ 16 % 256) (ip / 2 ^ 8 % 256) (ip % 256),
        )))

-- An IPv4 address that `pog_format_ipv4` prints into at least 16 bytes is read back by `pog_parse_ipv4`.
pub pog_parse_ipv4-pog_format_ipv4 :
    (ip n : ℕ) → ip < 2 ^ 32 → 16 ≤ n → pog_parse_ipv4 (pog_format_ipv4 ip n) ≡ some ip
pog_parse_ipv4-pog_format_ipv4 ip n h k =
    let same : (((ip / 2 ^ 24 % 256) * 256 + (ip / 2 ^ 16 % 256)) * 256 + (ip / 2 ^ 8 % 256)) * 256
          + ip % 256
        ≡ ip =
      omega arith in
    rw
      (
        pog_format_ipv4_lem ip n k,
        quad_read (ip / 2 ^ 24 % 256) (ip / 2 ^ 16 % 256) (ip / 2 ^ 8 % 256) (ip % 256)
            (omega arith) (omega arith) (omega arith) (omega arith),
      )
      (ap some same)
