-- ===== src/Hex.antt =====
-- dns_wire.c, "Hex": `hex_enc` and `hex_dec`. `strtol` of the C library is the part of it that two
-- bytes and base 16 can reach.
pub mod RoundTrip
use simple_dns.Common.{
  ℕ, zero, suc, ◌+◌, ◌-◌, ◌*◌, ◌%◌, bit_and, Bool, ◌&&◌, ◌||◌, Option, none, some, List, [], ◌∷◌,
  Bytes, ltb, leb, ◌==◌, if◌then◌else◌,
}
use simple_dns.Common.Bits.{shr}
use simple_dns.Common.Int.{is_space}
use simple_dns.Common.Memory.{Outcome, ok, ◌>>=◌, read, write}
use simple_dns.Common.Text.Decimal.{bytes}

-- `H`
unfoldable pub hex_digits : Bytes
unfolding bytes
hex_digits = bytes "0123456789abcdef"

-- The loop over the input, with the number of bytes left.
unfoldable pub hex_enc_loop : ℕ → Bytes → ℕ → Bytes → Outcome Bytes
hex_enc_loop zero input i out = ok out
hex_enc_loop (suc left) input i out = do
  v ← read input i
  high ← read hex_digits (shr v 4)
  out1 ← write out (2 * i) (high ∷ [])
  low ← read hex_digits (bit_and v 0xf)
  out2 ← write out1 (2 * i + 1) (low ∷ [])
  hex_enc_loop left input (i + 1) out2

unfoldable pub hex_enc : Bytes → ℕ → Bytes → Outcome Bytes
hex_enc input n out = do out1 ← hex_enc_loop n input 0 out; write out1 (2 * n) (0 ∷ [])

unfoldable pub hex_digit : ℕ → Option ℕ
hex_digit c =
    if leb b'0' c && leb c b'9'
    then some (c - b'0')
    else if leb b'A' c && leb c b'F'
    then some (c - b'A' + 10)
    else if leb b'a' c && leb c b'f'
    then some (c - b'a' + 10)
    else none

-- The digits up to the first byte that is none. A prefix `0x` of two bytes reads as the digit 0.
unfoldable pub strtol_digits : Bytes → ℕ → ℕ
strtol_digits [] n = n
strtol_digits (c ∷ s) n =
    let rest = strtol_digits s in elim (hex_digit c) [ none ↦ n | some d ↦ rest (16 * n + d) ]

-- The sign. A negative number is a `uint8_t` after the cast.
unfoldable pub strtol_sign : Bytes → ℕ
strtol_sign [] = 0
strtol_sign (c ∷ s) =
    if c == b'-'
    then (256 - strtol_digits s 0) % 256
    else if c == b'+'
    then strtol_digits s 0
    else strtol_digits (c ∷ s) 0

-- `(uint8_t) strtol(h, NULL, 16)` of at most two bytes
unfoldable pub strtol : Bytes → ℕ
strtol [] = 0
strtol (c ∷ s) = let rest = strtol s in if is_space c then rest else strtol_sign (c ∷ s)

-- The loop, which stops before an odd byte at the end of the text.
unfoldable pub hex_dec_loop : Bytes → Bytes → ℕ → ℕ → Outcome (Bytes × ℕ)
hex_dec_loop [] out n maxlen = ok (out, n)
hex_dec_loop (c ∷ []) out n maxlen = ok (out, n)
hex_dec_loop (c ∷ d ∷ text) out n maxlen =
    let rest = λ (out1 : Bytes). hex_dec_loop text out1 (n + 1) maxlen in
    if ltb n maxlen then (write out n (strtol (c ∷ d ∷ []) ∷ []) >>= rest) else ok (out, n)

unfoldable pub hex_dec : Bytes → Bytes → ℕ → Outcome (Bytes × ℕ)
hex_dec text out maxlen = hex_dec_loop text out 0 maxlen
