-- ===== src/Endian.antt =====
-- dns_wire.c, "Fixed-width big-endian accessors": `put16`, `put32`, `get16`, `get32`.
pub mod Laws
use simple_dns.Common.{ℕ, ◌+◌, ◌*◌, ◌/◌, ◌%◌, ◌^◌, bit_and, bit_or, [], ◌∷◌, Bytes}
use simple_dns.Common.Bits.{shl, shr}
use simple_dns.Common.Memory.{Outcome, ok, ◌>>=◌, read, write}

-- An assignment to a `uint8_t` keeps the low 8 bits.
abbrev pub to_u8 : ℕ → ℕ
to_u8 v = v % 256

unfoldable pub put16 : Bytes → ℕ → ℕ → Outcome Bytes
put16 b o v = do
  b1 ← write b o (to_u8 (shr v 8) ∷ [])
  write b1 (o + 1) (to_u8 (bit_and v 0xff) ∷ [])

unfoldable pub put32 : Bytes → ℕ → ℕ → Outcome Bytes
put32 b o v = do
  b1 ← write b o (to_u8 (shr v 24) ∷ [])
  b2 ← write b1 (o + 1) (to_u8 (bit_and (shr v 16) 0xff) ∷ [])
  b3 ← write b2 (o + 2) (to_u8 (bit_and (shr v 8) 0xff) ∷ [])
  write b3 (o + 3) (to_u8 (bit_and v 0xff) ∷ [])

unfoldable pub get16 : Bytes → ℕ → Outcome ℕ
get16 b o = do hi ← read b o; lo ← read b (o + 1); ok (bit_or (shl hi 8) lo)

unfoldable pub get32 : Bytes → ℕ → Outcome ℕ
get32 b o = do
  w ← read b o
  x ← read b (o + 1)
  y ← read b (o + 2)
  z ← read b (o + 3)
  ok (bit_or (bit_or (bit_or (shl w 24) (shl x 16)) (shl y 8)) z)
