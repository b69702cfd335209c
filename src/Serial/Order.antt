-- ===== src/Serial/Order.antt =====
-- The order of serial numbers.
use simple_dns.Common.{ℕ, ◌+◌, ◌^◌, ◌<◌, bit_and, true, ◌==◌, ◌↔◌, ◌⊎◌, dec_lt, ◌≡◌, arith}
use simple_dns.Common.Bits.{bit_and_below, bit_and_above}
use simple_dns.Serial.{minus32, serial_lt}

-- RFC 1982 §3.2, SERIAL_BITS = 32
abbrev pub IsBefore : ℕ → ℕ → Type 0
IsBefore a b = ((a < b) × (b < a + 2 ^ 31)) ⊎ ((b < a) × (b + 2 ^ 31 < a))

sign : (v : ℕ) → v < 2 ^ 32 → ((bit_and v 0x80000000 == 0) ≡ true) ↔ (v < 2 ^ 31)
sign v h = elim (dec_lt v (2 ^ 31)) [
  | yes p ↦ let clear : bit_and v 2147483648 ≡ 0 = bit_and_below 31 v p in ground (arith, clear)
  | no q ↦
      let set : bit_and v 2147483648 ≡ 2147483648 = bit_and_above 31 v (omega arith) h in
      ground (arith, set)
]

-- `serial_lt` is the order of RFC 1982 on serial numbers, also where they wrap around.
pub serial_lt-IsBefore : (a b : ℕ) → a < 2 ^ 32 → b < 2 ^ 32 → (serial_lt a b ≡ true) ↔ IsBefore a b
unfolding serial_lt
serial_lt-IsBefore a b ha hb = ground (arith, sign (minus32 b a) (omega arith))
