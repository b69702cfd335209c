-- ===== src/Serial.antt =====
-- dns_wire.c, "RFC 1982 serial-number arithmetic": `serial_lt` and `serial_ge`.
pub mod Order
use simple_dns.Common.{
  ℕ, ◌+◌, ◌-◌, ◌%◌, ◌^◌, ◌≤◌, ◌<◌, bit_and, Bool, true, false, not, ◌&&◌, ◌==◌, ==_iff, ◌↔◌, ◌⊎◌,
  inl, inr, Bool-cases, dec_le, dec_lt, ◌≡◌, refl, sym, ap, ◌∙◌, arith,
}
use simple_dns.Common.Bits.{bit_and_below, bit_and_above}

-- `b - a` of two `uint32_t`
abbrev pub minus32 : ℕ → ℕ → ℕ
minus32 b a = (b + 2 ^ 32 - a) % 2 ^ 32

unfoldable pub serial_lt : ℕ → ℕ → Bool
serial_lt a b = not (a == b) && (bit_and (minus32 b a) 0x80000000 == 0)

unfoldable pub serial_ge : ℕ → ℕ → Bool
serial_ge a b = not (serial_lt a b)
