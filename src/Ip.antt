-- ===== src/Ip.antt =====
-- object_graph.c, addresses: `pog_parse_ipv4` to `pog_format_ip`. A C string is the list of its bytes
-- without the NUL; `none` is the result false.
pub mod V4
pub mod Family
pub mod Bounds
pub mod Both
pub mod RoundTrip
pub mod Runs
pub mod Compressed
pub mod Joined
pub mod Digits
pub mod V6
pub mod Printed
use simple_dns.Common.{
  ℕ, zero, suc, ◌+◌, ◌-◌, ◌*◌, ◌%◌, ◌^◌, bit_and, bit_or, Bool, true, false, ◌&&◌, Option, none,
  some, List, [], ◌∷◌, ◌++◌, Bytes, length, take, replicate, ltb, leb, ◌==◌, if◌then◌else◌,
}
use simple_dns.Common.Bits.{shl, shr}
use simple_dns.Common.Text.Decimal.{digits, is_digit}

infixl 5 ◌>>=◌
abbrev pub ◌>>=◌ {ℓ κ} : {A : Type ℓ} {B : Type κ} → Option A → (A → Option B) → Option B
none >>= f = none
some a >>= f = f a

abbrev pub refuse_if {ℓ} : {A : Type ℓ} → Bool → Option A → Option A
refuse_if b o = if b then none else o

-- The digits of an octet, behind `count` of them with the value `octet`.
unfoldable pub read_octet : Bytes → ℕ → ℕ → Option (ℕ × Bytes)
unfolding is_digit
read_octet [] octet count = refuse_if (count == 0) (some (octet, []))
read_octet (c ∷ s) octet count =
    let value = octet * 10 + (c - b'0') in
    let more =
      refuse_if (ltb 255 value) (refuse_if (leb 3 count) (read_octet s value (count + 1))) in
    if is_digit c then more else refuse_if (count == 0) (some (octet, c ∷ s))

-- `if (*s != '.') return false; s++;`
abbrev pub behind_dot : Bytes → Option Bytes
behind_dot [] = none
behind_dot (c ∷ s) = if c == b'.' then some s else none

-- `if (!*s) return false;`
abbrev pub some_text : Bytes → Option Bytes
some_text [] = none
some_text (c ∷ s) = some (c ∷ s)

abbrev pub at_end {ℓ} : {A : Type ℓ} → A → Bytes → Option A
at_end a [] = some a
at_end a (c ∷ s) = none

-- `ip = (ip << 8) | octet` of `uint32_t`
unfoldable pub add_octet : ℕ → ℕ → ℕ
add_octet ip octet = bit_or (shl ip 8 % 2 ^ 32) octet

-- The rounds of the loop before the last.
unfoldable pub ipv4_loop : ℕ → ℕ → Bytes → Option (ℕ × Bytes)
ipv4_loop zero ip s = some (ip, s)
ipv4_loop (suc left) ip s = do
  s1 ← some_text s
  (octet, s2) ← read_octet s1 0 0
  s3 ← behind_dot s2
  ipv4_loop left (add_octet ip octet) s3

unfoldable pub pog_parse_ipv4 : Bytes → Option ℕ
pog_parse_ipv4 s = do
  (ip, s1) ← ipv4_loop 3 0 s
  s2 ← some_text s1
  (octet, s3) ← read_octet s2 0 0
  at_end (add_octet ip octet) s3

-- `%u` of a number below 256
abbrev pub octet_text : ℕ → Bytes
octet_text n = digits 3 n

-- The text in a buffer of `n` bytes.
unfoldable pub pog_format_ipv4 : ℕ → ℕ → Bytes
pog_format_ipv4 ip n = take (n - 1) (
    octet_text (bit_and (shr ip 24) 0xff)
    ++ b'.'
      ∷ (octet_text (bit_and (shr ip 16) 0xff)
          ++ b'.' ∷ (octet_text (bit_and (shr ip 8) 0xff) ++ b'.' ∷ octet_text (bit_and ip 0xff))))
