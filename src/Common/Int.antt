-- ===== src/Common/Int.antt =====
-- Signed numbers, and the C library's conversions of a text to one.
use simple_dns.Common.Tests.{leb, ltb, ◌==◌, if◌then◌else◌}
use simple_dns.Common.Lists.{Bytes}
use simple_dns.Common.Text.Decimal.{digits_value}
use Prim.Native.Nat.{ℕ, zero, suc, ◌-◌, ◌%◌, ◌^◌, min}
use mathlib.Core.Bool.{Bool, ◌&&◌, ◌||◌}
use mathlib.Core.List.{[], ◌∷◌}

-- `negsuc n` is -(n + 1).
pub data ℤ : Type 0 where
  pos : ℕ → ℤ
  negsuc : ℕ → ℤ

abbrev pub negate : ℕ → ℤ
negate zero = pos 0
negate (suc n) = negsuc n

abbrev pub is_negative : ℤ → Bool
is_negative (pos n) = Bool.false
is_negative (negsuc n) = Bool.true

-- `isspace` in the C locale
abbrev pub is_space : ℕ → Bool
is_space c = (c == b' ') || (leb 9 c && leb c 13)

abbrev pub long_sign : Bytes → ℤ
long_sign [] = pos 0
long_sign (c ∷ s) =
    if c == b'-'
    then negate (min (digits_value 0 s) (2 ^ 63))
    else if c == b'+'
    then pos (min (digits_value 0 s) (2 ^ 63 - 1))
    else pos (min (digits_value 0 (c ∷ s)) (2 ^ 63 - 1))

-- `atol`, which is `strtol` in base 10: it stops at the ends of the type.
unfoldable pub atol : Bytes → ℤ
atol [] = pos 0
atol (c ∷ s) = let rest = atol s in if is_space c then rest else long_sign (c ∷ s)

-- The conversion of a `long` to an `int`.
unfoldable pub to_int : ℤ → ℤ
to_int (pos n) = let m = n % 2 ^ 32 in if ltb m (2 ^ 31) then pos m else negsuc (2 ^ 32 - 1 - m)
to_int (negsuc n) = let m = n % 2 ^ 32 in if ltb m (2 ^ 31) then negsuc m else pos (2 ^ 32 - 1 - m)
