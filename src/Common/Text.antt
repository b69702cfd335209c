-- ===== src/Common/Text.antt =====
-- C strings, as lists of their bytes without the terminating NUL: the string helpers of
-- dns_wire.c (`strlower`, `safe_strcpy`) and what it uses of the C library (`strcasecmp`, `strtok_r`).
pub mod Split
pub mod Case
pub mod Decimal
pub mod Strings
use simple_dns.Common.Tests.{leb, ltb, ◌==◌, if◌then◌else◌}
use simple_dns.Common.Lists.{Bytes, take}
use Prim.Native.Nat.{ℕ, ◌+◌, ◌-◌}
use mathlib.Core.Bool.{Bool, true, false, ◌&&◌}
use mathlib.Core.List.{List, [], ◌∷◌}

unfoldable pub to_lower : ℕ → ℕ
to_lower c = if leb b'A' c && leb c b'Z' then c + 32 else c

-- In place, up to the first NUL.
unfoldable pub strlower : Bytes → Bytes
strlower [] = []
strlower (c ∷ s) = if c == 0 then c ∷ s else to_lower c ∷ strlower s

-- The string that `dst` holds afterwards; nothing is written where there is no room for a NUL.
unfoldable pub safe_strcpy : Bytes → Bytes → ℕ → Bytes
safe_strcpy dst src dstsz = if dstsz == 0 then dst else take (dstsz - 1) src

-- The C string in an array: what stands before the first NUL.
unfoldable pub c_string : Bytes → Bytes
c_string [] = []
c_string (c ∷ s) = if c == 0 then [] else c ∷ c_string s

-- `strcasecmp(a, b) == 0`
unfoldable pub strcase_eq : Bytes → Bytes → Bool
unfolding to_lower
strcase_eq [] [] = true
strcase_eq (x ∷ a) (y ∷ b) = to_lower x == to_lower y && strcase_eq a b
strcase_eq _ _ = false

-- `strcmp(a, b) == 0`
unfoldable pub str_eq : Bytes → Bytes → Bool
str_eq [] [] = true
str_eq (x ∷ a) (y ∷ b) = x == y && str_eq a b
str_eq _ _ = false

-- What `strtok_r` has cut: the token that is open at the front of a text, and those behind it.
pub record Cut : Type 0 where
  pub front : Bytes
  pub behind : List Bytes

abbrev pub close : Bytes → List Bytes → List Bytes
close [] ts = ts
close (c ∷ cs) ts = (c ∷ cs) ∷ ts

unfoldable pub cut : (ℕ → Bool) → Bytes → Cut
cut is_delim [] = record { front = []; behind = [] }
cut is_delim (c ∷ s) =
    let r = cut is_delim s in
    if is_delim c
    then record { front = []; behind = close r.front r.behind }
    else record { front = c ∷ r.front; behind = r.behind }

-- The tokens that a `strtok_r` loop visits: the longest runs without a delimiter, none empty.
unfoldable pub tokens : (ℕ → Bool) → Bytes → List Bytes
unfolding cut
tokens is_delim s = close (cut is_delim s).front (cut is_delim s).behind
