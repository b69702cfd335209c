-- ===== src/Common/Text/Decimal.antt =====
-- Decimal numerals in C strings: `%u` of `snprintf`, and `atoi`.
use simple_dns.Common.Tests.{
  leb, ltb, if◌then◌else◌, Bool-cases, lt→ltb, le→ltb, ltb→lt, ltb_false→le,
}
use simple_dns.Common.Lists.{Bytes, All, All-append, length, length-append}
use simple_dns.Common.Text.{to_lower, strcase_eq}
use simple_dns.Common.Text.Case.{strcase_eq-cons}
use Prim.Native.Nat.{ℕ, zero, suc, ◌+◌, ◌*◌, ◌-◌, ◌/◌, ◌%◌, ◌^◌, ◌<◌, ◌≤◌, min}
use Prim.Native.Nat.pow
use Prim.Native.String
use Prim.Native.Char.{code}
use mathlib.Core.Path.{◌≡◌, refl, sym, subst}
use mathlib.Core.Logic.{◌⊎◌, inl, inr}
use mathlib.Core.Bool.{Bool, true, false, ◌&&◌}
use mathlib.Core.List.{[], ◌∷◌, ◌++◌}
use native.Mathlib.Omega.{arith}

-- A quoted text of ASCII characters.
unfoldable pub bytes : String.String → Bytes
bytes String.[] = []
bytes (String.◌∷◌ c s) = code c ∷ bytes s

unfoldable pub is_digit : ℕ → Bool
is_digit c = leb b'0' c && leb c b'9'

-- The digits of `%u`, the last one first in the recursion; `fuel` is their largest number.
unfoldable pub digits : ℕ → ℕ → Bytes
digits zero n = []
digits (suc fuel) n = elim (ltb n 10) [
  | true ↦ (n + b'0') ∷ []
  | false ↦ digits fuel (n / 10) ++ ((n % 10 + b'0') ∷ [])
]

-- The value of the digits at the front of a text, behind those read so far.
unfoldable pub digits_value : ℕ → Bytes → ℕ
unfolding is_digit
digits_value acc [] = acc
digits_value acc (c ∷ s) =
    let rest = digits_value (acc * 10 + (c - b'0')) s in if is_digit c then rest else acc

-- `atoi` of a text that begins with a digit, before the conversion to `int`: `strtol` of 64 bits
-- stops at LONG_MAX.
unfoldable pub atoi : Bytes → ℕ
unfolding digits_value
atoi s = min (digits_value 0 s) (2 ^ 63 - 1)

pub digit : (n : ℕ) → n < 10 → is_digit (n + b'0') ≡ true
unfolding is_digit
digit n h = ground arith

last_digit : (fuel n : ℕ) → n < 10 → digits (suc fuel) n ≡ (n + b'0') ∷ []
unfolding digits
last_digit fuel n h = rw (lt→ltb n 10 h, digits) refl

more_digits :
    (fuel n : ℕ) → 10 ≤ n → digits (suc fuel) n ≡ digits fuel (n / 10) ++ ((n % 10 + b'0') ∷ [])
unfolding digits
more_digits fuel n h = rw (le→ltb n 10 h, digits) refl

one_or_more : (n : ℕ) → (n < 10) ⊎ (10 ≤ n)
one_or_more n = elim (Bool-cases (ltb n 10)) [
  | inl e ↦ inl (ltb→lt n 10 e)
  | inr e ↦ inr (ltb_false→le n 10 e)
]

abbrev pub AllDigits : Bytes → Type 0
AllDigits = All (λ c. is_digit c ≡ true)

no_digits : (n : ℕ) → AllDigits (digits zero n)
unfolding digits
no_digits n = tt

pub digits-All : (fuel n : ℕ) → AllDigits (digits fuel n)
digits-All zero n = no_digits n
digits-All (suc fuel) n = elim (one_or_more n) [
  | inl h ↦ subst AllDigits (sym (last_digit fuel n h)) (digit n h, tt)
  | inr h ↦ subst AllDigits (sym (more_digits fuel n h)) (
      All-append _ (digits fuel (n / 10)) _ (digits-All fuel (n / 10))
        (digit (n % 10) (omega arith), tt))
]

value_digit : (acc c : ℕ) → is_digit c ≡ true → digits_value acc (c ∷ []) ≡ acc * 10 + (c - b'0')
unfolding digits_value
value_digit acc c h = rw h refl

digits_value-append :
    (acc : ℕ) (ds s : Bytes)
    → All (λ c. is_digit c ≡ true) ds
    → digits_value acc (ds ++ s) ≡ digits_value (digits_value acc ds) s
unfolding digits_value
digits_value-append acc [] s h = refl
digits_value-append acc (d ∷ ds) s h = rw h.0 (digits_value-append (acc * 10 + (d - b'0')) ds s h.1)

-- Reading what is printed gives the number.
pub digits_value-digits : (fuel n : ℕ) → n < 10 ^ fuel → digits_value 0 (digits fuel n) ≡ n
unfolding digits digits_value
digits_value-digits zero n h = omega (arith, pow.zero 10)
digits_value-digits (suc fuel) n h = elim (one_or_more n) [
  | inl g ↦ rw (last_digit fuel n g, value_digit 0 (n + b'0') (digit n g)) (omega arith)
  | inr g ↦
      let small : n / 10 < 10 ^ fuel = omega (arith, pow.suc 10 fuel) in
      rw
        (
          more_digits fuel n g,
          digits_value-append 0 (digits fuel (n / 10)) ((n % 10 + b'0') ∷ [])
              (digits-All fuel (n / 10)),
          digits_value-digits fuel (n / 10) small,
          value_digit (n / 10) (n % 10 + b'0') (digit (n % 10) (omega arith)),
        )
        (omega arith)
]

pub length-digits_pos : (fuel n : ℕ) → 0 < length (digits (suc fuel) n)
length-digits_pos fuel n = elim (one_or_more n) [
  | inl h ↦ rw (last_digit fuel n h) (omega arith)
  | inr h ↦
      rw (more_digits fuel n h)
        (omega (arith, length-append (digits fuel (n / 10)) ((n % 10 + b'0') ∷ [])))
]

-- Below 10 ^ fuel, what is printed reads back.
pub atoi-digits : (fuel n : ℕ) → n < 10 ^ fuel → n < 2 ^ 63 → atoi (digits fuel n) ≡ n
unfolding atoi
atoi-digits fuel n h small = rw (digits_value-digits fuel n h) (omega arith)

-- Texts that differ in case only have the same digits.
pub is_digit-to_lower : (x y : ℕ) → to_lower x ≡ to_lower y → is_digit x ≡ true → x ≡ y
unfolding is_digit to_lower
is_digit-to_lower x y e h = ground arith

pub is_digit-strcase_eq : (x y : ℕ) → to_lower x ≡ to_lower y → is_digit x ≡ is_digit y
unfolding is_digit to_lower
is_digit-strcase_eq x y e = ground arith

digits_value-strcase_eq :
    (acc : ℕ) (a b : Bytes) → strcase_eq a b ≡ true → digits_value acc a ≡ digits_value acc b
unfolding digits_value strcase_eq
digits_value-strcase_eq acc [] [] h = refl
digits_value-strcase_eq acc [] (y ∷ b) h = cc
digits_value-strcase_eq acc (x ∷ a) [] h = cc
digits_value-strcase_eq acc (x ∷ a) (y ∷ b) h =
    let (low, rest) = strcase_eq-cons x y a b h in
    elim (Bool-cases (is_digit x)) [
      | inl e ↦
          let same : x ≡ y = is_digit-to_lower x y low e in
          rw (sym (is_digit-strcase_eq x y low), e, same)
            (digits_value-strcase_eq (acc * 10 + (y - b'0')) a b rest)
      | inr e ↦ rw (sym (is_digit-strcase_eq x y low), e) refl
    ]

pub atoi-strcase_eq : (a b : Bytes) → strcase_eq a b ≡ true → atoi a ≡ atoi b
unfolding atoi
atoi-strcase_eq a b h = rw (digits_value-strcase_eq 0 a b h) refl
