-- ===== src/Common/Text/Strings.antt =====
-- The C string in an array, and the texts of numbers.
use simple_dns.Common.Tests.{ltb, ◌==◌, Bool-cases, lt→ltb}
use simple_dns.Common.Lists.{Bytes, All, length, length-append}
use simple_dns.Common.Int.{ℤ, atol, to_int}
use simple_dns.Common.Text.{c_string}
use simple_dns.Common.Text.Decimal.{
  digits, digits_value, digits_value-digits, is_digit, digits-All, length-digits_pos,
}
use Prim.Native.Nat.{ℕ, zero, suc, ◌+◌, ◌-◌, ◌/◌, ◌%◌, ◌^◌, ◌≤◌, ◌<◌, min}
use mathlib.Core.Bool.{true, false}
use mathlib.Core.Path.{◌≡◌, refl, sym, ap}
use mathlib.Core.Logic.{◌≢◌, inl, inr}
use mathlib.Core.List.{[], ◌∷◌}
use native.Mathlib.Omega.{arith}

pub c_string_same : (s : Bytes) → All (λ c. c ≢ 0) s → c_string s ≡ s
unfolding c_string
c_string_same [] h = refl
c_string_same (c ∷ s) h = ground (arith, c_string_same s h.1, h.0)

pub c_string-le : (s : Bytes) → length (c_string s) ≤ length s
unfolding c_string
c_string-le [] = omega arith
c_string-le (c ∷ s) = ground (arith, c_string-le s)

pub c_string-All : (s : Bytes) → All (λ c. c ≢ 0) (c_string s)
unfolding c_string
c_string-All [] = tt
c_string-All (c ∷ s) = elim (Bool-cases (c == 0)) [
  | inl e ↦ rw e tt
  | inr e ↦ rw e (ground arith, c_string-All s)
]

-- The text of `%d`, for numbers of 64 bits.
abbrev pub print : ℤ → Bytes
print (ℤ.pos n) = digits 20 n
print (ℤ.negsuc n) = b'-' ∷ digits 20 (suc n)

-- The numbers of a `long`.
abbrev pub IsLong : ℤ → Type 0
IsLong (ℤ.pos n) = n < 2 ^ 63
IsLong (ℤ.negsuc n) = n < 2 ^ 63

All-of {ℓ κ} :
    (P : ℕ → Type ℓ) (Q : ℕ → Type κ) (s : Bytes) → ((c : ℕ) → P c → Q c) → All P s → All Q s
All-of P Q [] f h = tt
All-of P Q (c ∷ s) f h = (f c h.0, All-of P Q s f h.1)

digit_not : (c d : ℕ) → is_digit c ≡ true → is_digit d ≡ false → c ≢ d
digit_not c d h k e = let same : is_digit c ≡ is_digit d = ap is_digit e in cc

-- A number is printed without a given character that is no digit and no sign.
pub print-All : (z : ℤ) (d : ℕ) → is_digit d ≡ false → d ≢ b'-' → All (λ c. c ≢ d) (print z)
print-All (ℤ.pos n) d h k =
    All-of _ (λ c. c ≢ d) (digits 20 n) (λ c p. digit_not c d p h) (digits-All 20 n)
print-All (ℤ.negsuc n) d h k = (
  λ e. k (sym e),
  All-of _ (λ c. c ≢ d) (digits 20 (suc n)) (λ c p. digit_not c d p h) (digits-All 20 (suc n)),
)

pub length-digits : (fuel n : ℕ) → length (digits fuel n) ≤ fuel
unfolding digits
length-digits zero n = omega arith
length-digits (suc fuel) n = elim (Bool-cases (ltb n 10)) [
  | inl e ↦ rw (e, digits) (omega arith)
  | inr e ↦
      rw (e, digits)
        (omega (
          arith,
          length-digits fuel (n / 10),
          length-append (digits fuel (n / 10)) ((n % 10 + b'0') ∷ []),
        ))
]

pub length-print : (z : ℤ) → length (print z) ≤ 21
length-print (ℤ.pos n) = omega (arith, length-digits 20 n)
length-print (ℤ.negsuc n) = omega (arith, length-digits 20 (suc n))

atol_digits :
    (s : Bytes)
    → All (λ c. is_digit c ≡ true) s
    → 0 < length s
    → atol s ≡ ℤ.pos (min (digits_value 0 s) (2 ^ 63 - 1))
unfolding atol is_digit
atol_digits [] h k = absurd (omega arith)
atol_digits (c ∷ s) h k = ground (arith, h.0)

-- A number that is printed reads back.
pub atol-print : (z : ℤ) → IsLong z → atol (print z) ≡ z
atol-print (ℤ.pos n) h =
    let value : digits_value 0 (digits 20 n) ≡ n = digits_value-digits 20 n (omega arith) in
    let small : min n 9223372036854775807 ≡ n = omega arith in
    rw (atol_digits (digits 20 n) (digits-All 20 n) (length-digits_pos 19 n), value, small) refl
atol-print (ℤ.negsuc n) h =
    unfold atol in
    (let value : digits_value 0 (digits 20 (suc n)) ≡ suc n =
        digits_value-digits 20 (suc n) (omega arith) in
      let small : min (suc n) 9223372036854775808 ≡ suc n = omega arith in rw (value, small) refl)

-- A number of 32 bits is not changed by the conversion to `int`.
pub to_int_lem : (n : ℕ) → n < 2 ^ 31 → to_int (ℤ.pos n) ≡ ℤ.pos n
unfolding to_int
to_int_lem n h = let m : n % 4294967296 ≡ n = omega arith in rw (m, lt→ltb n 2147483648 h) refl
