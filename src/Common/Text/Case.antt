-- ===== src/Common/Text/Case.antt =====
-- `strcase_eq` is an equivalence that keeps length, dots and lower-case form.
use simple_dns.Common.Tests.{◌==◌, if◌then◌else◌, Bool-cases}
use simple_dns.Common.Lists.{Bytes, All, length, length-append}
use simple_dns.Common.Text.{to_lower, strlower, strcase_eq}
use simple_dns.Common.Text.Split.{join, IsToken}
use Prim.Native.Nat.{ℕ, ◌+◌, ◌<◌}
use mathlib.Core.Path.{◌≡◌, refl, sym, ap, ◌∙◌}
use mathlib.Core.Logic.{◌≢◌, inl, inr}
use mathlib.Core.Bool.{Bool, true, false}
use mathlib.Core.List.{List, [], ◌∷◌, ◌++◌, append-nil}
use native.Mathlib.Omega.{arith}

pub strcase_eq_refl : (a : Bytes) → strcase_eq a a ≡ true
unfolding strcase_eq
strcase_eq_refl [] = refl
strcase_eq_refl (x ∷ a) = ground (arith, strcase_eq_refl a)

pub strcase_eq-cons :
    (x y : ℕ) (a b : Bytes)
    → strcase_eq (x ∷ a) (y ∷ b) ≡ true
    → (to_lower x ≡ to_lower y) × (strcase_eq a b ≡ true)
unfolding strcase_eq
strcase_eq-cons x y a b h = ground arith

pub strcase_eq_trans :
    (a b c : Bytes) → strcase_eq a b ≡ true → strcase_eq b c ≡ true → strcase_eq a c ≡ true
unfolding strcase_eq
strcase_eq_trans [] [] c h k = k
strcase_eq_trans [] (y ∷ b) c h k = cc
strcase_eq_trans (x ∷ a) [] c h k = cc
strcase_eq_trans (x ∷ a) (y ∷ b) [] h k = cc
strcase_eq_trans (x ∷ a) (y ∷ b) (z ∷ c) h k = ground (arith, strcase_eq_trans a b c)

pub strcase_eq_sym : (a b : Bytes) → strcase_eq a b ≡ true → strcase_eq b a ≡ true
unfolding strcase_eq
strcase_eq_sym [] [] h = refl
strcase_eq_sym [] (y ∷ b) h = cc
strcase_eq_sym (x ∷ a) [] h = cc
strcase_eq_sym (x ∷ a) (y ∷ b) h = ground (arith, strcase_eq_sym a b)

-- Texts that differ in case only compare alike.
pub strcase_eq_same :
    (a b name : Bytes) → strcase_eq a b ≡ true → strcase_eq a name ≡ strcase_eq b name
strcase_eq_same a b name h = elim (Bool-cases (strcase_eq b name)) [
  | inl e ↦ rw e (strcase_eq_trans a b name h e)
  | inr e ↦ ground (arith, strcase_eq_trans b a name (strcase_eq_sym a b h))
]

pub strcase_eq-append :
    (l a b : Bytes) → strcase_eq a b ≡ true → strcase_eq (l ++ a) (l ++ b) ≡ true
unfolding strcase_eq
strcase_eq-append [] a b h = h
strcase_eq-append (x ∷ l) a b h = ground (arith, strcase_eq-append l a b h)

pub length-strcase_eq : (a b : Bytes) → strcase_eq a b ≡ true → length a ≡ length b
unfolding strcase_eq
length-strcase_eq [] [] h = refl
length-strcase_eq [] (y ∷ b) h = cc
length-strcase_eq (x ∷ a) [] h = cc
length-strcase_eq (x ∷ a) (y ∷ b) h = ground (arith, length-strcase_eq a b)

-- Texts without NUL that differ in case only have one lower-case form.
pub strlower-strcase_eq :
    (a b : Bytes) → All (λ c. c ≢ 0) b → strcase_eq a b ≡ true → strlower a ≡ strlower b
unfolding strcase_eq strlower
strlower-strcase_eq [] [] nz h = refl
strlower-strcase_eq [] (y ∷ b) nz h = cc
strlower-strcase_eq (x ∷ a) [] nz h = cc
strlower-strcase_eq (x ∷ a) (y ∷ b) nz h = ground (arith, strlower-strcase_eq a b nz.1, nz.0)

-- The number of dots in a text.
abbrev pub dots : Bytes → ℕ
dots [] = 0
dots (c ∷ s) = (if c == b'.' then 1 else 0) + dots s

pub dots-strcase_eq : (a b : Bytes) → strcase_eq a b ≡ true → dots a ≡ dots b
unfolding strcase_eq
dots-strcase_eq [] [] h = refl
dots-strcase_eq [] (y ∷ b) h = cc
dots-strcase_eq (x ∷ a) [] h = cc
dots-strcase_eq (x ∷ a) (y ∷ b) h = ground (arith, dots-strcase_eq a b)

abbrev pub is_dot : ℕ → Bool
is_dot c = c == b'.'

dots-token : (t s : Bytes) → All (λ c. is_dot c ≡ false) t → dots (t ++ s) ≡ dots s
dots-token [] s h = refl
dots-token (c ∷ t) s h = rw (h.0) (omega (arith, dots-token t s h.1))

-- Labels with a dot between two of them are one more than the dots.
pub dots-join :
    (l : Bytes) (ls : List Bytes)
    → All (IsToken is_dot) (l ∷ ls)
    → dots (join b'.' (l ∷ ls)) ≡ length ls
dots-join l [] h = ap dots (sym (append-nil l)) ∙ dots-token l [] h.0.0
dots-join l (m ∷ ls) h =
    dots-token l (b'.' ∷ join b'.' (m ∷ ls)) h.0.0 ∙ omega (arith, dots-join m ls h.1)

pub join_pos : (l : Bytes) (ls : List Bytes) → IsToken is_dot l → 0 < length (join b'.' (l ∷ ls))
join_pos l [] h = h.1
join_pos l (m ∷ ls) h = omega (arith, length-append l (b'.' ∷ join b'.' (m ∷ ls)))

-- A label in front makes a text longer.
pub length-join-lt :
    (l : Bytes) (ls : List Bytes)
    → IsToken is_dot l
    → length (join b'.' ls) < length (join b'.' (l ∷ ls))
length-join-lt l [] h = h.1
length-join-lt l (m ∷ ls) h = omega (arith, length-append l (b'.' ∷ join b'.' (m ∷ ls)))

-- One label in front of two lists of labels that spell the same but for case.
pub strcase_eq-join :
    (l : Bytes) (us vs : List Bytes)
    → All (IsToken is_dot) us
    → All (IsToken is_dot) vs
    → strcase_eq (join b'.' us) (join b'.' vs) ≡ true
    → strcase_eq (join b'.' (l ∷ us)) (join b'.' (l ∷ vs)) ≡ true
unfolding strcase_eq
strcase_eq-join l [] [] ha hb h = strcase_eq_refl l
strcase_eq-join l [] (b ∷ vs) ha hb h =
    absurd (omega (arith, length-strcase_eq [] (join b'.' (b ∷ vs)) h, join_pos b vs hb.0))
strcase_eq-join l (a ∷ us) [] ha hb h =
    absurd (omega (arith, length-strcase_eq (join b'.' (a ∷ us)) [] h, join_pos a us ha.0))
strcase_eq-join l (a ∷ us) (b ∷ vs) ha hb h =
    strcase_eq-append l (b'.' ∷ join b'.' (a ∷ us)) (b'.' ∷ join b'.' (b ∷ vs)) h
