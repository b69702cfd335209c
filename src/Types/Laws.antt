-- ===== src/Types/Laws.antt =====
-- Names of types and their numbers.
use simple_dns.Common.{
  ℕ, zero, suc, ◌^◌, ◌<◌, Bool, true, false, not, ◌&&◌, none, some, List, [], ◌∷◌, Bytes, length,
  take, drop, Option-cases, inl, inr, ◌≡◌, refl, arith,
}
use simple_dns.Common.Text.{strcase_eq}
use simple_dns.Common.Text.Case.{strcase_eq_refl, strcase_eq_same, strcase_eq-cons}
use simple_dns.Common.Text.Decimal.{
  bytes, digits, AllDigits, digits-All, length-digits_pos, atoi-digits, is_digit-strcase_eq,
  atoi-strcase_eq,
}
use simple_dns.Types.{
  type_names, name_of, type_of, type2str, str2type, starts_with_digit, number_name, number_of,
}

-- No name of the table is `name` in another case.
abbrev fresh : Bytes → List (ℕ × Bytes) → Bool
fresh name [] = true
fresh name ((k, other) ∷ names) = not (strcase_eq other name) && fresh name names

abbrev distinct : List (ℕ × Bytes) → Bool
distinct [] = true
distinct ((k, name) ∷ names) = fresh name names && distinct names

name_of-fresh :
    (names : List (ℕ × Bytes)) (first : Bytes) (t : ℕ) (name : Bytes)
    → fresh first names ≡ true
    → name_of names t ≡ some name
    → strcase_eq name first ≡ false
unfolding name_of
name_of-fresh [] first t name h e = cc
name_of-fresh ((k, other) ∷ names) first t name h e =
    ground (arith, name_of-fresh names first t name)

-- The table read both ways.
type_of-name_of :
    (names : List (ℕ × Bytes)) (t : ℕ) (name : Bytes)
    → distinct names ≡ true
    → name_of names t ≡ some name
    → type_of names name ≡ some t
unfolding name_of type_of
type_of-name_of [] t name d e = cc
type_of-name_of ((k, first) ∷ names) t name d e =
    ground
      (arith, type_of-name_of names t name, name_of-fresh names first t name, strcase_eq_refl name)

distinct-type_names : distinct type_names ≡ true
unfolding type_names strcase_eq bytes
distinct-type_names = refl

type_of-number_name : (t : ℕ) → type_of type_names (number_name t) ≡ none
unfolding type_of type_names strcase_eq number_name
type_of-number_name t = refl

starts : (ds : Bytes) → AllDigits ds → 0 < length ds → starts_with_digit ds ≡ true
unfolding starts_with_digit
starts [] all some_digit = absurd (omega arith)
starts (d ∷ ds) all some_digit = all.0

number_of-number_name : (t : ℕ) → t < 2 ^ 16 → number_of (number_name t) ≡ t
unfolding number_of number_name strcase_eq
number_of-number_name t h =
    rw
      (
        starts (digits 5 t) (digits-All 5 t) (length-digits_pos 4 t),
        atoi-digits 5 t (omega arith) (omega arith),
      )
      (omega arith)

-- `str2type` reads back every name that `type2str` gives.
pub str2type-type2str : (t : ℕ) → t < 2 ^ 16 → str2type (type2str t) ≡ t
unfolding str2type type2str
str2type-type2str t h = elim (Option-cases (name_of type_names t)) [
  | inl e ↦ rw (e, type_of-number_name t) (number_of-number_name t h)
  | inr (name, e) ↦ rw (e, type_of-name_of type_names t name distinct-type_names e) refl
]

type_of-strcase_eq :
    (names : List (ℕ × Bytes)) (a b : Bytes)
    → strcase_eq a b ≡ true
    → type_of names a ≡ type_of names b
unfolding type_of
type_of-strcase_eq [] a b h = refl
type_of-strcase_eq ((k, name) ∷ names) a b h =
    rw (strcase_eq_same a b name h, type_of-strcase_eq names a b h) refl

starts-strcase_eq :
    (a b : Bytes) → strcase_eq a b ≡ true → starts_with_digit a ≡ starts_with_digit b
unfolding starts_with_digit strcase_eq
starts-strcase_eq [] [] h = refl
starts-strcase_eq [] (y ∷ b) h = cc
starts-strcase_eq (x ∷ a) [] h = cc
starts-strcase_eq (x ∷ a) (y ∷ b) h = is_digit-strcase_eq x y (strcase_eq-cons x y a b h).0

drop-strcase_eq :
    (n : ℕ) (a b : Bytes) → strcase_eq a b ≡ true → strcase_eq (drop n a) (drop n b) ≡ true
unfolding strcase_eq
drop-strcase_eq zero a b h = h
drop-strcase_eq (suc n) [] [] h = refl
drop-strcase_eq (suc n) [] (y ∷ b) h = cc
drop-strcase_eq (suc n) (x ∷ a) [] h = cc
drop-strcase_eq (suc n) (x ∷ a) (y ∷ b) h = ground (arith, drop-strcase_eq n a b)

take-strcase_eq :
    (n : ℕ) (a b : Bytes) → strcase_eq a b ≡ true → strcase_eq (take n a) (take n b) ≡ true
unfolding strcase_eq
take-strcase_eq zero a b h = refl
take-strcase_eq (suc n) [] [] h = refl
take-strcase_eq (suc n) [] (y ∷ b) h = cc
take-strcase_eq (suc n) (x ∷ a) [] h = cc
take-strcase_eq (suc n) (x ∷ a) (y ∷ b) h = ground (arith, take-strcase_eq n a b)

-- `str2type` does not see case.
pub str2type-strcase_eq : (a b : Bytes) → strcase_eq a b ≡ true → str2type a ≡ str2type b
unfolding str2type number_of
str2type-strcase_eq a b h =
    let e = drop-strcase_eq 4 a b h in
    rw
      (
        type_of-strcase_eq type_names a b h,
        strcase_eq_same (take 4 a) (take 4 b) (bytes "TYPE") (take-strcase_eq 4 a b h),
        starts-strcase_eq (drop 4 a) (drop 4 b) e,
        starts-strcase_eq a b h,
        atoi-strcase_eq (drop 4 a) (drop 4 b) e,
        atoi-strcase_eq a b h,
      )
      refl
