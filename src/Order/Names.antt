-- ===== src/Order/Names.antt =====
-- `canon_name_cmp` is the order of RFC 4034 §6.1.
use simple_dns.Common.{
  ℕ, suc, ◌+◌, ◌<◌, min, List, [], ◌∷◌, Bytes, length, ◌≡◌, ◌↔◌, refl, sym, ap, ◌∙◌, arith,
}
use mathlib.Core.List.{reverse, reverse_aux, reverse-reverse}
use mathlib.Core.Path.{subst}
use Prim.Native.Nat.{compare, Ordering}
use simple_dns.Order.{or_then, memcmp, label_cmp, name_labels, cmp_from, canon_name_cmp}
use simple_dns.Order.Lex.{IsOrder, lex, lex-IsOrder, flip}

compare_eq : (x y : ℕ) → x ≡ y → compare x y ≡ Ordering.eq
compare_eq x y h = ground arith

compare_lt : (x y : ℕ) → x < y → compare x y ≡ Ordering.lt
compare_lt x y h = ground arith

compare_gt : (x y : ℕ) → y < x → compare x y ≡ Ordering.gt
compare_gt x y h = ground arith

compare_turned : (x y : ℕ) → compare y x ≡ flip (compare x y)
compare_turned x y = ground arith

compare_same : (x y : ℕ) → compare x y ≡ Ordering.eq → x ≡ y
compare_same x y h = ground arith

compare_chained :
    (x y z : ℕ) → compare x y ≡ Ordering.lt → compare y z ≡ Ordering.lt → compare x z ≡ Ordering.lt
compare_chained x y z h k = ground arith

compare-suc : (x y : ℕ) → compare (suc x) (suc y) ≡ compare x y
compare-suc x y = ground arith

compare-IsOrder : IsOrder compare
compare-IsOrder = record {
  turned = compare_turned;
  same = compare_same;
  self = λ x. compare_eq x x refl;
  chained = compare_chained;
}

joined :
    (p q : Ordering) (m n : ℕ)
    → or_then (or_then p q) (compare (suc m) (suc n)) ≡ or_then p (or_then q (compare m n))
joined Ordering.lt q m n = refl
joined Ordering.eq q m n = ap (or_then q) (compare-suc m n)
joined Ordering.gt q m n = refl

-- `memcmp` of the shorter length and then the lengths are the order of byte strings.
label_cmp-lex : (a b : Bytes) → label_cmp a b ≡ lex compare a b
unfolding label_cmp memcmp
label_cmp-lex [] [] = refl
label_cmp-lex [] (y ∷ b) = compare_lt 0 (length (y ∷ b)) (omega arith)
label_cmp-lex (x ∷ a) [] = compare_gt (length (x ∷ a)) 0 (omega arith)
label_cmp-lex (x ∷ a) (y ∷ b) =
    let e : min (suc (length a)) (suc (length b)) ≡ suc (min (length a) (length b)) = omega arith in
    let p = compare x y in
    rw (label_cmp, e)
      (joined p (memcmp a b (min (length a) (length b))) (length a) (length b)
        ∙ ap (or_then p) (label_cmp-lex a b))

cmp_from-lex :
    (la lb : List Bytes) (n ca cb : ℕ)
    → n + length la ≡ ca
    → n + length lb ≡ cb
    → cmp_from la lb ca cb ≡ lex label_cmp la lb
unfolding cmp_from
cmp_from-lex [] [] n ca cb h k = compare_eq ca cb (omega arith)
cmp_from-lex [] (b ∷ lb) n ca cb h k = compare_lt ca cb (omega arith)
cmp_from-lex (a ∷ la) [] n ca cb h k = compare_gt ca cb (omega arith)
cmp_from-lex (a ∷ la) (b ∷ lb) n ca cb h k =
    let rest = cmp_from-lex la lb (n + 1) ca cb (omega arith) (omega arith) in
    ap (or_then (label_cmp a b)) rest

length-reverse_aux : (xs acc : List Bytes) → length (reverse_aux xs acc) ≡ length xs + length acc
length-reverse_aux [] acc = omega arith
length-reverse_aux (x ∷ xs) acc = length-reverse_aux xs (x ∷ acc) ∙ omega arith

length-reverse : (xs : List Bytes) → 0 + length (reverse xs) ≡ length xs
length-reverse xs = omega (arith, length-reverse_aux xs [])

-- RFC 4034 §6.1: the labels compare from the right, each as a string of bytes.
abbrev pub canonical : List Bytes → List Bytes → Ordering
canonical la lb = lex (lex compare) (reverse la) (reverse lb)

lex-label_cmp : (la lb : List Bytes) → lex label_cmp la lb ≡ lex (lex compare) la lb
lex-label_cmp [] [] = refl
lex-label_cmp [] (b ∷ lb) = refl
lex-label_cmp (a ∷ la) [] = refl
lex-label_cmp (a ∷ la) (b ∷ lb) = rw (label_cmp-lex a b, lex-label_cmp la lb) refl

-- `canon_name_cmp` compares the lower-case labels of the two names, each cut off at 255 bytes, as
-- RFC 4034 §6.1 does:
-- from the right, each label as a string of bytes, and a missing label before any other.
pub canon_name_cmp-canonical :
    (a b : Bytes) → canon_name_cmp a b ≡ canonical (name_labels a) (name_labels b)
unfolding canon_name_cmp
canon_name_cmp-canonical a b =
    cmp_from-lex (reverse (name_labels a)) (reverse (name_labels b)) 0 _ _
      (length-reverse (name_labels a)) (length-reverse (name_labels b))
    ∙ lex-label_cmp (reverse (name_labels a)) (reverse (name_labels b))

labels-IsOrder : IsOrder (lex (lex compare))
labels-IsOrder = lex-IsOrder (lex compare) (lex-IsOrder compare compare-IsOrder)

reverse_same : (la lb : List Bytes) → reverse la ≡ reverse lb → la ≡ lb
reverse_same la lb h = sym (reverse-reverse la) ∙ ap reverse h ∙ reverse-reverse lb

-- `canon_name_cmp` gives the opposite sign for names in the opposite order, and 0 exactly for names
-- whose labels, those of the first 255 bytes, are the same in lower case.
pub canon_name_cmp-Total :
    (a b : Bytes)
    → (canon_name_cmp b a ≡ flip (canon_name_cmp a b))
      × ((canon_name_cmp a b ≡ Ordering.eq) ↔ (name_labels a ≡ name_labels b))
canon_name_cmp-Total a b =
    let o = labels-IsOrder in
    let la = name_labels a in
    let lb = name_labels b in
    rw (canon_name_cmp-canonical a b, canon_name_cmp-canonical b a)
      (
        o.turned (reverse la) (reverse lb),
        (
          λ h. reverse_same la lb (o.same (reverse la) (reverse lb) h),
          λ h. subst (λ (l : List Bytes). canonical la l ≡ Ordering.eq) h (o.self (reverse la)),
        ),
      )

-- By `canon_name_cmp`, a name before a second one that is before a third one is before the third one.
pub canon_name_cmp_trans :
    (a b c : Bytes)
    → canon_name_cmp a b ≡ Ordering.lt
    → canon_name_cmp b c ≡ Ordering.lt
    → canon_name_cmp a c ≡ Ordering.lt
canon_name_cmp_trans a b c h k =
    canon_name_cmp-canonical a c
    ∙ labels-IsOrder.chained (reverse (name_labels a)) (reverse (name_labels b))
        (reverse (name_labels c)) (sym (canon_name_cmp-canonical a b) ∙ h)
        (sym (canon_name_cmp-canonical b c) ∙ k)
