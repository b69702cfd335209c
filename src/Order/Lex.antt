-- ===== src/Order/Lex.antt =====
-- The lexicographic order of lists, over an order of their items.
use simple_dns.Common.{List, [], ◌∷◌, ◌≡◌, ◌⊎◌, inl, inr, refl, sym}
use Prim.Native.Nat.{Ordering}
use simple_dns.Order.{or_then}

abbrev pub flip : Ordering → Ordering
flip Ordering.lt = Ordering.gt
flip Ordering.eq = Ordering.eq
flip Ordering.gt = Ordering.lt

abbrev pub lex {ℓ} : {A : Type ℓ} → (A → A → Ordering) → List A → List A → Ordering
lex cmp [] [] = Ordering.eq
lex cmp [] (y ∷ ys) = Ordering.lt
lex cmp (x ∷ xs) [] = Ordering.gt
lex cmp (x ∷ xs) (y ∷ ys) = or_then (cmp x y) (lex cmp xs ys)

-- A comparison that is a total order.
pub record IsOrder {ℓ} {A : Type ℓ} (cmp : A → A → Ordering) : Type ℓ where
  pub turned : (x y : A) → cmp y x ≡ flip (cmp x y)
  pub same : (x y : A) → cmp x y ≡ Ordering.eq → x ≡ y
  pub self : (x : A) → cmp x x ≡ Ordering.eq
  pub chained : (x y z : A) → cmp x y ≡ Ordering.lt → cmp y z ≡ Ordering.lt → cmp x z ≡ Ordering.lt

flip-or_then : (p q : Ordering) → or_then (flip p) (flip q) ≡ flip (or_then p q)
flip-or_then Ordering.lt q = refl
flip-or_then Ordering.eq q = refl
flip-or_then Ordering.gt q = refl

or_then_eq : (p q : Ordering) → or_then p q ≡ Ordering.eq → (p ≡ Ordering.eq) × (q ≡ Ordering.eq)
or_then_eq Ordering.lt q h = cc
or_then_eq Ordering.eq q h = (refl, h)
or_then_eq Ordering.gt q h = cc

or_then_lt :
    (p q : Ordering)
    → or_then p q ≡ Ordering.lt
    → (p ≡ Ordering.lt) ⊎ ((p ≡ Ordering.eq) × (q ≡ Ordering.lt))
or_then_lt Ordering.lt q h = inl refl
or_then_lt Ordering.eq q h = inr (refl, h)
or_then_lt Ordering.gt q h = cc

module _ {ℓ} {A : Type ℓ} (cmp : A → A → Ordering) (o : IsOrder cmp) where
  lex_turned : (xs ys : List A) → lex cmp ys xs ≡ flip (lex cmp xs ys)
  lex_turned [] [] = refl
  lex_turned [] (y ∷ ys) = refl
  lex_turned (x ∷ xs) [] = refl
  lex_turned (x ∷ xs) (y ∷ ys) =
      rw (o.turned x y, lex_turned xs ys) (flip-or_then (cmp x y) (lex cmp xs ys))

  lex_same : (xs ys : List A) → lex cmp xs ys ≡ Ordering.eq → xs ≡ ys
  lex_same [] [] h = refl
  lex_same [] (y ∷ ys) h = cc
  lex_same (x ∷ xs) [] h = cc
  lex_same (x ∷ xs) (y ∷ ys) h =
      let (head, rest) = or_then_eq (cmp x y) (lex cmp xs ys) h in
      rw (o.same x y head, lex_same xs ys rest) refl

  lex_self : (xs : List A) → lex cmp xs xs ≡ Ordering.eq
  lex_self [] = refl
  lex_self (x ∷ xs) = rw (o.self x) (lex_self xs)

  lex_chained :
      (xs ys zs : List A)
      → lex cmp xs ys ≡ Ordering.lt
      → lex cmp ys zs ≡ Ordering.lt
      → lex cmp xs zs ≡ Ordering.lt
  lex_chained xs [] [] h k = cc
  lex_chained [] [] (z ∷ zs) h k = refl
  lex_chained (x ∷ xs) [] (z ∷ zs) h k = cc
  lex_chained xs (y ∷ ys) [] h k = cc
  lex_chained [] (y ∷ ys) (z ∷ zs) h k = refl
  lex_chained (x ∷ xs) (y ∷ ys) (z ∷ zs) h k = elim (or_then_lt (cmp x y) (lex cmp xs ys) h) [
    | inl p ↦ elim (or_then_lt (cmp y z) (lex cmp ys zs) k) [
      | inl q ↦ rw (o.chained x y z p q) refl
      | inr q ↦ let e : y ≡ z = o.same y z q.0 in rw (sym e, p) refl
    ]
    | inr p ↦ elim (or_then_lt (cmp y z) (lex cmp ys zs) k) [
      | inl q ↦ let e : x ≡ y = o.same x y p.0 in rw (e, q) refl
      | inr q ↦ let e : x ≡ y = o.same x y p.0 in rw (e, q.0) (lex_chained xs ys zs p.1 q.1)
    ]
  ]

  -- Lists of ordered items are ordered.
  pub lex-IsOrder : IsOrder (lex cmp)
  lex-IsOrder = record {
    turned = lex_turned;
    same = lex_same;
    self = lex_self;
    chained = lex_chained;
  }
