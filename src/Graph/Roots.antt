-- ===== src/Graph/Roots.antt =====
-- The roots of a store of object_graph.c as a map from names: what each change does to it.
use simple_dns.Common.{
  ℕ, zero, suc, Bool, true, false, ◌||◌, none, some, List, [], ◌∷◌, ◌++◌, Bytes, take, Bool-cases,
  ◌≡◌, refl, ap, ◌∙◌, inl, inr, arith,
}
use simple_dns.Common.Text.{str_eq}
use simple_dns.Cidr.{same_key}
use simple_dns.Graph.{Ref, Root, find_root, set_root, release_root, restore_root}
use simple_dns.Graph.Txns.{kept_root, trim}
use simple_dns.Graph.Nodes.{same_key_self}

str_eq-same : (a b : Bytes) → str_eq a b ≡ true → a ≡ b
unfolding str_eq
str_eq-same [] [] h = refl
str_eq-same [] (y ∷ b) h = cc
str_eq-same (x ∷ a) [] h = cc
str_eq-same (x ∷ a) (y ∷ b) h =
    let first : x ≡ y = ground (arith, h) in
    let rest : str_eq a b ≡ true = ground (arith, h) in rw first (ap (◌∷◌ y) (str_eq-same a b rest))

str_eq_comm : (a b : Bytes) → str_eq a b ≡ str_eq b a
unfolding str_eq
str_eq_comm [] [] = refl
str_eq_comm [] (y ∷ b) = refl
str_eq_comm (x ∷ a) [] = refl
str_eq_comm (x ∷ a) (y ∷ b) = ground (arith, str_eq_comm a b)

same_key_comm : (a b : Bytes) → same_key a b ≡ same_key b a
same_key_comm a b = str_eq_comm (take 64 a) (take 64 b)

same_key_left : (a b n : Bytes) → same_key a b ≡ true → same_key a n ≡ same_key b n
same_key_left a b n h =
    ap (λ (t : Bytes). str_eq t (take 64 n)) (str_eq-same (take 64 a) (take 64 b) h)

same_key_right : (a b n : Bytes) → same_key a b ≡ true → same_key n a ≡ same_key n b
same_key_right a b n h =
    ap (λ (t : Bytes). str_eq (take 64 n) t) (str_eq-same (take 64 a) (take 64 b) h)

pub find_root-same :
    (k n : Bytes) (rs : List Root) → same_key k n ≡ true → find_root k rs ≡ find_root n rs
unfolding find_root
find_root-same k n [] h = refl
find_root-same k n (r ∷ rs) h = rw (same_key_right k n r.name h, find_root-same k n rs h) refl

-- Another name keeps what it has.
pub find_root-set_root :
    (k n : Bytes) (o : Ref) (rs : List Root)
    → same_key k n ≡ false
    → find_root n (set_root k o rs) ≡ find_root n rs
unfolding find_root set_root
find_root-set_root k n o [] h = refl
find_root-set_root k n o (r ∷ rs) h =
    ground (arith, find_root-set_root k n o rs h, same_key_left r.name k n)

pub find_root-release_root :
    (k n : Bytes) (rs : List Root)
    → same_key k n ≡ false
    → find_root n (release_root k rs) ≡ find_root n rs
unfolding find_root release_root
find_root-release_root k n [] h = refl
find_root-release_root k n (r ∷ rs) h =
    ground (arith, find_root-release_root k n rs h, same_key_left r.name k n)

pub find_root-restore_root :
    (k n : Bytes) (o : Ref) (rs : List Root)
    → same_key k n ≡ false
    → find_root n (restore_root k o rs) ≡ find_root n rs
unfolding find_root restore_root
find_root-restore_root k n o [] h = refl
find_root-restore_root k n o (r ∷ rs) h =
    ground (arith, find_root-restore_root k n o rs h, same_key_left r.name k n)

pub find_root-append :
    (k n : Bytes) (o : Ref) (rs : List Root)
    → same_key k n ≡ false
    → find_root n (rs ++ record { name = k; obj = o; used = true } ∷ []) ≡ find_root n rs
unfolding find_root
find_root-append k n o [] h = rw h refl
find_root-append k n o (r ∷ rs) h = rw (find_root-append k n o rs h) refl

-- No two slots in use have the same name.
unfoldable pub Unique : List Root → Type 0
unfolding find_root
Unique [] = Unit {0}
Unique (r ∷ rs) = (r.used ≡ true → find_root r.name rs ≡ none) × Unique rs

unfoldable pub has_name : Bytes → List Root → Bool
has_name k [] = false
has_name k (r ∷ rs) = same_key r.name k || has_name k rs

-- The name itself.
pub set_root_here :
    (k : Bytes) (o old : Ref) (rs : List Root)
    → find_root k rs ≡ some old
    → find_root k (set_root k o rs) ≡ some o
unfolding find_root set_root
set_root_here k o old [] h = cc
set_root_here k o old (r ∷ rs) h = ground (arith, set_root_here k o old rs)

pub append_here :
    (k : Bytes) (o : Ref) (rs : List Root)
    → find_root k rs ≡ none
    → find_root k (rs ++ record { name = k; obj = o; used = true } ∷ []) ≡ some o
unfolding find_root
append_here k o [] h = rw (same_key_self k) refl
append_here k o (r ∷ rs) h = ground (arith, append_here k o rs)

pub release_root_here :
    (k : Bytes) (rs : List Root) → Unique rs → find_root k (release_root k rs) ≡ none
unfolding find_root release_root Unique
release_root_here k [] h = refl
release_root_here k (r ∷ rs) h =
    ground (arith, release_root_here k rs h.1, h.0, find_root-same r.name k rs)

pub restore_root_here :
    (k : Bytes) (o : Ref) (rs : List Root)
    → find_root k rs ≡ none
    → has_name k rs ≡ true
    → find_root k (restore_root k o rs) ≡ some o
unfolding find_root restore_root has_name
restore_root_here k o [] h e = cc
restore_root_here k o (r ∷ rs) h e = ground (arith, restore_root_here k o rs)

-- Slots keep their names.
pub has_name-set_root :
    (k n : Bytes) (o : Ref) (rs : List Root) → has_name n (set_root k o rs) ≡ has_name n rs
unfolding has_name set_root
has_name-set_root k n o [] = refl
has_name-set_root k n o (r ∷ rs) = ground (arith, has_name-set_root k n o rs)

pub has_name-release_root :
    (k n : Bytes) (rs : List Root) → has_name n (release_root k rs) ≡ has_name n rs
unfolding has_name release_root
has_name-release_root k n [] = refl
has_name-release_root k n (r ∷ rs) = ground (arith, has_name-release_root k n rs)

pub has_name-restore_root :
    (k n : Bytes) (o : Ref) (rs : List Root) → has_name n (restore_root k o rs) ≡ has_name n rs
unfolding has_name restore_root
has_name-restore_root k n o [] = refl
has_name-restore_root k n o (r ∷ rs) = ground (arith, has_name-restore_root k n o rs)

pub has_name-append :
    (n : Bytes) (rs more : List Root) → has_name n rs ≡ true → has_name n (rs ++ more) ≡ true
unfolding has_name
has_name-append n [] more h = cc
has_name-append n (r ∷ rs) more h = ground (arith, has_name-append n rs more)

-- A name that is found has a slot.
pub find_root-has_name :
    (k : Bytes) (old : Ref) (rs : List Root) → find_root k rs ≡ some old → has_name k rs ≡ true
unfolding find_root has_name
find_root-has_name k old [] h = cc
find_root-has_name k old (r ∷ rs) h = ground (arith, find_root-has_name k old rs)

-- What is not found stays so.
set_root-none :
    (k n : Bytes) (o : Ref) (rs : List Root)
    → find_root n rs ≡ none
    → find_root n (set_root k o rs) ≡ none
unfolding find_root set_root
set_root-none k n o [] h = refl
set_root-none k n o (r ∷ rs) h = ground (arith, set_root-none k n o rs)

release_root-none :
    (k n : Bytes) (rs : List Root) → find_root n rs ≡ none → find_root n (release_root k rs) ≡ none
unfolding find_root release_root
release_root-none k n [] h = refl
release_root-none k n (r ∷ rs) h = ground (arith, release_root-none k n rs)

pub set_root-Unique : (k : Bytes) (o : Ref) (rs : List Root) → Unique rs → Unique (set_root k o rs)
unfolding set_root Unique
set_root-Unique k o [] h = h
set_root-Unique k o (r ∷ rs) h =
    ground (arith, set_root-Unique k o rs h.1, set_root-none k r.name o rs, h)

pub release_root-Unique : (k : Bytes) (rs : List Root) → Unique rs → Unique (release_root k rs)
unfolding release_root Unique
release_root-Unique k [] h = h
release_root-Unique k (r ∷ rs) h =
    ground (arith, release_root-Unique k rs h.1, release_root-none k r.name rs, h)

not_the_one :
    (k : Bytes) (r : Root) (rs : List Root)
    → r.used ≡ true
    → find_root k (r ∷ rs) ≡ none
    → same_key k r.name ≡ false
unfolding find_root
not_the_one k r rs u h = ground (arith, same_key_comm k r.name)

pub restore_root-Unique :
    (k : Bytes) (o : Ref) (rs : List Root)
    → find_root k rs ≡ none
    → Unique rs
    → Unique (restore_root k o rs)
unfolding restore_root Unique find_root
restore_root-Unique k o [] e h = h
restore_root-Unique k o (r ∷ rs) e h = elim (Bool-cases r.used) [
  | inl u ↦
      let other : same_key k r.name ≡ false = not_the_one k r rs u e in
      ground (arith, restore_root-Unique k o rs, find_root-restore_root k r.name o rs other, h, u)
  | inr u ↦ ground (arith, restore_root-Unique k o rs, find_root-same r.name k rs, h, u)
]

pub append-Unique :
    (k : Bytes) (o : Ref) (rs : List Root)
    → find_root k rs ≡ none
    → Unique rs
    → Unique (rs ++ record { name = k; obj = o; used = true } ∷ [])
unfolding Unique find_root
append-Unique k o [] e h = (λ _. refl, tt)
append-Unique k o (r ∷ rs) e h = elim (Bool-cases r.used) [
  | inl u ↦
      let other : same_key k r.name ≡ false = not_the_one k r rs u e in
      ground (arith, append-Unique k o rs, find_root-append k r.name o rs other, h, u)
  | inr u ↦ ground (arith, append-Unique k o rs, h, u)
]

find_root-kept_root :
    (name : Bytes) (r : Root) (xs : List Root)
    → find_root name (kept_root r xs) ≡ find_root name (r ∷ xs)
unfolding find_root
find_root-kept_root name r [] = elim (Bool-cases r.used) [ inl u ↦ rw u refl | inr u ↦ rw u refl ]
find_root-kept_root name r (x ∷ xs) = refl

-- The roots that `trim` drops are not in use.
pub find_root-trim :
    (name : Bytes) (keep : ℕ) (rs : List Root) → find_root name (trim keep rs) ≡ find_root name rs
unfolding trim find_root
find_root-trim name keep [] = refl
find_root-trim name (suc keep) (r ∷ rs) = rw (find_root-trim name keep rs) refl
find_root-trim name zero (r ∷ rs) =
    find_root-kept_root name r (trim zero rs) ∙ rw (find_root-trim name zero rs) refl
