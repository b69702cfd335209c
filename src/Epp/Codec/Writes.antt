-- ===== src/Epp/Codec/Writes.antt =====
-- The items that the steps of an encoder write.
use simple_dns.Common.{
  ℕ, ◌≤◌, ◌<◌, ◌≢◌, List, [], ◌∷◌, ◌++◌, Bytes, length, All, All-append, ◌==◌, if◌then◌else◌,
  Bool-cases, inl, inr, ◌≡◌, refl, sym, ◌∙◌, arith,
}
use simple_dns.Common.Memory.{Outcome, ok, err, fault, ◌>>=◌}
use simple_dns.Endian.Laws.{be32, put32_lem}
use simple_dns.Tlv.{tlv_begin, tlv_put, tlv_put_u32}
use simple_dns.Tlv.Fold.{Tagged}
use simple_dns.Tlv.Build.{put_items, AreSmall}
use simple_dns.Epp.Codec.{max_arr, Output, put, put_nonempty, put_each, put_date, put_date_set}

-- What an array of `size` bytes can hold.
abbrev pub IsText : ℕ → Bytes → Type 0
IsText size s = (length s < size) × All (λ c. c ≢ 0) s

-- An array of `max_arr` entries.
abbrev pub AreAll {ℓ} : {E : Type ℓ} → (E → Type 0) → List E → Type 0
AreAll P es = (length es ≤ max_arr) × All P es

-- The items that a step writes.
abbrev pub one : ℕ → Bytes → List Tagged
one t v = (t, v) ∷ []

abbrev pub optional : ℕ → Bytes → List Tagged
optional t [] = []
optional t (c ∷ s) = (t, c ∷ s) ∷ []

abbrev pub repeated {ℓ} : {E : Type ℓ} → ℕ → (E → Bytes) → List E → List Tagged
repeated t raw [] = []
repeated t raw (e ∷ es) = (t, raw e) ∷ repeated t raw es

abbrev pub date_set : ℕ → ℕ → List Tagged
date_set t v = if v == 0 then [] else one t (be32 v)

bind-ok {ℓ} : {A : Type ℓ} (m : Outcome A) → (m >>= ok) ≡ m
bind-ok (ok a) = refl
bind-ok err = refl
bind-ok fault = refl

pub bind_then {ℓ κ μ} :
    {A : Type ℓ} {B : Type κ} {C : Type μ} (m : Outcome A) (f : A → Outcome B) (g : B → Outcome C)
    (h : A → Outcome C)
    → ((a : A) → (f a >>= g) ≡ h a)
    → ((m >>= f) >>= g) ≡ (m >>= h)
bind_then (ok a) f g h e = e a
bind_then err f g h e = refl
bind_then fault f g h e = refl

put_items-append :
    (cap : ℕ) (is js : List Tagged) (w : Output)
    → (put_items cap is w >>= put_items cap js) ≡ put_items cap (is ++ js) w
put_items-append cap [] js w = refl
put_items-append cap ((t, v) ∷ is) js w =
    bind_then (tlv_put w.0 cap w.1 t v) (put_items cap is) (put_items cap js)
      (put_items cap (is ++ js)) (λ w'. put_items-append cap is js w')

bind_both {ℓ κ} :
    {A : Type ℓ} {B : Type κ} (m n : Outcome A) (f g : A → Outcome B)
    → m ≡ n
    → ((a : A) → f a ≡ g a)
    → (m >>= f) ≡ (n >>= g)
bind_both (ok a) n f g e h = rw (sym e) (h a)
bind_both err n f g e h = rw (sym e) refl
bind_both fault n f g e h = rw (sym e) refl

-- A step that writes items.
pub record Writes (cap : ℕ) (f : Output → Outcome Output) (is : List Tagged) : Type 0 where
  pub run : (w : Output) → f w ≡ put_items cap is w

pub put-Writes : (cap t : ℕ) (s : Bytes) → Writes cap (put cap t s) (one t s)
put-Writes cap t s = record { run = λ w. sym (bind-ok (tlv_put w.0 cap w.1 t s)) }

pub put_set-Writes :
    (cap t v : ℕ) (s : Bytes)
    → Writes cap (λ w. if v == 0 then ok w else put cap t s w) (if v == 0 then [] else one t s)
put_set-Writes cap t v s = elim (Bool-cases (v == 0)) [
  | inl e ↦ record { run = λ w. rw e refl }
  | inr e ↦ record { run = λ w. rw e ((put-Writes cap t s).run w) }
]

pub put_nonempty-Writes : (cap t : ℕ) (s : Bytes) → Writes cap (put_nonempty cap t s) (optional t s)
put_nonempty-Writes cap t [] = record { run = λ w. refl }
put_nonempty-Writes cap t (c ∷ s) = put-Writes cap t (c ∷ s)

pub put_each-Writes {ℓ} :
    {E : Type ℓ} (cap t : ℕ) (raw : E → Bytes) (es : List E)
    → Writes cap (put_each cap t raw es) (repeated t raw es)
put_each-Writes cap t raw [] = record { run = λ w. refl }
put_each-Writes cap t raw (e ∷ es) = record {
  run = λ w.
      bind_both (put cap t (raw e) w) (put cap t (raw e) w) (put_each cap t raw es)
        (put_items cap (repeated t raw es)) refl (put_each-Writes cap t raw es).run;
}

pub put_date-Writes : (cap t v : ℕ) → Writes cap (put_date cap t v) (one t (be32 v))
unfolding tlv_put_u32
put_date-Writes cap t v = record {
  run = λ w.
      rw (put32_lem (0 ∷ 0 ∷ 0 ∷ 0 ∷ []) 0 v (omega arith))
        (sym (bind-ok (tlv_put w.0 cap w.1 t (be32 v))));
}

pub put_date_set-Writes : (cap t v : ℕ) → Writes cap (put_date_set cap t v) (date_set t v)
put_date_set-Writes cap t v = elim (Bool-cases (v == 0)) [
  | inl e ↦ record { run = λ w. rw e refl }
  | inr e ↦ record { run = λ w. rw e ((put_date-Writes cap t v).run w) }
]

module _ {cap : ℕ} {f g : Output → Outcome Output} {is js : List Tagged} where
  pub then-Writes : Writes cap f is → Writes cap g js → Writes cap (λ w. f w >>= g) (is ++ js)
  then-Writes a b = record {
    run = λ w.
        bind_both (f w) (put_items cap is w) g (put_items cap js) (a.run w) b.run
        ∙ put_items-append cap is js w;
  }

-- An encoder: what it writes behind the version is the items.
pub begun-Writes :
    (buf : Bytes) (cap : ℕ) {f : Output → Outcome Output} {is : List Tagged}
    → Writes cap f is
    → (tlv_begin buf cap 1 >>= f) ≡ (tlv_begin buf cap 1 >>= put_items cap is)
begun-Writes buf cap {f} {is} a =
    bind_both (tlv_begin buf cap 1) (tlv_begin buf cap 1) f (put_items cap is) refl a.run

-- Items whose length has two bytes.
pub record IsSmall (is : List Tagged) : Type 0 where
  pub all : AreSmall is

pub then-IsSmall : {is js : List Tagged} → IsSmall is → IsSmall js → IsSmall (is ++ js)
then-IsSmall {is} {js} h k = record {
  all = All-append (λ i. length i.1 ≤ 0xffff) is js h.all k.all;
}

pub one-IsSmall : (t : ℕ) (s : Bytes) → length s ≤ 0xffff → IsSmall (one t s)
one-IsSmall t s h = record { all = (h, tt) }

pub optional-IsSmall : (t : ℕ) (s : Bytes) → length s ≤ 0xffff → IsSmall (optional t s)
optional-IsSmall t [] h = record { all = tt }
optional-IsSmall t (c ∷ s) h = one-IsSmall t (c ∷ s) h

pub set-IsSmall :
    (t v : ℕ) (s : Bytes) → length s ≤ 0xffff → IsSmall (if v == 0 then [] else one t s)
set-IsSmall t v s h = elim (Bool-cases (v == 0)) [
  | inl e ↦ record { all = rw e tt }
  | inr e ↦ record { all = rw e (h, tt) }
]

pub repeated-IsSmall {ℓ} :
    {E : Type ℓ} (P : E → Type 0) (t : ℕ) (raw : E → Bytes) (es : List E)
    → ((e : E) → P e → length (raw e) ≤ 0xffff)
    → All P es
    → IsSmall (repeated t raw es)
repeated-IsSmall P t raw [] small h = record { all = tt }
repeated-IsSmall P t raw (e ∷ es) small h = record {
  all = (small e h.0, (repeated-IsSmall P t raw es small h.1).all);
}
