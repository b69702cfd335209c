-- ===== src/Epp/Codec/Reads.antt =====
-- What the steps of a decoder read of the items that an encoder wrote.
use simple_dns.Common.{
  ℕ, ◌+◌, ◌^◌, ◌≤◌, ◌<◌, List, [], ◌∷◌, ◌++◌, Bytes, length, append_assoc, append-nil,
  length-append, All, ◌==◌, lt→ltb, if◌then◌else◌, Bool-cases, inl, inr, ==_iff, ◌≡◌, refl, sym,
  ◌∙◌, arith,
}
use simple_dns.Common.Memory.{Outcome, ok, ◌>>=◌}
use simple_dns.Common.Text.Strings.{c_string_same}
use simple_dns.Endian.Laws.{be32}
use simple_dns.Tlv.Fold.{Tagged, each}
use simple_dns.Zonemd.RoundTrip.{val32-be32}
use simple_dns.Epp.Codec.{max_arr, set_string, push_string, tlv_u32_of}
use simple_dns.Epp.Codec.Writes.{bind_then, IsText, AreAll, one, optional, repeated, date_set}

pub set_string_lem : (size : ℕ) (old s : Bytes) → IsText size s → set_string size old s ≡ s
unfolding set_string
set_string_lem size old s h = rw (lt→ltb (length s) size h.0, c_string_same s h.1) refl

pub push_string_lem :
    (size : ℕ) (ss : List Bytes) (s : Bytes)
    → length ss < max_arr
    → IsText size s
    → push_string size ss s ≡ ss ++ s ∷ []
unfolding push_string
push_string_lem size ss s room h =
    rw (lt→ltb (length ss) max_arr room, lt→ltb (length s) size h.0, c_string_same s h.1) refl

pub tlv_u32_of-be32 : (v : ℕ) → v < 2 ^ 32 → tlv_u32_of (be32 v) ≡ ok v
unfolding tlv_u32_of
tlv_u32_of-be32 v h = val32-be32 v h

-- The body of a decoder's loop leads over the items from one state to another.
pub record Reads {ℓ} {S : Type ℓ} (step : S → ℕ → Bytes → Outcome S) (is : List Tagged) (s s' : S)
    : Type ℓ where
  pub read : each step is s ≡ ok s'

module _ {ℓ} {S : Type ℓ} (step : S → ℕ → Bytes → Outcome S) where
  each-append :
      (is js : List Tagged) (s : S) → (each step is s >>= each step js) ≡ each step (is ++ js) s
  each-append [] js s = refl
  each-append ((t, v) ∷ is) js s =
      bind_then (step s t v) (each step is) (each step js) (each step (is ++ js))
        (λ s'. each-append is js s')

  pub then-Reads :
      {is js : List Tagged} {s r : S} (s' : S)
      → Reads step is s s'
      → Reads step js s' r
      → Reads step (is ++ js) s r
  then-Reads {is} {js} {s} s' a b = record {
    read = sym (each-append is js s) ∙ rw (a.read, b.read) refl;
  }

  pub one-Reads : (t : ℕ) (v : Bytes) {s s' : S} → step s t v ≡ ok s' → Reads step (one t v) s s'
  one-Reads t v h = record { read = rw h refl }

  pub optional-Reads :
      (t : ℕ) (v : Bytes) (field : Bytes → S)
      → step (field []) t v ≡ ok (field v)
      → Reads step (optional t v) (field []) (field v)
  optional-Reads t [] field h = record { read = refl }
  optional-Reads t (c ∷ v) field h = one-Reads t (c ∷ v) h

  module _ {κ} {E : Type κ} (raw : E → Bytes) (P : E → Type 0) (t : ℕ) (field : List E → S)
      (push : (acc : List E) (e : E)
        → length acc < max_arr
        → P e
        → step (field acc) t (raw e) ≡ ok (field (acc ++ e ∷ []))) where
    each-repeated :
        (es acc : List E)
        → length acc + length es ≤ max_arr
        → All P es
        → each step (repeated t raw es) (field acc) ≡ ok (field (acc ++ es))
    each-repeated [] acc h all = rw append-nil refl
    each-repeated (e ∷ es) acc h all = rw (push acc e (omega arith) all.0) (
        each-repeated es (acc ++ e ∷ []) (omega (arith, length-append acc (e ∷ []))) all.1
        ∙ rw (append_assoc acc (e ∷ []) es) refl)

    pub repeated-Reads :
        (es : List E) → AreAll P es → Reads step (repeated t raw es) (field []) (field es)
    repeated-Reads es h = record { read = each-repeated es [] (omega (arith, h.0)) h.1 }

  pub set-Reads :
      (t v : ℕ) (s : Bytes) (field : ℕ → S)
      → step (field 0) t s ≡ ok (field v)
      → Reads step (if v == 0 then [] else one t s) (field 0) (field v)
  set-Reads t v s field h = elim (Bool-cases (v == 0)) [
    | inl e ↦ let zero_value : v ≡ 0 = (==_iff v 0).0 e in record { read = rw (e, zero_value) refl }
    | inr e ↦ record { read = rw (e, h) refl }
  ]

  pub date_set-Reads :
      (t v : ℕ) (field : ℕ → S)
      → step (field 0) t (be32 v) ≡ ok (field v)
      → Reads step (date_set t v) (field 0) (field v)
  date_set-Reads t v field h = set-Reads t v (be32 v) field h
