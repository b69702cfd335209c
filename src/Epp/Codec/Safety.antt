-- ===== src/Epp/Codec/Safety.antt =====
-- What the steps of a decoder keep, on any value.
use simple_dns.Common.{
  ℕ, ◌<◌, List, [], ◌∷◌, ◌++◌, Bytes, length, length-append, All-append, ltb, ltb→lt, ◌==◌,
  Bool-cases, inl, inr, ==_iff, arith,
}
use simple_dns.Common.Memory.Safe.{Holds, Any}
use simple_dns.Common.Text.{c_string}
use simple_dns.Common.Text.Strings.{c_string-le, c_string-All}
use simple_dns.Zonemd.Safety.{val32-Any}
use simple_dns.Epp.Codec.{max_arr, set_string, push_string, tlv_u32_of}
use simple_dns.Epp.Codec.Writes.{IsText, AreAll}

pub set_string-IsText :
    (size : ℕ) (old val : Bytes) → IsText size old → IsText size (set_string size old val)
unfolding set_string
set_string-IsText size old val h = elim (Bool-cases (ltb (length val) size)) [
  | inl e ↦ rw e (omega (arith, c_string-le val, ltb→lt (length val) size e), c_string-All val)
  | inr e ↦ rw e h
]

pub push-AreAll {ℓ} :
    {E : Type ℓ} (P : E → Type 0) (es : List E) (e : E)
    → AreAll P es
    → length es < max_arr
    → P e
    → AreAll P (es ++ e ∷ [])
push-AreAll P es e h room p =
    (omega (arith, length-append es (e ∷ [])), All-append P es (e ∷ []) h.1 (p, tt))

pub push_string-AreAll :
    (size : ℕ) (ss : List Bytes) (val : Bytes)
    → AreAll (IsText size) ss
    → AreAll (IsText size) (push_string size ss val)
unfolding push_string
push_string-AreAll size ss val h = elim (Bool-cases (ltb (length ss) max_arr)) [
  | inr e ↦ rw e h
  | inl e ↦ elim (Bool-cases (ltb (length val) size)) [
    | inr f ↦ rw (e, f) h
    | inl f ↦
        rw (e, f)
          (push-AreAll (IsText size) ss (c_string val) h (ltb→lt (length ss) max_arr e)
            (omega (arith, c_string-le val, ltb→lt (length val) size f), c_string-All val))
  ]
]

pub tlv_u32_of-Any : (val : Bytes) → Holds Any (tlv_u32_of val)
unfolding tlv_u32_of
tlv_u32_of-Any val = elim (Bool-cases (length val == 4)) [
  | inl e ↦ rw e (val32-Any val (omega (arith, (==_iff (length val) 4).0 e)))
  | inr e ↦ rw e tt
]
