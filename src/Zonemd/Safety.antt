-- ===== src/Zonemd/Safety.antt =====
-- The reader of a ZONEMD blob on arbitrary bytes.
use simple_dns.Common.{
  ℕ, ◌+◌, ◌≤◌, Option, none, some, Bytes, length, ltb, ◌==◌, not, ==_iff, Bool-cases, ltb_false→le,
  inl, inr, arith,
}
use simple_dns.Common.Memory.{Outcome, ◌>>=◌, ◌>>◌, refuse_if, read, read_fits}
use simple_dns.Tlv.{tlv_version, tlv_fold}
use simple_dns.Common.Memory.Safe.{Holds, Any, bind-Holds, refused-Holds, if-Holds, read-Any}
use simple_dns.Tlv.Fold.{tlv_fold-Holds}
use simple_dns.Zonemd.{Seen, val32, zonemd_item, zonemd_rdata, zonemd_tlv_to_wire, or_fail}

pub val32-Any : (val : Bytes) → 4 ≤ length val → Holds Any (val32 val)
unfolding val32
val32-Any val h =
    let (w, e0) = read_fits val 0 (omega arith) in
    let (x, e1) = read_fits val 1 (omega arith) in
    let (y, e2) = read_fits val 2 (omega arith) in
    let (z, e3) = read_fits val 3 (omega arith) in rw (e0, e1, e2, e3) tt

-- A read behind the check of the value's length.
exact-Any :
    (val : Bytes) (n : ℕ) (m : Outcome ℕ) (f : ℕ → Outcome Seen)
    → (n ≤ length val → Holds Any m)
    → ((v : ℕ) → Holds Any (f v))
    → Holds Any (refuse_if (not (length val == n)) >> (m >>= f))
exact-Any val n m f h k = elim (Bool-cases (length val == n)) [
  | inl e ↦
      rw e (bind-Holds Any Any m f (h (omega (arith, (==_iff (length val) n).0 e))) (λ v p. k v))
  | inr e ↦ rw e tt
]

zonemd_item-Any : (s : Seen) (t : ℕ) (v : Bytes) → Holds Any (zonemd_item s t v)
unfolding zonemd_item
zonemd_item-Any s t v =
    if-Holds Any (t == 1) _ _ (λ e. exact-Any v 4 (val32 v) _ (val32-Any v) (λ i. tt))
      (λ e.
        if-Holds Any (t == 2) _ _ (λ f. exact-Any v 1 (read v 0) _ (read-Any v 0) (λ i. tt))
          (λ f.
            if-Holds Any (t == 3) _ _ (λ g. exact-Any v 1 (read v 0) _ (read-Any v 0) (λ i. tt))
              (λ g. if-Holds Any (t == 4) _ _ (λ k. tt) (λ k. tt))))

or_fail-Holds {ℓ} :
    {A : Type ℓ} (o : Option A) (f : A → Outcome Bytes) (n : ℕ)
    → ((a : A) → Holds (λ out. length out ≤ n) (f a))
    → Holds (λ out. length out ≤ n) (or_fail o >>= f)
or_fail-Holds none f n h = tt
or_fail-Holds (some a) f n h = h a

zonemd_rdata-Holds :
    (s : Seen) (outcap : ℕ) → Holds (λ out. length out ≤ outcap) (zonemd_rdata s outcap)
unfolding zonemd_rdata
zonemd_rdata-Holds s outcap = or_fail-Holds s.serial _ outcap (λ serial.
    or_fail-Holds s.scheme _ outcap (λ scheme. or_fail-Holds s.hashalg _ outcap (λ hashalg.
      or_fail-Holds s.digest _ outcap (λ digest.
        refused-Holds (ltb outcap (6 + length digest)) (λ out. length out ≤ outcap) _
          (λ e. omega (arith, ltb_false→le outcap (6 + length digest) e))))))

-- On any bytes `zonemd_tlv_to_wire` reads within the blob and ends, and its output is no longer than
-- its capacity.
pub zonemd_tlv_to_wire-Holds :
    (tlv : Bytes) (tlvlen outcap : ℕ)
    → tlvlen ≤ length tlv
    → Holds (λ out. length out ≤ outcap) (zonemd_tlv_to_wire tlv tlvlen outcap)
unfolding zonemd_tlv_to_wire tlv_version
zonemd_tlv_to_wire-Holds tlv tlvlen outcap h =
    let P : Bytes → Type 0 = λ out. length out ≤ outcap in
    elim (Bool-cases (ltb tlvlen 1)) [
      | inl e ↦ rw e tt
      | inr e ↦
          let some_byte : 1 ≤ tlvlen = ltb_false→le tlvlen 1 e in
          rw e (
            bind-Holds Any P (read tlv 0) _ (read-Any tlv 0 (omega arith)) (λ version p.
              refused-Holds (not (version == 1)) P _ (λ known.
                bind-Holds Any P (tlv_fold zonemd_item tlvlen tlv tlvlen 1 _) _
                  (tlv_fold-Holds zonemd_item Any tlv tlvlen h (λ s t v q. zonemd_item-Any s t v)
                    tlvlen 1 _ some_byte (omega arith) tt)
                  (λ s q. zonemd_rdata-Holds s outcap))))
    ]
