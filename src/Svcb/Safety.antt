-- ===== src/Svcb/Safety.antt =====
-- `svcb_tlv_to_wire` on arbitrary bytes.
use simple_dns.Common.{
  ℕ, zero, suc, ◌-◌, ◌≤◌, Bool, true, false, ◌&&◌, Option, none, some, List, [], ◌∷◌, Bytes, length,
  ltb, leb, ◌==◌, not, ltb_false→le, leb→le, ==_iff, Bool-cases, inl, inr, ◌≡◌, refl, ap, ◌∙◌,
  arith,
}
use simple_dns.Common.Memory.{err, read, patch, length-patch}
use simple_dns.Common.Memory.Safe.{Holds, Any, bind-Holds, if-Holds, refused-Holds, read-Any}
use simple_dns.Name.{labels_in}
use simple_dns.Name.Wire.{all_short}
use simple_dns.Tlv.{tlv_fold, tlv_version}
use simple_dns.Tlv.Fold.{tlv_fold-Holds}
use simple_dns.Svcb.{
  Service, svcb_item, set_param, target_or_root, svcb_put, svcb_emit, svcb_tlv_to_wire,
  svcb_tlv_version,
}
use simple_dns.Svcb.Wire.{service_wire, svcb_put_lem}

-- There is room for a value of each key from 0 to 6.
abbrev HasKeys : Service → Type 0
HasKeys s = length s.params ≡ 7

length-set_param :
    (key : ℕ) (val : Bytes) (ps : List (Option Bytes)) → length (set_param key val ps) ≡ length ps
unfolding set_param
length-set_param key val [] = refl
length-set_param zero val (p ∷ ps) = refl
length-set_param (suc key) val (p ∷ ps) = ap suc (length-set_param key val ps)

svcb_item-HasKeys : (s : Service) (t : ℕ) (v : Bytes) → HasKeys s → Holds HasKeys (svcb_item s t v)
unfolding svcb_item
svcb_item-HasKeys s t v keys =
    if-Holds HasKeys (t == 1) _ _
      (λ e. refused-Holds (not (length v == 2)) HasKeys _ (λ f.
        let two : length v ≡ 2 = ground (arith, ==_iff (length v) 2) in
        bind-Holds Any HasKeys (read v 0) _ (read-Any v 0 (omega arith)) (λ hi p.
          bind-Holds Any HasKeys (read v 1) _ (read-Any v 1 (omega arith)) (λ lo q. keys))))
      (λ e.
        if-Holds HasKeys (t == 2) _ _
          (λ f. refused-Holds (leb 256 (length v)) HasKeys _ (λ g. keys))
          (λ f.
            if-Holds HasKeys (leb 0x10 t && leb t 22) _ _
              (λ g. length-set_param (t - 0x10) v s.params ∙ keys) (λ g. keys)))

-- What is written: the rdata of a service.
pub record IsRdata (out : Bytes) (outcap : ℕ) (r : Bytes × ℕ) : Type 0 where
  pub service : Service
  pub prio : ℕ
  pub keys : length service.params ≡ 7
  pub short : all_short (labels_in (target_or_root service.target)) ≡ true
  pub written : r.0 ≡ patch out 0 (service_wire prio service)
  pub size : r.1 ≡ length (service_wire prio service)
  pub fits : r.1 ≤ outcap
  pub kept : length r.0 ≡ length out

both : (a b : Bool) → (a && b) ≡ true → (a ≡ true) × (b ≡ true)
both true b h = (refl, h)
both false b h = cc

svcb_put-IsRdata :
    (prio : ℕ) (s : Service) (out : Bytes) (outcap : ℕ)
    → outcap ≤ length out
    → HasKeys s
    → Holds (IsRdata out outcap) (svcb_put prio s out outcap)
svcb_put-IsRdata prio s out outcap h keys = rw (svcb_put_lem prio s out outcap h) (
    if-Holds (IsRdata out outcap)
      (all_short (labels_in (target_or_root s.target)) && leb (length (service_wire prio s)) outcap)
      _ _
      (λ e.
        let (short, small) = both _ _ e in
        let fits : length (service_wire prio s) ≤ outcap = leb→le _ _ small in
        record {
          service = s;
          prio = prio;
          keys = keys;
          short = short;
          written = refl;
          size = refl;
          fits = fits;
          kept = length-patch out 0 (service_wire prio s) (omega arith);
        })
      (λ e. tt))

svcb_emit-IsRdata :
    (s : Service) (out : Bytes) (outcap : ℕ)
    → outcap ≤ length out
    → HasKeys s
    → Holds (IsRdata out outcap) (svcb_emit s out outcap)
unfolding svcb_emit
svcb_emit-IsRdata s out outcap h keys =
    elim s.prio
      as (λ p.
        Holds (IsRdata out outcap)
          (elim p [ none ↦ err | some prio ↦ svcb_put prio s out outcap ])) [
            | none ↦ tt
            | some prio ↦ svcb_put-IsRdata prio s out outcap h keys
          ]

-- On any bytes `svcb_tlv_to_wire` reads within the blob, ends, and writes within its capacity; a
-- success writes the rdata of RFC 9460 for some service, its target uncompressed and its
-- parameters in ascending order of the keys 0 to 6.
pub svcb_tlv_to_wire-IsRdata :
    (tlv : Bytes) (tlvlen : ℕ) (out : Bytes) (outcap : ℕ)
    → tlvlen ≤ length tlv
    → outcap ≤ length out
    → Holds (IsRdata out outcap) (svcb_tlv_to_wire tlv tlvlen out outcap)
unfolding svcb_tlv_to_wire tlv_version
svcb_tlv_to_wire-IsRdata tlv tlvlen out outcap inside h = elim (Bool-cases (ltb tlvlen 1)) [
  | inl e ↦ rw e tt
  | inr e ↦
      let some_byte : 1 ≤ tlvlen = ltb_false→le tlvlen 1 e in
      rw e (
        bind-Holds Any (IsRdata out outcap) (read tlv 0) _ (read-Any tlv 0 (omega arith))
          (λ version p.
            refused-Holds (not (version == svcb_tlv_version)) (IsRdata out outcap) _ (λ known.
              bind-Holds HasKeys (IsRdata out outcap) (tlv_fold svcb_item tlvlen tlv tlvlen 1 _) _
                (tlv_fold-Holds svcb_item HasKeys tlv tlvlen inside svcb_item-HasKeys tlvlen 1 _
                  some_byte (omega arith) refl)
                (λ s q. svcb_emit-IsRdata s out outcap h q))))
]
