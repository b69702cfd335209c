-- ===== src/Zonemd.antt =====
-- dns_wire.c, "RFC 8976 ZONEMD codec": `zonemd_build_tlv` and `zonemd_tlv_to_wire`.
pub mod RoundTrip
pub mod Safety
use simple_dns.Common.{
  ℕ, ◌+◌, ◌*◌, ◌%◌, ◌^◌, bit_and, bit_or, Bool, ◌||◌, Option, none, some, List, [], ◌∷◌, ◌++◌,
  Bytes, length, ltb, ◌==◌, if◌then◌else◌, not,
}
use simple_dns.Common.Bits.{shl, shr}
use simple_dns.Common.Memory.{Outcome, ok, err, fault, ◌>>=◌, ◌>>◌, refuse_if, read}
use simple_dns.Endian.{to_u8}
use simple_dns.Tlv.{tlv_begin, tlv_put, tlv_put_u8, tlv_put_u32, tlv_version, tlv_fold}

abbrev pub zonemd_tlv_version : ℕ
zonemd_tlv_version = 1

-- ZONEMD_TLV_SERIAL, ZONEMD_TLV_SCHEME, ZONEMD_TLV_HASHALG and ZONEMD_TLV_DIGEST
abbrev pub tag_serial : ℕ
tag_serial = 1

abbrev pub tag_scheme : ℕ
tag_scheme = 2

abbrev pub tag_hashalg : ℕ
tag_hashalg = 3

abbrev pub tag_digest : ℕ
tag_digest = 4

pub record Digest : Type 0 where
  pub serial : ℕ
  pub scheme : ℕ
  pub hashalg : ℕ
  pub digest : Bytes

unfoldable pub zonemd_build_tlv : Digest → Bytes → ℕ → Outcome (Bytes × ℕ)
zonemd_build_tlv z tlv cap = do
  (tlv1, off1) ← tlv_begin tlv cap zonemd_tlv_version
  (tlv2, off2) ← tlv_put_u32 tlv1 cap off1 tag_serial z.serial
  (tlv3, off3) ← tlv_put_u8 tlv2 cap off2 tag_scheme z.scheme
  (tlv4, off4) ← tlv_put_u8 tlv3 cap off3 tag_hashalg z.hashalg
  tlv_put tlv4 cap off4 tag_digest z.digest

-- The locals of the reader; `none` is a `have_…` flag that is 0.
pub record Seen : Type 0 where
  pub serial : Option ℕ
  pub scheme : Option ℕ
  pub hashalg : Option ℕ
  pub digest : Option Bytes

-- `((uint32_t) val[0] << 24) | … | val[3]`
unfoldable pub val32 : Bytes → Outcome ℕ
val32 val = do
  w ← read val 0
  x ← read val 1
  y ← read val 2
  z ← read val 3
  ok (bit_or (bit_or (bit_or (shl w 24) (shl x 16)) (shl y 8)) z)

-- The body of the loop. An unknown tag is skipped.
unfoldable pub zonemd_item : Seen → ℕ → Bytes → Outcome Seen
unfolding val32
zonemd_item s tag val =
    let vlen = length val in
    if tag == tag_serial
    then refuse_if (not (vlen == 4)) >> (val32 val >>= λ v. ok (record s { serial = some v }))
    else if tag == tag_scheme
    then refuse_if (not (vlen == 1)) >> (read val 0 >>= λ v. ok (record s { scheme = some v }))
    else if tag == tag_hashalg
    then refuse_if (not (vlen == 1)) >> (read val 0 >>= λ v. ok (record s { hashalg = some v }))
    else if tag == tag_digest
    then ok (record s { digest = some val })
    else ok s

abbrev pub or_fail {ℓ} : {A : Type ℓ} → Option A → Outcome A
or_fail none = err
or_fail (some a) = ok a

-- The rdata written to `out`.
unfoldable pub zonemd_rdata : Seen → ℕ → Outcome Bytes
zonemd_rdata s outcap = do
  serial ← or_fail s.serial
  scheme ← or_fail s.scheme
  hashalg ← or_fail s.hashalg
  digest ← or_fail s.digest
  refuse_if (ltb outcap (6 + length digest))
  ok (
      to_u8 (shr serial 24)
      ∷ to_u8 (shr serial 16)
      ∷ to_u8 (shr serial 8)
      ∷ to_u8 (bit_and serial 0xff)
      ∷ scheme
      ∷ hashalg
      ∷ digest)

unfoldable pub zonemd_tlv_to_wire : Bytes → ℕ → ℕ → Outcome Bytes
zonemd_tlv_to_wire tlv tlvlen outcap = do
  version ← tlv_version tlv tlvlen
  refuse_if (not (version == zonemd_tlv_version))
  s ←
      tlv_fold zonemd_item tlvlen tlv tlvlen 1
        (record { serial = none; scheme = none; hashalg = none; digest = none })
  zonemd_rdata s outcap
