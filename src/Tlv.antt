-- ===== src/Tlv.antt =====
-- dns_wire.c, "Versioned length-prefixed TLV codec": `tlv_begin`, the `tlv_put` family,
-- `tlv_version` and `tlv_next`. Buffers and values are not NULL.
pub mod Items
pub mod Fold
pub mod Build
use simple_dns.Common.{
  ℕ, zero, suc, ◌+◌, ◌^◌, Bool, Option, none, some, List, [], ◌∷◌, ◌++◌, Bytes, length, ltb, ◌==◌,
  if◌then◌else◌,
}
use simple_dns.Common.Memory.{Outcome, ok, err, fault, ◌>>=◌, ◌>>◌, refuse_if, read, write, slice}
use simple_dns.Endian.{to_u8, put16, put32, get16}

-- TLV_HDR_LEN
abbrev pub tlv_hdr_len : ℕ
tlv_hdr_len = 3

-- The buffer and the new offset, here and below.
unfoldable pub tlv_begin : Bytes → ℕ → ℕ → Outcome (Bytes × ℕ)
tlv_begin buf buflen version = do
  refuse_if (ltb buflen 1)
  buf1 ← write buf 0 (version ∷ [])
  ok (buf1, 1)

unfoldable pub tlv_put : Bytes → ℕ → ℕ → ℕ → Bytes → Outcome (Bytes × ℕ)
tlv_put buf buflen off tag val = do
  let vlen = length val
  refuse_if (ltb 0xffff vlen)
  refuse_if (ltb buflen (off + tlv_hdr_len + vlen))
  buf1 ← write buf off (tag ∷ [])
  buf2 ← put16 buf1 (off + 1) vlen
  buf3 ← write buf2 (off + tlv_hdr_len) val
  ok (buf3, off + tlv_hdr_len + vlen)

unfoldable pub tlv_put_u8 : Bytes → ℕ → ℕ → ℕ → ℕ → Outcome (Bytes × ℕ)
tlv_put_u8 buf buflen off tag v = tlv_put buf buflen off tag (v ∷ [])

-- The local array `b` is written whole before it is read.
unfoldable pub tlv_put_u16 : Bytes → ℕ → ℕ → ℕ → ℕ → Outcome (Bytes × ℕ)
tlv_put_u16 buf buflen off tag v = do b ← put16 (0 ∷ 0 ∷ []) 0 v; tlv_put buf buflen off tag b

unfoldable pub tlv_put_u32 : Bytes → ℕ → ℕ → ℕ → ℕ → Outcome (Bytes × ℕ)
tlv_put_u32 buf buflen off tag v = do
  b ← put32 (0 ∷ 0 ∷ 0 ∷ 0 ∷ []) 0 v
  tlv_put buf buflen off tag b

unfoldable pub tlv_version : Bytes → ℕ → Outcome ℕ
tlv_version buf buflen = do refuse_if (ltb buflen 1); read buf 0

-- An item, and the offset behind it.
pub record Item : Type 0 where
  pub tag : ℕ
  pub val : Bytes
  pub after : ℕ

-- `none` is the return value 0, the clean end of the blob.
unfoldable pub tlv_next : Bytes → ℕ → ℕ → Outcome (Option Item)
tlv_next buf buflen off = if off == buflen then ok none else (do
  refuse_if (ltb buflen (off + tlv_hdr_len))
  t ← read buf off
  l ← get16 buf (off + 1)
  refuse_if (ltb buflen (off + tlv_hdr_len + l))
  v ← slice buf (off + tlv_hdr_len) l
  ok (some (record { tag = t; val = v; after = off + tlv_hdr_len + l })))

-- The readers' loop `while ((rc = tlv_next(…)) == 1) { … }`, whose body may return -1. Each item moves the
-- offset, so the blob's length is fuel enough.
unfoldable pub tlv_fold {ℓ} :
    {S : Type ℓ} → (S → ℕ → Bytes → Outcome S) → ℕ → Bytes → ℕ → ℕ → S → Outcome S
tlv_fold step zero buf buflen off s = fault
tlv_fold step (suc fuel) buf buflen off s =
    tlv_next buf buflen off
    >>= elim [ none ↦ ok s | some i ↦ step s i.tag i.val >>= tlv_fold step fuel buf buflen i.after ]
