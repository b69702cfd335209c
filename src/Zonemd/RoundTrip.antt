-- ===== src/Zonemd/RoundTrip.antt =====
-- A digest stored as a blob and emitted as rdata.
use simple_dns.Common.{
  ℕ, ◌+◌, ◌/◌, ◌%◌, ◌^◌, ◌≤◌, ◌<◌, none, List, [], ◌∷◌, ◌++◌, Bytes, length, drop, length-append,
  append-nil, ltb, leb, le→ltb, Bool-cases, if◌then◌else◌, inl, inr, ◌≡◌, refl, ap, ◌∙◌, arith,
}
use simple_dns.Common.Bits.{bit_and_byte}
use simple_dns.Common.Memory.{ok, err, ◌>>=◌, write_fits, patch, length-patch, patch-patch}
use simple_dns.Common.Memory.Cursor.{read-drop, drop-patch, drop_next}
use simple_dns.Endian.Laws.{be32, put32_lem, shl_join, byte_byte}
use simple_dns.Tlv.{tlv_begin, tlv_put, tlv_put_u8, tlv_put_u32, tlv_version, tlv_fold}
use simple_dns.Tlv.Items.{item_of, tlv_put_lem}
use simple_dns.Tlv.Fold.{Tagged, each, tlv_fold-blob_of}
use simple_dns.Zonemd.{
  Digest, Seen, val32, zonemd_item, zonemd_rdata, zonemd_build_tlv, zonemd_tlv_to_wire,
}

-- An item put behind what is written at the front of the buffer.
put_behind :
    (tlv : Bytes) (cap : ℕ) (vs : Bytes) (off tag : ℕ) (val : Bytes)
    → cap ≤ length tlv
    → off ≡ length vs
    → length val ≤ 0xffff
    → length vs + length (item_of tag val) ≤ cap
    → tlv_put (patch tlv 0 vs) cap off tag val
      ≡ ok (patch tlv 0 (vs ++ item_of tag val), off + length (item_of tag val))
put_behind tlv cap vs off tag val h e small fits =
    let size : length (patch tlv 0 vs) ≡ length tlv = length-patch tlv 0 vs (omega arith) in
    let joined : patch (patch tlv 0 vs) off (item_of tag val)
        ≡ patch tlv 0 (vs ++ item_of tag val) =
      ap (λ (i : ℕ). patch (patch tlv 0 vs) i (item_of tag val)) (e ∙ omega arith)
      ∙ patch-patch tlv 0 vs (item_of tag val) in
    tlv_put_lem (patch tlv 0 vs) cap off tag val (omega arith) ∙ rw joined (ground arith)

-- The items of a blob, in the order in which they are put.
abbrev pub items_of : Digest → List Tagged
items_of z = (1, be32 z.serial) ∷ (2, z.scheme ∷ []) ∷ (3, z.hashalg ∷ []) ∷ (4, z.digest) ∷ []

abbrev pub blob : Digest → Bytes
blob z =
    1
    ∷ (item_of 1 (be32 z.serial)
        ++ (item_of 2 (z.scheme ∷ []) ++ (item_of 3 (z.hashalg ∷ []) ++ item_of 4 z.digest)))

build_lem :
    (z : Digest) (tlv : Bytes) (capacity : ℕ)
    → capacity ≤ length tlv
    → length z.digest ≤ 0xffff
    → length (blob z) ≤ capacity
    → zonemd_build_tlv z tlv capacity ≡ ok (patch tlv 0 (blob z), length (blob z))
unfolding zonemd_build_tlv tlv_begin tlv_put_u32 tlv_put_u8
build_lem z tlv capacity h small fits =
    let one : 1 ≤ capacity = omega arith in
    rw
      (
        le→ltb capacity 1 one,
        write_fits tlv 0 (1 ∷ []) (omega arith),
        put32_lem (0 ∷ 0 ∷ 0 ∷ 0 ∷ []) 0 z.serial (omega arith),
        put_behind tlv capacity (1 ∷ []) 1 1 (be32 z.serial) h (omega arith) (omega arith)
            (omega arith),
        put_behind tlv capacity (1 ∷ item_of 1 (be32 z.serial)) 8 2 (z.scheme ∷ []) h (omega arith)
            (omega arith) (omega arith),
        put_behind tlv capacity (1 ∷ (item_of 1 (be32 z.serial) ++ item_of 2 (z.scheme ∷ []))) 12 3
            (z.hashalg ∷ []) h (omega arith) (omega arith) (omega arith),
        put_behind tlv capacity
            (1
              ∷ (item_of 1 (be32 z.serial)
                  ++ (item_of 2 (z.scheme ∷ []) ++ item_of 3 (z.hashalg ∷ []))))
            16 4 z.digest h (omega arith) (omega arith) (omega arith),
      )
      (ap (λ (i : ℕ). ok (patch tlv 0 (blob z), i)) (omega arith))

pub val32-be32 : (v : ℕ) → v < 2 ^ 32 → val32 (be32 v) ≡ ok v
unfolding val32
val32-be32 v h =
    let b = be32 v in
    rw (read-drop b 0 refl, read-drop b 1 refl, read-drop b 2 refl, read-drop b 3 refl)
      (ap ok (
        shl_join (v / 16777216 % 256) (v / 65536 % 256) (v / 256 % 256) (v % 256) (omega arith)
          (omega arith) (omega arith)
        ∙ omega arith))

-- RFC 8976 §2.2
abbrev pub rdata_of : Digest → Bytes
rdata_of z = be32 z.serial ++ (z.scheme ∷ z.hashalg ∷ z.digest)

abbrev nothing : Seen
nothing = record { serial = none; scheme = none; hashalg = none; digest = none }

rdata_lem :
    (z : Digest) (outcap : ℕ)
    → z.serial < 2 ^ 32
    → (each zonemd_item (items_of z) nothing >>= λ s. zonemd_rdata s outcap)
      ≡ (if leb (length (rdata_of z)) outcap then ok (rdata_of z) else err)
unfolding zonemd_item zonemd_rdata
rdata_lem z outcap wide =
    rw
      (
        val32-be32 z.serial wide,
        read-drop (z.scheme ∷ []) 0 refl,
        read-drop (z.hashalg ∷ []) 0 refl,
      )
      (simp (bit_and_byte, byte_byte)
        (elim (Bool-cases (ltb outcap (6 + length z.digest))) [
          | inl e ↦ ground arith
          | inr e ↦ ground arith
        ]))

-- What `zonemd_build_tlv` stores, `zonemd_tlv_to_wire` emits as rdata, exactly when it fits.
pub zonemd_tlv_to_wire-zonemd_build_tlv :
    (z : Digest) (tlv : Bytes) (capacity outcap : ℕ)
    → capacity ≤ length tlv
    → z.serial < 2 ^ 32
    → length z.digest ≤ 0xffff
    → 19 + length z.digest ≤ capacity
    → (zonemd_build_tlv z tlv capacity >>= λ r. zonemd_tlv_to_wire r.0 r.1 outcap)
      ≡ (if leb (length (rdata_of z)) outcap then ok (rdata_of z) else err)
unfolding zonemd_tlv_to_wire tlv_version
zonemd_tlv_to_wire-zonemd_build_tlv z tlv capacity outcap h wide small fits =
    let n : length (blob z) ≡ 19 + length z.digest = omega arith in
    let buf = patch tlv 0 (blob z) in
    let at : drop 0 buf ≡ blob z ++ drop (0 + length (blob z)) tlv =
      drop-patch tlv 0 (blob z) (omega arith) in
    let folded : tlv_fold zonemd_item (length (blob z)) buf (length (blob z)) 1 nothing
        ≡ each zonemd_item (items_of z) nothing =
      tlv_fold-blob_of zonemd_item (items_of z) (length (blob z)) buf (length (blob z)) 1 nothing
        (drop (0 + length (blob z)) tlv) (omega (arith, length-patch tlv 0 (blob z))) (omega arith)
        (omega arith, (omega arith, (omega arith, (small, tt))))
        (drop_next buf 0 at ∙ rw append-nil refl) (omega (arith, length-append z.digest [])) in
    rw (build_lem z tlv capacity h small (omega arith)) (
      rw (le→ltb (length (blob z)) 1 (omega arith), read-drop buf 0 at, folded)
        (rdata_lem z outcap wide))
