-- ===== src/Tlv/Items.antt =====
-- One item written and read.
use simple_dns.Common.{
  ℕ, bit_or, ◌+◌, ◌*◌, ◌/◌, ◌%◌, ◌≤◌, ◌&&◌, Option, none, some, [], ◌∷◌, ◌++◌, Bytes, length, drop,
  length-take, length-drop, ltb, leb, ◌==◌, ltb_false→le, Bool-cases, if◌then◌else◌, inl, inr, ◌≡◌,
  refl, ap, ◌∙◌, arith,
}
use simple_dns.Common.Bits.{shl}
use simple_dns.Common.Memory.{
  Outcome, ok, err, fault, slice, write_fits, read_fits, slice_fits, patch,
}
use simple_dns.Common.Memory.Cursor.{read-drop, drop_next, drop_past, slice-drop}
use simple_dns.Endian.{get16}
use simple_dns.Endian.Laws.{be16, put16_behind, write_behind, get16-drop}
use simple_dns.Tlv.{Item, tlv_put, tlv_next}

-- tag(1) length(2, big-endian) value(length)
abbrev pub item_of : ℕ → Bytes → Bytes
item_of tag val = tag ∷ (be16 (length val) ++ val)

-- `tlv_put` writes the item at `off`, and nothing else, exactly when the value has at most 65535
-- bytes and the item ends within the buffer; otherwise it returns -1.
pub tlv_put_lem :
    (buf : Bytes) (buflen off tag : ℕ) (val : Bytes)
    → buflen ≤ length buf
    → tlv_put buf buflen off tag val ≡ (
        if leb (length val) 0xffff && leb (off + length (item_of tag val)) buflen
        then ok (patch buf off (item_of tag val), off + length (item_of tag val))
        else err)
unfolding tlv_put
tlv_put_lem buf buflen off tag val h = elim (Bool-cases (ltb 0xffff (length val))) [
  | inl e ↦ ground arith
  | inr e ↦ elim (Bool-cases (ltb buflen (off + 3 + length val))) [
    | inl f ↦ ground arith
    | inr f ↦
        let room : off + 3 + length val ≤ buflen = ltb_false→le _ _ f in
        rw
          (
            e,
            f,
            write_fits buf off (tag ∷ []) (omega arith),
            put16_behind buf off (tag ∷ []) (off + 1) (length val) (omega arith) (omega arith),
            write_behind buf off (tag ∷ be16 (length val)) val (off + 3) (omega arith)
                (omega arith),
          )
          (ground arith)
  ]
]

-- What `tlv_next` may return: an item that ends within the blob, behind the offset.
abbrev pub InBlob : ℕ → ℕ → Outcome (Option Item) → Type 0
InBlob off buflen (ok none) = off ≡ buflen
InBlob off buflen (ok (some i)) = (i.after ≡ off + 3 + length i.val) × (i.after ≤ buflen)
InBlob off buflen err = Unit
InBlob off buflen fault = ⊥

pub get16_fits : (b : Bytes) (o : ℕ) → o + 2 ≤ length b → (v : ℕ) × (get16 b o ≡ ok v)
unfolding get16
get16_fits b o h =
    let (x, r) = read_fits b o (omega arith) in
    let (y, q) = read_fits b (o + 1) (omega arith) in (bit_or (shl x 8) y, rw (r, q) refl)

-- On any bytes, `tlv_next` reads within the blob: it reports the end exactly at the end, and an
-- item's value lies between the offset and the end.
pub tlv_next-InBlob :
    (buf : Bytes) (buflen off : ℕ)
    → buflen ≤ length buf
    → InBlob off buflen (tlv_next buf buflen off)
unfolding tlv_next
tlv_next-InBlob buf buflen off h = elim (Bool-cases (off == buflen)) [
  | inl e ↦ rw e (ground arith)
  | inr e ↦ elim (Bool-cases (ltb buflen (off + 3))) [
    | inl f ↦ rw (e, f) tt
    | inr f ↦
        let room : off + 3 ≤ buflen = ltb_false→le _ _ f in
        let (t, r) = read_fits buf off (omega arith) in
        let (l, q) = get16_fits buf (off + 1) (omega arith) in
        rw (e, f, r, q)
          (ground (
            arith,
            slice_fits buf (off + 3) l,
            length-take l (drop (off + 3) buf),
            length-drop (off + 3) buf,
          ))
  ]
]

-- `tlv_next` at an item returns it, whatever follows.
pub tlv_next-drop :
    (buf : Bytes) (buflen off tag : ℕ) (val rest : Bytes)
    → buflen ≤ length buf
    → drop off buf ≡ item_of tag val ++ rest
    → length val ≤ 0xffff
    → off + length (item_of tag val) ≤ buflen
    → tlv_next buf buflen off
      ≡ ok (some (record { tag = tag; val = val; after = off + length (item_of tag val) }))
unfolding tlv_next
tlv_next-drop buf buflen off tag val rest h e small fits =
    let len : length val / 256 % 256 * 256 + length val % 256 ≡ length val = omega arith in
    let g : get16 buf (off + 1) ≡ ok (length val) =
      get16-drop buf (off + 1) _ _ (val ++ rest) (drop_next buf off e) (omega arith) ∙ ap ok len in
    let v : slice buf (off + 3) (length val) ≡ ok val =
      slice-drop buf (off + 3) val rest (drop_past buf off (tag ∷ be16 (length val)) e)
        (omega arith) in
    rw (read-drop buf off e, g, v) (ground arith)
