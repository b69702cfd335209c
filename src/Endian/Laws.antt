-- ===== src/Endian/Laws.antt =====
-- What the accessors write and read, in plain arithmetic.
use simple_dns.Common.{
  ℕ, ◌+◌, ◌*◌, ◌/◌, ◌%◌, ◌^◌, ◌≤◌, ◌<◌, bit_or, [], ◌∷◌, ◌++◌, Bytes, IsByte, All, length, drop,
  take, ◌≡◌, ap, ◌∙◌, arith,
}
use simple_dns.Common.Bits.{shl, shr, bit_or-shl, bit_and_byte}
use simple_dns.Common.Memory.{ok, write, patch, write_fits, length-patch, patch-patch}
use simple_dns.Common.Memory.Cursor.{read-drop, drop_next, drop_past, drop-patch, take-patch}
use simple_dns.Endian.{to_u8, put16, put32, get16, get32}

-- The bytes of a number, most significant first.
abbrev pub be16 : ℕ → Bytes
be16 v = v / 256 % 256 ∷ v % 256 ∷ []

abbrev pub be32 : ℕ → Bytes
be32 v = v / 16777216 % 256 ∷ v / 65536 % 256 ∷ v / 256 % 256 ∷ v % 256 ∷ []

-- Two writes of neighbours as one.
pub write_behind :
    (buf : Bytes) (off : ℕ) (vs ws : Bytes) (at : ℕ)
    → at ≡ off + length vs
    → off + length vs + length ws ≤ length buf
    → write (patch buf off vs) at ws ≡ ok (patch buf off (vs ++ ws))
write_behind buf off vs ws at e h = rw e (
    write_fits (patch buf off vs) (off + length vs) ws (omega (arith, length-patch buf off vs))
    ∙ ap ok (patch-patch buf off vs ws))

pub byte_byte : (v : ℕ) → v % 256 % 256 ≡ v % 256
byte_byte v = omega arith

-- `put16` writes the two bytes, most significant first, and nothing else.
pub put16_lem : (b : Bytes) (o v : ℕ) → o + 2 ≤ length b → put16 b o v ≡ ok (patch b o (be16 v))
unfolding put16
put16_lem b o v h =
    rw (write_fits b o (to_u8 (shr v 8) ∷ []) (omega arith), bit_and_byte, byte_byte)
      (write_behind b o (to_u8 (shr v 8) ∷ []) _ (o + 1) (omega arith) (omega arith))

pub put32_lem : (b : Bytes) (o v : ℕ) → o + 4 ≤ length b → put32 b o v ≡ ok (patch b o (be32 v))
unfolding put32
put32_lem b o v h = simp (
  write_fits b o (v / 16777216 % 256 ∷ []) (omega arith),
  bit_and_byte,
  byte_byte,
  write_behind b o (v / 16777216 % 256 ∷ []) (v / 65536 % 256 ∷ []) (o + 1) (omega arith)
      (omega arith),
  write_behind b o (v / 16777216 % 256 ∷ v / 65536 % 256 ∷ []) (v / 256 % 256 ∷ []) (o + 2)
      (omega arith) (omega arith),
  write_behind b o (v / 16777216 % 256 ∷ v / 65536 % 256 ∷ v / 256 % 256 ∷ []) (v % 256 ∷ [])
      (o + 3) (omega arith) (omega arith),
)

-- The same behind bytes just written.
pub put16_behind :
    (buf : Bytes) (off : ℕ) (vs : Bytes) (at v : ℕ)
    → at ≡ off + length vs
    → off + length vs + 2 ≤ length buf
    → put16 (patch buf off vs) at v ≡ ok (patch buf off (vs ++ be16 v))
put16_behind buf off vs at v e h = rw e (
    put16_lem (patch buf off vs) (off + length vs) v (omega (arith, length-patch buf off vs))
    ∙ ap ok (patch-patch buf off vs (be16 v)))

pub put32_behind :
    (buf : Bytes) (off : ℕ) (vs : Bytes) (at v : ℕ)
    → at ≡ off + length vs
    → off + length vs + 4 ≤ length buf
    → put32 (patch buf off vs) at v ≡ ok (patch buf off (vs ++ be32 v))
put32_behind buf off vs at v e h = rw e (
    put32_lem (patch buf off vs) (off + length vs) v (omega (arith, length-patch buf off vs))
    ∙ ap ok (patch-patch buf off vs (be32 v)))

-- `get16` at a cursor on two bytes.
pub get16-drop :
    (b : Bytes) (o x y : ℕ) (rest : Bytes)
    → drop o b ≡ x ∷ y ∷ rest
    → y < 256
    → get16 b o ≡ ok (x * 256 + y)
unfolding get16
get16-drop b o x y rest e h =
    rw (read-drop b o e, read-drop b (o + 1) (drop_next b o e)) (ap ok (bit_or-shl 8 x y h))

third :
    (b : Bytes) (o : ℕ) {w x : ℕ} {rest : Bytes} → drop o b ≡ w ∷ x ∷ rest → drop (o + 2) b ≡ rest
third b o {w} {x} e = drop_past b o (w ∷ x ∷ []) e

pub shl_join :
    (w x y z : ℕ)
    → x < 256
    → y < 256
    → z < 256
    → bit_or (bit_or (bit_or (shl w 24) (shl x 16)) (shl y 8)) z
      ≡ w * 16777216 + x * 65536 + y * 256 + z
shl_join w x y z hx hy hz =
    let e1 : bit_or (w * 16777216) (x * 65536) ≡ w * 16777216 + x * 65536 =
      bit_or-shl 24 w (x * 65536) (omega arith) in
    let e2 : w * 16777216 + x * 65536 ≡ (w * 256 + x) * 65536 = omega arith in
    let e3 : bit_or ((w * 256 + x) * 65536) (y * 256) ≡ (w * 256 + x) * 65536 + y * 256 =
      bit_or-shl 16 (w * 256 + x) (y * 256) (omega arith) in
    let e4 : (w * 256 + x) * 65536 + y * 256 ≡ (w * 65536 + x * 256 + y) * 256 = omega arith in
    rw (e1, e2, e3, e4) (bit_or-shl 8 (w * 65536 + x * 256 + y) z hz ∙ omega arith)

pub get32-drop :
    (b : Bytes) (o w x y z : ℕ) (rest : Bytes)
    → drop o b ≡ w ∷ x ∷ y ∷ z ∷ rest
    → All IsByte (x ∷ y ∷ z ∷ [])
    → get32 b o ≡ ok (w * 16777216 + x * 65536 + y * 256 + z)
unfolding get32
get32-drop b o w x y z rest e h =
    rw
      (
        read-drop b o e,
        read-drop b (o + 1) (drop_next b o e),
        read-drop b (o + 2) (drop_past b o (w ∷ x ∷ []) e),
        read-drop b (o + 3) (drop_past b o (w ∷ x ∷ y ∷ []) e),
      )
      (ap ok (shl_join w x y z h.0 h.1.0 h.1.1.0))

-- Reading back a 16-bit value gives it, and the other bytes of the buffer are as they were.
pub get16-put16 :
    (b : Bytes) (o v : ℕ)
    → o + 2 ≤ length b
    → v < 2 ^ 16
    → (b' : Bytes) × (put16 b o v ≡ ok b')
      × (get16 b' o ≡ ok v)
      × (length b' ≡ length b)
      × (take o b' ≡ take o b)
      × (drop (o + 2) b' ≡ drop (o + 2) b)
get16-put16 b o v h hv =
    let at : drop o (patch b o (be16 v)) ≡ be16 v ++ drop (o + 2) b = drop-patch b o (be16 v) h in
    (
      patch b o (be16 v),
      put16_lem b o v h,
      get16-drop _ o _ _ _ at (omega arith) ∙ ap ok (omega arith),
      length-patch b o (be16 v) h,
      take-patch b o (be16 v) h,
      drop_past _ o (be16 v) at,
    )

-- Reading back a 32-bit value gives it, and the other bytes of the buffer are as they were.
pub get32-put32 :
    (b : Bytes) (o v : ℕ)
    → o + 4 ≤ length b
    → v < 2 ^ 32
    → (b' : Bytes) × (put32 b o v ≡ ok b')
      × (get32 b' o ≡ ok v)
      × (length b' ≡ length b)
      × (take o b' ≡ take o b)
      × (drop (o + 4) b' ≡ drop (o + 4) b)
get32-put32 b o v h hv =
    let at : drop o (patch b o (be32 v)) ≡ be32 v ++ drop (o + 4) b = drop-patch b o (be32 v) h in
    (
      patch b o (be32 v),
      put32_lem b o v h,
      get32-drop _ o _ _ _ _ _ at (omega arith) ∙ ap ok (omega arith),
      length-patch b o (be32 v) h,
      take-patch b o (be32 v) h,
      drop_past _ o (be32 v) at,
    )
