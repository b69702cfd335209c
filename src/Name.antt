-- ===== src/Name.antt =====
-- dns_wire.c, "DNS names": `name_to_wire`, `name_from_wire`, `txt_encode`.
pub mod Wire
pub mod Safety
pub mod RoundTrip
pub mod Pointer
pub mod Txt
use simple_dns.Common.{
  ℕ, zero, suc, ◌+◌, ◌-◌, ◌*◌, ◌^◌, bit_and, bit_or, Bool, true, false, ◌||◌, Option, none, some,
  List, [], ◌∷◌, ◌++◌, Bytes, length, take, drop, ltb, leb, ◌==◌, if◌then◌else◌,
}
use simple_dns.Common.Bits.{shl}
use simple_dns.Common.Memory.{Outcome, ok, err, fault, ◌>>=◌, ◌>>◌, refuse_if, read, write, slice}
use simple_dns.Common.Text.{strlower, safe_strcpy, tokens}
use simple_dns.Endian.{to_u8}

abbrev pub dot : ℕ → Bool
dot c = c == b'.'

-- The labels that the `strtok_r(…, ".", …)` loops visit, on a copy of at most 255 bytes.
abbrev pub labels_in : Bytes → List Bytes
labels_in name = tokens dot (safe_strcpy [] name 256)

-- The loop and the root label behind it. `base` is the pointer `buf` as an offset into the memory
-- around it, so that index `i` of the C code is `base + i`.
unfoldable pub put_labels : List Bytes → Bytes → ℕ → ℕ → ℕ → Outcome (Bytes × ℕ)
put_labels [] buf base blen pos = do
  refuse_if (leb blen pos)
  buf' ← write buf (base + pos) (0 ∷ [])
  ok (buf', pos + 1)
put_labels (lbl ∷ ls) buf base blen pos = do
  let ll = length lbl
  refuse_if (ltb 63 ll)
  refuse_if (leb blen (pos + ll + 1))
  buf1 ← write buf (base + pos) (to_u8 ll ∷ [])
  buf2 ← write buf1 (base + (pos + 1)) lbl
  put_labels ls buf2 base blen (pos + 1 + ll)

-- The buffer afterwards, and the length written.
unfoldable pub name_to_wire : Bytes → Bytes → ℕ → ℕ → Outcome (Bytes × ℕ)
unfolding put_labels
name_to_wire name buf base blen = put_labels (labels_in name) buf base blen 0

-- The locals of `name_from_wire`: `out` holds the `opos` bytes written so far, and `jret` is
-- `none` until the first jump.
pub record Reader : Type 0 where
  pub pos : ℕ
  pub out : Bytes
  pub jret : Option ℕ

-- How a round of the loop ends: by `break`, or with the next round.
pub data Round : Type 0 where
  stop : Reader → Round
  next : Reader → Round

-- `(c & 0xC0) == 0xC0`
abbrev pub is_pointer : ℕ → Bool
is_pointer c = bit_and c 0xc0 == 0xc0

abbrev pub pointer_to : ℕ → ℕ → ℕ
pointer_to c lo = bit_or (shl (bit_and c 0x3f) 8) lo

abbrev pub jump_return : Option ℕ → ℕ → Option ℕ
jump_return none r = some r
jump_return (some j) r = some j

-- `if (opos) out[opos++] = '.';` and the `memcpy`
abbrev pub add_label : Bytes → Bytes → Bytes
add_label [] l = l
add_label (c ∷ o) l = (c ∷ o) ++ (b'.' ∷ l)

-- `pkt` is the memory at the pointer, of which the message takes `plen` bytes.
module _ (pkt : Bytes) (plen olen : ℕ) where
  follow : Reader → ℕ → Outcome Round
  follow s c = do
    refuse_if (leb plen (s.pos + 1))
    lo ← read pkt (s.pos + 1)
    let ptr = pointer_to c lo
    refuse_if (leb s.pos ptr)
    ok (next (record s { pos = ptr; jret = jump_return s.jret (s.pos + 2) }))

  copy_label : Reader → ℕ → Outcome Round
  copy_label s ll = do
    refuse_if (ltb plen (s.pos + 1 + ll) || leb olen (length s.out + ll + 1))
    l ← slice pkt (s.pos + 1) ll
    ok (next (record s { pos = s.pos + 1 + ll; out = add_label s.out l }))

  unfoldable pub name_round : Reader → Outcome Round
  unfolding follow copy_label
  name_round s = do
    refuse_if (leb plen s.pos)
    c ← read pkt s.pos
    if is_pointer c
        then follow s c
        else if c == 0
        then ok (stop (record s { pos = s.pos + 1 }))
        else copy_label s c

  -- `while (steps++ < 128)`: the number counts the rounds left. When they are used up, the loop
  -- ends as by `break`.
  unfoldable pub name_loop : ℕ → Reader → Outcome Reader
  name_loop zero s = ok s
  name_loop (suc rounds) s =
      name_round s >>= elim [ stop s' ↦ ok s' | next s' ↦ name_loop rounds s' ]

-- `return jumped ? jret : pos;`
abbrev pub after_name : Reader → ℕ
after_name s = elim s.jret [ none ↦ s.pos | some j ↦ j ]

-- The text in `out`, and the offset returned.
unfoldable pub name_from_wire : Bytes → ℕ → ℕ → ℕ → Outcome (Bytes × ℕ)
unfolding name_loop
name_from_wire pkt plen off olen = do
  s ← name_loop pkt plen olen 128 (record { pos = off; out = []; jret = none })
  ok (strlower s.out, after_name s)

-- The chunks of at most 255 bytes, each behind its length. `out` is what `rd` holds so far; the
-- fuel bounds the number of chunks.
unfoldable pub txt_loop : ℕ → Bytes → Bytes → ℕ → Outcome Bytes
txt_loop fuel [] out maxlen = ok out
txt_loop zero (c ∷ s) out maxlen = fault
txt_loop (suc fuel) (c ∷ s) out maxlen =
    let slen = length (c ∷ s) in
    let chunk = if ltb 255 slen then 255 else slen in
    let rest =
      txt_loop fuel (drop chunk (c ∷ s)) (out ++ (to_u8 chunk ∷ take chunk (c ∷ s))) maxlen in
    if ltb maxlen (length out + 1 + chunk) then err else rest

-- The rdata written, whose length the C function returns. Each round takes a byte at least.
unfoldable pub txt_encode : Bytes → ℕ → Outcome Bytes
unfolding txt_loop
txt_encode s maxlen = txt_loop (length s) s [] maxlen
