-- ===== src/Name/Pointer.antt =====
-- Compression pointers in `name_from_wire`, and the limit of 128 rounds.
use simple_dns.Common.{
  ℕ, suc, ◌+◌, ◌-◌, ◌*◌, ◌%◌, ◌≤◌, ◌<◌, true, none, some, List, [], ◌∷◌, ◌++◌, Bytes, bit_or,
  length, All, All-append, drop, length-append, append_assoc, lt→leb, le→leb, ◌≡◌, refl, sym, ap,
  ◌∙◌, arith,
}
use simple_dns.Common.Bits.{bit_and_top_two, bit_and_low_six, bit_or-shl}
use simple_dns.Common.Memory.{ok, err}
use simple_dns.Common.Memory.Cursor.{read-drop, drop_next, drop_past}
use simple_dns.Common.Text.{strlower}
use simple_dns.Common.Text.Split.{join}
use simple_dns.Name.{
  add_label, Reader, next, is_pointer, pointer_to, jump_return, name_round, name_loop,
  name_from_wire,
}
use simple_dns.Name.Wire.{labels_of, wire_of}
use simple_dns.Name.RoundTrip.{
  IsLabel, add_labels, add_labels-join, name_loop-labels, name_round-root,
}

-- The two bytes of a compression pointer.
abbrev pub IsPointer : ℕ → ℕ → Type 0
IsPointer c lo = (192 ≤ c) × (c < 256) × (lo < 256)

abbrev pub target : ℕ → ℕ → ℕ
target c lo = c % 64 * 256 + lo

pointer_to_lem : (c lo : ℕ) → IsPointer c lo → pointer_to c lo ≡ target c lo
pointer_to_lem c lo h =
    ap (λ (t : ℕ). pointer_to' t lo) (bit_and_low_six c h.1) ∙ bit_or-shl 8 (c % 64) lo h.2
  where
    pointer_to' : ℕ → ℕ → ℕ
    pointer_to' t lo = bit_or (t * 256) lo

pub is_pointer_lem : (c lo : ℕ) → IsPointer c lo → is_pointer c ≡ true
is_pointer_lem c lo h = ground (arith, bit_and_top_two c h.1)

module _ (pkt : Bytes) (plen olen : ℕ) (inside : plen ≤ length pkt) where
  module _ (s : Reader) (c lo : ℕ) (rest : Bytes) (p : IsPointer c lo)
      (e : drop s.pos pkt ≡ c ∷ lo ∷ rest) (fits : s.pos + 2 ≤ plen) where
    -- A pointer to an offset before it is followed.
    pub name_round-pointer :
        target c lo < s.pos
        → name_round pkt plen olen s
          ≡ ok (next (record s { pos = target c lo; jret = jump_return s.jret (s.pos + 2) }))
    unfolding name_round
    name_round-pointer back = rw (
      lt→leb plen s.pos (omega arith),
      read-drop pkt s.pos e,
      is_pointer_lem c lo p,
      lt→leb plen (s.pos + 1) (omega arith),
      read-drop pkt (s.pos + 1) (drop_next pkt s.pos e),
      pointer_to_lem c lo p,
      lt→leb s.pos (target c lo) back,
    )

    -- Any other pointer is refused.
    name_round_forward : s.pos ≤ target c lo → name_round pkt plen olen s ≡ err
    unfolding name_round
    name_round_forward ahead = rw (
      lt→leb plen s.pos (omega arith),
      read-drop pkt s.pos e,
      is_pointer_lem c lo p,
      lt→leb plen (s.pos + 1) (omega arith),
      read-drop pkt (s.pos + 1) (drop_next pkt s.pos e),
      pointer_to_lem c lo p,
      le→leb s.pos (target c lo) ahead,
    )

add_labels-append :
    (o : Bytes) (ls ms : List Bytes) → add_labels o (ls ++ ms) ≡ add_labels (add_labels o ls) ms
add_labels-append o [] ms = refl
add_labels-append o (l ∷ ls) ms = add_labels-append (add_label o l) ls ms

-- The start of a name that ends in a pointer.
pub record IsCompressed (pkt : Bytes) (plen off olen : ℕ) (ls : List Bytes) (c lo : ℕ)
    : Type 0 where
  pub rest : Bytes
  pub inside : plen ≤ length pkt
  pub labels : All IsLabel ls
  pub pointer : IsPointer c lo
  pub holds : drop off pkt ≡ labels_of ls ++ (c ∷ lo ∷ rest)
  pub fits : off + length (labels_of ls) + 2 ≤ plen
  pub large : 64 < olen
  pub room : length (add_labels [] ls) < olen

module _ (pkt : Bytes) (plen off olen : ℕ) (ls : List Bytes) (c lo : ℕ)
    (k : IsCompressed pkt plen off olen ls c lo) where
  abbrev at_pointer : Reader
  at_pointer = record { pos = off + length (labels_of ls); out = add_labels [] ls; jret = none }

  reaches :
      (more : ℕ)
      → 128 ≡ length ls + more
      → name_loop pkt plen olen 128 (record { pos = off; out = []; jret = none })
        ≡ name_loop pkt plen olen more at_pointer
  reaches more e =
      name_loop-labels pkt plen olen k.inside k.large ls 128 more
        (record { pos = off; out = []; jret = none }) (c ∷ lo ∷ k.rest) e k.labels k.holds
        (omega (arith, k.fits)) k.room

  here : drop (off + length (labels_of ls)) pkt ≡ c ∷ lo ∷ k.rest
  here = drop_past pkt off (labels_of ls) k.holds

  -- A name of fewer than 128 labels that ends in a pointer whose target is not before the pointer
  -- makes `name_from_wire` return -1.
  pub name_from_wire_forward :
      length ls < 128
      → off + length (labels_of ls) ≤ target c lo
      → name_from_wire pkt plen off olen ≡ err
  unfolding name_from_wire name_loop
  name_from_wire_forward few ahead = rw (
    reaches (suc (127 - length ls)) (omega arith),
    name_round_forward pkt plen olen k.inside at_pointer c lo k.rest k.pointer here k.fits ahead,
  )

  -- A name that ends in a pointer back to a name with no pointer reads as the labels of both, and
  -- the offset returned is the one behind the first pointer, wherever the second name stands.
  pub name_from_wire_compressed :
      (ms : List Bytes) (rest : Bytes)
      → All IsLabel ms
      → length ls + length ms < 127
      → drop (target c lo) pkt ≡ wire_of ms ++ rest
      → target c lo < off + length (labels_of ls)
      → target c lo + length (wire_of ms) ≤ plen
      → length (join b'.' (ls ++ ms)) < olen
      → name_from_wire pkt plen off olen
        ≡ ok (strlower (join b'.' (ls ++ ms)), off + length (labels_of ls) + 2)
  unfolding name_from_wire name_loop
  name_from_wire_compressed ms rest hm few e back fits room =
      let text : add_labels (add_labels [] ls) ms ≡ join b'.' (ls ++ ms) =
        sym (add_labels-append [] ls ms)
        ∙ add_labels-join (ls ++ ms) (All-append IsLabel ls ms k.labels hm) in
      let jumped : Reader = record {
        pos = target c lo;
        out = add_labels [] ls;
        jret = some (off + length (labels_of ls) + 2);
      } in
      let at : drop (target c lo) pkt ≡ labels_of ms ++ (0 ∷ rest) =
        e ∙ append_assoc (labels_of ms) (0 ∷ []) rest in
      let long : length (wire_of ms) ≡ length (labels_of ms) + 1 =
        length-append (labels_of ms) (0 ∷ []) ∙ omega arith in
      let end : Reader = record {
        pos = target c lo + length (labels_of ms);
        out = add_labels (add_labels [] ls) ms;
        jret = some (off + length (labels_of ls) + 2);
      } in
      let left : ℕ = 126 - length ls - length ms in
      let run : name_loop pkt plen olen (127 - length ls) jumped
          ≡ name_loop pkt plen olen (suc left) end =
        name_loop-labels pkt plen olen k.inside k.large ms (127 - length ls) (suc left) jumped
          (0 ∷ rest) (omega arith) hm at (omega arith) (omega (arith, ap length text)) in
      rw (
        reaches (suc (127 - length ls)) (omega arith),
        name_round-pointer pkt plen olen k.inside at_pointer c lo k.rest k.pointer here k.fits back,
        run,
        name_round-root pkt plen olen k.inside k.large end rest
            (drop_past pkt (target c lo) (labels_of ms) at) (omega arith),
        text,
      )

-- The limit of 128 rounds is no refusal: 128 labels are accepted whatever follows them, with no
-- root label read, and the offset returned is the one behind the last of them.
pub name_from_wire_cut_off :
    (pkt : Bytes) (plen off olen : ℕ) (ls : List Bytes) (rest : Bytes)
    → plen ≤ length pkt
    → All IsLabel ls
    → length ls ≡ 128
    → drop off pkt ≡ labels_of ls ++ rest
    → off + length (labels_of ls) ≤ plen
    → 64 < olen
    → length (join b'.' ls) < olen
    → name_from_wire pkt plen off olen ≡ ok (strlower (join b'.' ls), off + length (labels_of ls))
unfolding name_from_wire name_loop
name_from_wire_cut_off pkt plen off olen ls rest inside h n e fits large room =
    let text : add_labels [] ls ≡ join b'.' ls = add_labels-join ls h in
    rw (
      name_loop-labels pkt plen olen inside large ls 128 0
          (record { pos = off; out = []; jret = none }) rest (omega arith) h e fits
          (omega (arith, ap length text)),
      text,
    )
