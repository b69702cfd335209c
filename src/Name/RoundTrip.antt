-- ===== src/Name/RoundTrip.antt =====
-- `name_from_wire` on a name in wire form, and after `name_to_wire`.
use simple_dns.Common.{
  ℕ, zero, suc, ◌+◌, ◌-◌, ◌≤◌, ◌<◌, true, false, none, List, [], ◌∷◌, ◌++◌, Bytes, length, All,
  take, drop, length-take, length-append, append_assoc, lt→leb, ◌≡◌, refl, sym, ap, ◌∙◌, arith,
}
use simple_dns.Common.Bits.{bit_and_top_two}
use simple_dns.Common.Memory.{ok, read, slice, length-patch}
use simple_dns.Common.Memory.Cursor.{read-drop, drop_next, drop_past, slice-drop, drop-patch}
use simple_dns.Common.Text.{strlower, safe_strcpy}
use simple_dns.Common.Text.Split.{join, IsToken, tokens-All, length-join-tokens}
use simple_dns.Name.{
  dot, labels_in, Reader, stop, next, is_pointer, add_label, name_round, name_loop, name_from_wire,
  name_to_wire,
}
use simple_dns.Name.Wire.{labels_of, wire_of, all_short, name_to_wire-eq_ok}

-- A label that the wire form can hold.
abbrev pub IsLabel : Bytes → Type 0
IsLabel l = (0 < length l) × (length l ≤ 63)

abbrev pub add_labels : Bytes → List Bytes → Bytes
add_labels o [] = o
add_labels o (l ∷ ls) = add_labels (add_label o l) ls

pub is_pointer-label : (n : ℕ) → n ≤ 63 → is_pointer n ≡ false
is_pointer-label n h = ground (arith, bit_and_top_two n (omega arith))

pub label_room :
    (o l : Bytes) (olen : ℕ)
    → length l ≤ 63
    → 64 < olen
    → length (add_label o l) < olen
    → length o + length l + 1 < olen
label_room [] l olen short large h = omega arith
label_room (c ∷ o) l olen short large h = omega (arith, length-append (c ∷ o) (b'.' ∷ l))

length-add_label : (o l : Bytes) → length o + length l ≤ length (add_label o l)
length-add_label [] l = omega arith
length-add_label (c ∷ o) l = omega (arith, length-append (c ∷ o) (b'.' ∷ l))

pub length-add_labels : (o : Bytes) (ls : List Bytes) → length o ≤ length (add_labels o ls)
length-add_labels o [] = omega arith
length-add_labels o (l ∷ ls) =
    omega (arith, length-add_label o l, length-add_labels (add_label o l) ls)

module _ (pkt : Bytes) (plen olen : ℕ) (inside : plen ≤ length pkt) (large : 64 < olen) where
  -- A round on a label copies it.
  pub name_round-label :
      (s : Reader) (l rest : Bytes)
      → IsLabel l
      → drop s.pos pkt ≡ length l ∷ (l ++ rest)
      → s.pos + 1 + length l ≤ plen
      → length s.out + length l + 1 < olen
      → name_round pkt plen olen s
        ≡ ok (next (record s { pos = s.pos + 1 + length l; out = add_label s.out l }))
  unfolding name_round
  name_round-label s l rest h e fits room =
      let r : read pkt s.pos ≡ ok (length l) = read-drop pkt s.pos e in
      let c : slice pkt (s.pos + 1) (length l) ≡ ok l =
        slice-drop pkt (s.pos + 1) l rest (drop_next pkt s.pos e) (omega arith) in
      rw (lt→leb plen s.pos (omega arith), r, is_pointer-label (length l) h.1) (ground arith)

  -- The root label ends the loop.
  pub name_round-root :
      (s : Reader) (rest : Bytes)
      → drop s.pos pkt ≡ 0 ∷ rest
      → s.pos < plen
      → name_round pkt plen olen s ≡ ok (stop (record s { pos = s.pos + 1 }))
  unfolding name_round
  name_round-root s rest e fits = rw (lt→leb plen s.pos fits, read-drop pkt s.pos e)

  length-labels_of-cons :
      (l : Bytes) (ls : List Bytes)
      → length (labels_of (l ∷ ls)) ≡ 1 + length l + length (labels_of ls)
  length-labels_of-cons l ls = omega (arith, length-append l (labels_of ls))

  -- Each label takes one round of those that are left.
  pub name_loop-labels :
      (ls : List Bytes) (rounds more : ℕ) (s : Reader) (rest : Bytes)
      → rounds ≡ length ls + more
      → All IsLabel ls
      → drop s.pos pkt ≡ labels_of ls ++ rest
      → s.pos + length (labels_of ls) ≤ plen
      → length (add_labels s.out ls) < olen
      → name_loop pkt plen olen rounds s
        ≡ name_loop pkt plen olen more
            (record s { pos = s.pos + length (labels_of ls); out = add_labels s.out ls })
  unfolding name_loop
  name_loop-labels [] rounds more s rest n h e fits room =
      let p : s.pos + 0 ≡ s.pos = omega arith in let m : rounds ≡ more = omega arith in rw (p, m)
  name_loop-labels (l ∷ ls) zero more s rest n h e fits room = absurd (omega arith)
  name_loop-labels (l ∷ ls) (suc rounds) more s rest n h e fits room =
      let s' : Reader = record s { pos = s.pos + 1 + length l; out = add_label s.out l } in
      let at : drop s.pos pkt ≡ length l ∷ (l ++ (labels_of ls ++ rest)) =
        e ∙ ap (◌∷◌ (length l)) (append_assoc l (labels_of ls) rest) in
      let past : s.pos + 1 + length l ≡ s.pos + length (length l ∷ l) = omega arith in
      let end : s.pos + 1 + length l + length (labels_of ls) ≡ s.pos + length (labels_of (l ∷ ls)) =
        omega (arith, length-labels_of-cons l ls) in
      rw
        (name_round-label s l (labels_of ls ++ rest) h.0 at
          (omega (arith, length-labels_of-cons l ls))
          (label_room s.out l olen (h.0.1) large
            (omega (arith, length-add_labels (add_label s.out l) ls))))
        (name_loop-labels ls rounds more s' rest (omega arith) h.1
            (ap (λ (i : ℕ). drop i pkt) past ∙ drop_past pkt s.pos (length l ∷ l) at) (omega arith)
            room
          ∙ ap
              (λ (i : ℕ).
                name_loop pkt plen olen more
                  (record s { pos = i; out = add_labels (add_label s.out l) ls }))
              end)

add_labels-join-cons :
    (c : ℕ) (o : Bytes) (ls : List Bytes) → add_labels (c ∷ o) ls ≡ join b'.' ((c ∷ o) ∷ ls)
add_labels-join-cons c o [] = refl
add_labels-join-cons c o (l ∷ []) = refl
add_labels-join-cons c o (l ∷ (m ∷ ls)) =
    add_labels-join-cons c (o ++ (b'.' ∷ l)) (m ∷ ls)
    ∙ append_assoc (c ∷ o) (b'.' ∷ l) (b'.' ∷ join b'.' (m ∷ ls))

-- The text that the loop leaves in `out`: the labels with dots between them.
pub add_labels-join : (ls : List Bytes) → All IsLabel ls → add_labels [] ls ≡ join b'.' ls
add_labels-join [] h = refl
add_labels-join ([] ∷ ls) h = absurd (omega (arith, h.0.0))
add_labels-join ((c ∷ l) ∷ ls) h = add_labels-join-cons c l ls

-- On a message that holds fewer than 128 labels and the root label at `off`, `name_from_wire`
-- returns the labels in lower case with dots between them, and the offset behind the root label.
pub name_from_wire-wire_of :
    (pkt : Bytes) (plen off olen : ℕ) (ls : List Bytes) (rest : Bytes)
    → plen ≤ length pkt
    → All IsLabel ls
    → length ls < 128
    → drop off pkt ≡ wire_of ls ++ rest
    → off + length (wire_of ls) ≤ plen
    → 64 < olen
    → length (join b'.' ls) < olen
    → name_from_wire pkt plen off olen ≡ ok (strlower (join b'.' ls), off + length (wire_of ls))
unfolding name_from_wire name_loop
name_from_wire-wire_of pkt plen off olen ls rest inside h few e fits large room =
    let start : Reader = record { pos = off; out = []; jret = none } in
    let end : Reader = record {
      pos = off + length (labels_of ls);
      out = add_labels [] ls;
      jret = none;
    } in
    let long : length (wire_of ls) ≡ length (labels_of ls) + 1 =
      length-append (labels_of ls) (0 ∷ []) ∙ omega arith in
    let text : add_labels [] ls ≡ join b'.' ls = add_labels-join ls h in
    let at : drop off pkt ≡ labels_of ls ++ (0 ∷ rest) =
      e ∙ append_assoc (labels_of ls) (0 ∷ []) rest in
    let run : name_loop pkt plen olen 128 start
        ≡ name_loop pkt plen olen (suc (127 - length ls)) end =
      name_loop-labels pkt plen olen inside large ls 128 (suc (127 - length ls)) start (0 ∷ rest)
        (omega arith) h at (omega arith) (omega (arith, ap length text)) in
    let here : drop end.pos pkt ≡ 0 ∷ rest = drop_past pkt off (labels_of ls) at in
    rw (run, name_round-root pkt plen olen inside large end rest here (omega arith), text)
      (ap (λ (i : ℕ). ok (strlower (join b'.' ls), i)) (omega arith))

pub IsToken-IsLabel :
    (ls : List Bytes) → All (IsToken dot) ls → all_short ls ≡ true → All IsLabel ls
IsToken-IsLabel [] h short = tt
IsToken-IsLabel (l ∷ ls) h short = ((h.0.1, ground arith), IsToken-IsLabel ls h.1 (ground arith))

pub length-join-labels_in : (name : Bytes) → length (join b'.' (labels_in name)) ≤ 255
unfolding safe_strcpy
length-join-labels_in name =
    omega (arith, length-join-tokens dot b'.' (take 255 name), length-take 255 name)

-- Whatever a successful `name_to_wire` has written, `name_from_wire` reads it back: the labels of
-- the source name in lower case, joined by dots, and the offset behind the bytes written. This
-- holds for fewer than 128 labels and an output buffer of 256 bytes at least.
pub name_from_wire-name_to_wire :
    (name buf buf' : Bytes) (off blen n plen olen : ℕ)
    → off + blen ≤ length buf
    → name_to_wire name buf off blen ≡ ok (buf', n)
    → length (labels_in name) < 128
    → off + n ≤ plen
    → plen ≤ length buf
    → 256 ≤ olen
    → name_from_wire buf' plen off olen ≡ ok (strlower (join b'.' (labels_in name)), off + n)
name_from_wire-name_to_wire name buf buf' off blen n plen olen h e few end inside large =
    let (short, len, fits, written) = name_to_wire-eq_ok name buf buf' off blen n h e in
    let ls : List Bytes = labels_in name in
    let size : length buf' ≡ length buf =
      ap length written ∙ length-patch buf off (wire_of ls) (omega arith) in
    let at : drop off buf' ≡ wire_of ls ++ drop (off + length (wire_of ls)) buf =
      ap (drop off) written ∙ drop-patch buf off (wire_of ls) (omega arith) in
    name_from_wire-wire_of buf' plen off olen ls (drop (off + length (wire_of ls)) buf)
      (omega arith) (IsToken-IsLabel ls (tokens-All dot (safe_strcpy [] name 256)) short) few at
      (omega arith) (omega arith) (omega (arith, length-join-labels_in name))
    ∙ ap (λ (i : ℕ). ok (strlower (join b'.' ls), off + i)) (sym len)
