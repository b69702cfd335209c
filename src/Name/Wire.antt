-- ===== src/Name/Wire.antt =====
-- `name_to_wire` against the wire form of a list of labels.
use simple_dns.Common.{
  ℕ, ◌+◌, ◌≤◌, ◌<◌, Bool, true, ◌&&◌, List, [], ◌∷◌, ◌++◌, Bytes, length, length-append,
  append_assoc, leb, le→ltb, lt→leb, dec_le, dec_lt, if◌then◌else◌, Bool-cases, ◌⊎◌, inl, inr, ◌≡◌,
  refl, sym, ap, ◌∙◌, arith,
}
use simple_dns.Common.Memory.{Outcome, ok, err, patch, write_fits, length-patch, patch-patch}
use simple_dns.Endian.{to_u8}
use simple_dns.Endian.Laws.{write_behind}
use simple_dns.Name.{labels_in, put_labels, name_to_wire}

-- The labels, each behind its length.
abbrev pub labels_of : List Bytes → Bytes
labels_of [] = []
labels_of (l ∷ ls) = length l ∷ (l ++ labels_of ls)

-- RFC 1035 §3.1: the labels, and the root label.
abbrev pub wire_of : List Bytes → Bytes
wire_of ls = labels_of ls ++ (0 ∷ [])

abbrev pub all_short : List Bytes → Bool
all_short [] = true
all_short (l ∷ ls) = leb (length l) 63 && all_short ls

abbrev pub names_fit : List Bytes → ℕ → ℕ → Bool
names_fit ls pos blen = all_short ls && leb (pos + length (wire_of ls)) blen

-- What the loop does from `pos` on, with `blen` bytes at `base`.
abbrev pub labels_result : List Bytes → Bytes → ℕ → ℕ → ℕ → Outcome (Bytes × ℕ)
labels_result ls buf base blen pos =
    if names_fit ls pos blen
    then ok (patch buf (base + pos) (wire_of ls), pos + length (wire_of ls))
    else err

pub length-wire_of-cons :
    (l : Bytes) (ls : List Bytes) → length (wire_of (l ∷ ls)) ≡ 1 + length l + length (wire_of ls)
length-wire_of-cons l ls =
    omega (arith, ap length (append_assoc l (labels_of ls) (0 ∷ [])), length-append l (wire_of ls))

pub length-wire_of-pos : (ls : List Bytes) → 1 ≤ length (wire_of ls)
length-wire_of-pos ls = omega (arith, length-append (labels_of ls) (0 ∷ []))

patch-wire_of :
    (l : Bytes) (ls : List Bytes) (buf : Bytes) (base pos : ℕ)
    → patch (patch buf (base + pos) (length l ∷ l)) (base + (pos + 1 + length l)) (wire_of ls)
      ≡ patch buf (base + pos) (wire_of (l ∷ ls))
patch-wire_of l ls buf base pos =
    let e : base + (pos + 1 + length l) ≡ base + pos + length (length l ∷ l) = omega arith in
    rw (e, patch-patch)
      (ap (λ (w : Bytes). patch buf (base + pos) (length l ∷ w))
        (sym (append_assoc l (labels_of ls) (0 ∷ []))))

labels_result-cons :
    (l : Bytes) (ls : List Bytes) (buf : Bytes) (base blen pos : ℕ)
    → length l ≤ 63
    → labels_result ls (patch buf (base + pos) (length l ∷ l)) base blen (pos + 1 + length l)
      ≡ labels_result (l ∷ ls) buf base blen pos
labels_result-cons l ls buf base blen pos short =
    ground (arith, length-wire_of-cons l ls, patch-wire_of l ls buf base pos)

-- One round of the loop, on a label that is short enough and has room.
put_labels-cons :
    (l : Bytes) (ls : List Bytes) (buf : Bytes) (base blen pos : ℕ)
    → base + blen ≤ length buf
    → length l ≤ 63
    → pos + length l + 1 < blen
    → put_labels (l ∷ ls) buf base blen pos
      ≡ put_labels ls (patch buf (base + pos) (length l ∷ l)) base blen (pos + 1 + length l)
unfolding put_labels
put_labels-cons l ls buf base blen pos h short room =
    let small : to_u8 (length l) ≡ length l = omega arith in
    rw
      (
        small,
        lt→leb blen (pos + length l + 1) room,
        le→ltb 63 (length l) short,
        write_fits buf (base + pos) (length l ∷ []) (omega arith),
        write_behind buf (base + pos) (length l ∷ []) l (base + (pos + 1)) (omega arith)
            (omega arith),
      )
      refl

-- A label that is too long, or that leaves no room for the root label, is refused.
put_labels_refused :
    (l : Bytes) (ls : List Bytes) (buf : Bytes) (base blen pos : ℕ)
    → (63 < length l) ⊎ (blen ≤ pos + length l + 1)
    → put_labels (l ∷ ls) buf base blen pos ≡ labels_result (l ∷ ls) buf base blen pos
unfolding put_labels
put_labels_refused l ls buf base blen pos h =
    ground (arith, length-wire_of-cons l ls, length-wire_of-pos ls)

pub put_labels_lem :
    (ls : List Bytes) (buf : Bytes) (base blen pos : ℕ)
    → base + blen ≤ length buf
    → put_labels ls buf base blen pos ≡ labels_result ls buf base blen pos
put_labels_lem [] buf base blen pos h =
    unfold put_labels in
    elim (Bool-cases (leb blen pos)) [
      | inl e ↦ ground arith
      | inr e ↦ ground (arith, write_fits buf (base + pos) (0 ∷ []))
    ]
put_labels_lem (l ∷ ls) buf base blen pos h = elim (dec_le (length l) 63) [
  | no n ↦ put_labels_refused l ls buf base blen pos (inl (omega arith))
  | yes short ↦ elim (dec_lt (pos + length l + 1) blen) [
    | no n ↦ put_labels_refused l ls buf base blen pos (inr (omega arith))
    | yes room ↦
        put_labels-cons l ls buf base blen pos h short room
        ∙ put_labels_lem ls (patch buf (base + pos) (length l ∷ l)) base blen (pos + 1 + length l)
            (omega (arith, length-patch buf (base + pos) (length l ∷ l) (omega arith)))
        ∙ labels_result-cons l ls buf base blen pos short
  ]
]

-- `name_to_wire` writes the labels of the name in wire form at `buf`, and nothing else, exactly
-- when each has at most 63 bytes and the whole fits `blen` bytes; otherwise it returns -1.
pub name_to_wire_lem :
    (name buf : Bytes) (base blen : ℕ)
    → base + blen ≤ length buf
    → name_to_wire name buf base blen ≡ labels_result (labels_in name) buf base blen 0
unfolding name_to_wire
name_to_wire_lem name buf base blen h = put_labels_lem (labels_in name) buf base blen 0 h

-- What a success says.
pub name_to_wire-eq_ok :
    (name buf buf' : Bytes) (base blen n : ℕ)
    → base + blen ≤ length buf
    → name_to_wire name buf base blen ≡ ok (buf', n)
    → (all_short (labels_in name) ≡ true)
      × (n ≡ length (wire_of (labels_in name)))
      × (n ≤ blen)
      × (buf' ≡ patch buf base (wire_of (labels_in name)))
name_to_wire-eq_ok name buf buf' base blen n h e =
    let z : base + 0 ≡ base = omega arith in
    ground (
      arith,
      name_to_wire_lem name buf base blen h,
      ap (λ (i : ℕ). patch buf i (wire_of (labels_in name))) z,
    )
