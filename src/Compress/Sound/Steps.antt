-- ===== src/Compress/Sound/Steps.antt =====
-- The pieces of a round of the loop: the suffix, the lookup, and the three writes.
use simple_dns.Common.{
  ℕ, ◌+◌, ◌/◌, ◌%◌, ◌≤◌, ◌<◌, bit_or, bit_and, true, some, List, [], ◌∷◌, ◌++◌, Bytes, length, All,
  drop, length-append, append_assoc, append-nil, Bool-cases, ltb, leb, le→ltb, lt→leb,
  if◌then◌else◌, inl, inr, ◌≡◌, sym, ap, ◌∙◌, arith,
}
use simple_dns.Common.Bits.{shr, bit_and_byte, bit_or_top_two}
use simple_dns.Common.Memory.{ok, err, write_fits, patch, patch_behind}
use simple_dns.Common.Text.{strcase_eq}
use simple_dns.Common.Text.Split.{join}
use simple_dns.Endian.{to_u8}
use simple_dns.Endian.Laws.{write_behind}
use simple_dns.Compress.{
  Entry, Context, find, suffix_loop, suffix_of, put_pointer, put_label, put_root,
}

-- The labels, each with a dot in front.
abbrev dotted : List Bytes → Bytes
dotted [] = []
dotted (l ∷ ls) = b'.' ∷ (l ++ dotted ls)

join-dotted : (l : Bytes) (ls : List Bytes) → join b'.' (l ∷ ls) ≡ l ++ dotted ls
join-dotted l [] = sym (append-nil l)
join-dotted l (m ∷ ls) = ap (λ (t : Bytes). l ++ (b'.' ∷ t)) (join-dotted m ls)

suffix_loop-dotted :
    (acc : Bytes) (ls : List Bytes)
    → length acc + length (dotted ls) ≤ 255
    → suffix_loop acc true ls ≡ acc ++ dotted ls
unfolding suffix_loop
suffix_loop-dotted acc [] h = sym (append-nil acc)
suffix_loop-dotted acc (l ∷ ls) h =
    rw (lt→leb 256 (length acc + length l + 1) (omega (arith, length-append l (dotted ls)))) (
      suffix_loop-dotted (acc ++ (b'.' ∷ l)) ls
        (omega (arith, length-append l (dotted ls), length-append acc (b'.' ∷ l)))
      ∙ append_assoc acc (b'.' ∷ l) (dotted ls))

-- The buffer `suffix` holds the whole of a suffix that a name can have.
pub suffix_of-join :
    (l : Bytes) (ls : List Bytes)
    → length l ≤ 63
    → length (join b'.' (l ∷ ls)) ≤ 255
    → suffix_of (l ∷ ls) ≡ join b'.' (l ∷ ls)
unfolding suffix_loop
suffix_of-join l ls short h = rw (lt→leb 256 (0 + length l + 1) (omega arith)) (
    suffix_loop-dotted l ls
      (omega (arith, length-append l (dotted ls), ap length (join-dotted l ls)))
    ∙ sym (join-dotted l ls))

-- A hit in the lookup is an entry whose name is the text but for case.
module _ (P : Entry → Type 0) (text : Bytes) where
  pub find-some :
      (ctx : Context) (o : ℕ)
      → All P ctx
      → find ctx text ≡ some o
      → (e : Entry) × P e × (e.offset ≡ o) × (strcase_eq e.name text ≡ true)
  unfolding find
  find-some [] o h f = cc
  find-some (e ∷ es) o h f = elim (Bool-cases (strcase_eq e.name text)) [
    | inl y ↦ (e, h.0, ground arith, y)
    | inr n ↦ find-some es o h.1 (ground arith)
  ]

module _ (msg tail : Bytes) (blen : ℕ) (enough : blen ≤ length (msg ++ tail)) where
  -- A write behind the message.
  behind : Bytes → Bytes
  behind vs = (msg ++ vs) ++ drop (length vs) tail

  patch-behind : (vs : Bytes) → patch (msg ++ tail) (length msg) vs ≡ behind vs
  unfolding behind
  patch-behind vs = patch_behind msg tail vs ∙ sym (append_assoc msg vs (drop (length vs) tail))

  pub put_root_lem : put_root (msg ++ tail) (length msg) blen ≡ (
      if leb blen (length msg) then err else ok ((msg ++ (0 ∷ [])) ++ drop 1 tail, length msg + 1))
  unfolding put_root behind
  put_root_lem = elim (Bool-cases (leb blen (length msg))) [
    | inl e ↦ rw e
    | inr e ↦
        rw (e, write_fits (msg ++ tail) (length msg) (0 ∷ []) (ground arith), patch-behind (0 ∷ []))
  ]

  pub put_label_lem :
      (l : Bytes)
      → length l ≤ 63
      → put_label l (msg ++ tail) (length msg) blen ≡ (
          if leb blen (length msg + length l + 1)
          then err
          else ok ((msg ++ (length l ∷ l)) ++ drop (length (length l ∷ l)) tail))
  unfolding put_label behind
  put_label_lem l short =
      let small : to_u8 (length l) ≡ length l = omega arith in
      rw (le→ltb 63 (length l) short, small)
        (elim (Bool-cases (leb blen (length msg + length l + 1))) [
          | inl e ↦ rw e
          | inr e ↦ rw (
            e,
            write_fits (msg ++ tail) (length msg) (length l ∷ []) (ground arith),
            write_behind (msg ++ tail) (length msg) (length l ∷ []) l (length msg + 1) (omega arith)
                (ground arith),
            patch-behind (length l ∷ l),
          )
        ])

  pub put_pointer_lem :
      (o : ℕ)
      → o < 0x4000
      → put_pointer o (msg ++ tail) (length msg) blen ≡ (
          if ltb blen (length msg + 2)
          then err
          else ok ((msg ++ ((192 + o / 256) ∷ o % 256 ∷ [])) ++ drop 2 tail, length msg + 2))
  unfolding put_pointer behind
  put_pointer_lem o low =
      let hi : to_u8 (bit_or 0xc0 (shr o 8)) ≡ 192 + o / 256 =
        ap to_u8 (bit_or_top_two (o / 256) (omega arith)) ∙ omega arith in
      let lo : to_u8 (bit_and o 0xff) ≡ o % 256 = ap to_u8 (bit_and_byte o) ∙ omega arith in
      rw (hi, lo)
        (elim (Bool-cases (ltb blen (length msg + 2))) [
          | inl e ↦ rw e
          | inr e ↦ rw (
            e,
            write_fits (msg ++ tail) (length msg) ((192 + o / 256) ∷ []) (ground arith),
            write_behind (msg ++ tail) (length msg) ((192 + o / 256) ∷ []) (o % 256 ∷ [])
                (length msg + 1) (omega arith) (ground arith),
            patch-behind ((192 + o / 256) ∷ o % 256 ∷ []),
          )
        ])
