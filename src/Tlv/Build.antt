-- ===== src/Tlv/Build.antt =====
-- Items written one behind the other, and read back.
use simple_dns.Common.{
  ℕ, zero, suc, ◌+◌, ◌≤◌, List, [], ◌∷◌, ◌++◌, Bytes, length, length-append, append_assoc,
  append-nil, All, drop, ltb, leb, le→leb, lt→leb, leb→le, leb_false→lt, Bool-cases, if◌then◌else◌,
  inl, inr, ◌≡◌, refl, ap, ◌∙◌, arith,
}
use simple_dns.Common.Memory.{Outcome, ok, err, ◌>>=◌, patch, length-patch, patch-patch, write_fits}
use simple_dns.Common.Memory.Cursor.{drop-patch, drop_next}
use simple_dns.Common.Memory.Safe.{Holds}
use simple_dns.Tlv.{tlv_begin, tlv_put, tlv_next, tlv_fold}
use simple_dns.Tlv.Items.{item_of, tlv_put_lem}
use simple_dns.Tlv.Fold.{Tagged, blob_of, each, tlv_fold-blob_of, tlv_fold-Holds}

-- An item put behind what is written at the front of the buffer.
pub tlv_put_behind :
    (buf : Bytes) (cap : ℕ) (vs : Bytes) (off tag : ℕ) (val : Bytes)
    → cap ≤ length buf
    → off ≡ length vs
    → length vs ≤ cap
    → length val ≤ 0xffff
    → tlv_put (patch buf 0 vs) cap off tag val ≡ (
        if leb (length vs + length (item_of tag val)) cap
        then ok (patch buf 0 (vs ++ item_of tag val), length (vs ++ item_of tag val))
        else err)
tlv_put_behind buf cap vs off tag val h e room small =
    let size : length (patch buf 0 vs) ≡ length buf = length-patch buf 0 vs (omega arith) in
    let joined : patch (patch buf 0 vs) off (item_of tag val)
        ≡ patch buf 0 (vs ++ item_of tag val) =
      ap (λ (i : ℕ). patch (patch buf 0 vs) i (item_of tag val)) (e ∙ omega arith)
      ∙ patch-patch buf 0 vs (item_of tag val) in
    let len : length (vs ++ item_of tag val) ≡ length vs + length (item_of tag val) =
      length-append vs (item_of tag val) in
    tlv_put_lem (patch buf 0 vs) cap off tag val (omega arith)
    ∙ rw (joined, e, len, le→leb (length val) 0xffff small) refl

-- Items put in turn.
abbrev pub put_items : ℕ → List Tagged → Bytes × ℕ → Outcome (Bytes × ℕ)
put_items cap [] w = ok w
put_items cap ((t, v) ∷ is) w = tlv_put w.0 cap w.1 t v >>= put_items cap is

abbrev pub AreSmall : List Tagged → Type 0
AreSmall = All (λ i. length i.1 ≤ 0xffff)

pub put_items_lem :
    (is : List Tagged) (buf : Bytes) (cap : ℕ) (vs : Bytes)
    → cap ≤ length buf
    → length vs ≤ cap
    → AreSmall is
    → put_items cap is (patch buf 0 vs, length vs) ≡ (
        if leb (length vs + length (blob_of is)) cap
        then ok (patch buf 0 (vs ++ blob_of is), length (vs ++ blob_of is))
        else err)
put_items_lem [] buf cap vs h room small =
    rw (append-nil, le→leb (length vs + 0) cap (omega arith)) refl
put_items_lem ((t, v) ∷ is) buf cap vs h room small =
    let this = item_of t v in
    let size = length-append this (blob_of is) in
    let here = length-append vs this in
    let put = tlv_put_behind buf cap vs (length vs) t v h refl room small.0 in
    elim (Bool-cases (leb (length vs + length this) cap)) [
      | inl e ↦
          let fits = leb→le _ _ e in
          let count : length (vs ++ this) + length (blob_of is)
              ≡ length vs + length (this ++ blob_of is) =
            omega arith in
          rw (put, e)
            (put_items_lem is buf cap (vs ++ this) h (omega arith) small.1
              ∙ rw (count, append_assoc vs this (blob_of is)) refl)
      | inr e ↦
          let more = leb_false→lt _ _ e in
          rw (put, e, lt→leb (length vs + length (this ++ blob_of is)) cap (omega arith)) refl
    ]

-- A blob of items, behind its version.
pub tlv_begin-put_items :
    (is : List Tagged) (buf : Bytes) (cap version : ℕ)
    → cap ≤ length buf
    → AreSmall is
    → (tlv_begin buf cap version >>= put_items cap is) ≡ (
        if leb (1 + length (blob_of is)) cap
        then ok (patch buf 0 (version ∷ blob_of is), 1 + length (blob_of is))
        else err)
unfolding tlv_begin
tlv_begin-put_items is buf cap version h small = elim (Bool-cases (ltb cap 1)) [
  | inl e ↦ ground arith
  | inr e ↦
      let some_room : 1 ≤ cap = ground arith in
      let size : suc (length (blob_of is)) ≡ 1 + length (blob_of is) = omega arith in
      rw (e, write_fits buf 0 (version ∷ []) (omega arith))
        (put_items_lem is buf cap (version ∷ []) h some_room small ∙ rw size refl)
]

length-blob_of : (is : List Tagged) → length is ≤ length (blob_of is)
length-blob_of [] = omega arith
length-blob_of ((t, v) ∷ is) =
    omega (arith, length-blob_of is, length-append (item_of t v) (blob_of is))

module _ {ℓ} {S : Type ℓ} (step : S → ℕ → Bytes → Outcome S) where
  -- A blob that is written and read gives the state that its items lead to.
  pub tlv_fold-put_items :
      (is : List Tagged) (buf : Bytes) (cap version : ℕ) (start end : S)
      → cap ≤ length buf
      → AreSmall is
      → each step is start ≡ ok end
      → ((tlv_begin buf cap version >>= put_items cap is) >>= λ r.
          tlv_fold step (suc r.1) r.0 r.1 1 start)
        ≡ (if leb (1 + length (blob_of is)) cap then ok end else err)
  tlv_fold-put_items is buf cap version start end h small read =
      let whole = version ∷ blob_of is in
      elim (Bool-cases (leb (1 + length (blob_of is)) cap)) [
        | inl e ↦
            let fits = leb→le _ _ e in
            let at : drop 0 (patch buf 0 whole) ≡ whole ++ drop (0 + length whole) buf =
              drop-patch buf 0 whole (omega arith) in
            rw (tlv_begin-put_items is buf cap version h small, e)
              (tlv_fold-blob_of step is (suc (1 + length (blob_of is))) (patch buf 0 whole)
                  (1 + length (blob_of is)) 1 start (drop (0 + length whole) buf)
                  (omega (arith, length-patch buf 0 whole)) (omega (arith, length-blob_of is)) small
                  (drop_next (patch buf 0 whole) 0 at) refl
                ∙ read)
        | inr e ↦ rw (tlv_begin-put_items is buf cap version h small, e) refl
      ]

  -- The loop of a decoder starts behind the version also where the blob is empty.
  pub tlv_fold-Holds_behind :
      (P : S → Type 0) (buf : Bytes) (len : ℕ) (s : S)
      → len ≤ length buf
      → ((s' : S) (t : ℕ) (v : Bytes) → P s' → Holds P (step s' t v))
      → P s
      → Holds P (tlv_fold step (suc len) buf len 1 s)
  unfolding tlv_fold tlv_next
  tlv_fold-Holds_behind P buf zero s h keep p = tt
  tlv_fold-Holds_behind P buf (suc len) s h keep p =
      tlv_fold-Holds step P buf (suc len) h keep (suc (suc len)) 1 s (omega arith) (omega arith) p
