-- ===== src/Record/Compressed.antt =====
-- `append_rr` behind a message, with a compressed owner name.
use simple_dns.Common.{
  ℕ, ◌+◌, ◌-◌, ◌≤◌, ◌<◌, ◌≢◌, true, ◌++◌, Bytes, length, All, All-mono, drop, ltb, ltb→lt,
  ltb_false→le, Bool-cases, length-append, append_assoc, inl, inr, ◌≡◌, sym, ap, ◌∙◌, arith,
}
use mathlib.Core.Path.{subst}
use simple_dns.Common.Memory.{Outcome, ok, err, fault, ◌>>=◌, patch, patch_behind, length-patch}
use simple_dns.Common.Text.{strlower}
use simple_dns.Name.{labels_in, name_from_wire}
use simple_dns.Name.Wire.{wire_of, all_short}
use simple_dns.Compress.{Context, name_to_wire_c}
use simple_dns.Compress.Spells.{end_of}
use simple_dns.Compress.Sound.{
  Spelled, Spelled-append, end_of-Spelled-append, IsValid-append, AllValid, Emits,
}
use simple_dns.Compress.Sound.Names.{text_of, read_back, only_valid, Emits-labels}
use simple_dns.Record.{Rr, append_fields, append_rr}
use simple_dns.Record.Laws.{fields_of, append_fields_lem}

-- What a call makes of the message `msg` and of the memory behind it: the owner name, which reads
-- back, and the fields of the record behind it.
abbrev pub Appended : Bytes → Rr → ℕ → ℕ → Context × Outcome (Bytes × ℕ) → Type 0
Appended msg rr size blen (ctx, ok (buf, off)) =
    (w : Bytes) × (tail : Bytes) × (buf ≡ (msg ++ (w ++ fields_of rr)) ++ tail)
    × (off ≡ length (msg ++ (w ++ fields_of rr)))
    × (length buf ≡ size)
    × AllValid (msg ++ (w ++ fields_of rr)) ctx
    × (name_from_wire buf off (length msg) 256
        ≡ ok (strlower (text_of rr.name), length msg + length w))
Appended msg rr size blen (ctx, err) =
    blen < length msg + length (wire_of (labels_in rr.name)) + length (fields_of rr)
Appended msg rr size blen (ctx, fault) = ⊥

-- The fields behind a name that has been written.
Appended-fields :
    (msg : Bytes) (rr : Rr) (size blen : ℕ) (ctx : Context) (buf w tail : Bytes) (n : ℕ)
    → blen ≤ size
    → buf ≡ (msg ++ w) ++ tail
    → n ≡ length w
    → length buf ≡ size
    → (s : Spelled (msg ++ w) (length msg) (text_of rr.name) 2)
    → end_of s.spells ≡ length (msg ++ w)
    → AllValid (msg ++ w) ctx
    → All (λ c. c ≢ 0) rr.name
    → length (labels_in rr.name) < 64
    → length w ≤ length (wire_of (labels_in rr.name))
    → Appended msg rr size blen (ctx, append_fields rr buf n (length msg) blen)
Appended-fields msg rr size blen ctx buf w tail n enough e len kept s ends valid nz few shorter =
    let f : Bytes = fields_of rr in
    let at : length msg + n ≡ length (msg ++ w) = omega (arith, length-append msg w) in
    let whole : (msg ++ w) ++ f ≡ msg ++ (w ++ f) = append_assoc msg w f in
    let split : patch buf (length msg + n) f ≡ ((msg ++ w) ++ f) ++ drop (length f) tail =
      ap (λ (b : Bytes). patch b (length msg + n) f) e
      ∙ ap (λ (i : ℕ). patch ((msg ++ w) ++ tail) i f) at
      ∙ patch_behind (msg ++ w) tail f
      ∙ sym (append_assoc (msg ++ w) f (drop (length f) tail)) in
    let far : length ((msg ++ w) ++ f) ≡ length msg + n + 10 + length rr.rdata =
      omega (arith, length-append (msg ++ w) f) in
    rw (append_fields_lem rr buf n (length msg) blen (omega arith))
      (elim (Bool-cases (ltb blen (length msg + n + 10 + length rr.rdata))) [
        | inl h ↦ rw h (omega (arith, ltb→lt _ _ h))
        | inr h ↦ rw h (
          w,
          drop (length f) tail,
          split ∙ ap (λ (b : Bytes). b ++ drop (length f) tail) whole,
          omega (arith, length-append msg (w ++ f), length-append w f),
          length-patch buf (length msg + n) f (omega (arith, ltb_false→le _ _ h)) ∙ kept,
          subst (λ (m : Bytes). AllValid m ctx) whole (All-mono (λ x. IsValid-append f) ctx valid),
          ap (λ (i : ℕ). name_from_wire (patch buf (length msg + n) f) i (length msg) 256) (sym far)
              ∙ read_back ((msg ++ w) ++ f) (drop (length f) tail) (patch buf (length msg + n) f)
                  rr.name (length msg) (length msg + length w) (Spelled-append f s) split
                  (end_of-Spelled-append f s ∙ ends ∙ length-append msg w) nz few,
        )
      ])

-- The number of bytes, from the offset that the loop returns.
abbrev relative : ℕ → Outcome (Bytes × ℕ) → Outcome (Bytes × ℕ)
relative base o = o >>= λ x. ok (x.0, x.1 - base)

Emits-Appended :
    (msg : Bytes) (rr : Rr) (size blen : ℕ) (r : Context × Outcome (Bytes × ℕ))
    → blen ≤ size
    → All (λ c. c ≢ 0) rr.name
    → length (labels_in rr.name) < 64
    → Emits (λ _. ⊥) msg (text_of rr.name) size blen (length (wire_of (labels_in rr.name))) r
    → Appended msg rr size blen
        (r.0, relative (length msg) r.1 >>= λ x. append_fields rr x.0 x.1 (length msg) blen)
Emits-Appended msg rr size blen (ctx, ok (buf, n)) enough nz few
      (w, tail, e, len, kept, shorter, s, ends, entries) =
    Appended-fields msg rr size blen ctx buf w tail (n - length msg) enough e
      (omega (arith, length-append msg w)) kept s ends (only_valid (msg ++ w) ctx entries) nz few
      shorter
Emits-Appended msg rr size blen (ctx, err) enough nz few h = omega arith
Emits-Appended msg rr size blen (ctx, fault) enough nz few h = h

-- `append_rr` behind a message leaves the message as it is and appends the owner name and the fields. From
-- the longer message the owner name reads back in lower case, through any compression pointers,
-- and the context stays valid. It fails only where the record with an uncompressed owner name would
-- not fit either. The owner has fewer than 64 labels, of at most 63 bytes.
pub append_rr-Appended :
    (ctx : Context) (rr : Rr) (msg tail : Bytes) (blen : ℕ)
    → blen ≤ length (msg ++ tail)
    → AllValid msg ctx
    → All (λ c. c ≢ 0) rr.name
    → all_short (labels_in rr.name) ≡ true
    → length (labels_in rr.name) < 64
    → Appended msg rr (length (msg ++ tail)) blen (append_rr ctx rr (msg ++ tail) (length msg) blen)
unfolding append_rr name_to_wire_c
append_rr-Appended ctx rr msg tail blen enough valid nz short few =
    Emits-Appended msg rr (length (msg ++ tail)) blen _ enough nz few
      (Emits-labels ctx rr.name msg tail blen enough valid short few)
