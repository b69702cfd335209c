-- ===== src/Compress/Sound/Loop.antt =====
-- The loop of `name_to_wire_c`, by induction on the labels left.
use simple_dns.Common.{
  ℕ, ◌+◌, ◌≤◌, ◌<◌, true, none, some, List, [], ◌∷◌, ◌++◌, Bytes, length, All, drop, length-append,
  Bool-cases, Option-cases, leb, ◌⊎◌, inl, inr, ◌≡◌, ap, ◌∙◌, arith, leb_false→lt, leb→le,
}
use mathlib.Core.Path.{subst}
use simple_dns.Common.Text.{strcase_eq}
use simple_dns.Common.Text.Split.{join, IsToken}
use simple_dns.Common.Text.Case.{is_dot, length-strcase_eq, length-join-lt}
use simple_dns.Name.RoundTrip.{IsLabel}
use simple_dns.Name.Wire.{wire_of, length-wire_of-cons, length-wire_of-pos}
use simple_dns.Compress.{
  Entry, Context, find, register, suffix_of, put_pointer, put_label, keep, compress_loop,
}
use simple_dns.Compress.Sound.{IsValid, Emits}
use simple_dns.Compress.Sound.Steps.{suffix_of-join, find-some, put_label_lem}
use simple_dns.Compress.Sound.Put.{size_kept, Emits-put_root, Emits-put_pointer}
use simple_dns.Compress.Sound.Pending.{Pending, register-All, Emits-label}

compress_loop_hit :
    (l : Bytes) (ls : List Bytes) (ctx : Context) (buf : Bytes) (pos blen abs o : ℕ)
    → find ctx (suffix_of (l ∷ ls)) ≡ some o
    → compress_loop (l ∷ ls) ctx buf pos blen abs ≡ (ctx, put_pointer o buf pos blen)
unfolding compress_loop
compress_loop_hit l ls ctx buf pos blen abs o e = rw (e, compress_loop)

compress_loop_miss :
    (l : Bytes) (ls : List Bytes) (ctx : Context) (buf : Bytes) (pos blen abs : ℕ)
    → find ctx (suffix_of (l ∷ ls)) ≡ none
    → compress_loop (l ∷ ls) ctx buf pos blen abs
      ≡ keep (register ctx (suffix_of (l ∷ ls)) abs) (put_label l buf pos blen) (λ buf'.
        compress_loop ls
          (register ctx (suffix_of (l ∷ ls)) abs)
          buf'
          (pos + 1 + length l)
          blen
          (abs + (1 + length l)))
unfolding compress_loop
compress_loop_miss l ls ctx buf pos blen abs e = rw (e, compress_loop)

-- The lookup finds an entry that is already valid: the others have longer names.
hit_IsValid :
    (P : Entry → Type 0) (msg text : Bytes) (ctx : Context) (o : ℕ)
    → All (λ e. IsValid msg e ⊎ P e) ctx
    → ((e : Entry) → P e → length text < length e.name)
    → find ctx text ≡ some o
    → (e : Entry) × IsValid msg e × (e.offset ≡ o) × (strcase_eq e.name text ≡ true)
hit_IsValid P msg text ctx o valid longer hit =
    let (e, v, placed, same) = find-some (λ e. IsValid msg e ⊎ P e) text ctx o valid hit in
    elim v [
      | inl ok_entry ↦ (e, ok_entry, placed, same)
      | inr p ↦ absurd (omega (arith, longer e p, length-strcase_eq e.name text same))
    ]

Emits-hit :
    (P : Entry → Type 0) (text : Bytes) (ctx : Context) (msg tail : Bytes) (blen o need : ℕ)
    → 3 ≤ need
    → blen ≤ length (msg ++ tail)
    → All (λ e. IsValid msg e ⊎ P e) ctx
    → ((e : Entry) → P e → length text < length e.name)
    → find ctx text ≡ some o
    → Emits P msg text
        (length (msg ++ tail))
        blen
        need
        (ctx, put_pointer o (msg ++ tail) (length msg) blen)
Emits-hit P text ctx msg tail blen o need long enough valid longer hit =
    let (e, v, placed, same) = hit_IsValid P msg text ctx o valid longer hit in
    subst
      (λ (i : ℕ).
        Emits P msg text (length (msg ++ tail)) blen need
          (ctx, put_pointer i (msg ++ tail) (length msg) blen))
      placed (Emits-put_pointer P ctx msg tail blen enough valid text e need long v same)

Pending-longer :
    (P : Entry → Type 0) (l : Bytes) (ls : List Bytes) (o : ℕ)
    → IsToken is_dot l
    → ((e : Entry) → P e → length (join b'.' (l ∷ ls)) < length e.name)
    → (e : Entry) → Pending P (join b'.' (l ∷ ls)) o e
    → length (join b'.' ls) < length e.name
Pending-longer P l ls o t longer e (inl p) = omega (arith, longer e p, length-join-lt l ls t)
Pending-longer P l ls o t longer e (inr (named, placed, low)) =
    omega (arith, ap length named, length-join-lt l ls t)

pub Emits-loop :
    (P : Entry → Type 0) (ls : List Bytes) (ctx : Context) (msg tail : Bytes) (blen : ℕ)
    → All IsLabel ls
    → All (IsToken is_dot) ls
    → length (join b'.' ls) ≤ 255
    → blen ≤ length (msg ++ tail)
    → All (λ e. IsValid msg e ⊎ P e) ctx
    → ((e : Entry) → P e → length (join b'.' ls) < length e.name)
    → Emits P msg
        (join b'.' ls)
        (length (msg ++ tail))
        blen
        (length (wire_of ls))
        (compress_loop ls ctx (msg ++ tail) (length msg) blen (length msg))
Emits-loop P [] ctx msg tail blen hl ht short enough valid longer =
    unfold compress_loop in Emits-put_root P ctx msg tail blen enough valid
Emits-loop P (l ∷ ls) ctx msg tail blen hl ht short enough valid longer =
    let text : Bytes = join b'.' (l ∷ ls) in
    let whole : suffix_of (l ∷ ls) ≡ text = suffix_of-join l ls hl.0.1 short in
    elim (Option-cases (find ctx text)) [
      | inr (o, hit) ↦
          rw
            (compress_loop_hit l ls ctx (msg ++ tail) (length msg) blen (length msg) o
              (ap (find ctx) whole ∙ hit))
            (Emits-hit P text ctx msg tail blen o (length (wire_of (l ∷ ls)))
              (omega (arith, length-wire_of-cons l ls, length-wire_of-pos ls, hl.0.0)) enough valid
              longer hit)
      | inl miss ↦
          rw
            (
              compress_loop_miss l ls ctx (msg ++ tail) (length msg) blen (length msg)
                  (ap (find ctx) whole ∙ miss),
              whole,
              put_label_lem msg tail blen enough l hl.0.1,
            )
            (elim (Bool-cases (leb blen (length msg + length l + 1))) [
              | inl e ↦
                  rw e
                    (omega (arith, leb→le _ _ e, length-wire_of-cons l ls, length-wire_of-pos ls))
              | inr e ↦
                  let w : Bytes = length l ∷ l in
                  let p : length msg + 1 + length l ≡ length (msg ++ w) =
                    omega (arith, length-append msg w) in
                  let q : length msg + (1 + length l) ≡ length (msg ++ w) =
                    omega (arith, length-append msg w) in
                  let kept : length ((msg ++ w) ++ drop (length w) tail) ≡ length (msg ++ tail) =
                    size_kept msg w tail
                      (omega (arith, leb_false→lt _ _ e, length-append msg tail)) in
                  rw (e, p, q)
                    (Emits-label P msg l ls (length (msg ++ tail)) blen _ hl.0 ht.0 ht.1 (
                      rw (← kept) (
                        Emits-loop (Pending P text (length msg)) ls (register ctx text (length msg))
                          (msg ++ w) (drop (length w) tail) blen hl.1 ht.1
                          (omega (arith, length-join-lt l ls ht.0)) (omega arith)
                          (register-All P ctx msg text w short valid)
                          (Pending-longer P l ls (length msg) ht.0 longer))))
            ])
    ]
