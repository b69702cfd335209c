-- ===== src/Compress/Sound/Put.antt =====
-- The ends of a name: the root label, and a pointer to an earlier name.
use simple_dns.Common.{
  ℕ, suc, ◌+◌, ◌/◌, ◌%◌, ◌≤◌, true, [], ◌∷◌, ◌++◌, Bytes, length, All, All-mono, drop,
  length-append, Bool-cases, ltb, leb, ◌⊎◌, inl, inr, ◌≡◌, refl, arith, length-drop, leb_false→lt,
  ltb_false→le, leb→le, ltb→lt, drop-append_length,
}
use simple_dns.Common.Text.{strcase_eq}
use simple_dns.Common.Text.Case.{strcase_eq_refl, strcase_eq_trans}
use simple_dns.Name.Pointer.{target}
use simple_dns.Compress.{Entry, Context, put_pointer, put_root}
use simple_dns.Compress.Spells.{root, pointer, Spells-inside, Spells-append}
use simple_dns.Compress.Sound.{IsValid, Emits, IsValid-append}
use simple_dns.Compress.Sound.Steps.{put_root_lem, put_pointer_lem}

-- Entries stay valid when the message grows.
pub IsValid-later :
    (P : Entry → Type 0) (msg w : Bytes) (ctx : Context)
    → All (λ e. IsValid msg e ⊎ P e) ctx
    → All (λ e. IsValid (msg ++ w) e ⊎ P e) ctx
IsValid-later P msg w = All-mono (λ e. elim [ inl v ↦ inl (IsValid-append w v) | inr p ↦ inr p ])

pub size_kept :
    (msg w tail : Bytes)
    → length w ≤ length tail
    → length ((msg ++ w) ++ drop (length w) tail) ≡ length (msg ++ tail)
size_kept msg w tail h = omega (
  arith,
  length-append (msg ++ w) (drop (length w) tail),
  length-append msg w,
  length-append msg tail,
  length-drop (length w) tail,
)

module _ (P : Entry → Type 0) (ctx : Context) (msg tail : Bytes) (blen : ℕ)
    (enough : blen ≤ length (msg ++ tail)) (valid : All (λ e. IsValid msg e ⊎ P e) ctx) where
  -- The root label.
  pub Emits-put_root :
      Emits P msg [] (length (msg ++ tail)) blen 1 (ctx, put_root (msg ++ tail) (length msg) blen)
  Emits-put_root = elim (Bool-cases (leb blen (length msg))) [
    | inl e ↦ rw (put_root_lem msg tail blen enough, e) (omega (arith, leb→le _ _ e))
    | inr e ↦
        rw (put_root_lem msg tail blen enough, e)
          (
            0 ∷ [],
            drop 1 tail,
            refl,
            omega (arith, length-append msg (0 ∷ [])),
            size_kept msg (0 ∷ []) tail (omega (arith, leb_false→lt _ _ e, length-append msg tail)),
            omega arith,
            record {
              rounds = 1;
              labels = [];
              spells = root (length msg) [] (drop-append_length msg (0 ∷ []));
              tokens_only = tt;
              same = strcase_eq_refl [];
              bound = omega arith;
            },
            omega (arith, length-append msg (0 ∷ [])),
            IsValid-later P msg (0 ∷ []) ctx valid,
          )
  ]

  -- A pointer to a valid entry whose name is the text but for case.
  pub Emits-put_pointer :
      (text : Bytes) (e : Entry) (need : ℕ)
      → 3 ≤ need
      → IsValid msg e
      → strcase_eq e.name text ≡ true
      → Emits P msg text
          (length (msg ++ tail))
          blen
          need
          (ctx, put_pointer e.offset (msg ++ tail) (length msg) blen)
  Emits-put_pointer text e need long v same = elim (Bool-cases (ltb blen (length msg + 2))) [
    | inl h ↦
        rw (put_pointer_lem msg tail blen enough e.offset v.low, h) (omega (arith, ltb→lt _ _ h))
    | inr h ↦
        let w : Bytes = (192 + e.offset / 256) ∷ e.offset % 256 ∷ [] in
        let back : target (192 + e.offset / 256) (e.offset % 256) ≡ e.offset =
          omega (arith, v.low) in
        rw (put_pointer_lem msg tail blen enough e.offset v.low, h)
          (
            w,
            drop 2 tail,
            refl,
            omega (arith, length-append msg w),
            size_kept msg w tail (omega (arith, ltb_false→le _ _ h, length-append msg tail)),
            omega arith,
            record {
              rounds = suc v.spelled.rounds;
              labels = v.spelled.labels;
              spells =
                  pointer (length msg) (192 + e.offset / 256) (e.offset % 256) []
                    (omega (arith, v.low)) (drop-append_length msg w)
                    (omega (arith, Spells-inside v.spelled.spells))
                    (rw back (Spells-append w v.spelled.spells));
              tokens_only = v.spelled.tokens_only;
              same = strcase_eq_trans _ e.name text v.spelled.same same;
              bound = omega (arith, v.spelled.bound);
            },
            omega (arith, length-append msg w),
            IsValid-later P msg w ctx valid,
          )
  ]
