-- ===== src/Compress/Sound/Pending.antt =====
-- The entries that `name_to_wire_c` has made for the name that it is writing.
use simple_dns.Common.{
  ℕ, suc, ◌+◌, ◌≤◌, ◌<◌, true, ◌&&◌, List, ◌∷◌, ◌++◌, Bytes, length, All, All-mono, All-append,
  length-append, append_assoc, Bool-cases, ltb, ◌⊎◌, inl, inr, ◌≡◌, sym, ap, ◌∙◌, arith,
  drop-append_length, take_all,
}
use mathlib.Core.Path.{subst}
use simple_dns.Common.Memory.{Outcome, ok, err, fault}
use simple_dns.Common.Text.{strcase_eq, safe_strcpy}
use simple_dns.Common.Text.Split.{join, IsToken}
use simple_dns.Common.Text.Case.{is_dot, strcase_eq-join}
use simple_dns.Name.RoundTrip.{IsLabel}
use simple_dns.Name.Wire.{wire_of, length-wire_of-cons}
use simple_dns.Compress.{Entry, Context, register}
use simple_dns.Compress.Spells.{Spells, label, Spells-move}
use simple_dns.Compress.Sound.{Spelled, IsValid, Emits, IsValid-append}

-- The entries that wait until the name from here on is written: those of `P`, and this name's.
abbrev pub Pending : (Entry → Type 0) → Bytes → ℕ → Entry → Type 0
Pending P text o e = P e ⊎ ((e.name ≡ text) × (e.offset ≡ o) × (o < 0x4000))

pub register-All :
    (P : Entry → Type 0) (ctx : Context) (msg : Bytes) (text : Bytes) (w : Bytes)
    → length text ≤ 255
    → All (λ e. IsValid msg e ⊎ P e) ctx
    → All
        (λ e. IsValid (msg ++ w) e ⊎ Pending P text (length msg) e)
        (register ctx text (length msg))
unfolding register safe_strcpy
register-All P ctx msg text w short h =
    let old : All (λ e. IsValid (msg ++ w) e ⊎ Pending P text (length msg) e) ctx =
      All-mono (λ e. elim [ inl v ↦ inl (IsValid-append w v) | inr p ↦ inr (inl p) ]) ctx h in
    elim (Bool-cases (ltb (length ctx) 128 && ltb (length msg) 0x4000)) [
      | inr e ↦ rw e old
      | inl e ↦ rw e (
          All-append (λ x. IsValid (msg ++ w) x ⊎ Pending P text (length msg) x) ctx _ old
            (inr (inr (take_all 255 text short, ground arith, ground arith)), tt))
    ]

pub settle :
    (P : Entry → Type 0) (msg text : Bytes) (o : ℕ)
    → Spelled msg o text 1
    → (e : Entry) → IsValid msg e ⊎ Pending P text o e
    → IsValid msg e ⊎ P e
settle P msg text o here e (inl v) = inl v
settle P msg text o here e (inr (inl p)) = inr p
settle P msg text o here e (inr (inr (named, placed, low))) = inl (record {
  spelled =
      subst (λ (i : ℕ). Spelled msg i e.name 1) (sym placed)
        (subst (λ (t : Bytes). Spelled msg o t 1) (sym named) here);
  low = omega arith;
})

-- What the later rounds do behind a label, seen from in front of the label.
pub Emits-label :
    (P : Entry → Type 0) (msg l : Bytes) (ls : List Bytes) (size blen : ℕ)
    (r : Context × Outcome (Bytes × ℕ))
    → IsLabel l
    → IsToken is_dot l
    → All (IsToken is_dot) ls
    → Emits
        (Pending P (join b'.' (l ∷ ls)) (length msg))
        (msg ++ (length l ∷ l))
        (join b'.' ls)
        size
        blen
        (length (wire_of ls))
        r
    → Emits P msg (join b'.' (l ∷ ls)) size blen (length (wire_of (l ∷ ls))) r
Emits-label P msg l ls size blen (ctx, ok (buf, n)) short tok toks
      (w, tail, split, len, kept, shorter, s, ends, entries) =
    let all : Bytes = (length l ∷ l) ++ w in
    let whole : (msg ++ (length l ∷ l)) ++ w ≡ msg ++ all = append_assoc msg (length l ∷ l) w in
    let from : length (msg ++ (length l ∷ l)) ≡ length msg + 1 + length l =
      omega (arith, length-append msg (length l ∷ l)) in
    let (moved, ends_too) = Spells-move s.spells whole from in
    let sp : Spells (msg ++ all) (suc s.rounds) (length msg) (l ∷ s.labels) =
      label (length msg) l w short (drop-append_length msg all) moved in
    let same : strcase_eq (join b'.' (l ∷ s.labels)) (join b'.' (l ∷ ls)) ≡ true =
      strcase_eq-join l s.labels ls s.tokens_only toks s.same in
    let here : Spelled (msg ++ all) (length msg) (join b'.' (l ∷ ls)) 1 = record {
      rounds = suc s.rounds;
      labels = l ∷ s.labels;
      spells = sp;
      tokens_only = (tok, s.tokens_only);
      same = same;
      bound = omega (arith, s.bound);
    } in
    (
      all,
      tail,
      split ∙ ap (λ (t : Bytes). t ++ tail) whole,
      len ∙ ap length whole,
      kept,
      omega (arith, length-append l w, length-wire_of-cons l ls),
      record {
        rounds = here.rounds;
        labels = here.labels;
        spells = here.spells;
        tokens_only = here.tokens_only;
        same = here.same;
        bound = omega (arith, here.bound);
      },
      ends_too ∙ ends ∙ ap length whole,
      All-mono (settle P (msg ++ all) (join b'.' (l ∷ ls)) (length msg) here) ctx
          (rw whole at entries),
    )
Emits-label P msg l ls size blen (ctx, err) short tok toks h =
    omega (arith, length-wire_of-cons l ls, length-append msg (length l ∷ l))
Emits-label P msg l ls size blen (ctx, fault) short tok toks h = h
