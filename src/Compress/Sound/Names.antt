-- ===== src/Compress/Sound/Names.antt =====
-- `name_to_wire_c` as a whole, and reading back what it has written.
use simple_dns.Common.{
  ℕ, ◌+◌, ◌-◌, ◌≤◌, ◌<◌, ◌≢◌, true, List, [], ◌∷◌, ◌++◌, Bytes, length, All, All-mono, All-take,
  take, take_all, length-append, ◌⊎◌, inl, inr, ◌≡◌, ap, ◌∙◌, arith,
}
use simple_dns.Common.Memory.{Outcome, ok, err, fault, ◌>>=◌}
use simple_dns.Common.Text.{strlower, safe_strcpy}
use simple_dns.Common.Text.Split.{join, IsToken, tokens-All, tokens-All-bytes, join-All-bytes}
use simple_dns.Common.Text.Case.{
  is_dot, dots, strlower-strcase_eq, dots-strcase_eq, dots-join, length-strcase_eq,
}
use simple_dns.Name.{labels_in, name_from_wire}
use simple_dns.Name.Wire.{wire_of, all_short}
use simple_dns.Name.RoundTrip.{IsToken-IsLabel, length-join-labels_in}
use simple_dns.Compress.{Context, compress_loop, name_to_wire_c}
use simple_dns.Compress.Spells.{end_of, name_from_wire-Spells}
use simple_dns.Compress.Sound.{Spelled, IsValid, AllValid, Emits}
use simple_dns.Compress.Sound.Loop.{Emits-loop}

-- As many labels are spelled as the text has.
Spelled-few :
    {msg : Bytes} {o extra : ℕ} (ls : List Bytes) (s : Spelled msg o (join b'.' ls) extra)
    → All (IsToken is_dot) ls
    → length ls < 64
    → length s.labels < 64
Spelled-few ls s h few = counted s.labels ls s.tokens_only h (dots-strcase_eq _ _ s.same) few
  where
    counted :
        (us vs : List Bytes)
        → All (IsToken is_dot) us
        → All (IsToken is_dot) vs
        → dots (join b'.' us) ≡ dots (join b'.' vs)
        → length vs < 64
        → length us < 64
    counted [] vs hu hv e few = omega arith
    counted (u ∷ us) [] hu hv e few = omega (arith, dots-join u us hu)
    counted (u ∷ us) (v ∷ vs) hu hv e few = omega (arith, dots-join u us hu, dots-join v vs hv)

-- The text of a name, as the labels that the functions see.
abbrev pub text_of : Bytes → Bytes
text_of name = join b'.' (labels_in name)

text_of-no_nul : (name : Bytes) → All (λ c. c ≢ 0) name → All (λ c. c ≢ 0) (text_of name)
unfolding safe_strcpy
text_of-no_nul name h =
    join-All-bytes is_dot (λ c. c ≢ 0) b'.' (labels_in name) (λ e. omega (arith, e))
      (tokens-All-bytes is_dot (λ c. c ≢ 0) (take 255 name) (All-take (λ c. c ≢ 0) 255 name h))

-- What a call makes of the message `msg` and of the memory behind it.
abbrev pub Named : Bytes → Bytes → ℕ → ℕ → Context × Outcome (Bytes × ℕ) → Type 0
Named msg name size blen (ctx, ok (buf, n)) =
    (w : Bytes) × (tail : Bytes) × (buf ≡ (msg ++ w) ++ tail)
    × (n ≡ length w)
    × (length buf ≡ size)
    × (length w ≤ length (wire_of (labels_in name)))
    × AllValid (msg ++ w) ctx
    × (name_from_wire buf (length (msg ++ w)) (length msg) 256
        ≡ ok (strlower (text_of name), length msg + n))
Named msg name size blen (ctx, err) = blen < length msg + length (wire_of (labels_in name))
Named msg name size blen (ctx, fault) = ⊥

pub only_valid : (msg : Bytes) (ctx : Context) → All (λ e. IsValid msg e ⊎ ⊥) ctx → AllValid msg ctx
only_valid msg = All-mono (λ e. elim [ inl v ↦ v | inr x ↦ absurd x ])

-- Reading a name that the message `m` spells at `o`.
pub read_back :
    (m tail buf name : Bytes) (o end : ℕ) (s : Spelled m o (text_of name) 2)
    → buf ≡ m ++ tail
    → end_of s.spells ≡ end
    → All (λ c. c ≢ 0) name
    → length (labels_in name) < 64
    → name_from_wire buf (length m) o 256 ≡ ok (strlower (text_of name), end)
read_back m tail buf name o end s e ends nz few =
    ap (λ (b : Bytes). name_from_wire b (length m) o 256) e
    ∙ name_from_wire-Spells m tail 256 s.spells (omega arith)
        (omega (
          arith,
          s.bound,
          Spelled-few (labels_in name) s (tokens-All is_dot (safe_strcpy [] name 256)) few,
        ))
        (omega (arith, length-strcase_eq _ _ s.same, length-join-labels_in name))
    ∙ ap (λ (t : Bytes). ok (t, end_of s.spells))
        (strlower-strcase_eq _ _ (text_of-no_nul name nz) s.same)
    ∙ ap (λ (i : ℕ). ok (strlower (text_of name), i)) ends

Emits-Named :
    (msg name : Bytes) (size blen : ℕ) (r : Context × Outcome (Bytes × ℕ))
    → All (λ c. c ≢ 0) name
    → length (labels_in name) < 64
    → Emits (λ _. ⊥) msg (text_of name) size blen (length (wire_of (labels_in name))) r
    → Named msg name size blen (r.0, r.1 >>= λ x. ok (x.0, x.1 - length msg))
Emits-Named msg name size blen (ctx, ok (buf, n)) nz few
      (w, tail, e, len, kept, shorter, s, ends, entries) =
    (
      w,
      tail,
      e,
      omega (arith, length-append msg w),
      kept,
      shorter,
      only_valid (msg ++ w) ctx entries,
      read_back (msg ++ w) tail buf name (length msg) _ s e
          (ends ∙ omega (arith, length-append msg w)) nz few,
    )
Emits-Named msg name size blen (ctx, err) nz few h = h
Emits-Named msg name size blen (ctx, fault) nz few h = h

pub Emits-labels :
    (ctx : Context) (name msg tail : Bytes) (blen : ℕ)
    → blen ≤ length (msg ++ tail)
    → AllValid msg ctx
    → all_short (labels_in name) ≡ true
    → length (labels_in name) < 64
    → Emits
        (λ _. ⊥)
        msg
        (text_of name)
        (length (msg ++ tail))
        blen
        (length (wire_of (labels_in name)))
        (compress_loop (take 64 (labels_in name)) ctx (msg ++ tail) (length msg) blen (length msg))
Emits-labels ctx name msg tail blen enough valid short few =
    let tok : All (IsToken is_dot) (labels_in name) = tokens-All is_dot (safe_strcpy [] name 256) in
    rw (take_all 64 (labels_in name) (omega arith)) (
      Emits-loop (λ _. ⊥) (labels_in name) ctx msg tail blen
        (IsToken-IsLabel (labels_in name) tok short) tok (length-join-labels_in name) enough
        (All-mono (λ e v. inl v) ctx valid) (λ e. absurd))

-- A name written with compression behind a message is the name that is read there: from a context
-- of valid entries, with every pointer followed, in lower case, up to the end of what was written.
-- The context is then valid for the longer message. It fails only where the uncompressed form
-- would not fit either. The name has fewer than 64 labels, of at most 63 bytes.
pub name_to_wire_c-Named :
    (ctx : Context) (name msg tail : Bytes) (blen : ℕ)
    → blen ≤ length (msg ++ tail)
    → AllValid msg ctx
    → All (λ c. c ≢ 0) name
    → all_short (labels_in name) ≡ true
    → length (labels_in name) < 64
    → Named msg name
        (length (msg ++ tail))
        blen
        (name_to_wire_c ctx name (msg ++ tail) (length msg) blen (length msg))
unfolding name_to_wire_c
name_to_wire_c-Named ctx name msg tail blen enough valid nz short few =
    Emits-Named msg name (length (msg ++ tail)) blen _ nz few
      (Emits-labels ctx name msg tail blen enough valid short few)
