-- ===== src/Common/Text/Split.antt =====
-- `tokens` undoes `join`, and what it returns has no empty token and no delimiter in one.
use simple_dns.Common.Tests.{Bool-cases}
use simple_dns.Common.Lists.{Bytes, All, All-append, length, length-append}
use simple_dns.Common.Text.{cut, close, tokens}
use Prim.Native.Nat.{ℕ, ◌+◌, ◌<◌, ◌≤◌}
use mathlib.Core.Path.{◌≡◌, refl, sym, ap, ◌∙◌}
use mathlib.Core.Logic.{inl, inr}
use mathlib.Core.Bool.{Bool, true, false}
use mathlib.Core.List.{List, [], ◌∷◌, ◌++◌, append-nil}
use native.Mathlib.Omega.{arith}

-- The texts of `ts` with one `d` between two of them.
abbrev pub join : ℕ → List Bytes → Bytes
join d [] = []
join d (t ∷ []) = t
join d (t ∷ (u ∷ ts)) = t ++ (d ∷ join d (u ∷ ts))

-- A text that can be a token: not empty, and free of delimiters.
abbrev pub IsToken : (ℕ → Bool) → Bytes → Type 0
IsToken p t = All (λ c. p c ≡ false) t × (0 < length t)

module _ (p : ℕ → Bool) where
  cut-append :
      (t s : Bytes)
      → All (λ c. p c ≡ false) t
      → cut p (t ++ s) ≡ record { front = t ++ (cut p s).front; behind = (cut p s).behind }
  unfolding cut
  cut-append [] s h = refl
  cut-append (c ∷ t) s h = rw (h.0, cut-append t s h.1)

  close_token : (t : Bytes) (ts : List Bytes) → 0 < length t → close t ts ≡ t ∷ ts
  close_token [] ts h = absurd (omega arith)
  close_token (c ∷ t) ts h = refl

  cut-join :
      (t : Bytes) (ts : List Bytes) (d : ℕ)
      → p d ≡ true
      → All (IsToken p) (t ∷ ts)
      → cut p (join d (t ∷ ts)) ≡ record { front = t; behind = ts }
  unfolding cut
  cut-join t [] d hd h = ap (cut p) (sym (append-nil t)) ∙ cut-append t [] h.0.0 ∙ rw append-nil
  cut-join t (u ∷ ts) d hd h =
      cut-append t (d ∷ join d (u ∷ ts)) h.0.0
      ∙ rw (hd, cut-join u ts d hd h.1, append-nil, close_token u ts h.1.0.1)

  -- Joining tokens and cutting them again changes nothing.
  pub tokens-join :
      (d : ℕ) (ts : List Bytes) → p d ≡ true → All (IsToken p) ts → tokens p (join d ts) ≡ ts
  unfolding tokens
  tokens-join d [] hd h = refl
  tokens-join d (t ∷ ts) hd h = rw (cut-join t ts d hd h, close_token t ts h.0.1)

  close-All :
      (t : Bytes) (ts : List Bytes)
      → All (λ c. p c ≡ false) t
      → All (IsToken p) ts
      → All (IsToken p) (close t ts)
  close-All [] ts h hs = hs
  close-All (c ∷ t) ts h hs = ((h, omega arith), hs)

  cut-All : (s : Bytes) → All (λ c. p c ≡ false) (cut p s).front × All (IsToken p) (cut p s).behind
  unfolding cut
  cut-All [] = (tt, tt)
  cut-All (c ∷ s) = elim (Bool-cases (p c)) [
    | inl e ↦ rw e (tt, close-All (cut p s).front (cut p s).behind (cut-All s).0 (cut-All s).1)
    | inr e ↦ rw e ((e, (cut-All s).0), (cut-All s).1)
  ]

  pub tokens-All : (s : Bytes) → All (IsToken p) (tokens p s)
  unfolding tokens
  tokens-All s = close-All (cut p s).front (cut p s).behind (cut-All s).0 (cut-All s).1

module _ (p : ℕ → Bool) (d : ℕ) where
  length-join-cons : (t : Bytes) (ts : List Bytes) → length (join d ts) ≤ length (join d (t ∷ ts))
  length-join-cons t [] = omega arith
  length-join-cons t (u ∷ ts) = omega (arith, length-append t (d ∷ join d (u ∷ ts)))

  length-join-close :
      (t : Bytes) (ts : List Bytes) → length (join d (close t ts)) ≤ length (join d (t ∷ ts))
  length-join-close [] ts = length-join-cons [] ts
  length-join-close (c ∷ t) ts = omega arith

  length-join-nil : (ts : List Bytes) → length (join d ([] ∷ ts)) ≤ length (join d ts) + 1
  length-join-nil [] = omega arith
  length-join-nil (u ∷ ts) = omega arith

  length-join-head :
      (c : ℕ) (t : Bytes) (ts : List Bytes)
      → length (join d ((c ∷ t) ∷ ts)) ≡ length (join d (t ∷ ts)) + 1
  length-join-head c t [] = omega arith
  length-join-head c t (u ∷ ts) = omega arith

  length-join-cut : (s : Bytes) → length (join d ((cut p s).front ∷ (cut p s).behind)) ≤ length s
  unfolding cut
  length-join-cut [] = omega arith
  length-join-cut (c ∷ s) = elim (Bool-cases (p c)) [
    | inl e ↦ rw e (
        omega (
          arith,
          length-join-cut s,
          length-join-nil (close (cut p s).front (cut p s).behind),
          length-join-close (cut p s).front (cut p s).behind,
        ))
    | inr e ↦
        rw e (omega (arith, length-join-cut s, length-join-head c (cut p s).front (cut p s).behind))
  ]

  -- Cutting a text and joining the tokens never makes it longer.
  pub length-join-tokens : (s : Bytes) → length (join d (tokens p s)) ≤ length s
  unfolding tokens
  length-join-tokens s =
      omega (arith, length-join-cut s, length-join-close (cut p s).front (cut p s).behind)

module _ (p : ℕ → Bool) (R : ℕ → Type 0) where
  close-All-bytes :
      (t : Bytes) (ts : List Bytes) → All R t → All (All R) ts → All (All R) (close t ts)
  close-All-bytes [] ts h hs = hs
  close-All-bytes (c ∷ t) ts h hs = (h, hs)

  cut-All-bytes : (s : Bytes) → All R s → All R (cut p s).front × All (All R) (cut p s).behind
  unfolding cut
  cut-All-bytes [] h = (tt, tt)
  cut-All-bytes (c ∷ s) h =
      let (f, b) = cut-All-bytes s h.1 in
      elim (Bool-cases (p c)) [
        | inl e ↦ rw e (tt, close-All-bytes (cut p s).front (cut p s).behind f b)
        | inr e ↦ rw e ((h.0, f), b)
      ]

  -- The tokens have only bytes of the text.
  pub tokens-All-bytes : (s : Bytes) → All R s → All (All R) (tokens p s)
  unfolding tokens
  tokens-All-bytes s h =
      let (f, b) = cut-All-bytes s h in close-All-bytes (cut p s).front (cut p s).behind f b

  pub join-All-bytes : (d : ℕ) (ts : List Bytes) → R d → All (All R) ts → All R (join d ts)
  join-All-bytes d [] r h = tt
  join-All-bytes d (t ∷ []) r h = h.0
  join-All-bytes d (t ∷ (u ∷ ts)) r h =
      All-append R t (d ∷ join d (u ∷ ts)) h.0 (r, join-All-bytes d (u ∷ ts) r h.1)
