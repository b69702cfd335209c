-- ===== src/Name/Txt.antt =====
-- `txt_encode`: the chunks hold the string, and fit.
use simple_dns.Common.{
  ℕ, zero, suc, ◌+◌, ◌-◌, ◌/◌, ◌≤◌, ◌<◌, [], ◌∷◌, ◌++◌, Bytes, length, take, drop, length-append,
  length-take, length-drop, append_assoc, append-nil, ltb, if◌then◌else◌, Bool-cases, inl, inr, ◌≡◌,
  refl, sym, ap, ◌∙◌, arith, ltb→lt, ltb_false→le,
}
use mathlib.Core.Path.{subst}
use native.Mathlib.Nat.{le_refl}
use simple_dns.Common.Memory.{Outcome, ok, err, fault}
use simple_dns.Endian.{to_u8}
use simple_dns.Name.{txt_loop, txt_encode}

-- RFC 1035 §3.3.14: the text that the strings of a TXT rdata hold, one behind the other.
pub data TxtStrings : Bytes → Bytes → Type 0 where
  end : TxtStrings [] []
  chunk :
      (l : Bytes) {s rd : Bytes} (n : ℕ)
      → n ≡ length l
      → 1 ≤ n
      → n ≤ 255
      → TxtStrings s rd
      → TxtStrings (l ++ s) (n ∷ (l ++ rd))

-- What the strings of a text of `n` bytes take.
abbrev pub txt_size : ℕ → ℕ
txt_size n = n + (n + 254) / 255

-- What the loop has done from `out` on: the rest of `s` behind `out`, or it did not fit.
abbrev pub Encoded : Bytes → Bytes → ℕ → Outcome Bytes → Type 0
Encoded s out maxlen (ok rd) =
    (w : Bytes) × (rd ≡ out ++ w)
    × TxtStrings s w
    × (length rd ≡ length out + txt_size (length s))
    × (length rd ≤ maxlen)
Encoded s out maxlen err = maxlen < length out + txt_size (length s)
Encoded s out maxlen fault = ⊥

-- One chunk in front of what the later rounds do.
Encoded-chunk :
    (l s out : Bytes) (maxlen : ℕ) (o : Outcome Bytes)
    → 1 ≤ length l
    → length l ≤ 255
    → txt_size (length (l ++ s)) ≡ length l + 1 + txt_size (length s)
    → Encoded s (out ++ (length l ∷ l)) maxlen o
    → Encoded (l ++ s) out maxlen o
Encoded-chunk l s out maxlen (ok rd) some few size (w, e, t, n, room) = (
  length l ∷ (l ++ w),
  e ∙ append_assoc out (length l ∷ l) w,
  chunk l (length l) refl some few t,
  omega (arith, length-append out (length l ∷ l)),
  room,
)
Encoded-chunk l s out maxlen err some few size h = omega (arith, length-append out (length l ∷ l))
Encoded-chunk l s out maxlen fault some few size h = h

take-drop : (n : ℕ) (s : Bytes) → take n s ++ drop n s ≡ s
take-drop zero s = refl
take-drop (suc n) [] = refl
take-drop (suc n) (c ∷ s) = ap (◌∷◌ c) (take-drop n s)

-- The size of the first chunk.
abbrev chunk_of : ℕ → ℕ
chunk_of n = if ltb 255 n then 255 else n

chunk_range : (n : ℕ) → 1 ≤ n → (1 ≤ chunk_of n) × (chunk_of n ≤ 255) × (chunk_of n ≤ n)
chunk_range n h = ground arith

chunk_size : (n : ℕ) → 1 ≤ n → txt_size n ≡ chunk_of n + 1 + txt_size (n - chunk_of n)
chunk_size n h = ground arith

txt_loop-Encoded :
    (fuel : ℕ) (s out : Bytes) (maxlen : ℕ)
    → length s ≤ fuel
    → length out ≤ maxlen
    → Encoded s out maxlen (txt_loop fuel s out maxlen)
unfolding txt_loop
txt_loop-Encoded fuel [] out maxlen h room = ([], sym (append-nil out), end, omega arith, room)
txt_loop-Encoded zero (c ∷ s) out maxlen h room = absurd (omega arith)
txt_loop-Encoded (suc fuel) (c ∷ s) out maxlen h room =
    let n : ℕ = length (c ∷ s) in
    let l : Bytes = take (chunk_of n) (c ∷ s) in
    let (some, few, part) = chunk_range n (omega arith) in
    let len : length l ≡ chunk_of n = omega (arith, length-take (chunk_of n) (c ∷ s)) in
    let left : length (drop (chunk_of n) (c ∷ s)) ≡ n - chunk_of n =
      length-drop (chunk_of n) (c ∷ s) in
    let size : to_u8 (chunk_of n) ≡ length l = omega arith in
    elim (Bool-cases (ltb maxlen (length out + 1 + chunk_of n))) [
      | inl e ↦ rw e (omega (arith, ltb→lt _ _ e, chunk_size n (omega arith)))
      | inr e ↦
          rw (e, size)
            (subst
              (λ (t : Bytes).
                Encoded t out maxlen
                  (txt_loop fuel (drop (chunk_of n) (c ∷ s)) (out ++ (length l ∷ l)) maxlen))
              (take-drop (chunk_of n) (c ∷ s))
              (Encoded-chunk l (drop (chunk_of n) (c ∷ s)) out maxlen
                (txt_loop fuel (drop (chunk_of n) (c ∷ s)) (out ++ (length l ∷ l)) maxlen)
                (omega arith) (omega arith)
                (ap (λ (t : Bytes). txt_size (length t)) (take-drop (chunk_of n) (c ∷ s))
                  ∙ chunk_size n (omega arith)
                  ∙ omega arith)
                (txt_loop-Encoded fuel (drop (chunk_of n) (c ∷ s)) (out ++ (length l ∷ l)) maxlen
                  (omega arith)
                  (omega (arith, length-append out (length l ∷ l), ltb_false→le _ _ e)))))
    ]

-- `txt_encode` always ends. It returns strings of 1 to 255 bytes that hold the text, one length
-- byte for each 255 bytes begun, within `maxlen` bytes; it returns -1 exactly when that is too long.
pub txt_encode-Encoded : (s : Bytes) (maxlen : ℕ) → Encoded s [] maxlen (txt_encode s maxlen)
unfolding txt_encode
txt_encode-Encoded s maxlen = txt_loop-Encoded (length s) s [] maxlen (le_refl _) (omega arith)
