-- ===== src/Canon/Names.antt =====
-- dns_wire.c, the names of canonical rdata: what a message spells, copied in lower case.
use simple_dns.Common.{
  ℕ, ◌+◌, ◌≤◌, ◌<◌, ◌≢◌, Bool, true, false, List, [], ◌∷◌, ◌++◌, Bytes, All, length, map, take_all,
  leb, ◌==◌, if◌then◌else◌, Bool-cases, inl, inr, ◌≡◌, refl, sym, ap, append-nil, length-map, ◌∙◌,
  arith,
}
use simple_dns.Common.Memory.{Outcome, ok, err, ◌>>=◌, patch}
use simple_dns.Common.Text.{to_lower, strlower, c_string, safe_strcpy}
use simple_dns.Common.Text.Split.{join, IsToken, tokens-join, join-All-bytes}
use simple_dns.Common.Text.Strings.{c_string_same}
use simple_dns.Name.{dot, labels_in}
use simple_dns.Name.Wire.{wire_of, all_short, name_to_wire_lem}
use simple_dns.Name.RoundTrip.{IsLabel}
use simple_dns.Compress.Spells.{Spells, end_of, name_from_wire-Spells, Spells-IsLabel}
use simple_dns.Canon.{Copied, copy_name}

-- A byte that is neither a dot nor a NUL.
abbrev pub IsPlain : ℕ → Type 0
IsPlain c = (dot c ≡ false) × (c ≢ 0)

-- A name of at most 255 bytes that the message spells at `o` in at most 128 rounds of reading, and
-- whose labels have no dot and no NUL.
pub record PlainName (msg : Bytes) (o : ℕ) : Type 0 where
  pub rounds : ℕ
  pub labels : List Bytes
  pub spells : Spells msg rounds o labels
  pub few : rounds ≤ 128
  pub room : length (join b'.' labels) < 256
  pub plain : All (All IsPlain) labels

-- A label in lower case.
abbrev pub lower : Bytes → Bytes
lower = map to_lower

-- RFC 4034 §6.2: the wire form of the labels in lower case, without compression.
abbrev pub canonical : {msg : Bytes} {o : ℕ} → PlainName msg o → Bytes
canonical x = wire_of (map lower x.labels)

-- Where the name ends in the message.
abbrev pub behind : {msg : Bytes} {o : ℕ} → PlainName msg o → ℕ
behind x = end_of x.spells

to_lower-IsPlain : (c : ℕ) → IsPlain c → IsPlain (to_lower c)
unfolding to_lower
to_lower-IsPlain c (d, z) = (ground arith, λ e. z (ground arith))

lower-IsPlain : (l : Bytes) → All IsPlain l → All IsPlain (lower l)
unfolding to_lower
lower-IsPlain [] h = tt
lower-IsPlain (c ∷ l) h = (to_lower-IsPlain c h.0, lower-IsPlain l h.1)

length-strlower : (s : Bytes) → length (strlower s) ≡ length s
unfolding strlower
length-strlower [] = refl
length-strlower (c ∷ s) = ground (arith, length-strlower s)

strlower-append : (l s : Bytes) → All IsPlain l → strlower (l ++ s) ≡ lower l ++ strlower s
unfolding strlower
strlower-append [] s h = refl
strlower-append (c ∷ l) s h = elim (Bool-cases (c == 0)) [
  | inl e ↦ absurd (h.0.1 (ground arith))
  | inr e ↦ rw e (ap (◌∷◌ (to_lower c)) (strlower-append l s h.1))
]

strlower-lower : (l : Bytes) → All IsPlain l → strlower l ≡ lower l
unfolding strlower
strlower-lower l h =
    ap strlower (sym (append-nil l)) ∙ strlower-append l [] h ∙ append-nil (lower l)

strlower-join :
    (ls : List Bytes) → All (All IsPlain) ls → strlower (join b'.' ls) ≡ join b'.' (map lower ls)
unfolding strlower to_lower
strlower-join [] h = refl
strlower-join (l ∷ []) h = strlower-lower l h.0
strlower-join (l ∷ (m ∷ ls)) h =
    strlower-append l (b'.' ∷ join b'.' (m ∷ ls)) h.0
    ∙ ap (λ (t : Bytes). lower l ++ (b'.' ∷ t)) (strlower-join (m ∷ ls) h.1)

All-0 : (l : Bytes) → All IsPlain l → All (λ c. dot c ≡ false) l × All (λ c. c ≢ 0) l
All-0 [] h = (tt, tt)
All-0 (c ∷ l) h = let (a, b) = All-0 l h.1 in ((h.0.0, a), (h.0.1, b))

lowered :
    (ls : List Bytes)
    → All (All IsPlain) ls
    → All IsLabel ls
    → All (IsToken dot) (map lower ls)
      × All (All (λ c. c ≢ 0)) (map lower ls)
      × (all_short (map lower ls) ≡ true)
lowered [] h k = (tt, tt, refl)
lowered (l ∷ ls) h k =
    let (t, z, s) = lowered ls h.1 k.1 in
    let (a, b) = All-0 (lower l) (lower-IsPlain l h.0) in
    let same : length (lower l) ≡ length l = length-map to_lower l in
    (((a, omega (arith, same, k.0.0)), t), (b, z), ground (arith, same, s, k.0.1))

-- The text of the name has the labels in lower case.
labels_in-PlainName :
    {msg : Bytes} {o : ℕ} (x : PlainName msg o)
    → labels_in (c_string (strlower (join b'.' x.labels))) ≡ map lower x.labels
unfolding safe_strcpy
labels_in-PlainName x =
    let ls : List Bytes = map lower x.labels in
    let (t, z, s) = lowered x.labels x.plain (Spells-IsLabel x.spells) in
    let text : strlower (join b'.' x.labels) ≡ join b'.' ls = strlower-join x.labels x.plain in
    let no_nul : All (λ c. c ≢ 0) (join b'.' ls) =
      join-All-bytes dot (λ c. c ≢ 0) b'.' ls (λ e. omega (arith, e)) z in
    let short : length (join b'.' ls) ≤ 255 =
      omega (arith, x.room, ap length text, length-strlower (join b'.' x.labels)) in
    rw (text, c_string_same (join b'.' ls) no_nul, take_all 255 (join b'.' ls) short)
      (tokens-join dot b'.' ls refl t)

-- What a copy of `wire` into `room` bytes at `at` gives.
abbrev pub copied_at : Bytes → Bytes → ℕ → ℕ → ℕ → Outcome Copied
copied_at wire out at room after =
    if leb (length wire) room
    then ok (record { out = patch out at wire; written = length wire; after = after })
    else err

copied_if :
    (b : Bool) (out : Bytes) (n after : ℕ)
    → (◌>>=◌ {A = Bytes × ℕ} {B = Copied}
        (if b then ok (out, n) else err)
        (λ y. ok (record { out = y.0; written = y.1; after = after })))
      ≡ (if b then ok (record { out = out; written = n; after = after }) else err)
copied_if true out n after = refl
copied_if false out n after = refl

-- The name is copied in canonical form exactly when that fits.
pub copy_name-PlainName :
    {msg : Bytes} (more : Bytes) {o : ℕ} (x : PlainName msg o) (out : Bytes) (at room : ℕ)
    → at + room ≤ length out
    → copy_name (msg ++ more) (length msg) o out at room
      ≡ copied_at (canonical x) out at room (behind x)
unfolding copy_name
copy_name-PlainName {msg} more {o} x out at room h =
    let (t, z, s) = lowered x.labels x.plain (Spells-IsLabel x.spells) in
    let start : at + 0 ≡ at = omega arith in
    let none_before : 0 + length (canonical x) ≡ length (canonical x) = omega arith in
    rw
      (
        name_from_wire-Spells msg more 256 x.spells (omega arith) x.few x.room,
        name_to_wire_lem (c_string (strlower (join b'.' x.labels))) out at room h,
        labels_in-PlainName x,
        s,
        start,
        none_before,
      )
      (copied_if (leb (length (canonical x)) room) (patch out at (canonical x))
        (length (canonical x)) (behind x))
