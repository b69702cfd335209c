-- ===== src/Hex/RoundTrip.antt =====
-- What `hex_dec` reads back of what `hex_enc` wrote, and what it does on any text.
use simple_dns.Common.{
  ℕ, suc, ◌+◌, ◌-◌, ◌*◌, ◌/◌, ◌%◌, ◌≤◌, ◌<◌, bit_and, [], ◌∷◌, ◌++◌, Bytes, length, drop, All, ltb,
  lt→ltb, if◌then◌else◌, ltb→lt, ◌≡◌, ◌≢◌, refl, sym, ap, ◌∙◌, arith, append_assoc,
}
use mathlib.Core.Path.{subst}
use simple_dns.Common.Bits.{agree_below, all_below}
use simple_dns.Common.Memory.{
  ok, ◌>>=◌, read, patch, read_fits, write_fits, patch-patch, patch-nil, length-patch,
}
use simple_dns.Common.Memory.Cursor.{read-drop, drop_next}
use simple_dns.Common.Memory.Safe.{Holds, if-Holds}
use simple_dns.Common.Text.{c_string}
use simple_dns.Common.Text.Decimal.{bytes}
use simple_dns.Hex.{
  hex_digits, hex_enc_loop, hex_enc, hex_digit, strtol_digits, strtol_sign, strtol, hex_dec_loop,
  hex_dec,
}

-- The digit of a number below 16.
abbrev pub digit_of : ℕ → ℕ
digit_of n = if ltb n 10 then b'0' + n else b'a' + (n - 10)

-- The text of bytes, two digits for each.
abbrev pub hex_of : Bytes → Bytes
hex_of [] = []
hex_of (v ∷ vs) = digit_of (v / 16) ∷ digit_of (v % 16) ∷ hex_of vs

abbrev at_digit : ℕ → ℕ
at_digit n = elim (read hex_digits n) [ ok b ↦ b | _ ↦ 256 ]

at_digit_of : (n : ℕ) → n < 16 → at_digit n ≡ digit_of n
unfolding hex_digits bytes read all_below
at_digit_of = agree_below 16 _ _ refl

length-hex_digits : length hex_digits ≡ 16
unfolding hex_digits bytes
length-hex_digits = refl

digit_read : (n b : ℕ) → n < 16 → read hex_digits n ≡ ok b → read hex_digits n ≡ ok (digit_of n)
digit_read n b h e =
    let same : at_digit n ≡ b = rw (e, at_digit) refl in e ∙ ap ok (sym same ∙ at_digit_of n h)

read-hex_digits : (n : ℕ) → n < 16 → read hex_digits n ≡ ok (digit_of n)
read-hex_digits n h =
    let (b, e) = read_fits hex_digits n (omega (arith, length-hex_digits)) in digit_read n b h e

low_nibble : (v : ℕ) → v < 256 → bit_and v 0xf ≡ v % 16
unfolding all_below
low_nibble = agree_below 256 _ _ refl

-- Every byte comes back from its two digits.
strtol-digit_of : (v : ℕ) → v < 256 → strtol (digit_of (v / 16) ∷ digit_of (v % 16) ∷ []) ≡ v
unfolding all_below strtol strtol_sign strtol_digits hex_digit
strtol-digit_of = agree_below 256 _ (λ v. v) refl

digit_of_pos : (n : ℕ) → digit_of n ≢ 0
digit_of_pos n = ground arith

length-hex_of : (vs : Bytes) → length (hex_of vs) ≡ 2 * length vs
length-hex_of [] = refl
length-hex_of (v ∷ vs) = omega (arith, length-hex_of vs)

c_string-hex_of : (vs rest : Bytes) → c_string (hex_of vs ++ 0 ∷ rest) ≡ hex_of vs
unfolding c_string
c_string-hex_of [] rest = refl
c_string-hex_of (v ∷ vs) rest =
    ground (arith, digit_of_pos (v / 16), digit_of_pos (v % 16), c_string-hex_of vs rest)

pub hex_enc_loop_lem :
    (input : Bytes) (i : ℕ) (out vs : Bytes)
    → drop i input ≡ vs
    → All (λ v. v < 256) vs
    → 2 * i + 2 * length vs ≤ length out
    → hex_enc_loop (length vs) input i out ≡ ok (patch out (2 * i) (hex_of vs))
unfolding hex_enc_loop
hex_enc_loop_lem input i out [] at small h = ap ok (sym (patch-nil out (2 * i)))
hex_enc_loop_lem input i out (v ∷ vs) at small h =
    let high = digit_of (v / 16) in
    let low = digit_of (v % 16) in
    let out1 = patch out (2 * i) (high ∷ []) in
    let out2 = patch out1 (2 * i + 1) (low ∷ []) in
    let l1 : length out1 ≡ length out = length-patch out (2 * i) (high ∷ []) (omega arith) in
    let l2 : length out2 ≡ length out1 =
      length-patch out1 (2 * i + 1) (low ∷ []) (omega (arith, l1)) in
    let rest =
      hex_enc_loop_lem input (i + 1) out2 vs (drop_next input i at) small.1
        (omega (arith, l1, l2)) in
    let next : 2 * (i + 1) ≡ 2 * i + 2 = omega arith in
    let joined : patch out2 (2 * i + 2) (hex_of vs) ≡ patch out (2 * i) (hex_of (v ∷ vs)) =
      ap (λ (b : Bytes). patch b (2 * i + 2) (hex_of vs))
        (patch-patch out (2 * i) (high ∷ []) (low ∷ []))
      ∙ patch-patch out (2 * i) (high ∷ low ∷ []) (hex_of vs) in
    rw
      (
        read-drop input i at,
        read-hex_digits (v / 16) (omega (arith, small.0)),
        write_fits out (2 * i) (high ∷ []) (omega arith),
        low_nibble v small.0,
        read-hex_digits (v % 16) (omega arith),
        write_fits out1 (2 * i + 1) (low ∷ []) (omega (arith, l1)),
        rest,
        next,
        joined,
      )
      refl

-- On bytes in a buffer with room for two digits each and the NUL, `hex_enc` writes the digits and
-- the NUL and nothing else.
pub hex_enc_lem :
    (input out : Bytes)
    → All (λ v. v < 256) input
    → 2 * length input < length out
    → hex_enc input (length input) out ≡ ok (patch out 0 (hex_of input ++ 0 ∷ []))
unfolding hex_enc
hex_enc_lem input out small h =
    let len = length-hex_of input in
    let l1 = length-patch out 0 (hex_of input) (omega (arith, len)) in
    let joined : patch (patch out 0 (hex_of input)) (2 * length input) (0 ∷ [])
        ≡ patch out 0 (hex_of input ++ 0 ∷ []) =
      ap (λ (k : ℕ). patch (patch out 0 (hex_of input)) k (0 ∷ [])) (omega (arith, len))
      ∙ patch-patch out 0 (hex_of input) (0 ∷ []) in
    rw
      (
        hex_enc_loop_lem input 0 out input refl small (omega arith),
        write_fits (patch out 0 (hex_of input)) (2 * length input) (0 ∷ []) (omega (arith, l1)),
        joined,
      )
      refl

pub hex_dec_loop_lem :
    (vs out : Bytes) (n maxlen : ℕ)
    → All (λ v. v < 256) vs
    → n + length vs ≤ maxlen
    → maxlen ≤ length out
    → hex_dec_loop (hex_of vs) out n maxlen ≡ ok (patch out n vs, n + length vs)
unfolding hex_dec_loop
hex_dec_loop_lem [] out n maxlen small h room =
    let e : n + 0 ≡ n = omega arith in rw (patch-nil out n, e) refl
hex_dec_loop_lem (v ∷ vs) out n maxlen small h room =
    let len = length-patch out n (v ∷ []) (omega arith) in
    let rest =
      hex_dec_loop_lem vs (patch out n (v ∷ [])) (n + 1) maxlen small.1 (omega arith)
        (omega (arith, len)) in
    let e : n + 1 + length vs ≡ n + suc (length vs) = omega arith in
    rw
      (
        lt→ltb n maxlen (omega arith),
        strtol-digit_of v small.0,
        write_fits out n (v ∷ []) (omega arith),
        rest,
        patch-patch out n (v ∷ []) vs,
        e,
      )
      refl

-- Bytes that `hex_enc` wrote into a buffer with room for two digits each and the NUL come back from
-- `hex_dec`, where the second buffer has room for them: all of them, in order, and their number.
pub hex_dec-hex_enc :
    (input text out : Bytes) (maxlen : ℕ)
    → All (λ v. v < 256) input
    → 2 * length input < length text
    → length input ≤ maxlen
    → maxlen ≤ length out
    → (hex_enc input (length input) text >>= λ t. hex_dec (c_string t) out maxlen)
      ≡ ok (patch out 0 input, length input)
unfolding hex_dec
hex_dec-hex_enc input text out maxlen small h fits room =
    let behind = drop (length (hex_of input ++ 0 ∷ [])) text in
    let count : 0 + length input ≡ length input = omega arith in
    rw
      (
        hex_enc_lem input text small h,
        append_assoc (hex_of input) (0 ∷ []) behind,
        c_string-hex_of input behind,
        hex_dec_loop_lem input out 0 maxlen small (omega arith) room,
        count,
      )
      refl

hex_dec_loop-Holds :
    (text out : Bytes) (n maxlen : ℕ)
    → n ≤ maxlen
    → maxlen ≤ length out
    → Holds (λ r. (r.1 ≤ maxlen) × (length r.0 ≡ length out)) (hex_dec_loop text out n maxlen)
unfolding hex_dec_loop
hex_dec_loop-Holds [] out n maxlen h room = (h, refl)
hex_dec_loop-Holds (c ∷ []) out n maxlen h room = (h, refl)
hex_dec_loop-Holds (c ∷ d ∷ text) out n maxlen h room =
    if-Holds _ (ltb n maxlen) _ _
      (λ more.
        let below = ltb→lt n maxlen more in
        let v = strtol (c ∷ d ∷ []) ∷ [] in
        let len = length-patch out n v (omega arith) in
        rw (write_fits out n v (omega arith)) (
          subst
            (λ (k : ℕ).
              Holds (λ r. (r.1 ≤ maxlen) × (length r.0 ≡ k))
                (hex_dec_loop text (patch out n v) (n + 1) maxlen))
            len
            (hex_dec_loop-Holds text (patch out n v) (n + 1) maxlen (omega arith)
              (omega (arith, len)))))
      (λ full. (h, refl))

-- On any text `hex_dec` ends, stays within a buffer of at least `maxlen` bytes, and returns a number
-- of bytes that is at most `maxlen`.
pub hex_dec-Holds :
    (text out : Bytes) (maxlen : ℕ)
    → maxlen ≤ length out
    → Holds (λ r. (r.1 ≤ maxlen) × (length r.0 ≡ length out)) (hex_dec text out maxlen)
unfolding hex_dec
hex_dec-Holds text out maxlen room = hex_dec_loop-Holds text out 0 maxlen (omega arith) room
