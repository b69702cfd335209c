-- ===== src/Ip/Digits.antt =====
-- The hexadecimal groups of an IPv6 address: what `%x` prints, `pog_parse_ipv6` reads.
use simple_dns.Common.{
  ℕ, ◌+◌, ◌*◌, ◌/◌, ◌%◌, ◌^◌, ◌<◌, ◌≤◌, false, some, List, [], ◌∷◌, ◌++◌, Bytes, All, length, ltb,
  ◌==◌, Bool-cases, ◌≡◌, refl, ap, ◌∙◌, ◌⊎◌, inl, inr, arith, ltb→lt, ltb_false→le, le→ltb, lt→ltb,
}
use simple_dns.Common.Bits.{bit_or-shl}
use simple_dns.Ip.V6.{pog_hex_digit, v4_suffix, read_group}
use simple_dns.Ip.Printed.{hex_char, hex_text}

-- A text that begins with `:`, or none.
abbrev pub Ends : Bytes → Type 0
Ends [] = Unit {0}
Ends (c ∷ s) = c ≡ b':'

pog_hex_digit-hex_char : (d : ℕ) → d < 16 → pog_hex_digit (hex_char d) ≡ some d
unfolding pog_hex_digit
pog_hex_digit-hex_char d h = ground arith

pub hex_char_not : (d c : ℕ) → d < 16 → c < b'0' ⊎ c ≡ b':' → (hex_char d == c) ≡ false
hex_char_not d c h k = ground arith

pub read_end :
    (v count : ℕ) (rest : Bytes) → Ends rest → 0 < count → read_group rest v count ≡ some (v, rest)
unfolding read_group
read_end v count [] e h = ground arith
read_end v count (c ∷ rest) e h = ground arith

read_digit :
    (d v count : ℕ) (s : Bytes)
    → d < 16
    → count < 4
    → v < 2 ^ 12
    → read_group (hex_char d ∷ s) v count ≡ read_group s (v * 16 + d) (count + 1)
unfolding read_group
read_digit d v count s h k small =
    let m : v * 16 % 4294967296 ≡ v * 16 = omega arith in
    rw
      (
        hex_char_not d b':' h (inr refl),
        pog_hex_digit-hex_char d h,
        m,
        bit_or-shl 4 v d h,
        le→ltb 4 (count + 1) (omega arith),
      )
      refl

dotless : (d : ℕ) (s : Bytes) → d < 16 → v4_suffix (hex_char d ∷ s) ≡ v4_suffix s
unfolding v4_suffix
dotless d s h =
    rw (hex_char_not d b'.' h (inl (omega arith)), hex_char_not d b':' h (inr refl)) refl

one : (v : ℕ) → v < 0x10 → hex_text v ≡ hex_char v ∷ []
unfolding hex_text
one v h = ground arith

two : (v : ℕ) → 0x10 ≤ v → v < 0x100 → hex_text v ≡ hex_char (v / 0x10) ∷ hex_char (v % 0x10) ∷ []
unfolding hex_text
two v g h = rw (le→ltb v 0x10 g, lt→ltb v 0x100 h) refl

three :
    (v : ℕ)
    → 0x100 ≤ v
    → v < 0x1000
    → hex_text v ≡ hex_char (v / 0x100) ∷ hex_char (v / 0x10 % 0x10) ∷ hex_char (v % 0x10) ∷ []
unfolding hex_text
three v g h = rw (le→ltb v 0x10 (omega arith), le→ltb v 0x100 g, lt→ltb v 0x1000 h) refl

four :
    (v : ℕ)
    → 0x1000 ≤ v
    → hex_text v
      ≡ hex_char (v / 0x1000)
        ∷ hex_char (v / 0x100 % 0x10)
        ∷ hex_char (v / 0x10 % 0x10)
        ∷ hex_char (v % 0x10)
        ∷ []
unfolding hex_text
four v g = rw (le→ltb v 0x10 (omega arith), le→ltb v 0x100 (omega arith), le→ltb v 0x1000 g) refl

-- The number of digits of a group.
data Width : ℕ → Type 0 where
  w1 : {v : ℕ} → v < 0x10 → Width v
  w2 : {v : ℕ} → 0x10 ≤ v → v < 0x100 → Width v
  w3 : {v : ℕ} → 0x100 ≤ v → v < 0x1000 → Width v
  w4 : {v : ℕ} → 0x1000 ≤ v → Width v

width : (v : ℕ) → Width v
width v = elim (Bool-cases (ltb v 0x10)) [
  | inl a ↦ w1 (ltb→lt v 0x10 a)
  | inr a ↦ elim (Bool-cases (ltb v 0x100)) [
    | inl b ↦ w2 (ltb_false→le v 0x10 a) (ltb→lt v 0x100 b)
    | inr b ↦ elim (Bool-cases (ltb v 0x1000)) [
      | inl c ↦ w3 (ltb_false→le v 0x100 b) (ltb→lt v 0x1000 c)
      | inr c ↦ w4 (ltb_false→le v 0x1000 c)
    ]
  ]
]

pub hex_text-v4_suffix :
    (v : ℕ) (s : Bytes) → v < 2 ^ 16 → v4_suffix (hex_text v ++ s) ≡ v4_suffix s
hex_text-v4_suffix v s h = elim (width v) [
  | w1 a ↦ rw (one v a) (dotless v s a)
  | w2 a b ↦
      rw (two v a b, dotless (v / 0x10) (hex_char (v % 0x10) ∷ s) (omega arith))
        (dotless (v % 0x10) s (omega arith))
  | w3 a b ↦
      rw
        (
          three v a b,
          dotless (v / 0x100) (hex_char (v / 0x10 % 0x10) ∷ hex_char (v % 0x10) ∷ s) (omega arith),
          dotless (v / 0x10 % 0x10) (hex_char (v % 0x10) ∷ s) (omega arith),
        )
        (dotless (v % 0x10) s (omega arith))
  | w4 a ↦
      rw
        (
          four v a,
          dotless (v / 0x1000)
              (hex_char (v / 0x100 % 0x10) ∷ hex_char (v / 0x10 % 0x10) ∷ hex_char (v % 0x10) ∷ s)
              (omega arith),
          dotless (v / 0x100 % 0x10) (hex_char (v / 0x10 % 0x10) ∷ hex_char (v % 0x10) ∷ s)
              (omega arith),
          dotless (v / 0x10 % 0x10) (hex_char (v % 0x10) ∷ s) (omega arith),
        )
        (dotless (v % 0x10) s (omega arith))
]

-- The digits of `ds`, behind `count` of them with the value `v`.
abbrev texts : List ℕ → Bytes → Bytes
texts [] s = s
texts (d ∷ ds) s = hex_char d ∷ texts ds s

abbrev amount : List ℕ → ℕ → ℕ
amount [] v = v
amount (d ∷ ds) v = amount ds (v * 16 + d)

amount_grows : (ds : List ℕ) (v : ℕ) → v ≤ amount ds v
amount_grows [] v = omega arith
amount_grows (d ∷ ds) v = omega (arith, amount_grows ds (v * 16 + d))

read_digits :
    (ds : List ℕ) (v count : ℕ) (s : Bytes)
    → All (λ d. d < 16) ds
    → count + length ds ≤ 4
    → amount ds v < 2 ^ 16
    → 0 < count + length ds
    → Ends s
    → read_group (texts ds s) v count ≡ some (amount ds v, s)
read_digits [] v count s all k small pos e = read_end v count s e (omega arith)
read_digits (d ∷ ds) v count s all k small pos e =
    let room : v < 2 ^ 12 = omega (arith, amount_grows ds (v * 16 + d)) in
    rw (read_digit d v count (texts ds s) all.0 (omega arith) room)
      (read_digits ds (v * 16 + d) (count + 1) s all.1 (omega arith) small (omega arith) e)

whole_group :
    (ds : List ℕ) (v : ℕ) (s : Bytes)
    → All (λ d. d < 16) ds
    → length ds ≤ 4
    → 0 < length ds
    → amount ds 0 ≡ v
    → v < 2 ^ 16
    → Ends s
    → read_group (texts ds s) 0 0 ≡ some (v, s)
whole_group ds v s all k pos e h end =
    read_digits ds 0 0 s all (omega arith) (omega arith) (omega arith) end
    ∙ ap (λ (t : ℕ). some (t, s)) e

-- A group that is printed is read, up to the `:` or the end behind it.
pub read_group-hex_text :
    (v : ℕ) (s : Bytes) → v < 2 ^ 16 → Ends s → read_group (hex_text v ++ s) 0 0 ≡ some (v, s)
read_group-hex_text v s h e = elim (width v) [
  | w1 a ↦
      rw (one v a)
        (whole_group (v ∷ []) v s (omega arith) (omega arith) (omega arith) (omega arith) h e)
  | w2 a b ↦ rw (two v a b) (
      whole_group (v / 0x10 ∷ v % 0x10 ∷ []) v s (omega arith) (omega arith) (omega arith)
        (omega arith) h e)
  | w3 a b ↦ rw (three v a b) (
      whole_group (v / 0x100 ∷ v / 0x10 % 0x10 ∷ v % 0x10 ∷ []) v s (omega arith) (omega arith)
        (omega arith) (omega arith) h e)
  | w4 a ↦ rw (four v a) (
      whole_group (v / 0x1000 ∷ v / 0x100 % 0x10 ∷ v / 0x10 % 0x10 ∷ v % 0x10 ∷ []) v s
        (omega arith) (omega arith) (omega arith) (omega arith) h e)
]

-- A group begins with a digit.
pub first_digit :
    (v : ℕ) → v < 2 ^ 16 → (d : ℕ) × (s : Bytes) × (d < 16) × (hex_text v ≡ hex_char d ∷ s)
first_digit v h = elim (width v) [
  | w1 a ↦ (v, [], a, one v a)
  | w2 a b ↦ (v / 0x10, hex_char (v % 0x10) ∷ [], omega arith, two v a b)
  | w3 a b ↦
      (v / 0x100, hex_char (v / 0x10 % 0x10) ∷ hex_char (v % 0x10) ∷ [], omega arith, three v a b)
  | w4 a ↦ (
    v / 0x1000,
    hex_char (v / 0x100 % 0x10) ∷ hex_char (v / 0x10 % 0x10) ∷ hex_char (v % 0x10) ∷ [],
    omega arith,
    four v a,
  )
]
