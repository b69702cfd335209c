-- ===== src/Cidr/Mask.antt =====
-- object_graph.c, `pog_apply_mask` on a network of at most 2^24 addresses.
use simple_dns.Common.{
  ℕ, zero, suc, ◌+◌, ◌-◌, ◌*◌, ◌/◌, ◌%◌, ◌^◌, ◌≤◌, ◌<◌, bit_and, false, leb, ◌==◌, if◌then◌else◌,
  le→leb, lt→leb, dec_le, ◌≡◌, refl, sym, ap, ◌∙◌, arith,
}
use simple_dns.Common.Bits.{shl, double, bit_and_odd, bit_and_even, agree_below, all_below}
use native.Mathlib.Nat.{pow-zero, pow-suc, div-div-eq-div-mul, div-lt_iff_lt-mul, mul-le-mul_right}
use simple_dns.Ip.Family.{PogIp}
use simple_dns.Cidr.{max_bits, ones, pog_apply_mask}

pow_pos : (k : ℕ) → 0 < 2 ^ k
pow_pos zero = omega (arith, pow-zero 2)
pow_pos (suc k) = omega (arith, pow-suc 2 k, pow_pos k)

-- A mask whose low `h` bits are zero.
bit_and-shl : (h v m : ℕ) → bit_and v (m * 2 ^ h) ≡ bit_and (v / 2 ^ h) m * 2 ^ h
bit_and-shl zero v m =
    let one : 2 ^ zero ≡ 1 = pow-zero 2 in
    let same : v / 1 ≡ v = omega arith in
    let whole : m * 1 ≡ m = omega arith in rw (one, same, whole) (omega arith)
bit_and-shl (suc h) v m =
    let deeper : v / 2 / 2 ^ h ≡ v / 2 ^ suc h =
      div-div-eq-div-mul v 2 (2 ^ h) ∙ ap (λ (t : ℕ). v / t) (omega (arith, pow-suc 2 h)) in
    rw (double m h) (
      bit_and_even v (m * 2 ^ h)
      ∙ ap (λ (t : ℕ). t * 2) (bit_and-shl h (v / 2) m)
      ∙ ap (λ (t : ℕ). bit_and t m * 2 ^ h * 2) deeper
      ∙ sym (double (bit_and (v / 2 ^ suc h) m) h))

-- Ones in all the bits that a number has.
bit_and_ones : (k x : ℕ) → x < 2 ^ k → bit_and x (2 ^ k - 1) ≡ x
bit_and_ones zero x h = let none_left : x ≡ 0 = omega (arith, pow-zero 2) in rw none_left refl
bit_and_ones (suc k) x h =
    let longer : 2 ^ suc k - 1 ≡ (2 ^ k - 1) * 2 + 1 = omega (arith, pow-suc 2 k, pow_pos k) in
    rw longer (
      omega (arith, bit_and_odd x (2 ^ k - 1), bit_and_ones k (x / 2) (omega (arith, pow-suc 2 k))))

-- Networks have at most 2^24 addresses here.
mask_bits : (h : ℕ) → h < 25 → shl ones h % 2 ^ 128 ≡ (2 ^ (128 - h) - 1) * 2 ^ h
unfolding all_below
mask_bits = agree_below 25 _ _ refl

all_bits : (h : ℕ) → h < 25 → 2 ^ (128 - h) * 2 ^ h ≡ 2 ^ 128
unfolding all_below
all_bits = agree_below 25 (λ h. 2 ^ (128 - h) * 2 ^ h) (λ h. 2 ^ 128) refl

pub quotient_bound : (v h : ℕ) → v < 2 ^ 128 → h < 25 → v / 2 ^ h < 2 ^ (128 - h)
quotient_bound v h small few =
    (div-lt_iff_lt-mul {k = 2 ^ h} {x = v} {y = 2 ^ (128 - h)} (pow_pos h)).1
      (omega (arith, all_bits h few))

masked : (v h : ℕ) → v < 2 ^ 128 → h < 25 → bit_and v (shl ones h % 2 ^ 128) ≡ v / 2 ^ h * 2 ^ h
masked v h small few =
    ap (bit_and v) (mask_bits h few)
    ∙ bit_and-shl h v (2 ^ (128 - h) - 1)
    ∙ ap (λ (t : ℕ). t * 2 ^ h) (bit_and_ones (128 - h) (v / 2 ^ h) (quotient_bound v h small few))

-- The first address of the network.
abbrev pub first_of : PogIp → ℕ → ℕ
first_of raw h = raw.v / 2 ^ h * 2 ^ h

-- No address of the network is beyond the numbers of 128 bits.
pub first_of-bound :
    (raw : PogIp) (h : ℕ) → raw.v < 2 ^ 128 → h < 25 → first_of raw h + 2 ^ h ≤ 2 ^ 128
first_of-bound raw h small few = omega (
  arith,
  all_bits h few,
  mul-le-mul_right {m = suc (raw.v / 2 ^ h)} {n = 2 ^ (128 - h)} (2 ^ h)
      (omega (arith, quotient_bound raw.v h small few)),
)

mask_value :
    (m bits v : ℕ)
    → v < 2 ^ 128
    → bits ≤ m
    → 32 ≤ m
    → m - bits < 25
    → bit_and v
        (if bits == 0 then 0 else if leb m bits then ones else shl ones (m - bits) % 2 ^ 128)
      ≡ v / 2 ^ (m - bits) * 2 ^ (m - bits)
mask_value m bits v small inside wide few = elim (dec_le m bits) [
  | yes p ↦
      let some_bits : (bits == 0) ≡ false = ground arith in
      let all : m - bits ≡ 0 = omega arith in
      rw (some_bits, le→leb m bits p, all) (masked v 0 small (omega arith))
  | no n ↦
      let some_bits : (bits == 0) ≡ false = ground arith in
      rw (some_bits, lt→leb m bits (omega arith)) (masked v (m - bits) small few)
]

max_bits_wide : (family : ℕ) → 32 ≤ max_bits family
max_bits_wide family = ground arith

pub pog_apply_mask-first_of :
    (raw : PogIp) (bits : ℕ)
    → raw.v < 2 ^ 128
    → bits ≤ max_bits raw.family
    → max_bits raw.family - bits < 25
    → (pog_apply_mask raw bits).v ≡ first_of raw (max_bits raw.family - bits)
unfolding pog_apply_mask
pog_apply_mask-first_of raw bits small inside few =
    mask_value (max_bits raw.family) bits raw.v small inside (max_bits_wide raw.family) few
