-- ===== src/Common/Bits.antt =====
-- C's shifts, masks and `|`, and what they are in plain arithmetic.
use Prim.Native.Nat.{
  ℕ, zero, suc, ◌+◌, ◌*◌, ◌/◌, ◌%◌, ◌^◌, ◌≤◌, ◌<◌, min, max, bit_and, bit_or, digits,
  bit_and-bitwise, bit_or-bitwise,
}
use mathlib.Core.Path.{◌≡◌, refl, ap, ◌∙◌}
use mathlib.Core.Bool.{Bool, true, ◌&&◌}
use native.Mathlib.Omega.{arith}
use native.Mathlib.Decide.{dec_le}
use native.Mathlib.Nat.{pow-zero, pow-suc}
use simple_dns.Common.Tests.{◌==◌, ==_iff}

-- `x << k` where nothing is shifted out, and `x >> k`.
abbrev pub shl : ℕ → ℕ → ℕ
shl x k = x * 2 ^ k

abbrev pub shr : ℕ → ℕ → ℕ
shr x k = x / 2 ^ k

-- The operations recurse on fuel; fuel that is not used changes nothing.
module _ (z : ℕ → ℕ) (f : ℕ → ℕ → ℕ) where
  one_more : (fuel x y : ℕ) → x ≤ fuel → digits z f (suc fuel) x y ≡ digits z f fuel x y
  one_more fuel zero y h = nothing_left fuel y
    where
      nothing_left : (fuel y : ℕ) → digits z f (suc fuel) zero y ≡ digits z f fuel zero y
      nothing_left zero y = refl
      nothing_left (suc fuel) y = refl
  one_more zero (suc x) y h = absurd (omega arith)
  one_more (suc fuel) (suc x) y h = omega (arith, one_more fuel (suc x / 2) (y / 2) (omega arith))

  spare : (fuel x y : ℕ) → x ≤ fuel → digits z f fuel x y ≡ digits z f x x y
  spare zero x y h =
      let none_left : 0 ≡ x = omega arith in ap (λ (n : ℕ). digits z f n x y) none_left
  spare (suc fuel) x y h = elim (dec_le x fuel) [
    | yes p ↦ one_more fuel x y p ∙ spare fuel x y p
    | no q ↦ let all_used : suc fuel ≡ x = omega arith in ap (λ (n : ℕ). digits z f n x y) all_used
  ]

zero-bit_or : (b : ℕ) → bit_or 0 b ≡ b
zero-bit_or b = bit_or-bitwise 0 b

zero-bit_and : (b : ℕ) → bit_and 0 b ≡ 0
zero-bit_and b = bit_and-bitwise 0 b

-- The lowest binary digit, split off.
bit_or_low : (a b : ℕ) → bit_or a b ≡ bit_or (a / 2) (b / 2) * 2 + max (a % 2) (b % 2)
bit_or_low zero b = omega (arith, zero-bit_or b, zero-bit_or (b / 2))
bit_or_low (suc a) b = omega (
  arith,
  bit_or-bitwise (suc a) b,
  bit_or-bitwise (suc a / 2) (b / 2),
  spare (λ y. y) max a (suc a / 2) (b / 2) (omega arith),
)

bit_and_low : (a b : ℕ) → bit_and a b ≡ bit_and (a / 2) (b / 2) * 2 + min (a % 2) (b % 2)
bit_and_low zero b = omega (arith, zero-bit_and b, zero-bit_and (b / 2))
bit_and_low (suc a) b = omega (
  arith,
  bit_and-bitwise (suc a) b,
  bit_and-bitwise (suc a / 2) (b / 2),
  spare (λ _. zero) min a (suc a / 2) (b / 2) (omega arith),
)

bit_or-zero_below : (n a : ℕ) → a ≤ n → bit_or a 0 ≡ a
bit_or-zero_below n zero h = refl
bit_or-zero_below zero (suc a) h = absurd (omega arith)
bit_or-zero_below (suc n) (suc a) h =
    omega (arith, bit_or_low (suc a) 0, bit_or-zero_below n (suc a / 2) (omega arith))

bit_and-zero_below : (n a : ℕ) → a ≤ n → bit_and a 0 ≡ 0
bit_and-zero_below n zero h = refl
bit_and-zero_below zero (suc a) h = absurd (omega arith)
bit_and-zero_below (suc n) (suc a) h =
    omega (arith, bit_and_low (suc a) 0, bit_and-zero_below n (suc a / 2) (omega arith))

pub double : (x k : ℕ) → x * 2 ^ suc k ≡ x * 2 ^ k * 2
double x k = omega (arith, ap (λ (t : ℕ). x * t) (pow-suc 2 k))

half : (n : ℕ) → n * 2 / 2 ≡ n
half n = omega arith

-- `(x << k) | y` joins two fields when `y` fits the low `k` bits.
pub bit_or-shl : (k x y : ℕ) → y < 2 ^ k → bit_or (x * 2 ^ k) y ≡ x * 2 ^ k + y
bit_or-shl zero x y h = ground (arith, bit_or-zero_below x x (omega arith))
bit_or-shl (suc k) x y h =
    let twice : x * 2 ^ suc k ≡ x * 2 ^ k * 2 = double x k in
    rw twice (
      omega (
        arith,
        bit_or_low (x * 2 ^ k * 2) y,
        ap (λ (t : ℕ). bit_or t (y / 2)) (half (x * 2 ^ k)),
        bit_or-shl k x (y / 2) (omega (arith, double 1 k)),
      ))

-- A mask of ones, one digit longer.
pub bit_and_odd : (a m : ℕ) → bit_and a (m * 2 + 1) ≡ bit_and (a / 2) m * 2 + a % 2
bit_and_odd a m =
    let e : (m * 2 + 1) / 2 ≡ m = omega arith in
    omega (arith, bit_and_low a (m * 2 + 1), ap (λ (t : ℕ). bit_and (a / 2) t) e)

bit_and_nibble : (x : ℕ) → bit_and x 0xf ≡ x % 16
bit_and_nibble x = omega (
  arith,
  bit_and_odd x 7,
  bit_and_odd (x / 2) 3,
  bit_and_odd (x / 2 / 2) 1,
  bit_and_odd (x / 2 / 2 / 2) 0,
  bit_and-zero_below (x / 2 / 2 / 2 / 2) (x / 2 / 2 / 2 / 2) (omega arith),
)

-- `x & 0xFF`
pub bit_and_byte : (x : ℕ) → bit_and x 0xff ≡ x % 256
bit_and_byte x = omega (
  arith,
  bit_and_odd x 0x7f,
  bit_and_odd (x / 2) 0x3f,
  bit_and_odd (x / 2 / 2) 0x1f,
  bit_and_odd (x / 2 / 2 / 2) 0xf,
  bit_and_nibble (x / 2 / 2 / 2 / 2),
)

-- A test of all values below a small bound.
unfoldable pub all_below : ℕ → (ℕ → Bool) → Bool
all_below zero p = true
all_below (suc n) p = p n && all_below n p

pub all_below→so : (n : ℕ) (p : ℕ → Bool) (x : ℕ) → all_below n p ≡ true → x < n → p x ≡ true
unfolding all_below
all_below→so zero p x h lt = absurd (omega arith)
all_below→so (suc n) p x h lt = ground (arith, all_below→so n p x)

-- Two functions that agree on every byte by evaluation.
pub agree_below :
    (n : ℕ) (f g : ℕ → ℕ) → all_below n (λ x. f x == g x) ≡ true → (x : ℕ) → x < n → f x ≡ g x
agree_below n f g t x h = (==_iff (f x) (g x)).0 (all_below→so n (λ x. f x == g x) x t h)

-- The top two bits of a length octet, which mark a compression pointer.
pub bit_and_top_two : (c : ℕ) → c < 256 → bit_and c 0xc0 ≡ c / 64 * 64
unfolding all_below
bit_and_top_two = agree_below 256 _ _ refl

pub bit_and_low_six : (c : ℕ) → c < 256 → bit_and c 0x3f ≡ c % 64
unfolding all_below
bit_and_low_six = agree_below 256 _ _ refl

pub bit_or_top_two : (x : ℕ) → x < 64 → bit_or 0xc0 x ≡ 192 + x
unfolding all_below
bit_or_top_two = agree_below 64 _ _ refl

pub bit_and_even : (v m : ℕ) → bit_and v (m * 2) ≡ bit_and (v / 2) m * 2
bit_and_even v m = omega (arith, bit_and_low v (m * 2), ap (λ (t : ℕ). bit_and (v / 2) t) (half m))

-- A single bit of a number that has no higher one.
pub bit_and_below : (k v : ℕ) → v < 2 ^ k → bit_and v (2 ^ k) ≡ 0
bit_and_below zero v h =
    let none_left : v ≡ 0 = omega (arith, pow-zero 2) in rw none_left (zero-bit_and (2 ^ zero))
bit_and_below (suc k) v h =
    let twice : 2 ^ suc k ≡ 2 ^ k * 2 = pow-suc 2 k in
    rw twice (omega (arith, bit_and_even v (2 ^ k), bit_and_below k (v / 2) (omega (arith, twice))))

pub bit_and_above : (k v : ℕ) → 2 ^ k ≤ v → v < 2 ^ suc k → bit_and v (2 ^ k) ≡ 2 ^ k
bit_and_above zero v h g =
    let one : v ≡ 1 = omega (arith, pow-suc 2 zero, pow-zero 2) in rw one refl
bit_and_above (suc k) v h g =
    let twice : 2 ^ suc k ≡ 2 ^ k * 2 = pow-suc 2 k in
    rw twice (
      omega (
        arith,
        bit_and_even v (2 ^ k),
        bit_and_above k (v / 2) (omega (arith, twice)) (omega (arith, twice, pow-suc 2 (suc k))),
      ))
