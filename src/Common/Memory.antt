-- ===== src/Common/Memory.antt =====
-- C memory: a result or a failure, reads and writes with bounds. Every buffer is the list of its
-- bytes, and a pointer into it is an offset.
pub mod Cursor
pub mod Safe
use Prim.Native.Nat.{ℕ, zero, suc, ◌+◌, ◌≤◌, ◌<◌}
use mathlib.Core.Path.{◌≡◌, refl, ap, ◌∙◌}
use mathlib.Core.Logic.{◌≢◌}
use mathlib.Core.List.{List, [], ◌∷◌, ◌++◌, append_assoc}
use mathlib.Core.Option.{Option, none, some}
use mathlib.Core.Bool.{Bool}
use native.Mathlib.Omega.{arith}
use simple_dns.Common.Tests.{leb, le→leb, if◌then◌else◌}
use simple_dns.Common.Lists.{
  Bytes, length, get_elem?, take, drop, length-append, length-take, length-drop, take-append_length,
  drop-append_length, get_elem?-some,
}

-- `err` is the return value -1. `fault` is an access outside a buffer, which C does not define.
pub data Outcome {ℓ} (A : Type ℓ) : Type ℓ where
  ok : A → Outcome A
  err : Outcome A
  fault : Outcome A

infixl 5 ◌>>=◌
abbrev pub ◌>>=◌ {ℓ κ} : {A : Type ℓ} {B : Type κ} → Outcome A → (A → Outcome B) → Outcome B
ok a >>= f = f a
err >>= f = err
fault >>= f = fault

infixl 5 ◌>>◌
abbrev pub ◌>>◌ {ℓ} : {B : Type ℓ} → Outcome (Unit {0}) → Outcome B → Outcome B
m >> k = m >>= λ _. k

-- `if (refused) return -1;`
abbrev pub refuse_if : Bool → Outcome (Unit {0})
refuse_if b = if b then err else ok tt

-- `buf[i]`
unfoldable pub read : Bytes → ℕ → Outcome ℕ
read buf i = elim (get_elem? buf i) [ none ↦ fault | some b ↦ ok b ]

-- The buffer with `vs` at `off`, where they fit.
abbrev pub patch : Bytes → ℕ → Bytes → Bytes
patch buf zero vs = vs ++ drop (length vs) buf
patch [] (suc off) vs = []
patch (x ∷ buf) (suc off) vs = x ∷ patch buf off vs

-- Stores `vs` at `buf + off`: an assignment, or a `memcpy` from elsewhere.
unfoldable pub write : Bytes → ℕ → Bytes → Outcome Bytes
write buf off vs = if leb (off + length vs) (length buf) then ok (patch buf off vs) else fault

-- The `n` bytes at `buf + off`: the source of a `memcpy`.
unfoldable pub slice : Bytes → ℕ → ℕ → Outcome Bytes
slice buf off n = if leb (off + n) (length buf) then ok (take n (drop off buf)) else fault

pub write_fits :
    (buf : Bytes) (off : ℕ) (vs : Bytes)
    → off + length vs ≤ length buf
    → write buf off vs ≡ ok (patch buf off vs)
unfolding write
write_fits buf off vs h = rw (le→leb _ _ h)

pub slice_fits :
    (buf : Bytes) (off n : ℕ) → off + n ≤ length buf → slice buf off n ≡ ok (take n (drop off buf))
unfolding slice
slice_fits buf off n h = rw (le→leb _ _ h)

pub read_fits : (buf : Bytes) (i : ℕ) → i < length buf → (b : ℕ) × (read buf i ≡ ok b)
unfolding read
read_fits buf i h = let (b, e) = get_elem?-some buf i h in (b, rw (e, read))

drop-nil : (n : ℕ) → drop {A = ℕ} n [] ≡ []
drop-nil zero = refl
drop-nil (suc n) = refl

pub drop-drop : (n m : ℕ) (xs : Bytes) → drop n (drop m xs) ≡ drop (m + n) xs
drop-drop n zero xs = ap (λ (k : ℕ). drop k xs) (omega arith)
drop-drop n (suc m) [] = let e : suc m + n ≡ suc (m + n) = omega arith in rw e (drop-nil n)
drop-drop n (suc m) (x ∷ xs) =
    let e : suc m + n ≡ suc (m + n) = omega arith in rw e (drop-drop n m xs)

pub length-patch :
    (buf : Bytes) (off : ℕ) (vs : Bytes)
    → off + length vs ≤ length buf
    → length (patch buf off vs) ≡ length buf
length-patch buf zero vs h =
    omega (arith, length-append vs (drop (length vs) buf), length-drop (length vs) buf)
length-patch [] (suc off) vs h = refl
length-patch (x ∷ buf) (suc off) vs h = ap suc (length-patch buf off vs (omega arith))

-- What stands before the bytes written, and behind them.
pub patch_split :
    (buf : Bytes) (off : ℕ) (vs : Bytes)
    → off + length vs ≤ length buf
    → patch buf off vs ≡ take off buf ++ (vs ++ drop (off + length vs) buf)
patch_split buf zero vs h = ap (λ (k : ℕ). vs ++ drop k buf) (omega arith)
patch_split [] (suc off) vs h = absurd (omega arith)
patch_split (x ∷ buf) (suc off) vs h =
    let e : suc off + length vs ≡ suc (off + length vs) = omega arith in
    rw e (ap (◌∷◌ x) (patch_split buf off vs (omega arith)))

pub patch_behind : (vs rest ws : Bytes) → patch (vs ++ rest) (length vs) ws ≡ vs ++ patch rest 0 ws
patch_behind [] rest ws = refl
patch_behind (v ∷ vs) rest ws = ap (◌∷◌ v) (patch_behind vs rest ws)

-- Two writes one behind the other are one write.
pub patch-patch :
    (buf : Bytes) (off : ℕ) (vs ws : Bytes)
    → patch (patch buf off vs) (off + length vs) ws ≡ patch buf off (vs ++ ws)
patch-patch buf zero vs ws =
    let e : zero + length vs ≡ length vs = omega arith in
    rw (e, patch_behind, drop-drop, length-append, append_assoc)
patch-patch [] (suc off) vs ws =
    let e : suc off + length vs ≡ suc (off + length vs) = omega arith in rw e
patch-patch (x ∷ buf) (suc off) vs ws =
    let e : suc off + length vs ≡ suc (off + length vs) = omega arith in
    rw e (ap (◌∷◌ x) (patch-patch buf off vs ws))

pub patch-nil : (buf : Bytes) (off : ℕ) → patch buf off [] ≡ buf
patch-nil buf zero = refl
patch-nil [] (suc off) = refl
patch-nil (x ∷ buf) (suc off) = ap (◌∷◌ x) (patch-nil buf off)
