-- ===== src/Common/Memory/Cursor.antt =====
-- Reading at a cursor: what the buffer holds from an offset on decides the reads there.
use simple_dns.Common.Lists.{Bytes, length, take, drop, get_elem?, length-drop, take-append_length}
use simple_dns.Common.Memory.{ok, read, slice, patch, slice_fits, drop-drop}
use Prim.Native.Nat.{ℕ, zero, suc, ◌+◌, ◌≤◌}
use mathlib.Core.Path.{◌≡◌, refl, sym, ap, ◌∙◌}
use mathlib.Core.List.{[], ◌∷◌, ◌++◌}
use mathlib.Core.Option.{some}
use native.Mathlib.Omega.{arith}

get_elem?-drop :
    (buf : Bytes) (i : ℕ) {b : ℕ} {rest : Bytes} → drop i buf ≡ b ∷ rest → get_elem? buf i ≡ some b
get_elem?-drop [] zero e = cc
get_elem?-drop [] (suc i) e = cc
get_elem?-drop (x ∷ buf) zero e = cc
get_elem?-drop (x ∷ buf) (suc i) e = get_elem?-drop buf i e

pub read-drop :
    (buf : Bytes) (i : ℕ) {b : ℕ} {rest : Bytes} → drop i buf ≡ b ∷ rest → read buf i ≡ ok b
unfolding read
read-drop buf i e = rw (get_elem?-drop buf i e, read)

drop-append_length : (xs rest : Bytes) → drop (length xs) (xs ++ rest) ≡ rest
drop-append_length [] rest = refl
drop-append_length (x ∷ xs) rest = drop-append_length xs rest

-- The cursor moves past what stands there.
pub drop_past :
    (buf : Bytes) (i : ℕ) (xs : Bytes) {rest : Bytes}
    → drop i buf ≡ xs ++ rest
    → drop (i + length xs) buf ≡ rest
drop_past buf i xs {rest} e =
    sym (drop-drop (length xs) i buf) ∙ ap (drop (length xs)) e ∙ drop-append_length xs rest

pub drop_next :
    (buf : Bytes) (i : ℕ) {b : ℕ} {rest : Bytes} → drop i buf ≡ b ∷ rest → drop (i + 1) buf ≡ rest
drop_next buf i {b} e = drop_past buf i (b ∷ []) e

-- A cursor inside the buffer knows how much of it is left.
pub length_at :
    (buf : Bytes) (i : ℕ) {rest : Bytes}
    → drop i buf ≡ rest
    → i ≤ length buf
    → length buf ≡ i + length rest
length_at buf i e h = omega (arith, ap length e, length-drop i buf)

pub length_at_cons :
    (buf : Bytes) (i : ℕ) {b : ℕ} {rest : Bytes}
    → drop i buf ≡ b ∷ rest
    → length buf ≡ i + length rest + 1
length_at_cons buf i e = omega (arith, ap length e, length-drop i buf)

pub slice-drop :
    (buf : Bytes) (i : ℕ) (xs rest : Bytes)
    → drop i buf ≡ xs ++ rest
    → i + length xs ≤ length buf
    → slice buf i (length xs) ≡ ok xs
slice-drop buf i xs rest e h =
    slice_fits buf i (length xs) h ∙ ap ok (ap (take (length xs)) e ∙ take-append_length xs rest)

pub drop-patch :
    (buf : Bytes) (off : ℕ) (vs : Bytes)
    → off + length vs ≤ length buf
    → drop off (patch buf off vs) ≡ vs ++ drop (off + length vs) buf
drop-patch buf zero vs h = ap (λ (k : ℕ). vs ++ drop k buf) (omega arith)
drop-patch [] (suc off) vs h = absurd (omega arith)
drop-patch (x ∷ buf) (suc off) vs h =
    let e : suc off + length vs ≡ suc (off + length vs) = omega arith in
    rw e (drop-patch buf off vs (omega arith))

pub take-patch :
    (buf : Bytes) (off : ℕ) (vs : Bytes)
    → off + length vs ≤ length buf
    → take off (patch buf off vs) ≡ take off buf
take-patch buf zero vs h = refl
take-patch [] (suc off) vs h = refl
take-patch (x ∷ buf) (suc off) vs h = ap (◌∷◌ x) (take-patch buf off vs (omega arith))
