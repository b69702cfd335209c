-- ===== src/Edns/Skip.antt =====
-- `skip_name` on a name that a message spells.
use simple_dns.Common.{
  ℕ, zero, suc, ◌+◌, ◌≤◌, ◌<◌, Bool, true, false, List, ◌++◌, Bytes, length, ◌==◌, le→leb, lt→leb,
  ◌≡◌, refl, ap, ◌∙◌, arith,
}
use simple_dns.Common.Memory.{ok}
use simple_dns.Common.Memory.Cursor.{read-drop, length_at_cons}
use simple_dns.Compress.Spells.{Spells, root, label, pointer, end_of, drop-append}
use simple_dns.Name.{is_pointer}
use simple_dns.Name.RoundTrip.{is_pointer-label}
use simple_dns.Name.Pointer.{is_pointer_lem}
use simple_dns.Edns.{skip_from, skip_name}

ne : (n : ℕ) → 0 < n → (n == 0) ≡ false
ne n h = ground arith

elim_true {ℓ} : {S : Type ℓ} (b : Bool) (l r : S) → b ≡ true → elim b [ true ↦ l | false ↦ r ] ≡ l
elim_true true l r h = refl
elim_true false l r h = cc

elim_false {ℓ} : {S : Type ℓ} (b : Bool) (l r : S) → b ≡ false → elim b [ true ↦ l | false ↦ r ] ≡ r
elim_false true l r h = cc
elim_false false l r h = refl

module _ (msg more : Bytes) where
  skip_from-Spells :
      {n o : ℕ} {ls : List Bytes} (sp : Spells msg n o ls) (rounds : ℕ)
      → n ≤ rounds
      → skip_from rounds (msg ++ more) (length msg) o ≡ ok (end_of sp)
  unfolding skip_from
  skip_from-Spells (root o rest e) zero le = absurd (omega arith)
  skip_from-Spells (root o rest e) (suc rounds) le =
      rw
        (
          lt→leb (length msg) o (omega (arith, length_at_cons msg o e)),
          read-drop (msg ++ more) o (drop-append o msg more e),
        )
        refl
  skip_from-Spells (label o l rest h e sp) zero le = absurd (omega arith)
  skip_from-Spells (label o l rest h e sp) (suc rounds) le =
      rw
        (
          lt→leb (length msg) o (omega (arith, length_at_cons msg o e)),
          read-drop (msg ++ more) o (drop-append o msg more e),
        )
        (elim_false (is_pointer (length l)) _ _ (is_pointer-label (length l) h.1)
          ∙ elim_false (length l == 0) _ _ (ne (length l) h.0)
          ∙ ap (skip_from rounds (msg ++ more) (length msg)) (omega arith)
          ∙ skip_from-Spells sp rounds (omega arith))
  skip_from-Spells (pointer o c lo rest p e back sp) zero le = absurd (omega arith)
  skip_from-Spells (pointer o c lo rest p e back sp) (suc rounds) le =
      rw
        (
          lt→leb (length msg) o (omega (arith, length_at_cons msg o e)),
          read-drop (msg ++ more) o (drop-append o msg more e),
        )
        (elim_true (is_pointer c) _ _ (is_pointer_lem c lo p)
          ∙ rw (le→leb (o + 2) (length msg) (omega (arith, length_at_cons msg o e))) refl)

-- `skip_name` at a name that the message spells within 128 rounds returns the offset that
-- `name_from_wire` returns for it, the place behind its root label or its first pointer.
pub skip_name-Spells :
    (msg more : Bytes) {n o : ℕ} {ls : List Bytes} (sp : Spells msg n o ls)
    → n ≤ 128
    → skip_name (msg ++ more) (length msg) o ≡ ok (end_of sp)
unfolding skip_name
skip_name-Spells msg more sp few = skip_from-Spells msg more sp 128 few
