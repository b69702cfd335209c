-- ===== src/Tlv/Fold.antt =====
-- The readers' loop over a blob.
use simple_dns.Common.{
  ℕ, zero, suc, ◌+◌, ◌≤◌, ◌<◌, Option, none, some, List, [], ◌∷◌, ◌++◌, Bytes, length, All, drop,
  length-append, append_assoc, ◌≡◌, refl, ◌∙◌, arith,
}
use simple_dns.Common.Memory.{Outcome, ok, err, fault, ◌>>=◌}
use simple_dns.Common.Memory.Safe.{Holds, bind-Holds}
use simple_dns.Common.Memory.Cursor.{drop_past}
use simple_dns.Tlv.{Item, tlv_next, tlv_fold}
use simple_dns.Tlv.Items.{item_of, tlv_next-drop, InBlob, tlv_next-InBlob}

-- A tag and a value.
abbrev pub Tagged : Type 0
Tagged = ℕ × Bytes

abbrev pub blob_of : List Tagged → Bytes
blob_of [] = []
blob_of ((t, v) ∷ is) = item_of t v ++ blob_of is

bind_same {ℓ κ} :
    {A : Type ℓ} {B : Type κ} (m : Outcome A) (f g : A → Outcome B)
    → ((a : A) → f a ≡ g a)
    → (m >>= f) ≡ (m >>= g)
bind_same (ok a) f g h = h a
bind_same err f g h = refl
bind_same fault f g h = refl

tlv_next_end : (buf : Bytes) (buflen off : ℕ) → off ≡ buflen → tlv_next buf buflen off ≡ ok none
unfolding tlv_next
tlv_next_end buf buflen off e = ground arith

module _ {ℓ} {S : Type ℓ} (step : S → ℕ → Bytes → Outcome S) where
  -- The body on each item in turn.
  abbrev pub each : List Tagged → S → Outcome S
  each [] s = ok s
  each ((t, v) ∷ is) s = step s t v >>= each is

  -- On a blob of items the loop runs its body on each of them in turn.
  pub tlv_fold-blob_of :
      (is : List Tagged) (fuel : ℕ) (buf : Bytes) (buflen off : ℕ) (s : S) (rest : Bytes)
      → buflen ≤ length buf
      → length is < fuel
      → All (λ i. length i.1 ≤ 0xffff) is
      → drop off buf ≡ blob_of is ++ rest
      → off + length (blob_of is) ≡ buflen
      → tlv_fold step fuel buf buflen off s ≡ each is s
  unfolding tlv_fold
  tlv_fold-blob_of [] zero buf buflen off s rest h few small e end = absurd (omega arith)
  tlv_fold-blob_of [] (suc fuel) buf buflen off s rest h few small e end =
      rw (tlv_next_end buf buflen off (omega arith))
  tlv_fold-blob_of (i ∷ is) zero buf buflen off s rest h few small e end = absurd (omega arith)
  tlv_fold-blob_of ((t, v) ∷ is) (suc fuel) buf buflen off s rest h few small e end =
      let at : drop off buf ≡ item_of t v ++ (blob_of is ++ rest) =
        e ∙ append_assoc (item_of t v) (blob_of is) rest in
      let size : length (blob_of ((t, v) ∷ is)) ≡ length (item_of t v) + length (blob_of is) =
        length-append (item_of t v) (blob_of is) in
      rw (tlv_next-drop buf buflen off t v (blob_of is ++ rest) h at small.0 (omega arith)) (
        bind_same (step s t v) (tlv_fold step fuel buf buflen (off + length (item_of t v)))
          (each is)
          (λ s'.
            tlv_fold-blob_of is fuel buf buflen (off + length (item_of t v)) s' rest h (omega arith)
              small.1 (drop_past buf off (item_of t v) at) (omega arith)))

  after_next :
      (P : S → Type 0) (buf : Bytes) (buflen off : ℕ) (s : S) (later : S → ℕ → Outcome S)
      (r : Outcome (Option Item))
      → InBlob off buflen r
      → ((s' : S) (t : ℕ) (v : Bytes) → P s' → Holds P (step s' t v))
      → ((s' : S) (o : ℕ) → off < o → o ≤ buflen → P s' → Holds P (later s' o))
      → P s
      → Holds P
          (r >>= elim [ none ↦ ok s | some i ↦ step s i.tag i.val >>= λ s'. later s' i.after ])
  after_next P buf buflen off s later (ok none) b keep k p = p
  after_next P buf buflen off s later (ok (some i)) b keep k p =
      bind-Holds P P (step s i.tag i.val) (λ s'. later s' i.after) (keep s i.tag i.val p)
        (λ s'. k s' i.after (omega arith) (omega arith))
  after_next P buf buflen off s later err b keep k p = tt
  after_next P buf buflen off s later fault b keep k p = b

  -- On any bytes, with fuel for one item at each offset, the loop over a blob ends, reads within the
  -- blob, and keeps what its body keeps.
  pub tlv_fold-Holds :
      (P : S → Type 0) (buf : Bytes) (buflen : ℕ)
      → buflen ≤ length buf
      → ((s : S) (t : ℕ) (v : Bytes) → P s → Holds P (step s t v))
      → (fuel off : ℕ) (s : S) → off ≤ buflen
      → buflen < off + fuel
      → P s
      → Holds P (tlv_fold step fuel buf buflen off s)
  unfolding tlv_fold
  tlv_fold-Holds P buf buflen h keep zero off s start enough p = absurd (omega arith)
  tlv_fold-Holds P buf buflen h keep (suc fuel) off s start enough p =
      after_next P buf buflen off s (λ s' o. tlv_fold step fuel buf buflen o s')
        (tlv_next buf buflen off) (tlv_next-InBlob buf buflen off h) keep
        (λ s' o more fits. tlv_fold-Holds P buf buflen h keep fuel o s' fits (omega arith)) p
