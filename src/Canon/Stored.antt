-- ===== src/Canon/Stored.antt =====
-- dns_wire.c, the kinds of rdata: what each writes.
use simple_dns.Common.{
  ℕ, zero, suc, ◌+◌, ◌-◌, ◌≤◌, [], ◌∷◌, ◌++◌, Bytes, length, leb, drop, length-append, append_assoc,
  le→ltb, le→leb, lt→leb, lt→ltb, dec_le, if◌then◌else◌, ◌≡◌, refl, sym, ap, ◌∙◌, arith,
}
use simple_dns.Common.Memory.{
  Outcome, ok, err, ◌>>=◌, slice, patch, write_fits, patch-patch, length-patch,
}
use simple_dns.Common.Memory.Cursor.{slice-drop, read-drop, drop_next}
use simple_dns.Compress.Spells.{Spells-inside, drop-append}
use simple_dns.Canon.{copy_name, canon_name, canon_mx, canon_srv, canon_other}
use simple_dns.Canon.Names.{PlainName, canonical, copy_name-PlainName}

-- The bytes at the start of the buffer where they fit, and a refusal where they do not.
abbrev pub stored : Bytes → Bytes → ℕ → Outcome (Bytes × ℕ)
stored rdata out outsz =
    if leb (length rdata) outsz then ok (patch out 0 rdata, length rdata) else err

drop-append_inside :
    (o : ℕ) (msg more : Bytes) → o ≤ length msg → drop o (msg ++ more) ≡ drop o msg ++ more
drop-append_inside zero msg more h = refl
drop-append_inside (suc o) [] more h = absurd (omega arith)
drop-append_inside (suc o) (x ∷ msg) more h = drop-append_inside o msg more (omega arith)

-- A copy out of the message.
pub slice_inside :
    (msg more : Bytes) (o n : ℕ) (xs rest : Bytes)
    → drop o msg ≡ xs ++ rest
    → length xs ≡ n
    → o + n ≤ length msg
    → slice (msg ++ more) o n ≡ ok xs
slice_inside msg more o n xs rest e len h =
    ap (slice (msg ++ more) o) (sym len)
    ∙ slice-drop (msg ++ more) o xs (rest ++ more)
        (drop-append_inside o msg more (omega arith)
          ∙ ap (λ (t : Bytes). t ++ more) e
          ∙ append_assoc xs rest more)
        (omega (arith, len, length-append msg more))

module _ (msg more : Bytes) (out : Bytes) (outsz : ℕ) (h : outsz ≤ length out) where
  pub canon_name-Canonical :
      {o : ℕ} (x : PlainName msg o)
      → canon_name (msg ++ more) (length msg) o out outsz ≡ stored (canonical x) out outsz
  unfolding canon_name
  canon_name-Canonical x =
      rw (copy_name-PlainName {msg = msg} more x out 0 outsz (omega (arith, h)))
        (elim (dec_le (length (canonical x)) outsz) [
          | yes p ↦ rw (le→leb (length (canonical x)) outsz p) refl
          | no n ↦ rw (lt→leb (length (canonical x)) outsz (omega arith)) refl
        ])

  -- Fixed bytes that are written in front of a name, with the room behind them.
  prefixed :
      {o : ℕ} (x : PlainName msg o) (fixed : Bytes) (k : ℕ)
      → length fixed ≡ k
      → k ≤ outsz
      → (copy_name (msg ++ more) (length msg) o (patch out 0 fixed) k (outsz - k) >>= λ c.
          ok (c.out, k + c.written))
        ≡ stored (fixed ++ canonical x) out outsz
  prefixed x fixed k len fits =
      let len' : k ≡ 0 + length fixed = omega (arith, len) in
      let whole : length (fixed ++ canonical x) ≡ k + length (canonical x) =
        length-append fixed (canonical x) ∙ omega (arith, len) in
      let joined : patch (patch out 0 fixed) k (canonical x) ≡ patch out 0 (fixed ++ canonical x) =
        ap (λ (i : ℕ). patch (patch out 0 fixed) i (canonical x)) len'
        ∙ patch-patch out 0 fixed (canonical x) in
      rw
        (copy_name-PlainName {msg = msg} more x (patch out 0 fixed) k (outsz - k)
          (omega (arith, length-patch out 0 fixed (omega (arith, len)))))
        (elim (dec_le (length (canonical x)) (outsz - k)) [
          | yes p ↦
              rw
                (
                  le→leb (length (canonical x)) (outsz - k) p,
                  le→leb (length (fixed ++ canonical x)) outsz (omega (arith, whole)),
                  joined,
                  whole,
                )
                refl
          | no n ↦
              rw
                (
                  lt→leb (length (canonical x)) (outsz - k) (omega arith),
                  lt→leb (length (fixed ++ canonical x)) outsz (omega (arith, whole)),
                )
                refl
        ])

  pub canon_mx-Canonical :
      (o : ℕ) (hi lo : ℕ) (rest : Bytes) (rdlen : ℕ) (x : PlainName msg (o + 2))
      → 3 ≤ rdlen
      → drop o msg ≡ hi ∷ lo ∷ rest
      → canon_mx (msg ++ more) (length msg) o rdlen out outsz
        ≡ stored (hi ∷ lo ∷ canonical x) out outsz
  unfolding canon_mx
  canon_mx-Canonical o hi lo rest rdlen x long e = elim (dec_le 2 outsz) [
    | no n ↦
        rw
          (
            le→ltb rdlen 3 long,
            lt→ltb outsz 2 (omega arith),
            lt→leb (length (hi ∷ lo ∷ canonical x)) outsz (omega arith),
          )
          refl
    | yes p ↦
        let at : drop o (msg ++ more) ≡ hi ∷ (lo ∷ rest ++ more) = drop-append o msg more e in
        rw
          (
            le→ltb rdlen 3 long,
            le→ltb outsz 2 p,
            read-drop (msg ++ more) o at,
            read-drop (msg ++ more) (o + 1) (drop_next (msg ++ more) o at),
            write_fits out 0 (hi ∷ lo ∷ []) (omega arith),
          )
          (prefixed x (hi ∷ lo ∷ []) 2 refl p)
  ]

  pub canon_srv-Canonical :
      (o : ℕ) (fixed rest : Bytes) (rdlen : ℕ) (x : PlainName msg (o + 6))
      → 7 ≤ rdlen
      → length fixed ≡ 6
      → drop o msg ≡ fixed ++ rest
      → canon_srv (msg ++ more) (length msg) o rdlen out outsz
        ≡ stored (fixed ++ canonical x) out outsz
  unfolding canon_srv
  canon_srv-Canonical o fixed rest rdlen x long len e = elim (dec_le 6 outsz) [
    | no n ↦
        rw
          (
            le→ltb rdlen 7 long,
            lt→ltb outsz 6 (omega arith),
            lt→leb (length (fixed ++ canonical x)) outsz
                (omega (arith, len, length-append fixed (canonical x))),
          )
          refl
    | yes p ↦
        rw
          (
            le→ltb rdlen 7 long,
            le→ltb outsz 6 p,
            slice_inside msg more o 6 fixed rest e len (omega (arith, Spells-inside x.spells)),
            write_fits out 0 fixed (omega (arith, len)),
          )
          (prefixed x fixed 6 len p)
  ]

  pub canon_other-Canonical :
      (o : ℕ) (rdata rest : Bytes) (rdlen : ℕ)
      → length rdata ≡ rdlen
      → drop o msg ≡ rdata ++ rest
      → o + rdlen ≤ length msg
      → canon_other (msg ++ more) o rdlen out outsz ≡ stored rdata out outsz
  unfolding canon_other
  canon_other-Canonical o rdata rest rdlen len e inside = elim (dec_le rdlen outsz) [
    | no n ↦
        rw (lt→ltb outsz rdlen (omega arith), lt→leb (length rdata) outsz (omega (arith, len))) refl
    | yes p ↦
        rw
          (
            le→ltb outsz rdlen p,
            slice_inside msg more o rdlen rdata rest e len inside,
            write_fits out 0 rdata (omega (arith, len)),
            len,
            le→leb rdlen outsz p,
          )
          refl
  ]
