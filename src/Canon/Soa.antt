-- ===== src/Canon/Soa.antt =====
-- dns_wire.c, what `canon_soa` writes.
use simple_dns.Common.{
  ℕ, ◌+◌, ◌-◌, ◌≤◌, ◌||◌, ◌++◌, Bytes, length, ltb, drop, length-drop, length-append, le→ltb,
  le→leb, lt→leb, lt→ltb, dec_le, ◌≡◌, refl, sym, ap, ◌∙◌, arith,
}
use simple_dns.Common.Memory.{
  ok, ◌>>=◌, ◌>>◌, refuse_if, slice, write, patch, write_fits, patch-patch, length-patch,
}
use simple_dns.Canon.{canon_soa}
use simple_dns.Canon.Stored.{stored, slice_inside}
use simple_dns.Canon.Names.{PlainName, canonical, behind, copy_name-PlainName}

module _ (msg more : Bytes) (out : Bytes) (outsz : ℕ) (h : outsz ≤ length out) where
  patched :
      (front wire : Bytes)
      → patch (patch out 0 front) (length front) wire ≡ patch out 0 (front ++ wire)
  patched front wire =
      let none_before : length front ≡ 0 + length front = omega arith in
      ap (λ (i : ℕ). patch (patch out 0 front) i wire) none_before ∙ patch-patch out 0 front wire

  -- The numbers of an SOA behind its names, which take `n` bytes.
  soa_numbers :
      (o : ℕ) (names numbers rest : Bytes) (n : ℕ)
      → length numbers ≡ 20
      → drop o msg ≡ numbers ++ rest
      → length names ≡ n
      → n ≤ outsz
      → (refuse_if (ltb (length msg) (o + 20) || ltb outsz (n + 20))
          >> (slice (msg ++ more) o 20 >>= λ ns.
              write (patch out 0 names) n ns >>= λ out3. ok (out3, n + 20)))
        ≡ stored (names ++ numbers) out outsz
  soa_numbers o names numbers rest n len e size fits =
      let inside : o + 20 ≤ length msg =
        omega (arith, len, ap length e, length-drop o msg, length-append numbers rest) in
      let whole : length (names ++ numbers) ≡ n + 20 =
        length-append names numbers ∙ omega (arith, len, size) in
      let joined : patch (patch out 0 names) n numbers ≡ patch out 0 (names ++ numbers) =
        ap (λ (i : ℕ). patch (patch out 0 names) i numbers) (sym size) ∙ patched names numbers in
      elim (dec_le (n + 20) outsz) [
        | no k ↦
            rw
              (
                le→ltb (length msg) (o + 20) inside,
                lt→ltb outsz (n + 20) (omega arith),
                lt→leb (length (names ++ numbers)) outsz (omega (arith, whole)),
              )
              refl
        | yes p ↦
            rw
              (
                le→ltb (length msg) (o + 20) inside,
                le→ltb outsz (n + 20) p,
                slice_inside msg more o 20 numbers rest e len inside,
                write_fits (patch out 0 names) n numbers
                    (omega (arith, len, length-patch out 0 names (omega (arith, size)))),
                le→leb (length (names ++ numbers)) outsz (omega (arith, whole)),
              )
              (ap (λ (b : Bytes). ok (b, n + 20)) joined
                ∙ ap (λ (k : ℕ). ok (patch out 0 (names ++ numbers), k)) (sym whole))
      ]

  pub canon_soa-Canonical :
      {o : ℕ} (x : PlainName msg o) (y : PlainName msg (behind x)) (numbers rest : Bytes)
      → length numbers ≡ 20
      → drop (behind y) msg ≡ numbers ++ rest
      → canon_soa (msg ++ more) (length msg) o out outsz
        ≡ stored ((canonical x ++ canonical y) ++ numbers) out outsz
  unfolding canon_soa
  canon_soa-Canonical x y numbers rest len e =
      let cx : Bytes = canonical x in
      let cy : Bytes = canonical y in
      let names : length (cx ++ cy) ≡ length cx + length cy = length-append cx cy in
      let whole : length ((cx ++ cy) ++ numbers) ≡ length cx + length cy + 20 =
        length-append (cx ++ cy) numbers ∙ omega (arith, len, names) in
      elim (dec_le (length cx) outsz) [
        | no n ↦
            rw
              (
                copy_name-PlainName {msg = msg} more x out 0 outsz (omega (arith, h)),
                lt→leb (length cx) outsz (omega arith),
                lt→leb (length ((cx ++ cy) ++ numbers)) outsz (omega (arith, whole)),
              )
              refl
        | yes p ↦
            let room : length cx + (outsz - length cx) ≤ length (patch out 0 cx) =
              omega (arith, h, length-patch out 0 cx (omega (arith, h))) in
            rw
              (
                copy_name-PlainName {msg = msg} more x out 0 outsz (omega (arith, h)),
                le→leb (length cx) outsz p,
                copy_name-PlainName {msg = msg} more y (patch out 0 cx) (length cx)
                    (outsz - length cx) room,
              )
              (elim (dec_le (length cy) (outsz - length cx)) [
                | no n ↦
                    rw
                      (
                        lt→leb (length cy) (outsz - length cx) (omega arith),
                        lt→leb (length ((cx ++ cy) ++ numbers)) outsz (omega (arith, whole)),
                      )
                      refl
                | yes q ↦
                    rw (le→leb (length cy) (outsz - length cx) q, patched cx cy)
                      (soa_numbers (behind y) (cx ++ cy) numbers rest (length cx + length cy) len e
                        names (omega arith))
              ])
      ]
