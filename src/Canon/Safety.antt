-- ===== src/Canon/Safety.antt =====
-- `canon_rdata` on arbitrary bytes.
use simple_dns.Common.{
  ℕ, ◌+◌, ◌-◌, ◌≤◌, Bool, true, false, ◌||◌, [], ◌∷◌, Bytes, length, ltb, ◌==◌, ltb_false→le, ◌≡◌,
  refl, ◌∙◌, arith,
}
use simple_dns.Common.Memory.{Outcome, ok, err, fault, read, slice, write, length-patch}
use simple_dns.Common.Memory.Safe.{
  Holds, Any, bind-Holds, if-Holds, refused-Holds, read-Any, slice-Holds, write-Holds,
}
use simple_dns.Common.Text.{c_string}
use simple_dns.Name.{labels_in, name_to_wire, name_from_wire}
use simple_dns.Name.Wire.{wire_of, names_fit, name_to_wire_lem}
use simple_dns.Name.Safety.{Bounded, name_from_wire-Bounded}
use simple_dns.Canon.{
  Copied, copy_name, canon_name, canon_mx, canon_srv, canon_soa, canon_other, canon_rdata,
}

-- A result within its capacity, in a buffer of the same size.
abbrev pub Within : Bytes → ℕ → Bytes × ℕ → Type 0
Within out outsz r = (r.1 ≤ outsz) × (length r.0 ≡ length out)

abbrev CopiedWithin : ℕ → Bytes → ℕ → Copied → Type 0
CopiedWithin plen out room c = (c.written ≤ room) × (c.after ≤ plen) × (length c.out ≡ length out)

both_false : (a b : Bool) → (a || b) ≡ false → (a ≡ false) × (b ≡ false)
both_false true b h = cc
both_false false b h = (refl, h)

name_to_wire-Within :
    (name out : Bytes) (at room : ℕ)
    → at + room ≤ length out
    → Holds (Within out room) (name_to_wire name out at room)
name_to_wire-Within name out at room h = rw (name_to_wire_lem name out at room h) (
    if-Holds (Within out room) (names_fit (labels_in name) 0 room) _ _
      (λ e. (ground arith, length-patch out (at + 0) (wire_of (labels_in name)) (ground arith)))
      (λ e. tt))

Bounded-Holds :
    (off plen olen : ℕ) (m : Outcome (Bytes × ℕ))
    → Bounded off plen olen m
    → Holds (λ r. r.1 ≤ plen) m
Bounded-Holds off plen olen (ok (name, after)) b = b.1
Bounded-Holds off plen olen err b = tt
Bounded-Holds off plen olen fault b = b

module _ (pkt : Bytes) (plen : ℕ) (inside : plen ≤ length pkt) where
  copy_name-Within :
      (off : ℕ) (out : Bytes) (at room : ℕ)
      → off ≤ plen
      → at + room ≤ length out
      → Holds (CopiedWithin plen out room) (copy_name pkt plen off out at room)
  unfolding copy_name
  copy_name-Within off out at room start h =
      bind-Holds (λ r. r.1 ≤ plen) (CopiedWithin plen out room) (name_from_wire pkt plen off 256) _
        (Bounded-Holds off plen 256 (name_from_wire pkt plen off 256)
          (name_from_wire-Bounded pkt plen off 256 inside start (omega arith)))
        (λ x p.
          bind-Holds (Within out room) (CopiedWithin plen out room)
            (name_to_wire (c_string x.0) out at room) _
            (name_to_wire-Within (c_string x.0) out at room h) (λ y q. (q.0, p, q.1)))

  canon_name-Within :
      (rdoff : ℕ) (out : Bytes) (outsz : ℕ)
      → rdoff ≤ plen
      → outsz ≤ length out
      → Holds (Within out outsz) (canon_name pkt plen rdoff out outsz)
  unfolding canon_name
  canon_name-Within rdoff out outsz start h =
      bind-Holds (CopiedWithin plen out outsz) (Within out outsz)
        (copy_name pkt plen rdoff out 0 outsz) _
        (copy_name-Within rdoff out 0 outsz start (omega arith)) (λ c p. (p.0, p.2))

  canon_mx-Within :
      (rdoff rdlen : ℕ) (out : Bytes) (outsz : ℕ)
      → rdoff + rdlen ≤ plen
      → outsz ≤ length out
      → Holds (Within out outsz) (canon_mx pkt plen rdoff rdlen out outsz)
  unfolding canon_mx
  canon_mx-Within rdoff rdlen out outsz start h =
      refused-Holds (ltb rdlen 3 || ltb outsz 2) (Within out outsz) _ (λ e.
        let (e1, e2) = both_false _ _ e in
        let long : 3 ≤ rdlen = ltb_false→le _ _ e1 in
        let room : 2 ≤ outsz = ltb_false→le _ _ e2 in
        bind-Holds Any (Within out outsz) (read pkt rdoff) _ (read-Any pkt rdoff (omega arith))
          (λ hi p.
            bind-Holds Any (Within out outsz) (read pkt (rdoff + 1)) _
              (read-Any pkt (rdoff + 1) (omega arith))
              (λ lo q.
                bind-Holds (λ b. length b ≡ length out) (Within out outsz)
                  (write out 0 (hi ∷ lo ∷ [])) _ (write-Holds out 0 (hi ∷ lo ∷ []) (omega arith))
                  (λ out1 n.
                    bind-Holds (CopiedWithin plen out1 (outsz - 2)) (Within out outsz)
                      (copy_name pkt plen (rdoff + 2) out1 2 (outsz - 2)) _
                      (copy_name-Within (rdoff + 2) out1 2 (outsz - 2) (omega arith)
                        (omega (arith, n)))
                      (λ c w. (omega (arith, w.0), w.2 ∙ n))))))

  canon_srv-Within :
      (rdoff rdlen : ℕ) (out : Bytes) (outsz : ℕ)
      → rdoff + rdlen ≤ plen
      → outsz ≤ length out
      → Holds (Within out outsz) (canon_srv pkt plen rdoff rdlen out outsz)
  unfolding canon_srv
  canon_srv-Within rdoff rdlen out outsz start h =
      refused-Holds (ltb rdlen 7 || ltb outsz 6) (Within out outsz) _ (λ e.
        let (e1, e2) = both_false _ _ e in
        let long : 7 ≤ rdlen = ltb_false→le _ _ e1 in
        let room : 6 ≤ outsz = ltb_false→le _ _ e2 in
        bind-Holds (λ v. length v ≡ 6) (Within out outsz) (slice pkt rdoff 6) _
          (slice-Holds pkt rdoff 6 (omega arith))
          (λ fixed p.
            bind-Holds (λ b. length b ≡ length out) (Within out outsz) (write out 0 fixed) _
              (write-Holds out 0 fixed (omega (arith, p)))
              (λ out1 n.
                bind-Holds (CopiedWithin plen out1 (outsz - 6)) (Within out outsz)
                  (copy_name pkt plen (rdoff + 6) out1 6 (outsz - 6)) _
                  (copy_name-Within (rdoff + 6) out1 6 (outsz - 6) (omega arith) (omega (arith, n)))
                  (λ c w. (omega (arith, w.0), w.2 ∙ n)))))

  canon_soa-Within :
      (rdoff : ℕ) (out : Bytes) (outsz : ℕ)
      → rdoff ≤ plen
      → outsz ≤ length out
      → Holds (Within out outsz) (canon_soa pkt plen rdoff out outsz)
  unfolding canon_soa
  canon_soa-Within rdoff out outsz start h =
      bind-Holds (CopiedWithin plen out outsz) (Within out outsz)
        (copy_name pkt plen rdoff out 0 outsz) _
        (copy_name-Within rdoff out 0 outsz start (omega arith))
        (λ c p.
          bind-Holds (CopiedWithin plen c.out (outsz - c.written)) (Within out outsz)
            (copy_name pkt plen c.after c.out c.written (outsz - c.written)) _
            (copy_name-Within c.after c.out c.written (outsz - c.written) p.1
              (omega (arith, p.0, p.2)))
            (λ d q.
              refused-Holds (ltb plen (d.after + 20) || ltb outsz (c.written + d.written + 20))
                (Within out outsz) _
                (λ e.
                  let (e1, e2) = both_false _ _ e in
                  let ends : d.after + 20 ≤ plen = ltb_false→le _ _ e1 in
                  let room : c.written + d.written + 20 ≤ outsz = ltb_false→le _ _ e2 in
                  bind-Holds (λ v. length v ≡ 20) (Within out outsz) (slice pkt d.after 20) _
                    (slice-Holds pkt d.after 20 (omega arith))
                    (λ numbers r.
                      bind-Holds (λ b. length b ≡ length d.out) (Within out outsz)
                        (write d.out (c.written + d.written) numbers) _
                        (write-Holds d.out (c.written + d.written) numbers
                          (omega (arith, r, q.2, p.2)))
                        (λ out3 n. (room, n ∙ q.2 ∙ p.2))))))

  canon_other-Within :
      (rdoff rdlen : ℕ) (out : Bytes) (outsz : ℕ)
      → rdoff + rdlen ≤ plen
      → outsz ≤ length out
      → Holds (Within out outsz) (canon_other pkt rdoff rdlen out outsz)
  unfolding canon_other
  canon_other-Within rdoff rdlen out outsz start h =
      refused-Holds (ltb outsz rdlen) (Within out outsz) _ (λ e.
        let room : rdlen ≤ outsz = ltb_false→le _ _ e in
        bind-Holds (λ v. length v ≡ rdlen) (Within out outsz) (slice pkt rdoff rdlen) _
          (slice-Holds pkt rdoff rdlen (omega arith))
          (λ rdata p.
            bind-Holds (λ b. length b ≡ length out) (Within out outsz) (write out 0 rdata) _
              (write-Holds out 0 rdata (omega (arith, p))) (λ out1 n. (room, n))))

  -- On any message and any rdata offsets, `canon_rdata` reads within the message and writes within its
  -- capacity, and it ends with -1 or a length of at most the capacity.
  pub canon_rdata-Within :
      (rdoff rdlen rtype : ℕ) (out : Bytes) (outsz : ℕ)
      → outsz ≤ length out
      → Holds (Within out outsz) (canon_rdata pkt plen rdoff rdlen rtype out outsz)
  unfolding canon_rdata
  canon_rdata-Within rdoff rdlen rtype out outsz h =
      let P : Bytes × ℕ → Type 0 = Within out outsz in
      refused-Holds (ltb plen (rdoff + rdlen)) P _ (λ e.
        let start : rdoff + rdlen ≤ plen = ltb_false→le _ _ e in
        if-Holds P (rtype == 2 || (rtype == 5 || (rtype == 12 || rtype == 39))) _ _
          (λ f. canon_name-Within rdoff out outsz (omega arith) h)
          (λ f.
            if-Holds P (rtype == 15) _ _ (λ g. canon_mx-Within rdoff rdlen out outsz start h)
              (λ g.
                if-Holds P (rtype == 33) _ _ (λ i. canon_srv-Within rdoff rdlen out outsz start h)
                  (λ i.
                    if-Holds P (rtype == 6) _ _
                      (λ j. canon_soa-Within rdoff out outsz (omega arith) h)
                      (λ j. canon_other-Within rdoff rdlen out outsz start h)))))
