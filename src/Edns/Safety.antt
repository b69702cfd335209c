-- ===== src/Edns/Safety.antt =====
-- `edns_parse` on arbitrary bytes.
use simple_dns.Common.{
  ℕ, zero, suc, ◌+◌, ◌-◌, ◌≤◌, ◌<◌, bit_and, ◌&&◌, ◌||◌, Bytes, length, ltb, leb, ◌==◌, leb→le,
  leb_false→lt, ltb_false→le, ==_iff, ◌⊎◌, ◌≡◌, refl, ◌∙◌, arith,
}
use simple_dns.Common.Memory.{Outcome, ok, err, fault, read, slice, write}
use simple_dns.Common.Memory.Safe.{
  Holds, Any, bind-Holds, if-Holds, elim-Holds, refused-Holds, read-Any, slice-Holds, write-Holds,
}
use simple_dns.Endian.{get16, get32}
use simple_dns.Edns.{
  EdnsInfo, no_edns, skip_from, skip_name, skip_questions, skip_rrs, edns_cookie, edns_lease,
  edns_option, edns_options, edns_opt, or_keep, edns_scan, edns_parse,
}

-- The cookies fill their arrays, and the server cookie's length is at most its array's.
abbrev pub IsParsed : EdnsInfo → Type 0
IsParsed ei =
    (length ei.client_cookie ≡ 8) × (length ei.server_cookie ≡ 16) × (ei.server_cookie_len ≤ 16)

get16-Any : (b : Bytes) (o : ℕ) → o + 2 ≤ length b → Holds Any (get16 b o)
unfolding get16
get16-Any b o h =
    bind-Holds Any Any (read b o) _ (read-Any b o (omega arith)) (λ hi p.
      bind-Holds Any Any (read b (o + 1)) _ (read-Any b (o + 1) (omega arith)) (λ lo q. tt))

get32-Any : (b : Bytes) (o : ℕ) → o + 4 ≤ length b → Holds Any (get32 b o)
unfolding get32
get32-Any b o h = bind-Holds Any Any (read b o) _ (read-Any b o (omega arith)) (λ w p.
    bind-Holds Any Any (read b (o + 1)) _ (read-Any b (o + 1) (omega arith)) (λ x q.
      bind-Holds Any Any (read b (o + 2)) _ (read-Any b (o + 2) (omega arith)) (λ y r.
        bind-Holds Any Any (read b (o + 3)) _ (read-Any b (o + 3) (omega arith)) (λ z s. tt))))

module _ (pkt : Bytes) (plen : ℕ) (h : plen ≤ length pkt) where
  skip_from-Any : (rounds off : ℕ) → Holds Any (skip_from rounds pkt plen off)
  unfolding skip_from
  skip_from-Any zero off = tt
  skip_from-Any (suc rounds) off = refused-Holds (leb plen off) Any _ (λ e.
      bind-Holds Any Any (read pkt off) _
        (read-Any pkt off (omega (arith, leb_false→lt plen off e)))
        (λ c p.
          elim-Holds Any (bit_and c 0xc0 == 0xc0) _ _
            (λ f. if-Holds Any (leb (off + 2) plen) _ _ (λ g. tt) (λ g. tt))
            (λ f. elim-Holds Any (c == 0) _ _ (λ g. tt) (λ g. skip_from-Any rounds (off + c + 1)))))

  skip_questions-Any : (count off : ℕ) → Holds Any (skip_questions count pkt plen off)
  unfolding skip_questions skip_name
  skip_questions-Any zero off = tt
  skip_questions-Any (suc count) off =
      bind-Holds Any Any (skip_from 128 pkt plen off) _ (skip_from-Any 128 off) (λ name_end p.
        refused-Holds (ltb plen (name_end + 4)) Any _
          (λ e. skip_questions-Any count (name_end + 4)))

  skip_rrs-Any : (count off : ℕ) → Holds Any (skip_rrs count pkt plen off)
  unfolding skip_rrs skip_name
  skip_rrs-Any zero off = tt
  skip_rrs-Any (suc count) off =
      bind-Holds Any Any (skip_from 128 pkt plen off) _ (skip_from-Any 128 off) (λ name_end p.
        refused-Holds (ltb plen (name_end + 10)) Any _ (λ e.
          bind-Holds Any Any (get16 pkt (name_end + 8)) _
            (get16-Any pkt (name_end + 8) (omega (arith, ltb_false→le plen (name_end + 10) e)))
            (λ rdlen q. skip_rrs-Any count (name_end + (10 + rdlen)))))

  edns_cookie-IsParsed :
      (ei : EdnsInfo) (rp ol : ℕ)
      → IsParsed ei
      → 8 ≤ ol
      → rp + ol ≤ plen
      → Holds IsParsed (edns_cookie pkt ei rp ol)
  unfolding edns_cookie
  edns_cookie-IsParsed ei rp ol ok_ei least fits =
      bind-Holds (λ v. length v ≡ 8) IsParsed (slice pkt rp 8) _
        (slice-Holds pkt rp 8 (omega arith))
        (λ client p.
          bind-Holds (λ v. length v ≡ length ei.client_cookie) IsParsed
            (write ei.client_cookie 0 client) _
            (write-Holds ei.client_cookie 0 client (omega (arith, ok_ei.0)))
            (λ cookie q.
              if-Holds IsParsed (ltb 8 ol && leb ol 24) _ _
                (λ e.
                  bind-Holds (λ v. length v ≡ ol - 8) IsParsed (slice pkt (rp + 8) (ol - 8)) _
                    (slice-Holds pkt (rp + 8) (ol - 8) (omega arith))
                    (λ server r.
                      bind-Holds (λ v. length v ≡ length ei.server_cookie) IsParsed
                        (write ei.server_cookie 0 server) _
                        (write-Holds ei.server_cookie 0 server (ground (arith, ok_ei.1, r, e)))
                        (λ kept s. (q ∙ ok_ei.0, s ∙ ok_ei.1, ground arith))))
                (λ e. (q ∙ ok_ei.0, ok_ei.1, ok_ei.2))))

  edns_lease-IsParsed :
      (ei : EdnsInfo) (rp ol : ℕ)
      → IsParsed ei
      → (ol ≡ 4) ⊎ (ol ≡ 8)
      → rp + ol ≤ plen
      → Holds IsParsed (edns_lease pkt ei rp ol)
  unfolding edns_lease
  edns_lease-IsParsed ei rp ol ok_ei sizes fits =
      bind-Holds Any IsParsed (get32 pkt rp) _ (get32-Any pkt rp (ground (arith, sizes)))
        (λ lease p.
          if-Holds IsParsed (ol == 8) _ _
            (λ e.
              bind-Holds Any IsParsed (get32 pkt (rp + 4)) _
                (get32-Any pkt (rp + 4) (omega (arith, (==_iff ol 8).0 e))) (λ key q. ok_ei))
            (λ e. ok_ei))

  edns_option-IsParsed :
      (ei : EdnsInfo) (oc ol rp : ℕ)
      → IsParsed ei
      → Holds IsParsed (edns_option pkt plen ei oc ol rp)
  unfolding edns_option
  edns_option-IsParsed ei oc ol rp ok_ei =
      if-Holds IsParsed (oc == 3) _ _ (λ e. ok_ei)
        (λ e.
          if-Holds IsParsed (oc == 10 && leb 8 ol) _ _
            (λ f.
              if-Holds IsParsed (leb (rp + ol) plen) _ _
                (λ g. edns_cookie-IsParsed ei rp ol ok_ei (ground arith) (leb→le _ _ g))
                (λ g. ok_ei))
            (λ f.
              if-Holds IsParsed (oc == 11) _ _ (λ g. ok_ei)
                (λ g.
                  if-Holds IsParsed (oc == 12) _ _ (λ k. ok_ei)
                    (λ k.
                      if-Holds IsParsed (oc == 19 && ol == 0) _ _ (λ i. ok_ei)
                        (λ i.
                          if-Holds IsParsed (oc == 2 && (ol == 4 || ol == 8) && leb (rp + ol) plen)
                            _ _
                            (λ j. edns_lease-IsParsed ei rp ol ok_ei (ground arith) (ground arith))
                            (λ j. ok_ei))))))

  edns_options-IsParsed :
      (fuel rend rp : ℕ) (ei : EdnsInfo)
      → rp ≤ plen
      → plen < rp + fuel
      → IsParsed ei
      → Holds IsParsed (edns_options fuel pkt plen rend rp ei)
  unfolding edns_options
  edns_options-IsParsed zero rend rp ei start enough ok_ei = absurd (omega arith)
  edns_options-IsParsed (suc fuel) rend rp ei start enough ok_ei =
      elim-Holds IsParsed (leb (rp + 4) rend && leb (rp + 4) plen) _ _
        (λ e.
          let room : rp + 4 ≤ plen = ground arith in
          bind-Holds Any IsParsed (get16 pkt rp) _ (get16-Any pkt rp (omega arith)) (λ oc p.
            bind-Holds Any IsParsed (get16 pkt (rp + 2)) _ (get16-Any pkt (rp + 2) (omega arith))
              (λ ol q.
                bind-Holds IsParsed IsParsed (edns_option pkt plen ei oc ol (rp + 4)) _
                  (edns_option-IsParsed ei oc ol (rp + 4) ok_ei)
                  (λ ei1 r.
                    elim-Holds IsParsed (ltb plen (rp + 4 + ol)) _ _ (λ f. r)
                      (λ f.
                        edns_options-IsParsed fuel rend (rp + 4 + ol) ei1 (ltb_false→le _ _ f)
                          (omega arith) r)))))
        (λ e. ok_ei)

  edns_opt-IsParsed :
      (off : ℕ) (ei : EdnsInfo)
      → off + 10 ≤ plen
      → IsParsed ei
      → Holds IsParsed (edns_opt pkt plen off ei)
  unfolding edns_opt
  edns_opt-IsParsed off ei fits ok_ei =
      bind-Holds Any IsParsed (get16 pkt (off + 2)) _ (get16-Any pkt (off + 2) (omega arith))
        (λ udp p.
          bind-Holds Any IsParsed (read pkt (off + 5)) _ (read-Any pkt (off + 5) (omega arith))
            (λ version q.
              bind-Holds Any IsParsed (read pkt (off + 6)) _ (read-Any pkt (off + 6) (omega arith))
                (λ flags r.
                  bind-Holds Any IsParsed (get16 pkt (off + 8)) _
                    (get16-Any pkt (off + 8) (omega arith))
                    (λ rdlen s.
                      edns_options-IsParsed (suc plen) (off + 10 + rdlen) (off + 10) _ fits
                        (omega arith) ok_ei))))

  or_keep-IsParsed :
      (m : Outcome ℕ) (ei : EdnsInfo) (next : ℕ → Outcome EdnsInfo)
      → Holds Any m
      → IsParsed ei
      → ((n : ℕ) → Holds IsParsed (next n))
      → Holds IsParsed (or_keep m ei next)
  or_keep-IsParsed (ok n) ei next safe ok_ei k = k n
  or_keep-IsParsed err ei next safe ok_ei k = ok_ei
  or_keep-IsParsed fault ei next safe ok_ei k = safe

  edns_scan-IsParsed :
      (count off : ℕ) (ei : EdnsInfo)
      → IsParsed ei
      → Holds IsParsed (edns_scan count pkt plen off ei)
  unfolding edns_scan skip_name
  edns_scan-IsParsed zero off ei ok_ei = ok_ei
  edns_scan-IsParsed (suc count) off ei ok_ei =
      elim-Holds IsParsed (leb plen off) _ _ (λ e. ok_ei)
        (λ e.
          or_keep-IsParsed (skip_from 128 pkt plen off) ei _ (skip_from-Any 128 off) ok_ei
            (λ name_end.
              elim-Holds IsParsed (ltb plen (name_end + 10)) _ _ (λ f. ok_ei)
                (λ f.
                  let room : name_end + 10 ≤ plen = ltb_false→le _ _ f in
                  bind-Holds Any IsParsed (get16 pkt name_end) _
                    (get16-Any pkt name_end (omega arith))
                    (λ rtype p.
                      elim-Holds IsParsed (rtype == 41) _ _
                        (λ g. edns_opt-IsParsed name_end ei room ok_ei)
                        (λ g.
                          bind-Holds Any IsParsed (get16 pkt (name_end + 8)) _
                            (get16-Any pkt (name_end + 8) (omega arith))
                            (λ rdlen q.
                              edns_scan-IsParsed count (name_end + (10 + rdlen)) ei ok_ei))))))

  -- On any bytes `edns_parse` ends, reads within the packet and copies cookies within their
  -- arrays.
  pub edns_parse-IsParsed : Holds IsParsed (edns_parse pkt plen)
  unfolding edns_parse skip_name
  edns_parse-IsParsed =
      let start : IsParsed no_edns = (refl, refl, omega arith) in
      if-Holds IsParsed (ltb plen 12) _ _ (λ e. start)
        (λ e.
          let room : 12 ≤ plen = ltb_false→le _ _ e in
          bind-Holds Any IsParsed (get16 pkt 10) _ (get16-Any pkt 10 (omega arith)) (λ arcount p.
            if-Holds IsParsed (arcount == 0) _ _ (λ f. start)
              (λ f.
                bind-Holds Any IsParsed (get16 pkt 4) _ (get16-Any pkt 4 (omega arith))
                  (λ qdcount q.
                    or_keep-IsParsed (skip_questions qdcount pkt plen 12) no_edns _
                      (skip_questions-Any qdcount 12) start
                      (λ off.
                        bind-Holds Any IsParsed (get16 pkt 6) _ (get16-Any pkt 6 (omega arith))
                          (λ ancount r.
                            bind-Holds Any IsParsed (get16 pkt 8) _ (get16-Any pkt 8 (omega arith))
                              (λ nscount s.
                                or_keep-IsParsed (skip_rrs (ancount + nscount) pkt plen off) no_edns
                                  _ (skip_rrs-Any (ancount + nscount) off) start
                                  (λ rrs_end.
                                    edns_scan-IsParsed arcount rrs_end no_edns start))))))))
