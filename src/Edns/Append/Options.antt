-- ===== src/Edns/Append/Options.antt =====
-- The options that `edns_append_opt` writes, one behind the other.
use simple_dns.Common.{
  ℕ, ◌+◌, ◌≤◌, ◌<◌, ◌&&◌, none, some, [], ◌∷◌, ◌++◌, Bytes, length, replicate, take, ltb, leb, ◌==◌,
  length-append, append_assoc, ltb→lt, lt→ltb, Bool-cases, inl, inr, ◌≡◌, refl, sym, ap, ◌∙◌, arith,
}
use mathlib.Core.Path.{subst}
use simple_dns.Common.Memory.{Outcome, ok, patch, slice_fits}
use simple_dns.Common.Memory.Safe.{
  Holds, Any, recover-Gives, Gives, bind-Gives, if-Gives, option-Gives, list-Gives,
}
use simple_dns.Endian.{to_u8, put16}
use simple_dns.Endian.Laws.{be16, put16_behind, write_behind}
use simple_dns.Name.{labels_in, name_to_wire}
use simple_dns.Name.Wire.{names_fit, name_to_wire_lem}
use simple_dns.Edns.Append.{
  Response, OptState, wire16, wire32, put_option, put_nsid, put_cookie, put_keepalive, put_ede,
  put_zoneversion, put_report, put_lease, put_padding, pad_block, pad_length, put_options, has,
  text_or_empty,
}

-- RFC 6891 §6.1.2: OPTION-CODE, OPTION-LENGTH and OPTION-DATA.
abbrev pub option_of : ℕ → Bytes → Bytes
option_of code val = be16 code ++ (be16 (length val) ++ val)

-- Bytes that are options, one behind the other.
pub data IsOptions : Bytes → Type 0 where
  no_option : IsOptions []
  option_behind :
      (vs : Bytes) (code : ℕ) (val : Bytes)
      → IsOptions vs
      → length val ≤ 0xffff
      → IsOptions (vs ++ option_of code val)

-- The state after some options: they stand at `start` in the buffer `base`, within `blen`.
pub record Written (base : Bytes) (start blen : ℕ) (s : OptState) : Type 0 where
  pub vs : Bytes
  pub options : IsOptions vs
  pub here : s.buf ≡ patch base start vs
  pub next : s.rdata_off ≡ start + length vs
  pub size : s.rdata_len ≡ length vs
  pub fits : start + length vs ≤ blen

-- The cookies that the request and the caller hand over have their sizes.
abbrev pub HasCookies : Response → Type 0
HasCookies r =
    (elim r.req_ei [ none ↦ Unit | some ei ↦ 8 ≤ length ei.client_cookie ])
    × (elim r.scookie [ none ↦ Unit | some c ↦ 16 ≤ length c ])

name_to_wire-Any :
    (name buf : Bytes) (at blen : ℕ)
    → at + blen ≤ length buf
    → Holds Any (name_to_wire name buf at blen)
name_to_wire-Any name buf at blen h = elim (Bool-cases (names_fit (labels_in name) 0 blen)) [
  | inl e ↦ rw (name_to_wire_lem name buf at blen h, e) tt
  | inr e ↦ rw (name_to_wire_lem name buf at blen h, e) tt
]

module _ (base : Bytes) (start blen : ℕ) (enough : blen ≤ length base) (small : blen ≤ 0xffff) where
  -- With room, the option is stored behind the others.
  pub put_option_room :
      (code : ℕ) (val : Bytes) (s : OptState) (w : Written base start blen s)
      → s.rdata_off + 4 + length val < blen
      → put_option blen code val s
        ≡ ok (record {
          buf = patch base start (w.vs ++ option_of code val);
          rdata_off = s.rdata_off + (4 + length val);
          rdata_len = s.rdata_len + (4 + length val);
        })
  unfolding put_option
  put_option_room code val s w room =
      let first : put16 s.buf s.rdata_off code ≡ ok (patch base start (w.vs ++ be16 code)) =
        ap (λ (b : Bytes). put16 b s.rdata_off code) w.here
        ∙ put16_behind base start w.vs s.rdata_off code w.next (omega (arith, w.next)) in
      let second =
        put16_behind base start (w.vs ++ be16 code) (s.rdata_off + 2) (length val)
          (omega (arith, w.next, length-append w.vs (be16 code)))
          (omega (arith, w.next, length-append w.vs (be16 code))) in
      let two : Bytes = (w.vs ++ be16 code) ++ be16 (length val) in
      let len : length two ≡ length w.vs + 4 = omega (
        arith,
        length-append (w.vs ++ be16 code) (be16 (length val)),
        length-append w.vs (be16 code),
      ) in
      let third =
        write_behind base start two val (s.rdata_off + 4) (omega (arith, w.next))
          (omega (arith, w.next)) in
      let whole : two ++ val ≡ w.vs ++ option_of code val =
        append_assoc (w.vs ++ be16 code) (be16 (length val)) val
        ∙ append_assoc w.vs (be16 code) (be16 (length val) ++ val) in
      rw (lt→ltb _ _ room, first, second, third, whole) refl

  put_option-Written :
      (code : ℕ) (val : Bytes) (s : OptState)
      → Written base start blen s
      → Gives (Written base start blen) (put_option blen code val s)
  unfolding put_option
  put_option-Written code val s w = elim (Bool-cases (ltb (s.rdata_off + 4 + length val) blen)) [
    | inl e ↦
        let room : s.rdata_off + 4 + length val < blen = ltb→lt _ _ e in
        let size : length (w.vs ++ option_of code val) ≡ length w.vs + (4 + length val) =
          omega (arith, length-append w.vs (option_of code val)) in
        subst (Gives (Written base start blen)) (sym (put_option_room code val s w room)) (record {
          vs = w.vs ++ option_of code val;
          options = option_behind w.vs code val w.options (omega arith);
          here = refl;
          next = omega (arith, w.next);
          size = omega (arith, w.size);
          fits = omega (arith, w.next);
        })
    | inr e ↦ rw e w
  ]

  abbrev Keeps : (OptState → Outcome OptState) → Type 0
  Keeps f = (s : OptState) → Written base start blen s → Gives (Written base start blen) (f s)

  put_nsid-Written : (r : Response) → Keeps (put_nsid r blen)
  unfolding put_nsid
  put_nsid-Written r s w = option-Gives (Written base start blen) r.nsid (ok s) _ w (λ nsid e.
      list-Gives (Written base start blen) nsid (ok s) _ w
        (λ c cs. put_option-Written 3 (c ∷ cs) s w))

  put_keepalive-Written : (r : Response) → Keeps (put_keepalive r blen)
  unfolding put_keepalive
  put_keepalive-Written r s w =
      if-Gives (Written base start blen) (r.is_tcp && has (λ ei. ei.keepalive_req) r.req_ei) _ _
        (λ e. put_option-Written 11 (wire16 300) s w) (λ e. w)

  put_lease-Written : (r : Response) → Keeps (put_lease r blen)
  unfolding put_lease
  put_lease-Written r s w =
      if-Gives (Written base start blen) r.has_ul _ _ (λ e. put_option-Written 2 _ s w) (λ e. w)

  put_padding-Written : (r : Response) (opt_off : ℕ) → Keeps (put_padding r blen opt_off)
  unfolding put_padding
  put_padding-Written r opt_off s w =
      let pad : ℕ = pad_length r (opt_off + 2 + s.rdata_len + 4) in
      if-Gives (Written base start blen) r.is_tcp _ _
        (λ e.
          if-Gives (Written base start blen) (pad == pad_block r) _ _ (λ f. w)
            (λ f. put_option-Written 12 (replicate pad 0) s w))
        (λ e. w)

  put_ede-Written : (r : Response) → Keeps (put_ede r blen)
  unfolding put_ede
  put_ede-Written r s w =
      option-Gives (Written base start blen) r.ede_code (ok s) _ w
        (λ code e. put_option-Written 15 (wire16 code ++ text_or_empty r.ede_text) s w)

  put_zoneversion-Written : (r : Response) → Keeps (put_zoneversion r blen)
  unfolding put_zoneversion
  put_zoneversion-Written r s w =
      option-Gives (Written base start blen) r.zv_labels (ok s) _ w (λ labels e.
        if-Gives (Written base start blen)
          (has (λ ei. ei.zoneversion_req) r.req_ei && leb labels 255) _ _
          (λ f. put_option-Written 19 (to_u8 labels ∷ 0 ∷ wire32 r.zv_serial) s w) (λ f. w))

  put_cookie-Written : (r : Response) → HasCookies r → Keeps (put_cookie r blen)
  unfolding put_cookie
  put_cookie-Written r sizes s w =
      option-Gives (Written base start blen) r.req_ei (ok s) _ w (λ ei e.
        option-Gives (Written base start blen) r.scookie (ok s) _ w (λ scookie f.
          if-Gives (Written base start blen) ei.has_client_cookie _ _
            (λ g.
              let client : 8 ≤ length ei.client_cookie = rw e at sizes.0 in
              let server : 16 ≤ length scookie = rw f at sizes.1 in
              rw
                (
                  slice_fits ei.client_cookie 0 8 (omega arith),
                  slice_fits scookie 0 16 (omega arith),
                )
                (put_option-Written 10 _ s w))
            (λ g. w)))

  put_report-Written : (r : Response) → Keeps (put_report r blen)
  unfolding put_report
  put_report-Written r s w =
      option-Gives (Written base start blen) r.report_agent (ok s) _ w (λ agent e.
        list-Gives (Written base start blen) agent (ok s) _ w (λ c cs.
          recover-Gives (Written base start blen) (name_to_wire (c ∷ cs) (replicate 256 0) 0 256)
            (ok s) _ (name_to_wire-Any (c ∷ cs) (replicate 256 0) 0 256 (omega arith)) w
            (λ x. put_option-Written 18 (take x.1 x.0) s w)))

  pub put_options-Written :
      (r : Response) (opt_off : ℕ) → HasCookies r → Keeps (put_options r blen opt_off)
  unfolding put_options
  put_options-Written r opt_off sizes s w =
      let P : OptState → Type 0 = Written base start blen in
      bind-Gives P P _ (put_padding r blen opt_off)
        (bind-Gives P P _ (put_lease r blen)
          (bind-Gives P P _ (put_report r blen)
            (bind-Gives P P _ (put_zoneversion r blen)
              (bind-Gives P P _ (put_ede r blen)
                (bind-Gives P P _ (put_keepalive r blen)
                  (bind-Gives P P (put_nsid r blen s) (put_cookie r blen) (put_nsid-Written r s w)
                    (put_cookie-Written r sizes))
                  (put_keepalive-Written r))
                (put_ede-Written r))
              (put_zoneversion-Written r))
            (put_report-Written r))
          (put_lease-Written r))
        (put_padding-Written r opt_off)
