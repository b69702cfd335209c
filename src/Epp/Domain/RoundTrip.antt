-- ===== src/Epp/Domain/RoundTrip.antt =====
-- A domain that is stored and loaded.
use simple_dns.Common.{
  ℕ, suc, ◌+◌, ◌*◌, ◌/◌, ◌%◌, ◌^◌, ◌≤◌, ◌<◌, List, [], ◌∷◌, ◌++◌, Bytes, length, bit_and, bit_or,
  take_all, length-take, true, ◌-◌, sym, append-nil, leb, lt→ltb, le→leb, ◌==◌, All, if◌then◌else◌,
  ◌≡◌, refl, ap, ◌∙◌, arith,
}
use simple_dns.Common.Memory.{Outcome, ok, err, ◌>>=◌, slice}
use simple_dns.Common.Memory.Cursor.{read-drop, slice-drop}
use simple_dns.Endian.Laws.{be32}
use simple_dns.Endian.{to_u8}
use simple_dns.Common.Bits.{bit_or-shl, bit_and_byte}
use simple_dns.Tlv.{tlv_begin}
use simple_dns.Tlv.Fold.{Tagged, blob_of}
use simple_dns.Tlv.Build.{put_items, tlv_fold-put_items}
use simple_dns.Epp.Codec.{
  tag_roid, tag_clid, tag_status, tag_authinfo, tag_crdate, tag_exdate, tag_registrant, tag_ns,
  tag_ds, tag_rgp_state, tag_rgp_until, tag_transfer_reid, tag_transfer_redate, tag_transfer_status,
  max_arr, Output,
}
use simple_dns.Epp.Codec.Writes.{
  IsText, one, optional, repeated, date_set, IsSmall, then-IsSmall, one-IsSmall, optional-IsSmall,
  repeated-IsSmall, set-IsSmall, begun-Writes, then-Writes, put-Writes, put_set-Writes,
  put_nonempty-Writes, put_each-Writes, put_date-Writes, put_date_set-Writes,
}
use simple_dns.Epp.Codec.Reads.{
  set_string_lem, push_string_lem, tlv_u32_of-be32, Reads, then-Reads, one-Reads, optional-Reads,
  repeated-Reads, set-Reads, date_set-Reads,
}
use simple_dns.Epp.Domain.{
  Domain, no_domain, epp_domain_encode, epp_domain_item, epp_domain_decode, Ds, ds_raw, push_ds,
}
use simple_dns.Epp.Domain.Safety.{IsDomain, IsDs}

-- Numbers within their types.
pub record HasWords (d : Domain) : Type 0 where
  pub crdate : d.crdate < 2 ^ 32
  pub exdate : d.exdate < 2 ^ 32
  pub rgp_until : d.rgp_until < 2 ^ 32
  pub transfer_redate : d.transfer_redate < 2 ^ 32
  pub rgp_state : d.rgp_state < 256
  pub ds : All (λ e. e.keytag < 2 ^ 16) d.ds

-- The items of the blob.
abbrev pub items_of : Domain → List Tagged
items_of d =
    one tag_roid d.roid
    ++ (optional tag_clid d.clid
        ++ (repeated tag_status (λ (s : Bytes). s) d.status
            ++ (optional tag_authinfo d.authinfo
                ++ (one tag_crdate (be32 d.crdate)
                    ++ (date_set tag_exdate d.exdate
                        ++ (optional tag_registrant d.registrant
                            ++ (repeated tag_ns (λ (s : Bytes). s) d.ns
                                ++ (repeated tag_ds ds_raw d.ds
                                    ++ ((if d.rgp_state == 0
                                          then []
                                          else one tag_rgp_state (to_u8 d.rgp_state ∷ []))
                                        ++ (date_set tag_rgp_until d.rgp_until
                                            ++ (optional tag_transfer_reid d.transfer_reid
                                                ++ (date_set tag_transfer_redate d.transfer_redate
                                                    ++ (optional tag_transfer_status
                                                        d.transfer_status)))))))))))))

encode_items :
    (d : Domain) (buf : Bytes) (cap : ℕ)
    → epp_domain_encode d buf cap ≡ (tlv_begin buf cap 1 >>= put_items cap (items_of d))
unfolding epp_domain_encode
encode_items d buf cap = begun-Writes buf cap (
    then-Writes (put-Writes cap tag_roid d.roid) (
      then-Writes (put_nonempty-Writes cap tag_clid d.clid) (
        then-Writes (put_each-Writes cap tag_status (λ (s : Bytes). s) d.status) (
          then-Writes (put_nonempty-Writes cap tag_authinfo d.authinfo) (
            then-Writes (put_date-Writes cap tag_crdate d.crdate) (
              then-Writes (put_date_set-Writes cap tag_exdate d.exdate) (
                then-Writes (put_nonempty-Writes cap tag_registrant d.registrant) (
                  then-Writes (put_each-Writes cap tag_ns (λ (s : Bytes). s) d.ns) (
                    then-Writes (put_each-Writes cap tag_ds ds_raw d.ds) (
                      then-Writes
                        (put_set-Writes cap tag_rgp_state d.rgp_state (to_u8 d.rgp_state ∷ []))
                        (then-Writes (put_date_set-Writes cap tag_rgp_until d.rgp_until) (
                          then-Writes (put_nonempty-Writes cap tag_transfer_reid d.transfer_reid) (
                            then-Writes
                              (put_date_set-Writes cap tag_transfer_redate d.transfer_redate)
                              (put_nonempty-Writes cap tag_transfer_status
                                d.transfer_status))))))))))))))

All-both {ℓ} :
    {E : Type ℓ} (P Q : E → Type 0) (es : List E) → All P es → All Q es → All (λ e. P e × Q e) es
All-both P Q [] h k = tt
All-both P Q (e ∷ es) h k = ((h.0, k.0), All-both P Q es h.1 k.1)

word_bytes : (v : ℕ) → v < 2 ^ 16 → bit_or (v / 256 % 256 * 256) (v % 256) % 2 ^ 16 ≡ v
word_bytes v h = rw (bit_or-shl 8 (v / 256 % 256) (v % 256) (omega arith)) (omega arith)

-- keytag(2, big-endian) alg(1) digtype(1) digest
abbrev pub raw_of : Ds → Bytes
raw_of e = e.keytag / 256 % 256 ∷ e.keytag % 256 ∷ e.alg ∷ e.digtype ∷ e.digest

ds_raw_lem : (e : Ds) → IsDs e → ds_raw e ≡ raw_of e
unfolding ds_raw
ds_raw_lem e h =
    let low : bit_and e.keytag 255 % 256 ≡ e.keytag % 256 = omega (arith, bit_and_byte e.keytag) in
    rw (take_all 68 e.digest h.digest, low) refl

push_ds_lem :
    (ds : List Ds) (e : Ds)
    → length ds < max_arr
    → IsDs e × (e.keytag < 2 ^ 16)
    → push_ds ds (ds_raw e) ≡ ok (ds ++ e ∷ [])
unfolding push_ds
push_ds_lem ds e room h =
    let raw = raw_of e in
    let few : length e.digest ≤ 68 = h.0.digest in
    let count : suc (suc (suc (suc (length e.digest)))) - 4 ≡ length e.digest = omega arith in
    let four : leb 4 (suc (suc (suc (suc (length e.digest))))) ≡ true = le→leb _ _ (omega arith) in
    let drawn : slice raw 4 (length e.digest) ≡ ok e.digest =
      slice-drop raw 4 e.digest [] (sym (append-nil e.digest)) (omega arith) in
    rw (ds_raw_lem e h.0) (
      rw
        (
          lt→ltb (length ds) max_arr room,
          count,
          four,
          le→leb (length e.digest) 68 few,
          read-drop raw 0 refl,
          read-drop raw 1 refl,
          read-drop raw 2 refl,
          read-drop raw 3 refl,
          drawn,
          word_bytes e.keytag h.1,
        )
        refl)

items_of-Reads :
    (d : Domain) → IsDomain d → HasWords d → Reads epp_domain_item (items_of d) no_domain d
unfolding epp_domain_item
items_of-Reads d h n =
    let step = epp_domain_item in
    let s1 = record no_domain { roid = d.roid } in
    let s2 = record s1 { clid = d.clid } in
    let s3 = record s2 { status = d.status } in
    let s4 = record s3 { authinfo = d.authinfo } in
    let s5 = record s4 { crdate = d.crdate } in
    let s6 = record s5 { exdate = d.exdate } in
    let s7 = record s6 { registrant = d.registrant } in
    let s8 = record s7 { ns = d.ns } in
    let s9 = record s8 { ds = d.ds } in
    let s10 = record s9 { rgp_state = d.rgp_state } in
    let s11 = record s10 { rgp_until = d.rgp_until } in
    let s12 = record s11 { transfer_reid = d.transfer_reid } in
    let s13 = record s12 { transfer_redate = d.transfer_redate } in
    then-Reads step s1
      (one-Reads step tag_roid d.roid (rw (set_string_lem 32 [] d.roid h.roid) refl))
      (then-Reads step s2
        (optional-Reads step tag_clid d.clid (λ (x : Bytes). record s1 { clid = x })
          (rw (set_string_lem 64 [] d.clid h.clid) refl))
        (then-Reads step s3
          (repeated-Reads step (λ (s : Bytes). s) (IsText 32) tag_status
            (λ (x : List Bytes). record s2 { status = x })
            (λ acc e room p. rw (push_string_lem 32 acc e room p) refl) d.status h.status)
          (then-Reads step s4
            (optional-Reads step tag_authinfo d.authinfo (λ (x : Bytes). record s3 { authinfo = x })
              (rw (set_string_lem 256 [] d.authinfo h.authinfo) refl))
            (then-Reads step s5
              (one-Reads step tag_crdate (be32 d.crdate)
                (rw (tlv_u32_of-be32 d.crdate n.crdate) refl))
              (then-Reads step s6
                (date_set-Reads step tag_exdate d.exdate (λ (x : ℕ). record s5 { exdate = x })
                  (rw (tlv_u32_of-be32 d.exdate n.exdate) refl))
                (then-Reads step s7
                  (optional-Reads step tag_registrant d.registrant
                    (λ (x : Bytes). record s6 { registrant = x })
                    (rw (set_string_lem 64 [] d.registrant h.registrant) refl))
                  (then-Reads step s8
                    (repeated-Reads step (λ (s : Bytes). s) (IsText 256) tag_ns
                      (λ (x : List Bytes). record s7 { ns = x })
                      (λ acc e room p. rw (push_string_lem 256 acc e room p) refl) d.ns h.ns)
                    (then-Reads step s9
                      (repeated-Reads step ds_raw (λ e. IsDs e × (e.keytag < 2 ^ 16)) tag_ds
                        (λ (x : List Ds). record s8 { ds = x })
                        (λ acc e room p. rw (push_ds_lem acc e room p) refl) d.ds
                        (h.ds.0, All-both IsDs (λ e. e.keytag < 2 ^ 16) d.ds h.ds.1 n.ds))
                      (then-Reads step s10
                        (set-Reads step tag_rgp_state d.rgp_state (to_u8 d.rgp_state ∷ [])
                          (λ (x : ℕ). record s9 { rgp_state = x })
                          (rw (read-drop (to_u8 d.rgp_state ∷ []) 0 refl) (
                            ap (λ (x : ℕ). ok (record s9 { rgp_state = x }))
                              (omega (arith, n.rgp_state)))))
                        (then-Reads step s11
                          (date_set-Reads step tag_rgp_until d.rgp_until
                            (λ (x : ℕ). record s10 { rgp_until = x })
                            (rw (tlv_u32_of-be32 d.rgp_until n.rgp_until) refl))
                          (then-Reads step s12
                            (optional-Reads step tag_transfer_reid d.transfer_reid
                              (λ (x : Bytes). record s11 { transfer_reid = x })
                              (rw (set_string_lem 64 [] d.transfer_reid h.transfer_reid) refl))
                            (then-Reads step s13
                              (date_set-Reads step tag_transfer_redate d.transfer_redate
                                (λ (x : ℕ). record s12 { transfer_redate = x })
                                (rw (tlv_u32_of-be32 d.transfer_redate n.transfer_redate) refl))
                              (optional-Reads step tag_transfer_status d.transfer_status
                                (λ (x : Bytes). record s13 { transfer_status = x })
                                (rw (set_string_lem 24 [] d.transfer_status h.transfer_status)
                                  refl))))))))))))))

ds_raw-le : (e : Ds) → length (ds_raw e) ≤ 0xffff
unfolding ds_raw
ds_raw-le e = omega (arith, length-take 68 e.digest)

items_of-IsSmall : (d : Domain) → IsDomain d → IsSmall (items_of d)
items_of-IsSmall d h = then-IsSmall (one-IsSmall tag_roid d.roid (omega (arith, h.roid.0))) (
    then-IsSmall (optional-IsSmall tag_clid d.clid (omega (arith, h.clid.0))) (
      then-IsSmall
        (repeated-IsSmall (IsText 32) tag_status (λ s. s) d.status (λ e p. omega (arith, p.0))
          h.status.1)
        (then-IsSmall (optional-IsSmall tag_authinfo d.authinfo (omega (arith, h.authinfo.0))) (
          then-IsSmall (one-IsSmall tag_crdate (be32 d.crdate) (omega arith)) (
            then-IsSmall (set-IsSmall tag_exdate d.exdate (be32 d.exdate) (omega arith)) (
              then-IsSmall
                (optional-IsSmall tag_registrant d.registrant (omega (arith, h.registrant.0)))
                (then-IsSmall
                  (repeated-IsSmall (IsText 256) tag_ns (λ s. s) d.ns (λ e p. omega (arith, p.0))
                    h.ns.1)
                  (then-IsSmall
                    (repeated-IsSmall IsDs tag_ds ds_raw d.ds (λ e p. ds_raw-le e) h.ds.1)
                    (then-IsSmall
                      (set-IsSmall tag_rgp_state d.rgp_state (to_u8 d.rgp_state ∷ []) (omega arith))
                      (then-IsSmall
                        (set-IsSmall tag_rgp_until d.rgp_until (be32 d.rgp_until) (omega arith))
                        (then-IsSmall
                          (optional-IsSmall tag_transfer_reid d.transfer_reid
                            (omega (arith, h.transfer_reid.0)))
                          (then-IsSmall
                            (set-IsSmall tag_transfer_redate d.transfer_redate
                              (be32 d.transfer_redate) (omega arith))
                            (optional-IsSmall tag_transfer_status d.transfer_status
                              (omega (arith, h.transfer_status.0)))))))))))))))

-- A domain whose strings and lists fit their arrays is stored exactly when its blob fits the capacity, and
-- is then loaded as it was, every field of it; otherwise nothing is loaded and the outcome is -1.
pub epp_domain_decode-epp_domain_encode :
    (d : Domain) (buf : Bytes) (cap : ℕ)
    → IsDomain d
    → HasWords d
    → cap ≤ length buf
    → (epp_domain_encode d buf cap >>= λ r. epp_domain_decode r.0 r.1)
      ≡ (if leb (1 + length (blob_of (items_of d))) cap then ok d else err)
unfolding epp_domain_decode
epp_domain_decode-epp_domain_encode d buf cap h n room =
    ap (λ (m : Outcome Output). m >>= λ r. epp_domain_decode r.0 r.1) (encode_items d buf cap)
    ∙ tlv_fold-put_items epp_domain_item (items_of d) buf cap 1 no_domain d room
        (items_of-IsSmall d h).all (items_of-Reads d h n).read
