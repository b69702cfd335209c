-- ===== src/Epp/PollMsg/RoundTrip.antt =====
-- A message that is stored and loaded.
use simple_dns.Common.{
  ℕ, ◌+◌, ◌^◌, ◌≤◌, ◌<◌, List, [], ◌++◌, Bytes, length, leb, if◌then◌else◌, ◌≡◌, refl, ap, ◌∙◌,
  arith,
}
use simple_dns.Common.Memory.{Outcome, ok, err, ◌>>=◌}
use simple_dns.Endian.Laws.{be32}
use simple_dns.Tlv.{tlv_begin}
use simple_dns.Tlv.Fold.{Tagged, blob_of}
use simple_dns.Tlv.Build.{put_items, tlv_fold-put_items}
use simple_dns.Epp.Codec.{
  tag_msg, tag_qdate, tag_objtype, tag_objid, tag_cp_state, tag_cp_operation, tag_cp_who,
  tag_cp_reason, tag_resdata, Output,
}
use simple_dns.Epp.Codec.Writes.{
  one, optional, IsSmall, then-IsSmall, one-IsSmall, optional-IsSmall, begun-Writes, then-Writes,
  put-Writes, put_nonempty-Writes, put_date-Writes,
}
use simple_dns.Epp.Codec.Reads.{
  set_string_lem, tlv_u32_of-be32, Reads, then-Reads, one-Reads, optional-Reads,
}
use simple_dns.Epp.PollMsg.{PollMsg, no_msg, epp_poll_encode, epp_poll_item, epp_poll_decode}
use simple_dns.Epp.PollMsg.Safety.{IsPollMsg}

-- Numbers within their types.
pub record HasWords (m : PollMsg) : Type 0 where
  pub qdate : m.qdate < 2 ^ 32

-- The items of the blob.
abbrev pub items_of : PollMsg → List Tagged
items_of m =
    one tag_msg m.msg
    ++ (one tag_qdate (be32 m.qdate)
        ++ (one tag_objtype m.objtype
            ++ (one tag_objid m.objid
                ++ (optional tag_cp_state m.cp_state
                    ++ (optional tag_cp_operation m.cp_operation
                        ++ (optional tag_cp_who m.cp_who
                            ++ (optional tag_cp_reason m.cp_reason
                                ++ (optional tag_resdata m.resdata))))))))

encode_items :
    (m : PollMsg) (buf : Bytes) (cap : ℕ)
    → epp_poll_encode m buf cap ≡ (tlv_begin buf cap 1 >>= put_items cap (items_of m))
unfolding epp_poll_encode
encode_items m buf cap = begun-Writes buf cap (
    then-Writes (put-Writes cap tag_msg m.msg) (
      then-Writes (put_date-Writes cap tag_qdate m.qdate) (
        then-Writes (put-Writes cap tag_objtype m.objtype) (
          then-Writes (put-Writes cap tag_objid m.objid) (
            then-Writes (put_nonempty-Writes cap tag_cp_state m.cp_state) (
              then-Writes (put_nonempty-Writes cap tag_cp_operation m.cp_operation) (
                then-Writes (put_nonempty-Writes cap tag_cp_who m.cp_who) (
                  then-Writes (put_nonempty-Writes cap tag_cp_reason m.cp_reason)
                    (put_nonempty-Writes cap tag_resdata m.resdata)))))))))

items_of-Reads :
    (m : PollMsg) → IsPollMsg m → HasWords m → Reads epp_poll_item (items_of m) no_msg m
unfolding epp_poll_item
items_of-Reads m h n =
    let step = epp_poll_item in
    let s1 = record no_msg { msg = m.msg } in
    let s2 = record s1 { qdate = m.qdate } in
    let s3 = record s2 { objtype = m.objtype } in
    let s4 = record s3 { objid = m.objid } in
    let s5 = record s4 { cp_state = m.cp_state } in
    let s6 = record s5 { cp_operation = m.cp_operation } in
    let s7 = record s6 { cp_who = m.cp_who } in
    let s8 = record s7 { cp_reason = m.cp_reason } in
    then-Reads step s1 (one-Reads step tag_msg m.msg (rw (set_string_lem 256 [] m.msg h.msg) refl))
      (then-Reads step s2
        (one-Reads step tag_qdate (be32 m.qdate) (rw (tlv_u32_of-be32 m.qdate n.qdate) refl))
        (then-Reads step s3
          (one-Reads step tag_objtype m.objtype
            (rw (set_string_lem 16 [] m.objtype h.objtype) refl))
          (then-Reads step s4
            (one-Reads step tag_objid m.objid (rw (set_string_lem 256 [] m.objid h.objid) refl))
            (then-Reads step s5
              (optional-Reads step tag_cp_state m.cp_state
                (λ (x : Bytes). record s4 { cp_state = x })
                (rw (set_string_lem 8 [] m.cp_state h.cp_state) refl))
              (then-Reads step s6
                (optional-Reads step tag_cp_operation m.cp_operation
                  (λ (x : Bytes). record s5 { cp_operation = x })
                  (rw (set_string_lem 32 [] m.cp_operation h.cp_operation) refl))
                (then-Reads step s7
                  (optional-Reads step tag_cp_who m.cp_who (λ (x : Bytes). record s6 { cp_who = x })
                    (rw (set_string_lem 64 [] m.cp_who h.cp_who) refl))
                  (then-Reads step s8
                    (optional-Reads step tag_cp_reason m.cp_reason
                      (λ (x : Bytes). record s7 { cp_reason = x })
                      (rw (set_string_lem 256 [] m.cp_reason h.cp_reason) refl))
                    (optional-Reads step tag_resdata m.resdata
                      (λ (x : Bytes). record s8 { resdata = x })
                      (rw (set_string_lem 1024 [] m.resdata h.resdata) refl)))))))))

items_of-IsSmall : (m : PollMsg) → IsPollMsg m → IsSmall (items_of m)
items_of-IsSmall m h = then-IsSmall (one-IsSmall tag_msg m.msg (omega (arith, h.msg.0))) (
    then-IsSmall (one-IsSmall tag_qdate (be32 m.qdate) (omega arith)) (
      then-IsSmall (one-IsSmall tag_objtype m.objtype (omega (arith, h.objtype.0))) (
        then-IsSmall (one-IsSmall tag_objid m.objid (omega (arith, h.objid.0))) (
          then-IsSmall (optional-IsSmall tag_cp_state m.cp_state (omega (arith, h.cp_state.0))) (
            then-IsSmall
              (optional-IsSmall tag_cp_operation m.cp_operation (omega (arith, h.cp_operation.0)))
              (then-IsSmall (optional-IsSmall tag_cp_who m.cp_who (omega (arith, h.cp_who.0))) (
                then-IsSmall
                  (optional-IsSmall tag_cp_reason m.cp_reason (omega (arith, h.cp_reason.0)))
                  (optional-IsSmall tag_resdata m.resdata (omega (arith, h.resdata.0))))))))))

-- A message whose strings and lists fit their arrays is stored exactly when its blob fits the capacity, and
-- is then loaded as it was, every field of it; otherwise nothing is loaded and the outcome is -1.
pub epp_poll_decode-epp_poll_encode :
    (m : PollMsg) (buf : Bytes) (cap : ℕ)
    → IsPollMsg m
    → HasWords m
    → cap ≤ length buf
    → (epp_poll_encode m buf cap >>= λ r. epp_poll_decode r.0 r.1)
      ≡ (if leb (1 + length (blob_of (items_of m))) cap then ok m else err)
unfolding epp_poll_decode
epp_poll_decode-epp_poll_encode m buf cap h n room =
    ap (λ (m : Outcome Output). m >>= λ r. epp_poll_decode r.0 r.1) (encode_items m buf cap)
    ∙ tlv_fold-put_items epp_poll_item (items_of m) buf cap 1 no_msg m room
        (items_of-IsSmall m h).all (items_of-Reads m h n).read
