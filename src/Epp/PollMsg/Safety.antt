-- ===== src/Epp/PollMsg/Safety.antt =====
-- What the decoder makes of any bytes.
use simple_dns.Common.{ℕ, ◌≤◌, Bytes, length, ◌==◌, arith}
use simple_dns.Common.Memory.Safe.{Holds, Any, if-Holds, bind-Holds}
use simple_dns.Tlv.Build.{tlv_fold-Holds_behind}
use simple_dns.Epp.Codec.{
  tag_msg, tag_qdate, tag_objtype, tag_objid, tag_cp_state, tag_cp_operation, tag_cp_who,
  tag_cp_reason, tag_resdata, tlv_u32_of,
}
use simple_dns.Epp.Codec.Writes.{IsText}
use simple_dns.Epp.Codec.Safety.{set_string-IsText, tlv_u32_of-Any}
use simple_dns.Epp.PollMsg.{PollMsg, no_msg, epp_poll_item, epp_poll_decode}

-- What `epp_poll_msg_t` can hold: strings without NUL that leave room for one, and at most 16 entries.
pub record IsPollMsg (m : PollMsg) : Type 0 where
  pub msg : IsText 256 m.msg
  pub objtype : IsText 16 m.objtype
  pub objid : IsText 256 m.objid
  pub cp_state : IsText 8 m.cp_state
  pub cp_operation : IsText 32 m.cp_operation
  pub cp_who : IsText 64 m.cp_who
  pub cp_reason : IsText 256 m.cp_reason
  pub resdata : IsText 1024 m.resdata

no_msg-IsPollMsg : IsPollMsg no_msg
no_msg-IsPollMsg = record {
  msg = (omega arith, tt);
  objtype = (omega arith, tt);
  objid = (omega arith, tt);
  cp_state = (omega arith, tt);
  cp_operation = (omega arith, tt);
  cp_who = (omega arith, tt);
  cp_reason = (omega arith, tt);
  resdata = (omega arith, tt);
}

epp_poll_item-IsPollMsg :
    (m : PollMsg) (tag : ℕ) (val : Bytes) → IsPollMsg m → Holds IsPollMsg (epp_poll_item m tag val)
unfolding epp_poll_item
epp_poll_item-IsPollMsg m tag val h =
    if-Holds IsPollMsg (tag == tag_msg) _ _
      (λ _. record {
        msg = set_string-IsText 256 m.msg val h.msg;
        objtype = h.objtype;
        objid = h.objid;
        cp_state = h.cp_state;
        cp_operation = h.cp_operation;
        cp_who = h.cp_who;
        cp_reason = h.cp_reason;
        resdata = h.resdata;
      })
      (λ _.
        if-Holds IsPollMsg (tag == tag_qdate) _ _
          (λ _. bind-Holds Any IsPollMsg (tlv_u32_of val) _ (tlv_u32_of-Any val) (λ m p. record {
            msg = h.msg;
            objtype = h.objtype;
            objid = h.objid;
            cp_state = h.cp_state;
            cp_operation = h.cp_operation;
            cp_who = h.cp_who;
            cp_reason = h.cp_reason;
            resdata = h.resdata;
          }))
          (λ _.
            if-Holds IsPollMsg (tag == tag_objtype) _ _
              (λ _. record {
                msg = h.msg;
                objtype = set_string-IsText 16 m.objtype val h.objtype;
                objid = h.objid;
                cp_state = h.cp_state;
                cp_operation = h.cp_operation;
                cp_who = h.cp_who;
                cp_reason = h.cp_reason;
                resdata = h.resdata;
              })
              (λ _.
                if-Holds IsPollMsg (tag == tag_objid) _ _
                  (λ _. record {
                    msg = h.msg;
                    objtype = h.objtype;
                    objid = set_string-IsText 256 m.objid val h.objid;
                    cp_state = h.cp_state;
                    cp_operation = h.cp_operation;
                    cp_who = h.cp_who;
                    cp_reason = h.cp_reason;
                    resdata = h.resdata;
                  })
                  (λ _.
                    if-Holds IsPollMsg (tag == tag_cp_state) _ _
                      (λ _. record {
                        msg = h.msg;
                        objtype = h.objtype;
                        objid = h.objid;
                        cp_state = set_string-IsText 8 m.cp_state val h.cp_state;
                        cp_operation = h.cp_operation;
                        cp_who = h.cp_who;
                        cp_reason = h.cp_reason;
                        resdata = h.resdata;
                      })
                      (λ _.
                        if-Holds IsPollMsg (tag == tag_cp_operation) _ _
                          (λ _. record {
                            msg = h.msg;
                            objtype = h.objtype;
                            objid = h.objid;
                            cp_state = h.cp_state;
                            cp_operation = set_string-IsText 32 m.cp_operation val h.cp_operation;
                            cp_who = h.cp_who;
                            cp_reason = h.cp_reason;
                            resdata = h.resdata;
                          })
                          (λ _.
                            if-Holds IsPollMsg (tag == tag_cp_who) _ _
                              (λ _. record {
                                msg = h.msg;
                                objtype = h.objtype;
                                objid = h.objid;
                                cp_state = h.cp_state;
                                cp_operation = h.cp_operation;
                                cp_who = set_string-IsText 64 m.cp_who val h.cp_who;
                                cp_reason = h.cp_reason;
                                resdata = h.resdata;
                              })
                              (λ _.
                                if-Holds IsPollMsg (tag == tag_cp_reason) _ _
                                  (λ _. record {
                                    msg = h.msg;
                                    objtype = h.objtype;
                                    objid = h.objid;
                                    cp_state = h.cp_state;
                                    cp_operation = h.cp_operation;
                                    cp_who = h.cp_who;
                                    cp_reason = set_string-IsText 256 m.cp_reason val h.cp_reason;
                                    resdata = h.resdata;
                                  })
                                  (λ _.
                                    if-Holds IsPollMsg (tag == tag_resdata) _ _
                                      (λ _. record {
                                        msg = h.msg;
                                        objtype = h.objtype;
                                        objid = h.objid;
                                        cp_state = h.cp_state;
                                        cp_operation = h.cp_operation;
                                        cp_who = h.cp_who;
                                        cp_reason = h.cp_reason;
                                        resdata = set_string-IsText 1024 m.resdata val h.resdata;
                                      })
                                      (λ _. h)))))))))

-- On any bytes `epp_poll_decode` reads within the blob and ends, and what it loads has strings and
-- lists that fit their arrays.
pub epp_poll_decode-IsPollMsg :
    (buf : Bytes) (len : ℕ) → len ≤ length buf → Holds IsPollMsg (epp_poll_decode buf len)
unfolding epp_poll_decode
epp_poll_decode-IsPollMsg buf len room =
    tlv_fold-Holds_behind epp_poll_item IsPollMsg buf len no_msg room
      (λ m t val h. epp_poll_item-IsPollMsg m t val h) no_msg-IsPollMsg
