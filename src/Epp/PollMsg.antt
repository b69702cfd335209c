-- ===== src/Epp/PollMsg.antt =====
-- eppd.c, messages of the poll queue (RFC 5730, RFC 8590): `epp_poll_msg_t`, `epp_poll_encode`, `epp_poll_decode`.
pub mod RoundTrip
pub mod Safety
use simple_dns.Common.{
  ℕ, suc, List, [], ◌∷◌, ◌++◌, ◌*◌, ◌+◌, ◌-◌, ◌%◌, ◌^◌, ◌&&◌, bit_and, bit_or, Bytes, length, take,
  ltb, leb, ◌==◌, if◌then◌else◌,
}
use simple_dns.Common.Memory.{Outcome, ok, ◌>>=◌, read, slice}
use simple_dns.Tlv.{tlv_begin, tlv_fold}
use simple_dns.Epp.Codec.{
  tag_msg, tag_qdate, tag_objtype, tag_objid, tag_cp_state, tag_cp_operation, tag_cp_who,
  tag_cp_reason, tag_resdata, max_arr, Output, put, put_nonempty, put_each, put_date, put_date_set,
  set_string, push_string, tlv_u32_of,
}

pub record PollMsg : Type 0 where
  pub msg : Bytes
  pub qdate : ℕ
  pub objtype : Bytes
  pub objid : Bytes
  pub cp_state : Bytes
  pub cp_operation : Bytes
  pub cp_who : Bytes
  pub cp_reason : Bytes
  pub resdata : Bytes

unfoldable pub epp_poll_encode : PollMsg → Bytes → ℕ → Outcome Output
epp_poll_encode m buf cap = do
  w ← tlv_begin buf cap 1
  w1 ← put cap tag_msg m.msg w
  w2 ← put_date cap tag_qdate m.qdate w1
  w3 ← put cap tag_objtype m.objtype w2
  w4 ← put cap tag_objid m.objid w3
  w5 ← put_nonempty cap tag_cp_state m.cp_state w4
  w6 ← put_nonempty cap tag_cp_operation m.cp_operation w5
  w7 ← put_nonempty cap tag_cp_who m.cp_who w6
  w8 ← put_nonempty cap tag_cp_reason m.cp_reason w7
  put_nonempty cap tag_resdata m.resdata w8

-- `memset(m, 0, sizeof(*m))`
abbrev pub no_msg : PollMsg
no_msg = record {
  msg = [];
  qdate = 0;
  objtype = [];
  objid = [];
  cp_state = [];
  cp_operation = [];
  cp_who = [];
  cp_reason = [];
  resdata = [];
}

-- The body of the loop. An unknown tag is skipped.
unfoldable pub epp_poll_item : PollMsg → ℕ → Bytes → Outcome PollMsg
epp_poll_item m tag val =
    if tag == tag_msg
    then ok (record m { msg = set_string 256 m.msg val })
    else if tag == tag_qdate
    then (tlv_u32_of val >>= λ n. ok (record m { qdate = n }))
    else if tag == tag_objtype
    then ok (record m { objtype = set_string 16 m.objtype val })
    else if tag == tag_objid
    then ok (record m { objid = set_string 256 m.objid val })
    else if tag == tag_cp_state
    then ok (record m { cp_state = set_string 8 m.cp_state val })
    else if tag == tag_cp_operation
    then ok (record m { cp_operation = set_string 32 m.cp_operation val })
    else if tag == tag_cp_who
    then ok (record m { cp_who = set_string 64 m.cp_who val })
    else if tag == tag_cp_reason
    then ok (record m { cp_reason = set_string 256 m.cp_reason val })
    else if tag == tag_resdata
    then ok (record m { resdata = set_string 1024 m.resdata val })
    else ok m

-- The loop starts behind the version, which is not looked at.
unfoldable pub epp_poll_decode : Bytes → ℕ → Outcome PollMsg
epp_poll_decode buf len = tlv_fold epp_poll_item (suc len) buf len 1 no_msg
