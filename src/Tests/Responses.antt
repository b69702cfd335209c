-- ===== src/Tests/Responses.antt =====
-- The OPT record of a response, serial numbers and SVCB services.
use simple_dns.Common.{
  true, false, none, some, [], ◌∷◌, ◌++◌, Bytes, replicate, ◌↔◌, ◌≡◌, refl, sym, arith,
}
use simple_dns.Common.Memory.{ok, patch-nil, read, write, slice}
use simple_dns.Common.Memory.Safe.{Holds, Gives}
use simple_dns.Endian.{put16, get16}
use simple_dns.Edns.{no_edns}
use simple_dns.Edns.Append.{
  Response, OptState, put_option, put_nsid, put_cookie, put_keepalive, put_ede, put_zoneversion,
  put_report, put_lease, put_padding, put_options, edns_append_opt,
}
use simple_dns.Edns.Append.Options.{no_option, Written}
use simple_dns.Edns.Append.Behind.{OptResult, edns_append_opt-OptResult}
use simple_dns.Edns.Append.Padding.{Padded, put_padding-Padded}
use simple_dns.Serial.{serial_lt}
use simple_dns.Serial.Order.{IsBefore, serial_lt-IsBefore}
use simple_dns.Svcb.{svcb_tlv_to_wire, svcb_item, svcb_emit, svcb_put, put_params, set_param}
use simple_dns.Svcb.Safety.{IsRdata, svcb_tlv_to_wire-IsRdata}
use simple_dns.Name.{name_to_wire}
use simple_dns.Common.Text.{c_string, tokens, safe_strcpy}
use simple_dns.Tlv.{tlv_fold, tlv_next, tlv_version}
use simple_dns.Tests.{ab, blank}

-- Over TCP, to a client that asked for padding and sent a cookie; the server's name is "ab".
abbrev response : Response
response = record {
  is_tcp = true;
  do_bit = true;
  rcode_ext = 0;
  req_ei = some (record no_edns { has_client_cookie = true; has_padding = true });
  nsid = some ab;
  scookie = some (replicate 16 7);
  ede_code = none;
  ede_text = none;
  zv_labels = none;
  zv_serial = 0;
  report_agent = none;
  has_ul = false;
  ul_lease = 0;
  has_ul_key_lease = false;
  ul_key_lease = 0;
}

-- A header with no additional record.
abbrev header : Bytes
header = replicate 12 0

abbrev room : Bytes
room = replicate 1000 0

edns_append_opt-OptResult_example :
    Gives (OptResult response header room 1012) (edns_append_opt response (header ++ room) 12 1012)
edns_append_opt-OptResult_example =
    edns_append_opt-OptResult response header room 1012 (omega arith) (omega arith) (omega arith)
      (omega arith, omega arith)

-- The OPT record of a response over UDP with the server's name only.
appends :
    edns_append_opt
      (record response { is_tcp = false; scookie = none })
      (header ++ replicate 20 0)
      12
      32
    ≡ ok (
      0 ∷ 0 ∷ 0 ∷ 0 ∷ 0 ∷ 0 ∷ 0 ∷ 0 ∷ 0 ∷ 0 ∷ 0 ∷ 1 ∷ 0 ∷ 0 ∷ 41 ∷ 4 ∷ 208 ∷ 0 ∷ 0 ∷ 128 ∷ 0 ∷ 0 ∷ 6
          ∷ 0 ∷ 3 ∷ 0 ∷ 2 ∷ 97 ∷ 98 ∷ 0 ∷ 0 ∷ 0 ∷ [],
      29,
    )
unfolding edns_append_opt put_options put_option put_nsid put_cookie put_keepalive put_ede
    put_zoneversion put_report put_lease put_padding put16 get16 read write slice
appends = refl

-- A state before any option: with the header of the padding option the end is at 128.
abbrev state : OptState
state = record { buf = room; rdata_off = 124; rdata_len = 0 }

abbrev state_Written : Written room 124 1000 state
state_Written = record {
  vs = [];
  options = no_option;
  here = sym (patch-nil room 124);
  next = omega arith;
  size = refl;
  fits = omega arith;
}

put_padding-Padded_example : Gives (Padded 128 124) (put_padding response 1000 122 state)
put_padding-Padded_example =
    put_padding-Padded response room 124 1000 122 state (omega arith) (omega arith) state_Written
      refl (omega arith) (omega arith)

serial_lt-IsBefore_example : (serial_lt 0xfffffff0 16 ≡ true) ↔ IsBefore 0xfffffff0 16
serial_lt-IsBefore_example = serial_lt-IsBefore 0xfffffff0 16 (omega arith) (omega arith)

wraps : serial_lt 0xfffffff0 16 ≡ true
unfolding serial_lt
wraps = refl

-- Priority 1, the target "ab", and the keys 3 and 1, in that order.
abbrev service : Bytes
service =
    1 ∷ 1 ∷ 0 ∷ 2 ∷ 0 ∷ 1 ∷ 2 ∷ 0 ∷ 2 ∷ 97 ∷ 98 ∷ 19 ∷ 0 ∷ 2 ∷ 1 ∷ 187 ∷ 17 ∷ 0 ∷ 3 ∷ 2 ∷ 104 ∷ 50
    ∷ []

svcb_tlv_to_wire-IsRdata_example : Holds (IsRdata blank 40) (svcb_tlv_to_wire service 22 blank 40)
svcb_tlv_to_wire-IsRdata_example =
    svcb_tlv_to_wire-IsRdata service 22 blank 40 (omega arith) (omega arith)

ascending :
    svcb_tlv_to_wire service 22 blank 40
    ≡ ok (
      0
          ∷ 1
          ∷ 2
          ∷ 97
          ∷ 98
          ∷ 0
          ∷ 0
          ∷ 1
          ∷ 0
          ∷ 3
          ∷ 2
          ∷ 104
          ∷ 50
          ∷ 0
          ∷ 3
          ∷ 0
          ∷ 2
          ∷ 1
          ∷ 187
          ∷ replicate 21 0,
      19,
    )
unfolding svcb_tlv_to_wire svcb_item svcb_emit svcb_put put_params set_param c_string name_to_wire
    tokens safe_strcpy tlv_fold tlv_next tlv_version get16 read write slice
ascending = refl
