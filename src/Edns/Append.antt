-- ===== src/Edns/Append.antt =====
-- dns_wire.c, "EDNS(0) response building": `edns_append_opt`.
pub mod Options
pub mod Behind
pub mod Padding
use simple_dns.Common.{
  ℕ, ◌+◌, ◌*◌, ◌-◌, ◌/◌, ◌%◌, ◌^◌, bit_and, Bool, true, false, ◌&&◌, Option, none, some, [], ◌∷◌,
  ◌++◌, Bytes, replicate, take, length, ltb, leb, ◌==◌, if◌then◌else◌,
}
use simple_dns.Common.Bits.{shr}
use simple_dns.Common.Memory.{Outcome, ok, err, fault, ◌>>=◌, slice, write}
use simple_dns.Endian.{to_u8, put16, get16}
use simple_dns.Name.{name_to_wire}
use simple_dns.Edns.{EdnsInfo}

-- The arguments that say what to append. `none` is a null pointer, or a negative number.
pub record Response : Type 0 where
  pub is_tcp : Bool
  pub do_bit : Bool
  pub rcode_ext : ℕ
  pub req_ei : Option EdnsInfo
  pub nsid : Option Bytes
  pub scookie : Option Bytes
  pub ede_code : Option ℕ
  pub ede_text : Option Bytes
  pub zv_labels : Option ℕ
  pub zv_serial : ℕ
  pub report_agent : Option Bytes
  pub has_ul : Bool
  pub ul_lease : ℕ
  pub has_ul_key_lease : Bool
  pub ul_key_lease : ℕ

-- The buffer, `rdata_off` and `rdata_len`.
pub record OptState : Type 0 where
  pub buf : Bytes
  pub rdata_off : ℕ
  pub rdata_len : ℕ

-- The bytes that `put16` and `put32` store in the value of an option.
abbrev pub wire16 : ℕ → Bytes
wire16 v = to_u8 (shr v 8) ∷ to_u8 v ∷ []

abbrev pub wire32 : ℕ → Bytes
wire32 v = to_u8 (shr v 24) ∷ to_u8 (shr v 16) ∷ to_u8 (shr v 8) ∷ to_u8 v ∷ []

-- What every option's block does: the test for room, the code, the length and the value.
unfoldable pub put_option : ℕ → ℕ → Bytes → OptState → Outcome OptState
put_option blen code val s =
    if ltb (s.rdata_off + 4 + length val) blen
    then (do
      buf1 ← put16 s.buf s.rdata_off code
      buf2 ← put16 buf1 (s.rdata_off + 2) (length val)
      buf3 ← write buf2 (s.rdata_off + 4) val
      ok (record {
        buf = buf3;
        rdata_off = s.rdata_off + (4 + length val);
        rdata_len = s.rdata_len + (4 + length val);
      }))
    else ok s

abbrev pub has : (EdnsInfo → Bool) → Option EdnsInfo → Bool
has p none = false
has p (some ei) = p ei

unfoldable pub put_nsid : Response → ℕ → OptState → Outcome OptState
put_nsid r blen s = elim r.nsid [
  | none ↦ ok s
  | some nsid ↦ elim nsid [ [] ↦ ok s | c ∷ cs ↦ put_option blen 3 (c ∷ cs) s ]
]

-- The client's cookie and the server's, of 8 and 16 bytes.
unfoldable pub put_cookie : Response → ℕ → OptState → Outcome OptState
put_cookie r blen s = elim r.req_ei [
  | none ↦ ok s
  | some ei ↦ elim r.scookie [
    | none ↦ ok s
    | some scookie ↦
        if ei.has_client_cookie
        then (do
          client ← slice ei.client_cookie 0 8
          server ← slice scookie 0 16
          put_option blen 10 (client ++ server) s)
        else ok s
  ]
]

unfoldable pub put_keepalive : Response → ℕ → OptState → Outcome OptState
put_keepalive r blen s =
    if r.is_tcp && has (λ ei. ei.keepalive_req) r.req_ei
    then put_option blen 11 (wire16 300) s
    else ok s

abbrev pub text_or_empty : Option Bytes → Bytes
text_or_empty none = []
text_or_empty (some t) = t

unfoldable pub put_ede : Response → ℕ → OptState → Outcome OptState
put_ede r blen s = elim r.ede_code [
  | none ↦ ok s
  | some code ↦ put_option blen 15 (wire16 code ++ text_or_empty r.ede_text) s
]

unfoldable pub put_zoneversion : Response → ℕ → OptState → Outcome OptState
put_zoneversion r blen s = elim r.zv_labels [
  | none ↦ ok s
  | some labels ↦
      if has (λ ei. ei.zoneversion_req) r.req_ei && leb labels 255
      then put_option blen 19 (to_u8 labels ∷ 0 ∷ wire32 r.zv_serial) s
      else ok s
]

-- The agent's name, uncompressed, in a local array of 256 bytes; a name that is refused is left out.
unfoldable pub put_report : Response → ℕ → OptState → Outcome OptState
put_report r blen s = elim r.report_agent [
  | none ↦ ok s
  | some agent ↦ elim agent [
    | [] ↦ ok s
    | c ∷ cs ↦ elim (name_to_wire (c ∷ cs) (replicate 256 0) 0 256) [
      | err ↦ ok s
      | fault ↦ fault
      | ok w ↦ put_option blen 18 (take w.1 w.0) s
    ]
  ]
]

unfoldable pub put_lease : Response → ℕ → OptState → Outcome OptState
put_lease r blen s =
    if r.has_ul
    then put_option blen 2
        (wire32 r.ul_lease ++ (if r.has_ul_key_lease then wire32 r.ul_key_lease else [])) s
    else ok s

-- `block`, and `pad` before it is set to 0
abbrev pub pad_block : Response → ℕ
pad_block r = if has (λ ei. ei.has_padding) r.req_ei then 128 else 468

abbrev pub pad_length : Response → ℕ → ℕ
pad_length r cur = pad_block r - cur % pad_block r

-- `opt_off` is the offset of the record's length field.
unfoldable pub put_padding : Response → ℕ → ℕ → OptState → Outcome OptState
put_padding r blen opt_off s =
    let pad = pad_length r (opt_off + 2 + s.rdata_len + 4) in
    if r.is_tcp
    then if pad == pad_block r then ok s else put_option blen 12 (replicate pad 0) s
    else ok s

unfoldable pub put_options : Response → ℕ → ℕ → OptState → Outcome OptState
put_options r blen opt_off s =
    put_nsid r blen s
    >>= put_cookie r blen
    >>= put_keepalive r blen
    >>= put_ede r blen
    >>= put_zoneversion r blen
    >>= put_report r blen
    >>= put_lease r blen
    >>= put_padding r blen opt_off

-- The root name, the type, the payload size as the class, and the TTL.
abbrev pub opt_fixed : Response → Bytes
opt_fixed r =
    let maxudp = if r.is_tcp then 65535 else 1232 in
    0
    ∷ 0
    ∷ 41
    ∷ to_u8 (shr maxudp 8)
    ∷ to_u8 (bit_and maxudp 0xff)
    ∷ bit_and r.rcode_ext 0xff
    ∷ 0
    ∷ (if r.do_bit then 0x80 else 0x00)
    ∷ 0
    ∷ []

-- The buffer afterwards, and the new offset. Without room for the fixed fields nothing is done.
unfoldable pub edns_append_opt : Response → Bytes → ℕ → ℕ → Outcome (Bytes × ℕ)
edns_append_opt r buf off blen = if ltb blen (off + 11) then ok (buf, off) else (do
  buf1 ← write buf off (opt_fixed r)
  let opt_off = off + 9
  s ← put_options r blen opt_off (record { buf = buf1; rdata_off = opt_off + 2; rdata_len = 0 })
  buf2 ← put16 s.buf opt_off s.rdata_len
  arcount ← get16 buf2 10
  buf3 ← put16 buf2 10 (arcount + 1)
  ok (buf3, s.rdata_off))
