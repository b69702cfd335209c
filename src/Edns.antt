-- ===== src/Edns.antt =====
-- dns_wire.c, "EDNS(0) parsing": `skip_name` and `edns_parse`. A `return` of `edns_parse` before the
-- end is `err` inside its loops, and gives the fields as they are then.
pub mod Safety
pub mod Skip
pub mod Append
use simple_dns.Common.{
  ℕ, zero, suc, ◌+◌, ◌*◌, ◌-◌, ◌^◌, bit_and, Bool, true, false, ◌&&◌, ◌||◌, [], ◌∷◌, Bytes,
  replicate, length, ltb, leb, ◌==◌, if◌then◌else◌, not,
}
use simple_dns.Common.Memory.{Outcome, ok, err, fault, ◌>>=◌, ◌>>◌, refuse_if, read, slice, write}
use simple_dns.Endian.{get16, get32}

abbrev pub cookie_client_len : ℕ
cookie_client_len = 8

abbrev pub cookie_server_len : ℕ
cookie_server_len = 16

-- The 0/1 fields are Booleans.
pub record EdnsInfo : Type 0 where
  pub present : Bool
  pub max_udp : ℕ
  pub version : ℕ
  pub do_bit : Bool
  pub client_cookie : Bytes
  pub has_client_cookie : Bool
  pub server_cookie : Bytes
  pub server_cookie_len : ℕ
  pub has_server_cookie : Bool
  pub nsid_req : Bool
  pub has_padding : Bool
  pub padding_req : ℕ
  pub keepalive_req : Bool
  pub zoneversion_req : Bool
  pub has_update_lease : Bool
  pub update_lease : ℕ
  pub has_update_key_lease : Bool
  pub update_key_lease : ℕ

-- After the `memset`, with the size for UDP without EDNS.
abbrev pub no_edns : EdnsInfo
no_edns = record {
  present = false;
  max_udp = 512;
  version = 0;
  do_bit = false;
  client_cookie = replicate 8 0;
  has_client_cookie = false;
  server_cookie = replicate 16 0;
  server_cookie_len = 0;
  has_server_cookie = false;
  nsid_req = false;
  has_padding = false;
  padding_req = 0;
  keepalive_req = false;
  zoneversion_req = false;
  has_update_lease = false;
  update_lease = 0;
  has_update_key_lease = false;
  update_key_lease = 0;
}

-- The rounds of the loop that are left; the loop makes at most 128.
unfoldable pub skip_from : ℕ → Bytes → ℕ → ℕ → Outcome ℕ
skip_from zero pkt plen off = err
skip_from (suc rounds) pkt plen off =
    refuse_if (leb plen off)
    >> (read pkt off >>= λ c. elim (bit_and c 0xc0 == 0xc0) [
      | true ↦ if leb (off + 2) plen then ok (off + 2) else err
      | false ↦ elim (c == 0) [
        | true ↦ ok (off + 1)
        | false ↦ skip_from rounds pkt plen (off + c + 1)
      ]
    ])

unfoldable pub skip_name : Bytes → ℕ → ℕ → Outcome ℕ
skip_name pkt plen off = skip_from 128 pkt plen off

unfoldable pub skip_questions : ℕ → Bytes → ℕ → ℕ → Outcome ℕ
skip_questions zero pkt plen off = ok off
skip_questions (suc count) pkt plen off = do
  name_end ← skip_name pkt plen off
  refuse_if (ltb plen (name_end + 4))
  skip_questions count pkt plen (name_end + 4)

unfoldable pub skip_rrs : ℕ → Bytes → ℕ → ℕ → Outcome ℕ
skip_rrs zero pkt plen off = ok off
skip_rrs (suc count) pkt plen off = do
  name_end ← skip_name pkt plen off
  refuse_if (ltb plen (name_end + 10))
  rdlen ← get16 pkt (name_end + 8)
  skip_rrs count pkt plen (name_end + (10 + rdlen))

-- A COOKIE option of at least 8 bytes that ends within the packet.
unfoldable pub edns_cookie : Bytes → EdnsInfo → ℕ → ℕ → Outcome EdnsInfo
edns_cookie pkt ei rp ol = do
  client ← slice pkt rp cookie_client_len
  client_cookie ← write ei.client_cookie 0 client
  let ei1 = record ei { client_cookie = client_cookie; has_client_cookie = true }
  if ltb cookie_client_len ol && leb ol (cookie_client_len + cookie_server_len)
      then (do
        let slen = ol - cookie_client_len
        server ← slice pkt (rp + cookie_client_len) slen
        server_cookie ← write ei.server_cookie 0 server
        ok (record ei1 {
          server_cookie = server_cookie;
          server_cookie_len = slen;
          has_server_cookie = true;
        }))
      else ok ei1

-- An UPDATE-LEASE option of 4 or 8 bytes that ends within the packet.
unfoldable pub edns_lease : Bytes → EdnsInfo → ℕ → ℕ → Outcome EdnsInfo
edns_lease pkt ei rp ol = do
  lease ← get32 pkt rp
  let ei1 = record ei { has_update_lease = true; update_lease = lease }
  if ol == 8
      then (do
        key_lease ← get32 pkt (rp + 4)
        ok (record ei1 { has_update_key_lease = true; update_key_lease = key_lease }))
      else ok ei1

-- The branches on the option's code.
unfoldable pub edns_option : Bytes → ℕ → EdnsInfo → ℕ → ℕ → ℕ → Outcome EdnsInfo
edns_option pkt plen ei oc ol rp =
    if oc == 3
    then ok (record ei { nsid_req = true })
    else if oc == 10 && leb cookie_client_len ol
    then if leb (rp + ol) plen then edns_cookie pkt ei rp ol else ok ei
    else if oc == 11
    then ok (record ei { keepalive_req = true })
    else if oc == 12
    then ok (record ei { has_padding = true; padding_req = ol })
    else if oc == 19 && ol == 0
    then ok (record ei { zoneversion_req = true })
    else if oc == 2 && (ol == 4 || ol == 8) && leb (rp + ol) plen
    then edns_lease pkt ei rp ol
    else ok ei

-- The loop over the options. Each round moves on by at least 4; it must not run out of fuel.
unfoldable pub edns_options : ℕ → Bytes → ℕ → ℕ → ℕ → EdnsInfo → Outcome EdnsInfo
edns_options zero pkt plen rend rp ei = fault
edns_options (suc fuel) pkt plen rend rp ei = elim (leb (rp + 4) rend && leb (rp + 4) plen) [
  | false ↦ ok ei
  | true ↦ do
    oc ← get16 pkt rp
    ol ← get16 pkt (rp + 2)
    ei1 ← edns_option pkt plen ei oc ol (rp + 4)
    elim (ltb plen (rp + 4 + ol)) [
      | true ↦ ok ei1
      | false ↦ edns_options fuel pkt plen rend (rp + 4 + ol) ei1
    ]
]

-- The fixed fields of an OPT record whose name ends at `off`, and its options.
unfoldable pub edns_opt : Bytes → ℕ → ℕ → EdnsInfo → Outcome EdnsInfo
edns_opt pkt plen off ei = do
  max_udp ← get16 pkt (off + 2)
  version ← read pkt (off + 5)
  flags ← read pkt (off + 6)
  rdlen ← get16 pkt (off + 8)
  let ei1 = record ei {
    present = true;
    max_udp = max_udp;
    version = version;
    do_bit = not (bit_and flags 0x80 == 0);
  }
  edns_options (suc plen) pkt plen (off + 10 + rdlen) (off + 10) ei1

-- What follows an early `return` or `break` keeps the fields.
abbrev pub or_keep : Outcome ℕ → EdnsInfo → (ℕ → Outcome EdnsInfo) → Outcome EdnsInfo
or_keep (ok n) ei next = next n
or_keep err ei next = ok ei
or_keep fault ei next = fault

-- The scan of the additional section.
unfoldable pub edns_scan : ℕ → Bytes → ℕ → ℕ → EdnsInfo → Outcome EdnsInfo
edns_scan zero pkt plen off ei = ok ei
edns_scan (suc count) pkt plen off ei = elim (leb plen off) [
  | true ↦ ok ei
  | false ↦ or_keep (skip_name pkt plen off) ei (λ name_end. elim (ltb plen (name_end + 10)) [
    | true ↦ ok ei
    | false ↦ do
      rtype ← get16 pkt name_end
      elim (rtype == 41) [
        | true ↦ edns_opt pkt plen name_end ei
        | false ↦ do
          rdlen ← get16 pkt (name_end + 8)
          edns_scan count pkt plen (name_end + (10 + rdlen)) ei
      ]
  ])
]

-- `ei` after the call.
unfoldable pub edns_parse : Bytes → ℕ → Outcome EdnsInfo
edns_parse pkt plen =
    if ltb plen 12
    then ok no_edns
    else (get16 pkt 10 >>= λ arcount.
        if arcount == 0
        then ok no_edns
        else (get16 pkt 4 >>= λ qdcount.
            or_keep (skip_questions qdcount pkt plen 12) no_edns (λ off. get16 pkt 6 >>= λ ancount.
            get16 pkt 8 >>= λ nscount.
            or_keep (skip_rrs (ancount + nscount) pkt plen off) no_edns
              (λ rrs_end. edns_scan arcount pkt plen rrs_end no_edns))))
