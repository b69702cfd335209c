-- ===== src/Epp/Host.antt =====
-- eppd.c, host objects (RFC 5732): `epp_host_t`, `epp_host_encode`, `epp_host_decode`.
pub mod RoundTrip
pub mod Safety
use simple_dns.Common.{
  ℕ, suc, List, [], ◌∷◌, ◌++◌, ◌*◌, ◌+◌, ◌-◌, ◌%◌, ◌^◌, ◌&&◌, bit_and, bit_or, Bytes, length, take,
  ltb, leb, ◌==◌, if◌then◌else◌,
}
use simple_dns.Common.Memory.{Outcome, ok, ◌>>=◌, read, slice}
use simple_dns.Tlv.{tlv_begin, tlv_fold}
use simple_dns.Epp.Codec.{
  tag_roid, tag_clid, tag_status, tag_addr_v4, tag_addr_v6, tag_crdate, max_arr, Output, put,
  put_nonempty, put_each, put_date, put_date_set, set_string, push_string, tlv_u32_of,
}

pub record Host : Type 0 where
  pub roid : Bytes
  pub clid : Bytes
  pub status : List Bytes
  pub v4 : List Bytes
  pub v6 : List Bytes
  pub crdate : ℕ

unfoldable pub epp_host_encode : Host → Bytes → ℕ → Outcome Output
epp_host_encode x buf cap = do
  w ← tlv_begin buf cap 1
  w1 ← put cap tag_roid x.roid w
  w2 ← put_nonempty cap tag_clid x.clid w1
  w3 ← put_each cap tag_status (λ (s : Bytes). s) x.status w2
  w4 ← put_each cap tag_addr_v4 (λ (s : Bytes). s) x.v4 w3
  w5 ← put_each cap tag_addr_v6 (λ (s : Bytes). s) x.v6 w4
  put_date cap tag_crdate x.crdate w5

-- `memset(x, 0, sizeof(*x))`
abbrev pub no_host : Host
no_host = record { roid = []; clid = []; status = []; v4 = []; v6 = []; crdate = 0 }

-- The body of the loop. An unknown tag is skipped.
unfoldable pub epp_host_item : Host → ℕ → Bytes → Outcome Host
epp_host_item x tag val =
    if tag == tag_roid
    then ok (record x { roid = set_string 32 x.roid val })
    else if tag == tag_status
    then ok (record x { status = push_string 32 x.status val })
    else if tag == tag_addr_v4
    then ok (record x { v4 = push_string 16 x.v4 val })
    else if tag == tag_addr_v6
    then ok (record x { v6 = push_string 46 x.v6 val })
    else if tag == tag_crdate
    then (tlv_u32_of val >>= λ n. ok (record x { crdate = n }))
    else if tag == tag_clid
    then ok (record x { clid = set_string 64 x.clid val })
    else ok x

-- The loop starts behind the version, which is not looked at.
unfoldable pub epp_host_decode : Bytes → ℕ → Outcome Host
epp_host_decode buf len = tlv_fold epp_host_item (suc len) buf len 1 no_host
