-- ===== src/Epp/Org.antt =====
-- eppd.c, organization objects (RFC 8543): `epp_org_t`, `epp_org_encode`, `epp_org_decode`.
pub mod RoundTrip
pub mod Safety
use simple_dns.Common.{
  ℕ, suc, List, [], ◌∷◌, ◌++◌, ◌*◌, ◌+◌, ◌-◌, ◌%◌, ◌^◌, ◌&&◌, bit_and, bit_or, Bytes, length, take,
  ltb, leb, ◌==◌, if◌then◌else◌,
}
use simple_dns.Common.Memory.{Outcome, ok, ◌>>=◌, read, slice}
use simple_dns.Tlv.{tlv_begin, tlv_fold}
use simple_dns.Epp.Codec.{
  tag_orgid, tag_roid, tag_clid, tag_status, tag_parentid, tag_role, tag_email, tag_voice,
  tag_crdate, max_arr, Output, put, put_nonempty, put_each, put_date, put_date_set, set_string,
  push_string, tlv_u32_of,
}

pub record Org : Type 0 where
  pub id : Bytes
  pub roid : Bytes
  pub clid : Bytes
  pub status : List Bytes
  pub parentid : Bytes
  pub roles : List Bytes
  pub email : Bytes
  pub voice : Bytes
  pub crdate : ℕ

unfoldable pub epp_org_encode : Org → Bytes → ℕ → Outcome Output
epp_org_encode o buf cap = do
  w ← tlv_begin buf cap 1
  w1 ← put cap tag_orgid o.id w
  w2 ← put cap tag_roid o.roid w1
  w3 ← put_nonempty cap tag_clid o.clid w2
  w4 ← put_each cap tag_status (λ (s : Bytes). s) o.status w3
  w5 ← put_nonempty cap tag_parentid o.parentid w4
  w6 ← put_each cap tag_role (λ (s : Bytes). s) o.roles w5
  w7 ← put_nonempty cap tag_email o.email w6
  w8 ← put_nonempty cap tag_voice o.voice w7
  put_date cap tag_crdate o.crdate w8

-- `memset(o, 0, sizeof(*o))`
abbrev pub no_org : Org
no_org = record {
  id = [];
  roid = [];
  clid = [];
  status = [];
  parentid = [];
  roles = [];
  email = [];
  voice = [];
  crdate = 0;
}

-- The body of the loop. An unknown tag is skipped.
unfoldable pub epp_org_item : Org → ℕ → Bytes → Outcome Org
epp_org_item o tag val =
    if tag == tag_orgid
    then ok (record o { id = set_string 64 o.id val })
    else if tag == tag_roid
    then ok (record o { roid = set_string 32 o.roid val })
    else if tag == tag_clid
    then ok (record o { clid = set_string 64 o.clid val })
    else if tag == tag_status
    then ok (record o { status = push_string 32 o.status val })
    else if tag == tag_parentid
    then ok (record o { parentid = set_string 64 o.parentid val })
    else if tag == tag_role
    then ok (record o { roles = push_string 32 o.roles val })
    else if tag == tag_email
    then ok (record o { email = set_string 128 o.email val })
    else if tag == tag_voice
    then ok (record o { voice = set_string 32 o.voice val })
    else if tag == tag_crdate
    then (tlv_u32_of val >>= λ n. ok (record o { crdate = n }))
    else ok o

-- The loop starts behind the version, which is not looked at.
unfoldable pub epp_org_decode : Bytes → ℕ → Outcome Org
epp_org_decode buf len = tlv_fold epp_org_item (suc len) buf len 1 no_org
