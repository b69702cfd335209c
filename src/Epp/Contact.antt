-- ===== src/Epp/Contact.antt =====
-- eppd.c, contact objects (RFC 5733): `epp_contact_t`, `epp_contact_encode`, `epp_contact_decode`.
pub mod RoundTrip
pub mod Safety
use simple_dns.Common.{
  ℕ, suc, List, [], ◌∷◌, ◌++◌, ◌*◌, ◌+◌, ◌-◌, ◌%◌, ◌^◌, ◌&&◌, bit_and, bit_or, Bytes, length, take,
  ltb, leb, ◌==◌, if◌then◌else◌,
}
use simple_dns.Common.Memory.{Outcome, ok, ◌>>=◌, read, slice}
use simple_dns.Tlv.{tlv_begin, tlv_fold}
use simple_dns.Epp.Codec.{
  tag_roid, tag_clid, tag_name, tag_email, tag_voice, tag_authinfo, tag_crdate, max_arr, Output,
  put, put_nonempty, put_each, put_date, put_date_set, set_string, push_string, tlv_u32_of,
}

pub record Contact : Type 0 where
  pub roid : Bytes
  pub clid : Bytes
  pub name : Bytes
  pub email : Bytes
  pub voice : Bytes
  pub authinfo : Bytes
  pub crdate : ℕ

unfoldable pub epp_contact_encode : Contact → Bytes → ℕ → Outcome Output
epp_contact_encode c buf cap = do
  w ← tlv_begin buf cap 1
  w1 ← put cap tag_roid c.roid w
  w2 ← put_nonempty cap tag_clid c.clid w1
  w3 ← put_nonempty cap tag_name c.name w2
  w4 ← put_nonempty cap tag_email c.email w3
  w5 ← put_nonempty cap tag_voice c.voice w4
  w6 ← put_nonempty cap tag_authinfo c.authinfo w5
  put_date cap tag_crdate c.crdate w6

-- `memset(c, 0, sizeof(*c))`
abbrev pub no_contact : Contact
no_contact = record {
  roid = [];
  clid = [];
  name = [];
  email = [];
  voice = [];
  authinfo = [];
  crdate = 0;
}

-- The body of the loop. An unknown tag is skipped.
unfoldable pub epp_contact_item : Contact → ℕ → Bytes → Outcome Contact
epp_contact_item c tag val =
    if tag == tag_roid
    then ok (record c { roid = set_string 32 c.roid val })
    else if tag == tag_name
    then ok (record c { name = set_string 128 c.name val })
    else if tag == tag_email
    then ok (record c { email = set_string 128 c.email val })
    else if tag == tag_voice
    then ok (record c { voice = set_string 32 c.voice val })
    else if tag == tag_authinfo
    then ok (record c { authinfo = set_string 256 c.authinfo val })
    else if tag == tag_crdate
    then (tlv_u32_of val >>= λ n. ok (record c { crdate = n }))
    else if tag == tag_clid
    then ok (record c { clid = set_string 64 c.clid val })
    else ok c

-- The loop starts behind the version, which is not looked at.
unfoldable pub epp_contact_decode : Bytes → ℕ → Outcome Contact
epp_contact_decode buf len = tlv_fold epp_contact_item (suc len) buf len 1 no_contact
