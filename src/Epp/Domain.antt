-- ===== src/Epp/Domain.antt =====
-- eppd.c, domain objects (RFC 5731, RFC 3915, RFC 5910): `epp_domain_t`, `epp_domain_encode`, `epp_domain_decode`.
pub mod RoundTrip
pub mod Safety
use simple_dns.Common.{
  ℕ, suc, List, [], ◌∷◌, ◌++◌, ◌*◌, ◌+◌, ◌-◌, ◌%◌, ◌^◌, ◌&&◌, bit_and, bit_or, Bytes, length, take,
  ltb, leb, ◌==◌, if◌then◌else◌,
}
use simple_dns.Common.Bits.{shl, shr}
use simple_dns.Endian.{to_u8}
use simple_dns.Common.Memory.{Outcome, ok, ◌>>=◌, read, slice}
use simple_dns.Tlv.{tlv_begin, tlv_fold}
use simple_dns.Epp.Codec.{
  tag_roid, tag_clid, tag_status, tag_authinfo, tag_crdate, tag_exdate, tag_registrant, tag_ns,
  tag_ds, tag_rgp_state, tag_rgp_until, tag_transfer_reid, tag_transfer_redate, tag_transfer_status,
  max_arr, Output, put, put_nonempty, put_each, put_date, put_date_set, set_string, push_string,
  tlv_u32_of,
}

-- EPP_DS_MAX_DIGEST
abbrev pub ds_max_digest : ℕ
ds_max_digest = 68

-- `epp_ds_t`, with the `digestlen` bytes of the digest.
pub record Ds : Type 0 where
  pub keytag : ℕ
  pub alg : ℕ
  pub digtype : ℕ
  pub digest : Bytes

pub record Domain : Type 0 where
  pub roid : Bytes
  pub clid : Bytes
  pub status : List Bytes
  pub authinfo : Bytes
  pub crdate : ℕ
  pub exdate : ℕ
  pub registrant : Bytes
  pub ns : List Bytes
  pub ds : List Ds
  pub rgp_state : ℕ
  pub rgp_until : ℕ
  pub transfer_reid : Bytes
  pub transfer_redate : ℕ
  pub transfer_status : Bytes

-- The bytes `dsraw` of an entry.
unfoldable pub ds_raw : Ds → Bytes
ds_raw e =
    to_u8 (shr e.keytag 8)
    ∷ to_u8 (bit_and e.keytag 0xff)
    ∷ e.alg
    ∷ e.digtype
    ∷ take ds_max_digest e.digest

unfoldable pub epp_domain_encode : Domain → Bytes → ℕ → Outcome Output
epp_domain_encode d buf cap = do
  w ← tlv_begin buf cap 1
  w1 ← put cap tag_roid d.roid w
  w2 ← put_nonempty cap tag_clid d.clid w1
  w3 ← put_each cap tag_status (λ (s : Bytes). s) d.status w2
  w4 ← put_nonempty cap tag_authinfo d.authinfo w3
  w5 ← put_date cap tag_crdate d.crdate w4
  w6 ← put_date_set cap tag_exdate d.exdate w5
  w7 ← put_nonempty cap tag_registrant d.registrant w6
  w8 ← put_each cap tag_ns (λ (s : Bytes). s) d.ns w7
  w9 ← put_each cap tag_ds ds_raw d.ds w8
  w10 ← (if d.rgp_state == 0 then ok w9 else put cap tag_rgp_state (to_u8 d.rgp_state ∷ []) w9)
  w11 ← put_date_set cap tag_rgp_until d.rgp_until w10
  w12 ← put_nonempty cap tag_transfer_reid d.transfer_reid w11
  w13 ← put_date_set cap tag_transfer_redate d.transfer_redate w12
  put_nonempty cap tag_transfer_status d.transfer_status w13

-- `memset(d, 0, sizeof(*d))`
abbrev pub no_domain : Domain
no_domain = record {
  roid = [];
  clid = [];
  status = [];
  authinfo = [];
  crdate = 0;
  exdate = 0;
  registrant = [];
  ns = [];
  ds = [];
  rgp_state = 0;
  rgp_until = 0;
  transfer_reid = [];
  transfer_redate = 0;
  transfer_status = [];
}

-- The entry of a DS item, at the end of the array.
unfoldable pub push_ds : List Ds → Bytes → Outcome (List Ds)
push_ds ds val =
    if ltb (length ds) max_arr && (leb 4 (length val) && leb (length val - 4) ds_max_digest)
    then (do
      high ← read val 0
      low ← read val 1
      alg ← read val 2
      digtype ← read val 3
      digest ← slice val 4 (length val - 4)
      ok (
          ds
          ++ record {
            keytag = bit_or (shl high 8) low % 2 ^ 16;
            alg = alg;
            digtype = digtype;
            digest = digest;
          }
            ∷ []))
    else ok ds

-- The body of the loop. An unknown tag is skipped.
unfoldable pub epp_domain_item : Domain → ℕ → Bytes → Outcome Domain
epp_domain_item d tag val =
    if tag == tag_roid
    then ok (record d { roid = set_string 32 d.roid val })
    else if tag == tag_status
    then ok (record d { status = push_string 32 d.status val })
    else if tag == tag_authinfo
    then ok (record d { authinfo = set_string 256 d.authinfo val })
    else if tag == tag_crdate
    then (tlv_u32_of val >>= λ n. ok (record d { crdate = n }))
    else if tag == tag_exdate
    then (tlv_u32_of val >>= λ n. ok (record d { exdate = n }))
    else if tag == tag_registrant
    then ok (record d { registrant = set_string 64 d.registrant val })
    else if tag == tag_ns
    then ok (record d { ns = push_string 256 d.ns val })
    else if tag == tag_clid
    then ok (record d { clid = set_string 64 d.clid val })
    else if tag == tag_ds
    then (push_ds d.ds val >>= λ ds. ok (record d { ds = ds }))
    else if tag == tag_rgp_state
    then (if length val == 1 then (read val 0 >>= λ n. ok (record d { rgp_state = n })) else ok d)
    else if tag == tag_rgp_until
    then (tlv_u32_of val >>= λ n. ok (record d { rgp_until = n }))
    else if tag == tag_transfer_reid
    then ok (record d { transfer_reid = set_string 64 d.transfer_reid val })
    else if tag == tag_transfer_redate
    then (tlv_u32_of val >>= λ n. ok (record d { transfer_redate = n }))
    else if tag == tag_transfer_status
    then ok (record d { transfer_status = set_string 24 d.transfer_status val })
    else ok d

-- The loop starts behind the version, which is not looked at.
unfoldable pub epp_domain_decode : Bytes → ℕ → Outcome Domain
epp_domain_decode buf len = tlv_fold epp_domain_item (suc len) buf len 1 no_domain
