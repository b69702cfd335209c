-- ===== src/Epp/Codec.antt =====
-- eppd.c, "epp:* object store": the tags of the blobs, and the steps that their encoders and decoders
-- share. An array of `char` is the C string in it, and an array with its counter is a list.
pub mod Writes
pub mod Reads
pub mod Safety
use simple_dns.Common.{
  ℕ, suc, ◌+◌, Bool, ◌&&◌, not, List, [], ◌∷◌, ◌++◌, Bytes, length, ltb, ◌==◌, if◌then◌else◌,
}
use simple_dns.Common.Memory.{Outcome, ok, ◌>>=◌}
use simple_dns.Common.Text.{c_string}
use simple_dns.Tlv.{tlv_put, tlv_put_u32}
use simple_dns.Zonemd.{val32}

abbrev pub tag_roid : ℕ
tag_roid = 1

abbrev pub tag_status : ℕ
tag_status = 2

abbrev pub tag_authinfo : ℕ
tag_authinfo = 3

abbrev pub tag_crdate : ℕ
tag_crdate = 4

abbrev pub tag_exdate : ℕ
tag_exdate = 5

abbrev pub tag_registrant : ℕ
tag_registrant = 6

abbrev pub tag_ns : ℕ
tag_ns = 7

abbrev pub tag_addr_v4 : ℕ
tag_addr_v4 = 8

abbrev pub tag_addr_v6 : ℕ
tag_addr_v6 = 9

abbrev pub tag_name : ℕ
tag_name = 10

abbrev pub tag_email : ℕ
tag_email = 11

abbrev pub tag_voice : ℕ
tag_voice = 12

abbrev pub tag_clid : ℕ
tag_clid = 13

abbrev pub tag_rgp_state : ℕ
tag_rgp_state = 14

abbrev pub tag_rgp_until : ℕ
tag_rgp_until = 15

abbrev pub tag_ds : ℕ
tag_ds = 16

abbrev pub tag_transfer_reid : ℕ
tag_transfer_reid = 17

abbrev pub tag_transfer_redate : ℕ
tag_transfer_redate = 18

abbrev pub tag_transfer_status : ℕ
tag_transfer_status = 19

abbrev pub tag_msg : ℕ
tag_msg = 20

abbrev pub tag_qdate : ℕ
tag_qdate = 21

abbrev pub tag_objtype : ℕ
tag_objtype = 22

abbrev pub tag_objid : ℕ
tag_objid = 23

abbrev pub tag_cp_state : ℕ
tag_cp_state = 24

abbrev pub tag_cp_operation : ℕ
tag_cp_operation = 25

abbrev pub tag_cp_who : ℕ
tag_cp_who = 26

abbrev pub tag_cp_reason : ℕ
tag_cp_reason = 27

abbrev pub tag_resdata : ℕ
tag_resdata = 28

abbrev pub tag_parentid : ℕ
tag_parentid = 29

abbrev pub tag_role : ℕ
tag_role = 30

abbrev pub tag_orgid : ℕ
tag_orgid = 31

-- EPP_MAX_ARR
abbrev pub max_arr : ℕ
max_arr = 16

-- The buffer and the offset.
abbrev pub Output : Type 0
Output = Bytes × ℕ

-- `off = tlv_put(buf, cap, off, tag, s, strlen(s))`
abbrev pub put : ℕ → ℕ → Bytes → Output → Outcome Output
put cap tag s w = tlv_put w.0 cap w.1 tag s

-- The same under `if (s[0])`.
abbrev pub put_nonempty : ℕ → ℕ → Bytes → Output → Outcome Output
put_nonempty cap tag [] w = ok w
put_nonempty cap tag (c ∷ s) w = put cap tag (c ∷ s) w

-- The loop over an array, whose entries are put as bytes.
abbrev pub put_each {ℓ} : {E : Type ℓ} → ℕ → ℕ → (E → Bytes) → List E → Output → Outcome Output
put_each cap tag raw [] w = ok w
put_each cap tag raw (e ∷ es) w = put cap tag (raw e) w >>= put_each cap tag raw es

-- `off = tlv_put_u32(buf, cap, off, tag, v)`
abbrev pub put_date : ℕ → ℕ → ℕ → Output → Outcome Output
put_date cap tag v w = tlv_put_u32 w.0 cap w.1 tag v

-- The same under `if (v)`.
abbrev pub put_date_set : ℕ → ℕ → ℕ → Output → Outcome Output
put_date_set cap tag v w = if v == 0 then ok w else put_date cap tag v w

-- `if (vlen < sizeof(dst)) { memcpy(dst, val, vlen); dst[vlen] = 0; }`
unfoldable pub set_string : ℕ → Bytes → Bytes → Bytes
set_string size dst val = if ltb (length val) size then c_string val else dst

-- The same at the end of an array of strings.
unfoldable pub push_string : ℕ → List Bytes → Bytes → List Bytes
push_string size dst val =
    if ltb (length dst) max_arr && ltb (length val) size then dst ++ c_string val ∷ [] else dst

-- `tlv_u32_of(val, vlen)`, which is 0 for a value of another length.
unfoldable pub tlv_u32_of : Bytes → Outcome ℕ
tlv_u32_of val = if not (length val == 4) then ok 0 else val32 val
