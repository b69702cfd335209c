-- ===== src/Svcb.antt =====
-- dns_wire.c, "RFC 9460 SVCB/HTTPS codec": `svcb_tlv_to_wire`.
pub mod Wire
pub mod Safety
use simple_dns.Common.{
  ℕ, zero, suc, ◌+◌, ◌-◌, ◌*◌, ◌/◌, ◌%◌, ◌^◌, bit_and, bit_or, Bool, ◌&&◌, Option, none, some, List,
  [], ◌∷◌, ◌++◌, Bytes, replicate, take, drop, length, ltb, leb, ◌==◌, if◌then◌else◌, not,
}
use simple_dns.Common.Bits.{shl, shr}
use simple_dns.Common.Memory.{Outcome, ok, err, ◌>>=◌, ◌>>◌, refuse_if, read, write}
use simple_dns.Common.Text.{c_string}
use simple_dns.Endian.{to_u8}
use simple_dns.Name.{name_to_wire}
use simple_dns.Tlv.{tlv_version, tlv_fold}

-- SVCB_TLV_VERSION, SVCB_TLV_PRIORITY, SVCB_TLV_TARGET, SVCB_TLV_PARAM_BASE and SVCB_KEY_MAX
abbrev pub svcb_tlv_version : ℕ
svcb_tlv_version = 1

abbrev pub tag_priority : ℕ
tag_priority = 1

abbrev pub tag_target : ℕ
tag_target = 2

abbrev pub tag_param_base : ℕ
tag_param_base = 0x10

abbrev pub svcb_key_max : ℕ
svcb_key_max = 6

-- The locals of the reader: `prio` is `none` while it is -1, and `params` holds, for each key from 0
-- on, the value where `has[key]` is set.
pub record Service : Type 0 where
  pub prio : Option ℕ
  pub target : Bytes
  pub params : List (Option Bytes)

-- The assignment to the arrays at `key`.
unfoldable pub set_param : ℕ → Bytes → List (Option Bytes) → List (Option Bytes)
set_param key val [] = []
set_param zero val (p ∷ ps) = some val ∷ ps
set_param (suc key) val (p ∷ ps) = p ∷ set_param key val ps

-- The body of the loop. An unknown tag is skipped.
unfoldable pub svcb_item : Service → ℕ → Bytes → Outcome Service
svcb_item s tag val =
    if tag == tag_priority
    then refuse_if (not (length val == 2))
      >> (read val 0 >>= λ hi.
          read val 1 >>= λ lo. ok (record s { prio = some (bit_or (shl hi 8) lo) }))
    else if tag == tag_target
    then refuse_if (leb 256 (length val)) >> ok (record s { target = c_string val })
    else if leb tag_param_base tag && leb tag (tag_param_base + svcb_key_max)
    then ok (record s { params = set_param (tag - tag_param_base) val s.params })
    else ok s

-- The loop over the keys, from `key` on at `o`.
unfoldable pub put_params : List (Option Bytes) → ℕ → Bytes → ℕ → ℕ → Outcome (Bytes × ℕ)
put_params [] key out o outcap = ok (out, o)
put_params (none ∷ ps) key out o outcap = put_params ps (suc key) out o outcap
put_params (some val ∷ ps) key out o outcap = do
  let plen = length val
  refuse_if (ltb outcap (o + 4 + plen))
  out1 ← write out o (
      to_u8 (shr key 8)
      ∷ to_u8 (bit_and key 0xff)
      ∷ to_u8 (shr plen 8)
      ∷ to_u8 (bit_and plen 0xff)
      ∷ [])
  out2 ← write out1 (o + 4) val
  put_params ps (suc key) out2 (o + 4 + plen) outcap

abbrev pub target_or_root : Bytes → Bytes
target_or_root [] = b'.' ∷ []
target_or_root (c ∷ s) = c ∷ s

-- The priority, the target and the parameters; `out` afterwards and the length written.
unfoldable pub svcb_put : ℕ → Service → Bytes → ℕ → Outcome (Bytes × ℕ)
svcb_put prio s out outcap = do
  refuse_if (ltb outcap 2)
  out1 ← write out 0 (to_u8 (shr prio 8) ∷ to_u8 (bit_and prio 0xff) ∷ [])
  (out2, n) ← name_to_wire (target_or_root s.target) out1 2 (outcap - 2)
  put_params s.params 0 out2 (2 + n) outcap

-- `if (rc < 0 || prio < 0) return -1;`
unfoldable pub svcb_emit : Service → Bytes → ℕ → Outcome (Bytes × ℕ)
svcb_emit s out outcap = elim s.prio [ none ↦ err | some prio ↦ svcb_put prio s out outcap ]

unfoldable pub svcb_tlv_to_wire : Bytes → ℕ → Bytes → ℕ → Outcome (Bytes × ℕ)
svcb_tlv_to_wire tlv tlvlen out outcap = do
  version ← tlv_version tlv tlvlen
  refuse_if (not (version == svcb_tlv_version))
  s ←
      tlv_fold svcb_item tlvlen tlv tlvlen 1
        (record { prio = none; target = []; params = replicate 7 none })
  svcb_emit s out outcap
