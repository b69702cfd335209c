-- ===== src/Tests/Blobs.antt =====
-- TLV blobs, ZONEMD and type names.
use simple_dns.Common.{
  ℕ, suc, ◌≤◌, true, [], ◌∷◌, Bytes, length, leb, if◌then◌else◌, ◌≡◌, refl, arith,
}
use simple_dns.Common.Memory.{Outcome, ok, err, ◌>>=◌}
use simple_dns.Common.Memory.Safe.{Holds, Any}
use simple_dns.Common.Text.{strcase_eq}
use simple_dns.Common.Text.Decimal.{bytes, digits}
use simple_dns.Tlv.{tlv_fold}
use simple_dns.Tlv.Fold.{tlv_fold-Holds}
use simple_dns.Zonemd.{Digest, zonemd_build_tlv, zonemd_tlv_to_wire}
use simple_dns.Zonemd.RoundTrip.{rdata_of, zonemd_tlv_to_wire-zonemd_build_tlv}
use simple_dns.Zonemd.Safety.{zonemd_tlv_to_wire-Holds}
use simple_dns.Types.{type2str, str2type, type_names, name_of, number_name}
use simple_dns.Types.Laws.{str2type-type2str}
use simple_dns.Tests.{blank}

abbrev digest : Digest
digest = record { serial = 2018031900; scheme = 1; hashalg = 1; digest = 7 ∷ 8 ∷ 9 ∷ [] }

zonemd_tlv_to_wire-zonemd_build_tlv_example :
    (zonemd_build_tlv digest blank 40 >>= λ r. zonemd_tlv_to_wire r.0 r.1 64)
    ≡ (if leb (length (rdata_of digest)) 64 then ok (rdata_of digest) else err)
zonemd_tlv_to_wire-zonemd_build_tlv_example =
    zonemd_tlv_to_wire-zonemd_build_tlv digest blank 40 64 (omega arith) (omega arith) (omega arith)
      (omega arith)

-- A serial of 3 bytes.
abbrev damaged : Bytes
damaged = 1 ∷ 1 ∷ 0 ∷ 3 ∷ 1 ∷ 2 ∷ 3 ∷ []

zonemd_tlv_to_wire-Holds_example : Holds (λ out. length out ≤ 64) (zonemd_tlv_to_wire damaged 7 64)
zonemd_tlv_to_wire-Holds_example = zonemd_tlv_to_wire-Holds damaged 7 64 (omega arith)

abbrev pair : Bytes
pair = 7 ∷ 8 ∷ []

-- A body that counts the items.
abbrev count : ℕ → ℕ → Bytes → Outcome ℕ
count n tag val = ok (suc n)

tlv_fold-Holds_example : Holds Any (tlv_fold count 8 damaged 7 1 0)
tlv_fold-Holds_example =
    tlv_fold-Holds count Any damaged 7 (omega arith) (λ s t v p. tt) 8 1 0 (omega arith)
      (omega arith) tt

str2type-type2str_example : str2type (type2str 61) ≡ 61
str2type-type2str_example = str2type-type2str 61 (omega arith)

unnamed : type2str 61 ≡ bytes "TYPE61"
unfolding type2str type_names name_of number_name digits bytes
unnamed = refl

same : strcase_eq (bytes "aAaA") (bytes "AAAA") ≡ true
unfolding bytes strcase_eq
same = refl
