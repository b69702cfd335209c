-- ===== src/Record/Laws.antt =====
-- What the two functions append, and that it reads back.
use simple_dns.Common.{
  ℕ, ◌+◌, ◌-◌, ◌≤◌, true, List, ◌++◌, Bytes, length, ◌&&◌, leb, ltb, ltb_false→le, Bool-cases,
  length-append, if◌then◌else◌, inl, inr, ◌≡◌, ◌∙◌, arith,
}
use simple_dns.Common.Memory.{ok, err, patch, patch-patch, length-patch}
use simple_dns.Endian.Laws.{be16, be32, put16_lem, put16_behind, put32_behind, write_behind}
use simple_dns.Name.{labels_in}
use simple_dns.Name.Wire.{wire_of, all_short, names_fit, name_to_wire_lem}
use simple_dns.Record.{Rr, append_fields, append_rr_plain}

-- RFC 1035 §3.2.1: type, class, TTL, RDLENGTH and RDATA.
abbrev pub fixed_of : Rr → Bytes
fixed_of rr = be16 rr.type ++ (be16 rr.cls ++ (be32 rr.ttl ++ be16 (length rr.rdata)))

abbrev pub fields_of : Rr → Bytes
fields_of rr = fixed_of rr ++ rr.rdata

pub append_fields_lem :
    (rr : Rr) (buf : Bytes) (n off blen : ℕ)
    → blen ≤ length buf
    → append_fields rr buf n off blen ≡ (
        if ltb blen (off + n + 10 + length rr.rdata)
        then err
        else ok (patch buf (off + n) (fields_of rr), off + n + 10 + length rr.rdata))
unfolding append_fields
append_fields_lem rr buf n off blen h =
    elim (Bool-cases (ltb blen (off + n + 10 + length rr.rdata))) [
      | inl e ↦ rw e
      | inr e ↦
          let room : off + n + 10 + length rr.rdata ≤ blen = ltb_false→le _ _ e in
          rw (
            e,
            put16_lem buf (off + n) rr.type (omega arith),
            put16_behind buf (off + n) (be16 rr.type) (off + n + 2) rr.cls (omega arith)
                (omega arith),
            put32_behind buf (off + n) (be16 rr.type ++ be16 rr.cls) (off + n + 4) rr.ttl
                (omega arith) (omega arith),
            put16_behind buf (off + n) (be16 rr.type ++ (be16 rr.cls ++ be32 rr.ttl)) (off + n + 8)
                (length rr.rdata) (omega arith) (omega arith),
            write_behind buf (off + n) (fixed_of rr) rr.rdata (off + n + 10) (omega arith)
                (omega arith),
          )
    ]

-- The record in wire form, with an uncompressed owner name.
abbrev pub wire_of_rr : Rr → Bytes
wire_of_rr rr = wire_of (labels_in rr.name) ++ fields_of rr

length-fields_of : (rr : Rr) → length (fields_of rr) ≡ 10 + length rr.rdata
length-fields_of rr = omega arith

plain_fits :
    (rr : Rr) (buf : Bytes) (off blen : ℕ)
    → off ≤ blen
    → blen ≤ length buf
    → names_fit (labels_in rr.name) 0 (blen - off) ≡ true
    → append_fields rr
        (patch buf off (wire_of (labels_in rr.name)))
        (length (wire_of (labels_in rr.name)))
        off
        blen
      ≡ (if leb (off + length (wire_of_rr rr)) blen
          then ok (patch buf off (wire_of_rr rr), off + length (wire_of_rr rr))
          else err)
plain_fits rr buf off blen start h fit =
    let w : Bytes = wire_of (labels_in rr.name) in
    let size : length (patch buf off w) ≡ length buf = length-patch buf off w (ground arith) in
    append_fields_lem rr (patch buf off w) (length w) off blen (omega arith)
    ∙ rw patch-patch (ground (arith, length-append w (fields_of rr), length-fields_of rr))

short : (ls : List Bytes) (n blen : ℕ) → (all_short ls && leb n blen) ≡ true → all_short ls ≡ true
short ls n blen e = ground arith

-- `append_rr_plain` appends the record in wire form, and nothing else, exactly when each label of
-- the owner has at most 63 bytes and the record ends within `blen`; otherwise it returns -1.
pub append_rr_plain_lem :
    (rr : Rr) (buf : Bytes) (off blen : ℕ)
    → off ≤ blen
    → blen ≤ length buf
    → append_rr_plain rr buf off blen ≡ (
        if all_short (labels_in rr.name) && leb (off + length (wire_of_rr rr)) blen
        then ok (patch buf off (wire_of_rr rr), off + length (wire_of_rr rr))
        else err)
unfolding append_rr_plain
append_rr_plain_lem rr buf off blen start h =
    let w : Bytes = wire_of (labels_in rr.name) in
    let named = name_to_wire_lem rr.name buf off (blen - off) (omega arith) in
    let here : off + 0 ≡ off = omega arith in
    let none_yet : 0 + length w ≡ length w = omega arith in
    elim (Bool-cases (names_fit (labels_in rr.name) 0 (blen - off))) [
      | inl e ↦
          rw (named, e, here, none_yet)
            (plain_fits rr buf off blen start h e
              ∙ rw (short (labels_in rr.name) (0 + length w) (blen - off) e))
      | inr e ↦ rw (named, e) (ground (arith, length-append w (fields_of rr), length-fields_of rr))
    ]
