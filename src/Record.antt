-- ===== src/Record.antt =====
-- dns_wire.c: `append_rr` and `append_rr_plain`, which append one resource record.
pub mod Laws
pub mod Compressed
use simple_dns.Common.{
  ℕ, ◌+◌, ◌-◌, ◌^◌, Bool, List, [], ◌∷◌, ◌++◌, Bytes, length, ltb, if◌then◌else◌,
}
use simple_dns.Common.Memory.{Outcome, ok, err, fault, ◌>>=◌, ◌>>◌, refuse_if, write}
use simple_dns.Endian.{put16, put32}
use simple_dns.Name.{name_to_wire}
use simple_dns.Compress.{Context, name_to_wire_c}

-- The arguments that describe the record. `rdlen` is the length of `rdata`.
pub record Rr : Type 0 where
  pub name : Bytes
  pub type : ℕ
  pub cls : ℕ
  pub ttl : ℕ
  pub rdata : Bytes

-- What both functions do behind the owner name, of `n` bytes at `off`: the test for the room that is left,
-- the fixed fields and the rdata. The result is the buffer and the new offset.
unfoldable pub append_fields : Rr → Bytes → ℕ → ℕ → ℕ → Outcome (Bytes × ℕ)
append_fields rr buf n off blen = do
  let rdlen = length rr.rdata
  refuse_if (ltb blen (off + n + 10 + rdlen))
  let at = off + n
  buf1 ← put16 buf at rr.type
  buf2 ← put16 buf1 (at + 2) rr.cls
  buf3 ← put32 buf2 (at + 4) rr.ttl
  buf4 ← put16 buf3 (at + 8) rdlen
  buf5 ← write buf4 (at + 10) rr.rdata
  ok (buf5, at + 10 + rdlen)

unfoldable pub append_rr_plain : Rr → Bytes → ℕ → ℕ → Outcome (Bytes × ℕ)
append_rr_plain rr buf off blen = do
  (buf1, n) ← name_to_wire rr.name buf off (blen - off)
  append_fields rr buf1 n off blen

-- The owner name is compressed against the context, which is kept whatever the outcome.
unfoldable pub append_rr : Context → Rr → Bytes → ℕ → ℕ → Context × Outcome (Bytes × ℕ)
append_rr ctx rr buf off blen =
    let (ctx', o) = name_to_wire_c ctx rr.name buf off blen off in
    (ctx', o >>= λ r. append_fields rr r.0 r.1 off blen)
