-- ===== src/Canon.antt =====
-- dns_wire.c, "RFC 4034 §6 canonical-form helpers": `canon_rdata`. The offsets are not negative.
pub mod Safety
pub mod Names
pub mod Stored
pub mod Soa
pub mod Canonical
use simple_dns.Common.{ℕ, ◌+◌, ◌-◌, Bool, ◌||◌, [], ◌∷◌, Bytes, length, ltb, ◌==◌, if◌then◌else◌}
use simple_dns.Common.Memory.{Outcome, ok, err, ◌>>=◌, ◌>>◌, refuse_if, read, slice, write}
use simple_dns.Common.Text.{c_string}
use simple_dns.Name.{name_to_wire, name_from_wire}

-- The buffer, the number of bytes written at `at`, and the offset behind the name in the message.
pub record Copied : Type 0 where
  pub out : Bytes
  pub written : ℕ
  pub after : ℕ

-- A name of the message, uncompressed and in lower case, through the array `nm` of 256 bytes.
unfoldable pub copy_name : Bytes → ℕ → ℕ → Bytes → ℕ → ℕ → Outcome Copied
copy_name pkt plen off out at room = do
  (nm, after) ← name_from_wire pkt plen off 256
  (out', n) ← name_to_wire (c_string nm) out at room
  ok (record { out = out'; written = n; after = after })

unfoldable pub canon_name : Bytes → ℕ → ℕ → Bytes → ℕ → Outcome (Bytes × ℕ)
canon_name pkt plen rdoff out outsz = do
  c ← copy_name pkt plen rdoff out 0 outsz
  ok (c.out, c.written)

unfoldable pub canon_mx : Bytes → ℕ → ℕ → ℕ → Bytes → ℕ → Outcome (Bytes × ℕ)
canon_mx pkt plen rdoff rdlen out outsz = do
  refuse_if (ltb rdlen 3 || ltb outsz 2)
  hi ← read pkt rdoff
  lo ← read pkt (rdoff + 1)
  out1 ← write out 0 (hi ∷ lo ∷ [])
  c ← copy_name pkt plen (rdoff + 2) out1 2 (outsz - 2)
  ok (c.out, 2 + c.written)

unfoldable pub canon_srv : Bytes → ℕ → ℕ → ℕ → Bytes → ℕ → Outcome (Bytes × ℕ)
canon_srv pkt plen rdoff rdlen out outsz = do
  refuse_if (ltb rdlen 7 || ltb outsz 6)
  fixed ← slice pkt rdoff 6
  out1 ← write out 0 fixed
  c ← copy_name pkt plen (rdoff + 6) out1 6 (outsz - 6)
  ok (c.out, 6 + c.written)

-- Two names, and the five 32-bit numbers behind them.
unfoldable pub canon_soa : Bytes → ℕ → ℕ → Bytes → ℕ → Outcome (Bytes × ℕ)
canon_soa pkt plen rdoff out outsz = do
  c ← copy_name pkt plen rdoff out 0 outsz
  d ← copy_name pkt plen c.after c.out c.written (outsz - c.written)
  let pos = c.written + d.written
  refuse_if (ltb plen (d.after + 20) || ltb outsz (pos + 20))
  numbers ← slice pkt d.after 20
  out3 ← write d.out pos numbers
  ok (out3, pos + 20)

unfoldable pub canon_other : Bytes → ℕ → ℕ → Bytes → ℕ → Outcome (Bytes × ℕ)
canon_other pkt rdoff rdlen out outsz = do
  refuse_if (ltb outsz rdlen)
  rdata ← slice pkt rdoff rdlen
  out1 ← write out 0 rdata
  ok (out1, rdlen)

-- `out` afterwards, and the length of the canonical rdata.
unfoldable pub canon_rdata : Bytes → ℕ → ℕ → ℕ → ℕ → Bytes → ℕ → Outcome (Bytes × ℕ)
canon_rdata pkt plen rdoff rdlen rtype out outsz =
    refuse_if (ltb plen (rdoff + rdlen))
    >> (if rtype == 2 || (rtype == 5 || (rtype == 12 || rtype == 39))
        then canon_name pkt plen rdoff out outsz
        else if rtype == 15
        then canon_mx pkt plen rdoff rdlen out outsz
        else if rtype == 33
        then canon_srv pkt plen rdoff rdlen out outsz
        else if rtype == 6
        then canon_soa pkt plen rdoff out outsz
        else canon_other pkt rdoff rdlen out outsz)
