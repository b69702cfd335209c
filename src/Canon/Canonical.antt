-- ===== src/Canon/Canonical.antt =====
-- dns_wire.c, `canon_rdata` against RFC 4034 §6.2.
use simple_dns.Common.{
  ℕ, ◌+◌, ◌≤◌, Bool, true, false, ◌||◌, ◌∷◌, ◌++◌, Bytes, length, drop, ◌==◌, ◌≡◌,
}
use simple_dns.Canon.Names.{PlainName, canonical, behind}

-- NS, CNAME, PTR and DNAME
abbrev pub is_name_type : ℕ → Bool
is_name_type rtype = rtype == 2 || (rtype == 5 || (rtype == 12 || rtype == 39))

-- MX, SRV and SOA hold names too.
abbrev pub has_names : ℕ → Bool
has_names rtype = is_name_type rtype || (rtype == 15 || (rtype == 33 || rtype == 6))

-- The rdata of `rdlen` bytes that the message holds at `o`, by its type, and its canonical form.
pub data IsCanonical (msg : Bytes) (o rdlen : ℕ) : ℕ → Bytes → Type 0 where
  of_name :
      {rtype : ℕ}
      → is_name_type rtype ≡ true
      → (x : PlainName msg o) → IsCanonical msg o rdlen rtype (canonical x)
  of_mx :
      (hi lo : ℕ) (rest : Bytes)
      → 3 ≤ rdlen
      → drop o msg ≡ hi ∷ lo ∷ rest
      → (x : PlainName msg (o + 2)) → IsCanonical msg o rdlen 15 (hi ∷ lo ∷ canonical x)
  of_srv :
      (fixed rest : Bytes)
      → 7 ≤ rdlen
      → length fixed ≡ 6
      → drop o msg ≡ fixed ++ rest
      → (x : PlainName msg (o + 6)) → IsCanonical msg o rdlen 33 (fixed ++ canonical x)
  of_soa :
      (x : PlainName msg o) (y : PlainName msg (behind x)) (numbers rest : Bytes)
      → length numbers ≡ 20
      → drop (behind y) msg ≡ numbers ++ rest
      → IsCanonical msg o rdlen 6 ((canonical x ++ canonical y) ++ numbers)
  of_other :
      {rtype : ℕ} (rdata rest : Bytes)
      → has_names rtype ≡ false
      → length rdata ≡ rdlen
      → drop o msg ≡ rdata ++ rest
      → IsCanonical msg o rdlen rtype rdata
