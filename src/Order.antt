-- ===== src/Order.antt =====
-- dns_wire.c, "RFC 4034 §6.1 canonical name ordering": `canon_name_cmp`. Of an `int` that a
-- comparison returns, only the sign has a meaning: lt, eq and gt stand for it.
pub mod Lex
pub mod Names
use simple_dns.Common.{ℕ, min, List, [], ◌∷◌, Bytes, length, take, ◌==◌}
use simple_dns.Common.Text.{strlower, safe_strcpy, tokens}
use simple_dns.Name.{dot}
use mathlib.Core.List.{reverse}
use Prim.Native.Nat.{zero, suc, compare, Ordering}

-- `if (c) return c;` and what stands behind it
abbrev pub or_then : Ordering → Ordering → Ordering
or_then Ordering.eq o = o
or_then Ordering.lt o = Ordering.lt
or_then Ordering.gt o = Ordering.gt

-- `memcmp` of the first `n` bytes
unfoldable pub memcmp : Bytes → Bytes → ℕ → Ordering
memcmp (x ∷ a) (y ∷ b) (suc n) = or_then (compare x y) (memcmp a b n)
memcmp _ _ _ = Ordering.eq

-- One round of the loop, where eq means that it goes on.
unfoldable pub label_cmp : Bytes → Bytes → Ordering
label_cmp sa sb =
    or_then (memcmp sa sb (min (length sa) (length sb))) (compare (length sa) (length sb))

-- The array of at most 128 labels.
unfoldable pub name_labels : Bytes → List Bytes
name_labels a = take 128 (tokens dot (strlower (safe_strcpy [] a 256)))

-- The loop from the last labels to the first ones, and the return value behind it.
unfoldable pub cmp_from : List Bytes → List Bytes → ℕ → ℕ → Ordering
cmp_from (sa ∷ la) (sb ∷ lb) ca cb = or_then (label_cmp sa sb) (cmp_from la lb ca cb)
cmp_from _ _ ca cb = compare ca cb

unfoldable pub canon_name_cmp : Bytes → Bytes → Ordering
canon_name_cmp a b =
    let la = name_labels a in
    let lb = name_labels b in cmp_from (reverse la) (reverse lb) (length la) (length lb)
