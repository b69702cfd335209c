-- ===== src/Tests.antt =====
-- Runs of the definitions on small inputs, and the theorems applied to inputs of that kind.
pub mod Names
pub mod Messages
pub mod Blobs
pub mod Responses
pub mod Digits
pub mod Sorting
pub mod Registry
pub mod Store
pub mod Addresses
pub mod Transactions
use simple_dns.Common.{ℕ, List, [], ◌∷◌, ◌++◌, Bytes, replicate}
use simple_dns.Common.Text.Decimal.{bytes}
use simple_dns.Compress.{Context}
use simple_dns.Record.{Rr}

-- 40 bytes of memory, all 0
abbrev pub blank : Bytes
blank = replicate 40 0

-- "Www.Ab"
abbrev pub www_ab : Bytes
www_ab = 87 ∷ 119 ∷ 119 ∷ 46 ∷ 65 ∷ 98 ∷ []

abbrev pub ab : Bytes
ab = 97 ∷ 98 ∷ []

-- A message that holds the name "ab".
abbrev pub message : Bytes
message = 2 ∷ 97 ∷ 98 ∷ 0 ∷ []

-- The context after it was written at offset 0.
abbrev pub context : Context
context = record { name = ab; offset = 0 } ∷ []

-- An A record of www.ab
abbrev pub record_a : Rr
record_a = record { name = www_ab; type = 1; cls = 1; ttl = 300; rdata = 10 ∷ 0 ∷ 0 ∷ 1 ∷ [] }
