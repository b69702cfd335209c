-- ===== src/Valkey.antt =====
-- dns_wire.c, "Valkey RESP client": reading and parsing replies. The socket is what `recv` will
-- return and how much `send` will take. Of the read buffer a connection has the bytes from `rpos` to `rlen`:
-- `vkc_fill` moves them to its front before it looks for room.
pub mod Stream
pub mod Lines
pub mod Blocks
pub mod Parse
pub mod Ends
pub mod Overrun
pub mod Command
use simple_dns.Common.{
  ℕ, zero, suc, ◌+◌, ◌-◌, Bool, true, false, Option, none, some, List, [], ◌∷◌, ◌++◌, Bytes, length,
  take, drop, ltb, leb, ◌==◌, if◌then◌else◌, min,
}
use simple_dns.Common.Int.{ℤ, is_negative, atol, to_int}
use simple_dns.Common.Memory.{Outcome, ok, err, fault}
use simple_dns.Common.Text.{c_string, safe_strcpy}

-- VKC_BUF
abbrev pub vkc_buf : ℕ
vkc_buf = 65536

-- `chunks` is what the calls of `recv` find, an empty one a closed connection; `accepts` is how many
-- bytes `send` takes before it fails, and `sent` those that it took; `connected` is `fd >= 0`.
pub record Conn : Type 0 where
  pub connected : Bool
  pub unread : Bytes
  pub chunks : List Bytes
  pub accepts : ℕ
  pub sent : Bytes

-- An operation on a connection.
abbrev pub M {ℓ} : Type ℓ → Type ℓ
M A = Conn → Outcome A × Conn

abbrev pub run {ℓ κ} : {A : Type ℓ} {B : Type κ} → Outcome A → (A → M B) → M B
run (ok a) f c = f a c
run err f c = (err, c)
run fault f c = (fault, c)

infixl 5 ◌>>=◌
abbrev pub ◌>>=◌ {ℓ κ} : {A : Type ℓ} {B : Type κ} → M A → (A → M B) → M B
◌>>=◌ m f c = run (m c).0 f (m c).1

infixl 5 ◌>>◌
abbrev pub ◌>>◌ {ℓ} : {B : Type ℓ} → M (Unit {0}) → M B → M B
m >> k = m >>= λ _. k

abbrev pub give {ℓ} : {A : Type ℓ} → A → M A
give a c = (ok a, c)

abbrev pub refuse {ℓ} : {A : Type ℓ} → M A
refuse c = (err, c)

-- What `recv` leaves of a chunk.
abbrev pub left_over : Bytes → List Bytes → List Bytes
left_over [] chunks = chunks
left_over (b ∷ bs) chunks = (b ∷ bs) ∷ chunks

-- `recv` with room for at least a byte.
abbrev pub recv : List Bytes → ℕ → M (Unit {0})
recv [] room c = (err, c)
recv ([] ∷ chunks) room c = (err, c)
recv ((b ∷ bs) ∷ chunks) room c = (
  ok tt,
  record c {
    unread = c.unread ++ take room (b ∷ bs);
    chunks = left_over (drop room (b ∷ bs)) chunks;
  },
)

unfoldable pub vkc_fill : M (Unit {0})
vkc_fill c =
    if leb (vkc_buf - 1) (length c.unread)
    then (err, c)
    else recv c.chunks (vkc_buf - length c.unread - 1) c

-- The bytes before the first newline and those behind it.
unfoldable pub split_line : Bytes → Option (Bytes × Bytes)
split_line [] = none
split_line (c ∷ s) =
    if c == 10
    then some ([], s)
    else elim (split_line s) [ none ↦ none | some (l, rest) ↦ some (c ∷ l, rest) ]

unfoldable pub strip_cr : Bytes → Bytes
strip_cr [] = []
strip_cr (c ∷ []) = if c == 13 then [] else c ∷ []
strip_cr (c ∷ d ∷ s) = c ∷ strip_cr (d ∷ s)

-- The number of bytes that may still come: each round of a loop below takes one at least.
abbrev pub to_come : List Bytes → ℕ
to_come [] = 0
to_come (b ∷ bs) = length b + to_come bs

unfoldable pub readline_loop : ℕ → ℕ → M Bytes
readline_loop zero olen c = (fault, c)
readline_loop (suc fuel) olen c = elim (split_line c.unread) [
  | some (l, rest) ↦ (ok (take (olen - 1) (strip_cr l)), record c { unread = rest })
  | none ↦ (vkc_fill >> readline_loop fuel olen) c
]

unfoldable pub vkc_readline : ℕ → M Bytes
vkc_readline olen c = readline_loop (suc (to_come c.chunks)) olen c

-- The first loop, a round of which takes what there is and fills the buffer if that is not enough.
unfoldable pub take_loop : ℕ → ℕ → Bytes → M Bytes
take_loop zero n got c = (fault, c)
take_loop (suc fuel) n got c =
    let taken = take n c.unread in
    let c1 = record c { unread = drop n c.unread } in
    let more = (vkc_fill >> take_loop fuel (n - length taken) (got ++ taken)) c1 in
    if leb n (length c.unread) then (ok (got ++ taken), c1) else more

-- The second loop, up to two unread bytes.
unfoldable pub two_loop : ℕ → M (Unit {0})
two_loop zero c = (fault, c)
two_loop (suc fuel) c =
    let more = (vkc_fill >> two_loop fuel) c in
    if ltb (length c.unread) 2 then more else (ok tt, record c { unread = drop 2 c.unread })

unfoldable pub vkc_readbytes : ℕ → M Bytes
vkc_readbytes n = do
  out ← λ c. take_loop (suc (to_come c.chunks)) n [] c
  λ c. two_loop (suc (to_come c.chunks)) c
  give out

-- The types 0 to 5.
pub data Kind : Type 0 where
  simple : Kind
  error : Kind
  bulk : Kind
  integer : Kind
  nil : Kind
  array : Kind

pub record Reply : Type 0 where
  pub kind : Kind
  pub number : ℤ
  pub str : Bytes
  pub count : ℤ

abbrev pub empty : Kind → Reply
empty k = record { kind = k; number = ℤ.pos 0; str = []; count = ℤ.pos 0 }

-- The loop that drops what does not fit `str`, 256 bytes a round.
unfoldable pub drain : ℕ → ℕ → M (Unit {0})
drain zero excess c = (fault, c)
drain (suc fuel) excess c =
    let more = (vkc_readbytes (min excess 256) >>= λ _. drain fuel (excess - 256)) c in
    if excess == 0 then (ok tt, c) else more

-- `case '$'` with a length that is not negative
unfoldable pub read_bulk : ℕ → M Reply
read_bulk bl = do
  str ← vkc_readbytes (min bl (vkc_buf - 1))
  drain (suc bl) (bl - (vkc_buf - 1))
  give (record (empty bulk) { str = str })

abbrev pub bulk_of : ℤ → M Reply
bulk_of (ℤ.negsuc n) = give (empty nil)
bulk_of (ℤ.pos bl) = read_bulk bl

abbrev pub line_text : Bytes → Bytes
line_text s = safe_strcpy [] (c_string s) vkc_buf

-- The reply that a line begins.
unfoldable pub reply_of : Bytes → M Reply
reply_of [] = refuse
reply_of (c ∷ s) =
    if c == b'+'
    then give (record (empty simple) { str = line_text s })
    else if c == b'-'
    then give (record (empty error) { str = line_text s })
    else if c == b':'
    then give (record (empty integer) { number = atol (c_string s) })
    else if c == b'$'
    then bulk_of (to_int (atol (c_string s)))
    else if c == b'*'
    then give (record (empty array) { count = to_int (atol (c_string s)) })
    else refuse

unfoldable pub vkc_parse : M Reply
vkc_parse = vkc_readline 512 >>= reply_of
