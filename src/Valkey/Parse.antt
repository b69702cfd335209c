-- ===== src/Valkey/Parse.antt =====
-- Replies as a server sends them, and what the client makes of them.
use simple_dns.Common.{
  ℕ, suc, ◌-◌, ◌^◌, ◌≤◌, ◌<◌, ◌≢◌, min, [], ◌∷◌, ◌++◌, Bytes, length, take, take_all, append_assoc,
  length-append, All, All-append, ◌≡◌, refl, sym, ap, ◌∙◌, arith,
}
use mathlib.Core.Path.{subst}
use simple_dns.Common.Int.{ℤ, atol, to_int}
use simple_dns.Common.Memory.{ok}
use simple_dns.Common.Text.{c_string, safe_strcpy}
use simple_dns.Common.Text.Decimal.{is_digit, digits_value}
use simple_dns.Common.Text.Strings.{
  c_string_same, print, IsLong, print-All, length-print, atol-print, to_int_lem,
}
use simple_dns.Valkey.{
  Conn, M, ◌>>◌, give, strip_cr, Kind, Reply, empty, drain, read_bulk, line_text, reply_of,
  vkc_readline, vkc_readbytes, vkc_parse,
}
use simple_dns.Valkey.Stream.{stream, IsConn, Reads, bind-Reads}
use simple_dns.Valkey.Lines.{vkc_readline-Reads}
use simple_dns.Valkey.Blocks.{vkc_readbytes-Reads}

-- The replies of the protocol, RESP2.
pub data Sent : Type 0 where
  simple : Bytes → Sent
  error : Bytes → Sent
  integer : ℤ → Sent
  bulk : Bytes → Sent
  nil : Sent
  array : ℕ → Sent

abbrev pub crlf : Bytes → Bytes
crlf rest = 13 ∷ 10 ∷ rest

-- A reply in front of what the server sends next.
abbrev pub wire : Sent → Bytes → Bytes
wire (simple s) rest = b'+' ∷ (s ++ crlf rest)
wire (error s) rest = b'-' ∷ (s ++ crlf rest)
wire (integer z) rest = b':' ∷ (print z ++ crlf rest)
wire (bulk s) rest = b'$' ∷ (print (ℤ.pos (length s)) ++ crlf (s ++ crlf rest))
wire nil rest = b'$' ∷ b'-' ∷ b'1' ∷ crlf rest
wire (array n) rest = b'*' ∷ (print (ℤ.pos n) ++ crlf rest)

abbrev pub IsLine : Bytes → Type 0
IsLine s = All (λ b. b ≢ 10) s × All (λ b. b ≢ 0) s × (length s < 511)

abbrev pub IsSent : Sent → Type 0
IsSent (simple s) = IsLine s
IsSent (error s) = IsLine s
IsSent (integer z) = IsLong z
IsSent (bulk s) = length s ≤ 65535
IsSent nil = Unit {0}
IsSent (array n) = n < 2 ^ 31

abbrev pub received : Sent → Reply
received (simple s) = record (empty Kind.simple) { str = s }
received (error s) = record (empty Kind.error) { str = s }
received (integer z) = record (empty Kind.integer) { number = z }
received (bulk s) = record (empty Kind.bulk) { str = s }
received nil = empty Kind.nil
received (array n) = record (empty Kind.array) { count = ℤ.pos n }

strip_cr-append : (l : Bytes) → strip_cr (l ++ 13 ∷ []) ≡ l
unfolding strip_cr
strip_cr-append [] = refl
strip_cr-append (c ∷ []) = refl
strip_cr-append (c ∷ d ∷ l) = ap (◌∷◌ c) (strip_cr-append (d ∷ l))

-- A line with its CR and LF.
line-Reads :
    (l : Bytes) (c : Conn) (rest : Bytes)
    → IsConn c
    → stream c ≡ l ++ crlf rest
    → All (λ b. b ≢ 10) l
    → length l < 512
    → Reads (vkc_readline 512) c l rest
line-Reads l c rest h e one_line short =
    let r =
      vkc_readline-Reads 512 c (l ++ 13 ∷ []) rest h
        (e ∙ sym (append_assoc l (13 ∷ []) (10 ∷ rest)))
        (All-append (λ b. b ≢ 10) l (13 ∷ []) one_line (omega arith, tt))
        (omega (arith, length-append l (13 ∷ []))) in
    subst (λ (x : Bytes). Reads (vkc_readline 512) c x rest)
      (ap (take 511) (strip_cr-append l) ∙ take_all 511 l (omega arith)) r

line_text_lem : (s : Bytes) → All (λ b. b ≢ 0) s → length s < 511 → line_text s ≡ s
unfolding safe_strcpy
line_text_lem s h short = rw (c_string_same s h) (take_all 65535 s (omega arith))

-- A number is read from the rest of a line.
number_lem : (z : ℤ) → IsLong z → atol (c_string (print z)) ≡ z
unfolding is_digit
number_lem z h = rw (c_string_same (print z) (print-All z 0 refl (omega arith))) (atol-print z h)

int_lem : (n : ℕ) → n < 2 ^ 31 → to_int (atol (c_string (print (ℤ.pos n)))) ≡ ℤ.pos n
int_lem n h = ap to_int (number_lem (ℤ.pos n) (omega arith)) ∙ to_int_lem n h

number_line : (z : ℤ) → All (λ b. b ≢ 10) (print z)
unfolding is_digit
number_line z = print-All z 10 refl (omega arith)

-- The line that begins a reply, and what follows.
first-Reads :
    (k : ℕ) (l : Bytes) (c : Conn) (r : Reply) (mid rest : Bytes)
    → IsConn c
    → stream c ≡ k ∷ (l ++ crlf mid)
    → k ≢ 10
    → All (λ b. b ≢ 10) l
    → length l < 511
    → ((c' : Conn) → IsConn c' → stream c' ≡ mid → Reads (reply_of (k ∷ l)) c' r rest)
    → Reads vkc_parse c r rest
unfolding vkc_parse
first-Reads k l c r mid rest h e other one_line short later =
    bind-Reads (vkc_readline 512) reply_of c (k ∷ l) r mid rest
      (line-Reads (k ∷ l) c mid h e (other, one_line) (omega arith)) later

done-Reads :
    (m : M Reply) (r : Reply) (c : Conn) (rest : Bytes)
    → m c ≡ (ok r, c)
    → IsConn c
    → stream c ≡ rest
    → Reads m c r rest
done-Reads m r c rest runs h e = record {
  unread = c.unread;
  chunks = c.chunks;
  runs = runs;
  left = e;
  sound = h;
}

nil_lem : to_int (atol (c_string (b'-' ∷ b'1' ∷ []))) ≡ ℤ.negsuc 0
unfolding to_int atol c_string digits_value is_digit
nil_lem = refl

-- A block is read behind the line with its length.
pub block-Reads :
    (n : ℕ) (c : Conn) (r : Reply) (mid rest : Bytes)
    → n < 2 ^ 31
    → IsConn c
    → stream c ≡ b'$' ∷ (print (ℤ.pos n) ++ crlf mid)
    → ((c' : Conn) → IsConn c' → stream c' ≡ mid → Reads (read_bulk n) c' r rest)
    → Reads vkc_parse c r rest
unfolding reply_of
block-Reads n c r mid rest small h e later =
    first-Reads b'$' (print (ℤ.pos n)) c r mid rest h e (omega arith) (number_line (ℤ.pos n))
      (omega (arith, length-print (ℤ.pos n)))
      (λ c' h' e'.
        let l = later c' h' e' in
        record {
          unread = l.unread;
          chunks = l.chunks;
          runs = rw (int_lem n small) l.runs;
          left = l.left;
          sound = l.sound;
        })

drained-Reads :
    (fuel excess : ℕ) (c : Conn) (r : Reply) (rest : Bytes)
    → excess ≡ 0
    → IsConn c
    → stream c ≡ rest
    → Reads (drain (suc fuel) excess >> give r) c r rest
unfolding drain
drained-Reads fuel excess c r rest none_left h e = done-Reads _ r c rest (rw none_left refl) h e

short-Reads :
    (s : Bytes) (c : Conn) (rest : Bytes)
    → length s ≤ 65535
    → IsConn c
    → stream c ≡ s ++ crlf rest
    → Reads (read_bulk (length s)) c (received (bulk s)) rest
unfolding read_bulk
short-Reads s c rest w h e =
    bind-Reads (vkc_readbytes (min (length s) 65535)) _ c s _ rest rest
      (vkc_readbytes-Reads (min (length s) 65535) c s rest 13 10 h e (omega arith))
      (λ c' h' e'. drained-Reads (length s) (length s - 65535) c' _ rest (omega arith) h' e')

-- The client reads each reply of a server as what was sent, however the bytes are cut into chunks, and
-- leaves what the server sends next: lines of fewer than 511 bytes, numbers of 64 bits, blocks of at
-- most 65535 bytes and counts of 31 bits.
pub vkc_parse-Reads :
    (s : Sent) (c : Conn) (rest : Bytes)
    → IsSent s
    → IsConn c
    → stream c ≡ wire s rest
    → Reads vkc_parse c (received s) rest
unfolding reply_of
vkc_parse-Reads (simple s) c rest w h e =
    first-Reads b'+' s c _ rest rest h e (omega arith) w.0 w.2
      (λ c' h' e'. done-Reads _ _ c' rest (rw (line_text_lem s w.1 w.2) refl) h' e')
vkc_parse-Reads (error s) c rest w h e =
    first-Reads b'-' s c _ rest rest h e (omega arith) w.0 w.2
      (λ c' h' e'. done-Reads _ _ c' rest (rw (line_text_lem s w.1 w.2) refl) h' e')
vkc_parse-Reads (integer z) c rest w h e =
    first-Reads b':' (print z) c _ rest rest h e (omega arith) (number_line z)
      (omega (arith, length-print z))
      (λ c' h' e'. done-Reads _ _ c' rest (rw (number_lem z w) refl) h' e')
vkc_parse-Reads (bulk s) c rest w h e =
    block-Reads (length s) c (received (bulk s)) (s ++ crlf rest) rest (omega arith) h e
      (λ c' h' e'. short-Reads s c' rest w h' e')
vkc_parse-Reads nil c rest w h e =
    first-Reads b'$' (b'-' ∷ b'1' ∷ []) c _ rest rest h e (omega arith)
      (omega arith, (omega arith, tt)) (omega arith)
      (λ c' h' e'. done-Reads _ _ c' rest (rw nil_lem refl) h' e')
vkc_parse-Reads (array n) c rest w h e =
    first-Reads b'*' (print (ℤ.pos n)) c _ rest rest h e (omega arith) (number_line (ℤ.pos n))
      (omega (arith, length-print (ℤ.pos n)))
      (λ c' h' e'. done-Reads _ _ c' rest (rw (int_lem n w) refl) h' e')
