-- ===== src/Valkey/Overrun.antt =====
-- Blocks that are longer than the buffer of a reply.
use simple_dns.Common.{
  ℕ, suc, ◌+◌, ◌-◌, ◌≤◌, ◌<◌, min, false, [], ◌∷◌, ◌++◌, Bytes, length, append_assoc, length-append,
  ◌==◌, ◌≡◌, refl, sym, ◌∙◌, arith,
}
use simple_dns.Valkey.{
  Conn, ◌>>◌, give, Kind, Reply, empty, drain, read_bulk, vkc_readbytes, vkc_parse,
}
use simple_dns.Valkey.Stream.{stream, IsConn, Reads, bind-Reads}
use simple_dns.Valkey.Blocks.{vkc_readbytes-Reads}
use simple_dns.Valkey.Parse.{bulk, crlf, wire, block-Reads}

drain-Reads :
    (fuel excess : ℕ) (body : Bytes) (x y : ℕ) (c : Conn) (r : Reply) (rest : Bytes)
    → 0 < excess
    → excess ≤ 256
    → length body ≡ excess
    → IsConn c
    → stream c ≡ body ++ x ∷ y ∷ rest
    → Reads (drain (suc (suc fuel)) excess >> give r) c r rest
unfolding drain
drain-Reads fuel excess body x y c r rest some_left few len h e =
    let a = vkc_readbytes-Reads (min excess 256) c body rest x y h e (omega arith) in
    let not_done : (excess == 0) ≡ false = ground arith in
    let done : excess - 256 ≡ 0 = omega arith in
    record {
      unread = a.unread;
      chunks = a.chunks;
      runs = rw (not_done, a.runs, done) refl;
      left = a.left;
      sound = a.sound;
    }

long-Reads :
    (s1 s2 : Bytes) (x y p q n : ℕ) (c : Conn) (rest : Bytes)
    → length s1 ≡ 65535
    → length s2 ≤ 254
    → n ≡ 65537 + length s2
    → IsConn c
    → stream c ≡ s1 ++ x ∷ y ∷ (s2 ++ crlf (p ∷ q ∷ rest))
    → Reads (read_bulk n) c (record (empty Kind.bulk) { str = s1 }) rest
unfolding read_bulk
long-Reads s1 s2 x y p q n c rest first second len h e =
    let mid = s2 ++ crlf (p ∷ q ∷ rest) in
    bind-Reads (vkc_readbytes (min n 65535)) _ c s1 _ mid rest
      (vkc_readbytes-Reads (min n 65535) c s1 mid x y h e (omega arith))
      (λ c' h' e'.
        let fuel : suc n ≡ suc (suc (n - 1)) = omega arith in
        rw fuel (
          drain-Reads (n - 1) (n - 65535) (s2 ++ 13 ∷ 10 ∷ []) p q c' _ rest (omega arith)
            (omega arith) (omega (arith, length-append s2 (13 ∷ 10 ∷ []))) h'
            (e' ∙ sym (append_assoc s2 (13 ∷ 10 ∷ []) (p ∷ q ∷ rest)))))

-- A block of 65537 to 65791 bytes is read with the two bytes behind it and two more: those that begin
-- what the server sends next. The reply has the first 65535 bytes.
pub vkc_parse_overrun :
    (s1 s2 : Bytes) (x y p q : ℕ) (c : Conn) (rest : Bytes)
    → length s1 ≡ 65535
    → length s2 ≤ 254
    → IsConn c
    → stream c ≡ wire (bulk (s1 ++ x ∷ y ∷ s2)) (p ∷ q ∷ rest)
    → Reads vkc_parse c (record (empty Kind.bulk) { str = s1 }) rest
vkc_parse_overrun s1 s2 x y p q c rest first second h e =
    let s = s1 ++ x ∷ y ∷ s2 in
    let len : length s ≡ 65537 + length s2 = omega (arith, length-append s1 (x ∷ y ∷ s2)) in
    block-Reads (length s) c _ (s ++ crlf (p ∷ q ∷ rest)) rest (omega arith) h e (λ c' h' e'.
      long-Reads s1 s2 x y p q (length s) c' rest first second len h'
        (e' ∙ append_assoc s1 (x ∷ y ∷ s2) (crlf (p ∷ q ∷ rest))))
