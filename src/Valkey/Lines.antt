-- ===== src/Valkey/Lines.antt =====
-- A line of the stream.
use simple_dns.Common.{
  ℕ, zero, suc, ◌+◌, ◌-◌, ◌<◌, ◌≢◌, Option, none, some, [], ◌∷◌, ◌++◌, Bytes, length, take,
  length-append, append_assoc, All, Bool-cases, ◌==◌, ==_iff, inl, inr, ◌≡◌, refl, sym, ap, ◌∙◌,
  arith,
}
use simple_dns.Valkey.{
  Conn, ◌>>◌, vkc_fill, split_line, strip_cr, to_come, readline_loop, vkc_readline,
}
use simple_dns.Valkey.Stream.{stream, joined, after, IsConn, Reads, fill_lem}

-- A text without newlines in front of others that are followed by one.
line_prefix :
    (u j line rest : Bytes)
    → All (λ b. b ≢ 10) u
    → u ++ j ≡ line ++ 10 ∷ rest
    → (tail : Bytes) × (j ≡ tail ++ 10 ∷ rest) × (length u + length tail ≡ length line)
line_prefix [] j line rest h e = (line, e, omega arith)
line_prefix (x ∷ u) j [] rest h e = absurd (h.0 (cc))
line_prefix (x ∷ u) j (y ∷ line) rest h e =
    let tails : u ++ j ≡ line ++ 10 ∷ rest = cc in
    let (tail, p, q) = line_prefix u j line rest h.1 tails in (tail, p, omega arith)

line_unique :
    (l r line rest : Bytes)
    → All (λ b. b ≢ 10) l
    → All (λ b. b ≢ 10) line
    → l ++ 10 ∷ r ≡ line ++ 10 ∷ rest
    → (l ≡ line) × (r ≡ rest)
line_unique [] r [] rest h k e = (refl, cc)
line_unique [] r (y ∷ line) rest h k e = absurd (k.0 (cc))
line_unique (x ∷ l) r [] rest h k e = absurd (h.0 (cc))
line_unique (x ∷ l) r (y ∷ line) rest h k e =
    let tails : l ++ 10 ∷ r ≡ line ++ 10 ∷ rest = cc in
    let (p, q) = line_unique l r line rest h.1 k.1 tails in (cc, q)

-- What `split_line` says.
abbrev IsSplit : Bytes → Option (Bytes × Bytes) → Type 0
IsSplit s none = All (λ b. b ≢ 10) s
IsSplit s (some (l, rest)) = (s ≡ l ++ 10 ∷ rest) × All (λ b. b ≢ 10) l

IsSplit-more :
    (c : ℕ) (s : Bytes) (o : Option (Bytes × Bytes))
    → c ≢ 10
    → IsSplit s o
    → IsSplit (c ∷ s) (elim o [ none ↦ none | some (l, rest) ↦ some (c ∷ l, rest) ])
IsSplit-more c s none other h = (other, h)
IsSplit-more c s (some (l, rest)) other h = (ap (◌∷◌ c) h.0, (other, h.1))

split_line-IsSplit : (s : Bytes) → IsSplit s (split_line s)
unfolding split_line
split_line-IsSplit [] = tt
split_line-IsSplit (c ∷ s) = elim (Bool-cases (c == 10)) [
  | inl e ↦ let newline : c ≡ 10 = (==_iff c 10).0 e in rw e (rw newline refl, tt)
  | inr e ↦
      let other : c ≢ 10 = ground arith in
      rw e (IsSplit-more c s (split_line s) other (split_line-IsSplit s))
]

nonempty : (tail rest : Bytes) → tail ++ 10 ∷ rest ≢ []
nonempty [] rest e = cc
nonempty (t ∷ tail) rest e = cc

later_line :
    (fuel olen : ℕ) (c : Conn) (line rest : Bytes)
    → All (λ b. b ≢ 10) c.unread
    → IsConn c
    → stream c ≡ line ++ 10 ∷ rest
    → length line < 65535
    → ((c' : Conn)
        → IsConn c'
        → stream c' ≡ line ++ 10 ∷ rest
        → to_come c'.chunks < to_come c.chunks
        → Reads (readline_loop fuel olen) c' (take (olen - 1) (strip_cr line)) rest)
    → Reads (vkc_fill >> readline_loop fuel olen) c (take (olen - 1) (strip_cr line)) rest
later_line fuel olen c line rest none_yet h e short later =
    let (tail, p, q) = line_prefix c.unread (joined c.chunks) line rest none_yet e in
    let f =
      fill_lem c c.chunks refl h (omega arith)
        (λ empty. absurd (nonempty tail rest (sym p ∙ empty))) in
    let r = later (after c f.unread f.chunks) f.sound (f.same ∙ e) f.fewer in
    record {
      unread = r.unread;
      chunks = r.chunks;
      runs = rw f.runs r.runs;
      left = r.left;
      sound = r.sound;
    }

next_round :
    (fuel olen : ℕ) (c : Conn) (line rest : Bytes) (o : Option (Bytes × Bytes))
    → split_line c.unread ≡ o
    → IsSplit c.unread o
    → IsConn c
    → stream c ≡ line ++ 10 ∷ rest
    → All (λ b. b ≢ 10) line
    → length line < 65535
    → ((c' : Conn)
        → IsConn c'
        → stream c' ≡ line ++ 10 ∷ rest
        → to_come c'.chunks < to_come c.chunks
        → Reads (readline_loop fuel olen) c' (take (olen - 1) (strip_cr line)) rest)
    → Reads (readline_loop (suc fuel) olen) c (take (olen - 1) (strip_cr line)) rest
unfolding readline_loop
next_round fuel olen c line rest none found s h e one_line short later =
    let r = later_line fuel olen c line rest s h e short later in
    record {
      unread = r.unread;
      chunks = r.chunks;
      runs = rw (readline_loop, found) r.runs;
      left = r.left;
      sound = r.sound;
    }
next_round fuel olen c line rest (some (l, behind)) found s h e one_line short later =
    let at : l ++ 10 ∷ (behind ++ joined c.chunks) ≡ line ++ 10 ∷ rest =
      sym (append_assoc l (10 ∷ behind) (joined c.chunks))
      ∙ ap (λ (u : Bytes). u ++ joined c.chunks) (sym s.0)
      ∙ e in
    let (p, q) = line_unique l (behind ++ joined c.chunks) line rest s.1 one_line at in
    record {
      unread = behind;
      chunks = c.chunks;
      runs = rw (readline_loop, found, p) refl;
      left = q;
      sound = record {
        fits = omega (arith, h.fits, ap length s.0, length-append l (10 ∷ behind));
        alive = h.alive;
      };
    }

pub readline_loop-Reads :
    (fuel olen : ℕ) (c : Conn) (line rest : Bytes)
    → to_come c.chunks < fuel
    → IsConn c
    → stream c ≡ line ++ 10 ∷ rest
    → All (λ b. b ≢ 10) line
    → length line < 65535
    → Reads (readline_loop fuel olen) c (take (olen - 1) (strip_cr line)) rest
unfolding readline_loop
readline_loop-Reads zero olen c line rest enough h e one_line short = absurd (omega arith)
readline_loop-Reads (suc fuel) olen c line rest enough h e one_line short =
    next_round fuel olen c line rest (split_line c.unread) refl (split_line-IsSplit c.unread) h e
      one_line short
      (λ c' h' e' fewer.
        readline_loop-Reads fuel olen c' line rest (omega arith) h' e' one_line short)

-- `vkc_readline` returns the next line of the bytes that arrive, however they are cut into chunks.
pub vkc_readline-Reads :
    (olen : ℕ) (c : Conn) (line rest : Bytes)
    → IsConn c
    → stream c ≡ line ++ 10 ∷ rest
    → All (λ b. b ≢ 10) line
    → length line < 65535
    → Reads (vkc_readline olen) c (take (olen - 1) (strip_cr line)) rest
unfolding vkc_readline
vkc_readline-Reads olen c line rest h e one_line short =
    let r =
      readline_loop-Reads (suc (to_come c.chunks)) olen c line rest (omega arith) h e one_line
        short in
    record { unread = r.unread; chunks = r.chunks; runs = r.runs; left = r.left; sound = r.sound }
