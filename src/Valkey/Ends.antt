-- ===== src/Valkey/Ends.antt =====
-- The readers of the client end: the fuel of their loops is enough, whatever arrives.
use simple_dns.Common.{
  ℕ, zero, suc, ◌-◌, ◌<◌, Bool, List, [], ◌∷◌, ◌++◌, Bytes, length, length-drop, take, drop, ltb,
  leb, ◌==◌, min, leb_false→lt, Bool-cases, Option-cases, if◌then◌else◌, inl, inr, arith, true,
  false,
}
use simple_dns.Common.Int.{ℤ, atol, to_int}
use simple_dns.Common.Memory.{Outcome, ok, err, fault}
use simple_dns.Common.Text.{c_string}
use simple_dns.Valkey.{
  Conn, M, run, recv, vkc_fill, vkc_buf, split_line, to_come, readline_loop, vkc_readline,
  take_loop, two_loop, vkc_readbytes, drain, read_bulk, bulk_of, reply_of, vkc_parse,
}
use simple_dns.Valkey.Stream.{to_come-left_over}

-- A success or an error.
abbrev pub Ends {ℓ} : {A : Type ℓ} → Outcome A → Type 0
Ends (ok a) = Unit
Ends err = Unit
Ends fault = ⊥

pub run-Ends {ℓ κ} :
    {A : Type ℓ} {B : Type κ} (r : Outcome A) (f : A → M B) (c : Conn)
    → Ends r
    → ((a : A) → Ends (f a c).0)
    → Ends (run r f c).0
run-Ends (ok a) f c h k = k a
run-Ends err f c h k = tt
run-Ends fault f c h k = h

-- A fill that succeeds takes bytes from those that are to come.
abbrev Filled : ℕ → Outcome (Unit {0}) × Conn → Type 0
Filled n (ok _, c) = to_come c.chunks < n
Filled n (err, c) = Unit
Filled n (fault, c) = ⊥

recv-Filled :
    (chunks : List Bytes) (room : ℕ) (c : Conn)
    → 0 < room
    → Filled (to_come chunks) (recv chunks room c)
recv-Filled [] room c h = tt
recv-Filled ([] ∷ chunks) room c h = tt
recv-Filled ((b ∷ bs) ∷ chunks) room c h =
    omega (arith, to_come-left_over (drop room (b ∷ bs)) chunks, length-drop room (b ∷ bs))

vkc_fill-Filled : (c : Conn) → Filled (to_come c.chunks) (vkc_fill c)
unfolding vkc_fill
vkc_fill-Filled c = elim (Bool-cases (leb (vkc_buf - 1) (length c.unread))) [
  | inl e ↦ rw e tt
  | inr e ↦ rw e (
      recv-Filled c.chunks (vkc_buf - length c.unread - 1) c
        (omega (arith, leb_false→lt 65535 (length c.unread) e)))
]

Filled-Ends {ℓ} :
    {B : Type ℓ} (n : ℕ) (p : Outcome (Unit {0}) × Conn) (f : M B)
    → Filled n p
    → ((c : Conn) → to_come c.chunks < n → Ends (f c).0)
    → Ends (run p.0 (λ _. f) p.1).0
Filled-Ends n (ok u, c) f h k = k c h
Filled-Ends n (err, c) f h k = tt
Filled-Ends n (fault, c) f h k = h

readline_loop-Ends :
    (fuel olen : ℕ) (c : Conn) → to_come c.chunks < fuel → Ends (readline_loop fuel olen c).0
unfolding readline_loop
readline_loop-Ends zero olen c h = absurd (omega arith)
readline_loop-Ends (suc fuel) olen c h = elim (Option-cases (split_line c.unread)) [
  | inr (l, e) ↦ rw (e, readline_loop) tt
  | inl e ↦
      rw (e, readline_loop)
        (Filled-Ends (to_come c.chunks) (vkc_fill c) (readline_loop fuel olen) (vkc_fill-Filled c)
          (λ c1 k. readline_loop-Ends fuel olen c1 (omega arith)))
]

take_loop-Ends :
    (fuel n : ℕ) (got : Bytes) (c : Conn)
    → to_come c.chunks < fuel
    → Ends (take_loop fuel n got c).0
unfolding take_loop
take_loop-Ends zero n got c h = absurd (omega arith)
take_loop-Ends (suc fuel) n got c h = elim (Bool-cases (leb n (length c.unread))) [
  | inl e ↦ rw e tt
  | inr e ↦ rw e (
      Filled-Ends (to_come c.chunks) (vkc_fill (record c { unread = drop n c.unread }))
        (take_loop fuel (n - length (take n c.unread)) (got ++ take n c.unread))
        (vkc_fill-Filled (record c { unread = drop n c.unread }))
        (λ c1 k.
          take_loop-Ends fuel (n - length (take n c.unread)) (got ++ take n c.unread) c1
            (omega arith)))
]

two_loop-Ends : (fuel : ℕ) (c : Conn) → to_come c.chunks < fuel → Ends (two_loop fuel c).0
unfolding two_loop
two_loop-Ends zero c h = absurd (omega arith)
two_loop-Ends (suc fuel) c h = elim (Bool-cases (ltb (length c.unread) 2)) [
  | inl e ↦ rw e (
      Filled-Ends (to_come c.chunks) (vkc_fill c) (two_loop fuel) (vkc_fill-Filled c)
        (λ c1 k. two_loop-Ends fuel c1 (omega arith)))
  | inr e ↦ rw e tt
]

vkc_readbytes-Ends : (n : ℕ) (c : Conn) → Ends (vkc_readbytes n c).0
unfolding vkc_readbytes
vkc_readbytes-Ends n c =
    run-Ends _ _ _ (take_loop-Ends (suc (to_come c.chunks)) n [] c (omega arith)) (λ out.
      let c1 = (take_loop (suc (to_come c.chunks)) n [] c).1 in
      run-Ends _ _ _ (two_loop-Ends (suc (to_come c1.chunks)) c1 (omega arith)) (λ _. tt))

drain-Ends : (fuel excess : ℕ) (c : Conn) → excess < fuel → Ends (drain fuel excess c).0
unfolding drain
drain-Ends zero excess c h = absurd (omega arith)
drain-Ends (suc fuel) excess c h = elim (Bool-cases (excess == 0)) [
  | inl e ↦ rw e tt
  | inr e ↦ rw e (
      run-Ends _ _ _ (vkc_readbytes-Ends (min excess 256) c)
        (λ _. drain-Ends fuel (excess - 256) (vkc_readbytes (min excess 256) c).1 (ground arith)))
]

read_bulk-Ends : (n : ℕ) (c : Conn) → Ends (read_bulk n c).0
unfolding read_bulk
read_bulk-Ends n c = run-Ends _ _ _ (vkc_readbytes-Ends (min n 65535) c) (λ str.
    run-Ends _ _ _ (drain-Ends (suc n) (n - 65535) (vkc_readbytes (min n 65535) c).1 (omega arith))
      (λ _. tt))

bulk_of-Ends : (z : ℤ) (c : Conn) → Ends (bulk_of z c).0
bulk_of-Ends (ℤ.negsuc n) c = tt
bulk_of-Ends (ℤ.pos n) c = read_bulk-Ends n c

pub either-Ends {ℓ} :
    {A : Type ℓ} (b : Bool) (f g : M A) (c : Conn)
    → Ends (f c).0
    → Ends (g c).0
    → Ends ((if b then f else g) c).0
either-Ends true f g c h k = h
either-Ends false f g c h k = k

reply_of-Ends : (line : Bytes) (c : Conn) → Ends (reply_of line c).0
unfolding reply_of
reply_of-Ends [] c = tt
reply_of-Ends (x ∷ s) c = either-Ends (x == b'+') _ _ c tt (
    either-Ends (x == b'-') _ _ c tt (
      either-Ends (x == b':') _ _ c tt (
        either-Ends (x == b'$') _ _ c (bulk_of-Ends (to_int (atol (c_string s))) c)
          (either-Ends (x == b'*') _ _ c tt tt))))

pub vkc_parse-Ends : (c : Conn) → Ends (vkc_parse c).0
unfolding vkc_parse vkc_readline
vkc_parse-Ends c =
    run-Ends _ _ _ (readline_loop-Ends (suc (to_come c.chunks)) 512 c (omega arith))
      (λ line. reply_of-Ends line (vkc_readline 512 c).1)
