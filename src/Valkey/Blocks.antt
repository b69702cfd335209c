-- ===== src/Valkey/Blocks.antt =====
-- A counted block of the stream, and the two bytes behind it.
use simple_dns.Common.{
  ℕ, zero, suc, ◌-◌, ◌≤◌, ◌<◌, ◌≢◌, [], ◌∷◌, ◌++◌, Bytes, length, take, drop, length-drop,
  length-append, append_assoc, leb, ltb, leb→le, leb_false→lt, ltb→lt, ltb_false→le, Bool-cases,
  inl, inr, ◌≡◌, refl, sym, ap, ◌∙◌, arith, take_all,
}
use mathlib.Core.Path.{subst}
use simple_dns.Valkey.{Conn, M, to_come, take_loop, two_loop, vkc_readbytes}
use simple_dns.Valkey.Stream.{
  Filled-Reads, stream, joined, after, IsConn, Reads, bind-Reads, give-Reads, fill_lem,
}

cut_at :
    (u j body rest : Bytes)
    → u ++ j ≡ body ++ rest
    → length body ≤ length u
    → (take (length body) u ≡ body) × (drop (length body) u ++ j ≡ rest)
cut_at u j [] rest e h = (refl, e)
cut_at [] j (y ∷ body) rest e h = absurd (omega arith)
cut_at (x ∷ u) j (y ∷ body) rest e h =
    let tails : u ++ j ≡ body ++ rest = cc in
    let (p, q) = cut_at u j body rest tails (omega arith) in (cc, q)

-- The part of a body that is still to come.
body_left :
    (u j body rest : Bytes)
    → u ++ j ≡ body ++ rest
    → length u < length body
    → (tail : Bytes) × (body ≡ u ++ tail) × (j ≡ tail ++ rest)
body_left [] j body rest e h = (body, refl, e)
body_left (x ∷ u) j [] rest e h = absurd (omega arith)
body_left (x ∷ u) j (y ∷ body) rest e h =
    let tails : u ++ j ≡ body ++ rest = cc in
    let (tail, p, q) = body_left u j body rest tails (omega arith) in (tail, cc, q)

-- A body and what is behind it are not empty.
not_empty : (tail rest j : Bytes) → j ≡ tail ++ rest → 0 < length tail → j ≢ []
not_empty [] rest j e h = absurd (omega arith)
not_empty (x ∷ tail) rest j e h = λ empty. cc

drop_all : (n : ℕ) (xs : Bytes) → length xs ≤ n → drop n xs ≡ []
drop_all zero [] h = refl
drop_all zero (x ∷ xs) h = absurd (omega arith)
drop_all (suc n) [] h = refl
drop_all (suc n) (x ∷ xs) h = drop_all n xs (omega arith)

take_loop-Reads :
    (fuel n : ℕ) (got : Bytes) (c : Conn) (body rest : Bytes)
    → to_come c.chunks < fuel
    → IsConn c
    → stream c ≡ body ++ rest
    → length body ≡ n
    → Reads (take_loop fuel n got) c (got ++ body) rest
unfolding take_loop
take_loop-Reads zero n got c body rest enough h e len = absurd (omega arith)
take_loop-Reads (suc fuel) n got c body rest enough h e len =
    elim (Bool-cases (leb n (length c.unread))) [
      | inl have ↦
          let (p, q) =
            cut_at c.unread (joined c.chunks) body rest e
              (omega (arith, leb→le n (length c.unread) have)) in
          record {
            unread = drop n c.unread;
            chunks = c.chunks;
            runs = rw (have, sym len, p) refl;
            left = rw (sym len) q;
            sound = record {
              fits = omega (arith, h.fits, length-drop n c.unread);
              alive = h.alive;
            };
          }
      | inr few ↦
          let short = leb_false→lt n (length c.unread) few in
          let (tail, p, q) = body_left c.unread (joined c.chunks) body rest e (omega arith) in
          let size = ap length p ∙ length-append c.unread tail in
          let all : take n c.unread ≡ c.unread = take_all n c.unread (omega arith) in
          let none_left : drop n c.unread ≡ [] = drop_all n c.unread (omega arith) in
          let c1 = after c [] c.chunks in
          let f =
            fill_lem c1 c.chunks refl (record { fits = omega arith; alive = h.alive }) (omega arith)
              (not_empty tail rest (joined c.chunks) q (omega arith)) in
          let more = take_loop fuel (n - length c.unread) (got ++ c.unread) in
          let later =
            take_loop-Reads fuel (n - length c.unread) (got ++ c.unread) (after c f.unread f.chunks)
              tail rest (omega (arith, f.fewer)) f.sound (f.same ∙ q) (omega arith) in
          let r = Filled-Reads more c1 (got ++ body) rest f (
            subst (λ (x : Bytes). Reads more (after c1 f.unread f.chunks) x rest)
              (append_assoc got c.unread tail ∙ ap (λ (x : Bytes). got ++ x) (sym p)) later) in
          record {
            unread = r.unread;
            chunks = r.chunks;
            runs = rw (few, all, none_left) r.runs;
            left = r.left;
            sound = r.sound;
          }
    ]

two_loop-Reads :
    (fuel : ℕ) (c : Conn) (x y : ℕ) (rest : Bytes)
    → to_come c.chunks < fuel
    → IsConn c
    → stream c ≡ x ∷ y ∷ rest
    → Reads (two_loop fuel) c tt rest
unfolding two_loop
two_loop-Reads zero c x y rest enough h e = absurd (omega arith)
two_loop-Reads (suc fuel) c x y rest enough h e = elim (Bool-cases (ltb (length c.unread) 2)) [
  | inr have ↦
      let two : 2 ≤ length c.unread = ltb_false→le (length c.unread) 2 have in
      let (p, q) = cut_at c.unread (joined c.chunks) (x ∷ y ∷ []) rest e two in
      record {
        unread = drop 2 c.unread;
        chunks = c.chunks;
        runs = rw have refl;
        left = q;
        sound = record { fits = omega (arith, h.fits, length-drop 2 c.unread); alive = h.alive };
      }
  | inl few ↦
      let short : length c.unread < 2 = ltb→lt (length c.unread) 2 few in
      let (tail, p, q) = body_left c.unread (joined c.chunks) (x ∷ y ∷ []) rest e short in
      let size = ap length p ∙ length-append c.unread tail in
      let f =
        fill_lem c c.chunks refl h (omega arith)
          (not_empty tail rest (joined c.chunks) q (omega arith)) in
      let r =
        two_loop-Reads fuel (after c f.unread f.chunks) x y rest (omega (arith, f.fewer)) f.sound
          (f.same ∙ e) in
      record {
        unread = r.unread;
        chunks = r.chunks;
        runs = rw (few, f.runs) r.runs;
        left = r.left;
        sound = r.sound;
      }
]

-- The fuel depends on the connection.
whole {ℓ} :
    {A : Type ℓ} (m : ℕ → M A) {c : Conn} {a : A} {rest : Bytes}
    → Reads (m (suc (to_come c.chunks))) c a rest
    → Reads (λ c. m (suc (to_come c.chunks)) c) c a rest
whole m r = record {
  unread = r.unread;
  chunks = r.chunks;
  runs = r.runs;
  left = r.left;
  sound = r.sound;
}

-- `vkc_readbytes` returns the next bytes of those that arrive, however they are cut into chunks, and
-- skips two more.
pub vkc_readbytes-Reads :
    (n : ℕ) (c : Conn) (body rest : Bytes) (x y : ℕ)
    → IsConn c
    → stream c ≡ body ++ x ∷ y ∷ rest
    → length body ≡ n
    → Reads (vkc_readbytes n) c body rest
unfolding vkc_readbytes
vkc_readbytes-Reads n c body rest x y h e len =
    bind-Reads (λ c. take_loop (suc (to_come c.chunks)) n [] c) _ c body body (x ∷ y ∷ rest) rest
      (whole (λ k. take_loop k n [])
        (take_loop-Reads (suc (to_come c.chunks)) n [] c body (x ∷ y ∷ rest) (omega arith) h e len))
      (λ c1 h1 e1.
        bind-Reads (λ c. two_loop (suc (to_come c.chunks)) c) _ c1 tt body rest rest
          (whole two_loop
            (two_loop-Reads (suc (to_come c1.chunks)) c1 x y rest (omega arith) h1 e1))
          (λ c2 h2 e2.
            let r = give-Reads body c2 h2 in
            record {
              unread = r.unread;
              chunks = r.chunks;
              runs = r.runs;
              left = r.left ∙ e2;
              sound = r.sound;
            }))
