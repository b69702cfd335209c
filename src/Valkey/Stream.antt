-- ===== src/Valkey/Stream.antt =====
-- What the readers take of the bytes that arrive, however these are cut into chunks.
use simple_dns.Common.{
  ℕ, zero, suc, ◌+◌, ◌-◌, ◌≤◌, ◌<◌, ◌≢◌, List, [], ◌∷◌, ◌++◌, Bytes, length, take, drop,
  length-take, length-drop, length-append, append_assoc, All, lt→leb, ◌≡◌, refl, sym, ap, ◌∙◌,
  arith,
}
use mathlib.Core.Path.{subst}
use simple_dns.Common.Memory.{ok}
use simple_dns.Valkey.{Conn, M, ◌>>=◌, ◌>>◌, give, left_over, vkc_fill, to_come}

abbrev pub joined : List Bytes → Bytes
joined [] = []
joined (b ∷ bs) = b ++ joined bs

-- All bytes that are to be read.
abbrev pub stream : Conn → Bytes
stream c = c.unread ++ joined c.chunks

abbrev pub after : Conn → Bytes → List Bytes → Conn
after c unread chunks = record c { unread = unread; chunks = chunks }

-- The buffer keeps a byte for a NUL, and the peer has not closed the connection.
pub record IsConn (c : Conn) : Type 0 where
  pub fits : length c.unread ≤ 65535
  pub alive : All (λ b. b ≢ []) c.chunks

-- `m` returns `a`, leaves `rest` to be read, and touches nothing else of the connection.
pub record Reads {ℓ} {A : Type ℓ} (m : M A) (c : Conn) (a : A) (rest : Bytes) : Type ℓ where
  pub unread : Bytes
  pub chunks : List Bytes
  pub runs : m c ≡ (ok a, after c unread chunks)
  pub left : unread ++ joined chunks ≡ rest
  pub sound : IsConn (after c unread chunks)

pub bind-Reads {ℓ κ} :
    {A : Type ℓ} {B : Type κ} (m : M A) (f : A → M B) (c : Conn) (a : A) (b : B) (mid rest : Bytes)
    → Reads m c a mid
    → ((c' : Conn) → IsConn c' → stream c' ≡ mid → Reads (f a) c' b rest)
    → Reads (m >>= f) c b rest
bind-Reads m f c a b mid rest r k =
    let later = k (after c r.unread r.chunks) r.sound r.left in
    record {
      unread = later.unread;
      chunks = later.chunks;
      runs = rw r.runs later.runs;
      left = later.left;
      sound = later.sound;
    }

pub give-Reads {ℓ} : {A : Type ℓ} (a : A) (c : Conn) → IsConn c → Reads (give a) c a (stream c)
give-Reads a c h = record {
  unread = c.unread;
  chunks = c.chunks;
  runs = refl;
  left = refl;
  sound = h;
}

pub take-drop : (n : ℕ) (xs : Bytes) → take n xs ++ drop n xs ≡ xs
take-drop zero xs = refl
take-drop (suc n) [] = refl
take-drop (suc n) (x ∷ xs) = ap (◌∷◌ x) (take-drop n xs)

joined-left_over :
    (bs : Bytes) (chunks : List Bytes) → joined (left_over bs chunks) ≡ bs ++ joined chunks
joined-left_over [] chunks = refl
joined-left_over (b ∷ bs) chunks = refl

left_over-alive :
    (bs : Bytes) (chunks : List Bytes)
    → All (λ b. b ≢ []) chunks
    → All (λ b. b ≢ []) (left_over bs chunks)
left_over-alive [] chunks h = h
left_over-alive (b ∷ bs) chunks h = (λ e. cc, h)

pub to_come-left_over :
    (bs : Bytes) (chunks : List Bytes) → to_come (left_over bs chunks) ≡ length bs + to_come chunks
to_come-left_over [] chunks = omega arith
to_come-left_over (b ∷ bs) chunks = refl

-- A filled buffer: the same bytes, of which fewer are to come.
pub record Filled (c : Conn) : Type 0 where
  pub unread : Bytes
  pub chunks : List Bytes
  pub runs : vkc_fill c ≡ (ok tt, after c unread chunks)
  pub same : unread ++ joined chunks ≡ stream c
  pub sound : IsConn (after c unread chunks)
  pub fewer : to_come chunks < to_come c.chunks

fill_chunk :
    (c : Conn) (b : ℕ) (bs : Bytes) (chunks : List Bytes)
    → c.chunks ≡ (b ∷ bs) ∷ chunks
    → IsConn c
    → length c.unread < 65535
    → Filled c
unfolding vkc_fill
fill_chunk c b bs chunks e h room =
    let n = 65536 - length c.unread - 1 in
    let kept = drop n (b ∷ bs) in
    let some_room : 0 < n = omega arith in
    let ch = b ∷ bs in
    let alive : All (λ b. b ≢ []) ((b ∷ bs) ∷ chunks) = subst (All (λ b. b ≢ [])) e h.alive in
    record {
      unread = c.unread ++ take n ch;
      chunks = left_over (drop n ch) chunks;
      runs = rw (lt→leb 65535 (length c.unread) room, e) refl;
      same =
          append_assoc c.unread (take n ch) (joined (left_over kept chunks))
          ∙ ap (λ (r : Bytes). c.unread ++ r)
              (ap (λ (r : Bytes). take n ch ++ r) (joined-left_over kept chunks)
                ∙ sym (append_assoc (take n ch) kept (joined chunks))
                ∙ ap (λ (r : Bytes). r ++ joined chunks) (take-drop n ch)
                ∙ ap joined (sym e));
      sound = record {
        fits = omega (arith, length-append c.unread (take n ch), length-take n ch);
        alive = left_over-alive (drop n ch) chunks alive.1;
      };
      fewer = omega (arith, ap to_come e, to_come-left_over (drop n ch) chunks, length-drop n ch);
    }

pub fill_lem :
    (c : Conn) (chunks : List Bytes)
    → c.chunks ≡ chunks
    → IsConn c
    → length c.unread < 65535
    → joined chunks ≢ []
    → Filled c
fill_lem c [] e h room more = absurd (more refl)
fill_lem c ([] ∷ chunks) e h room more = absurd ((subst (All (λ b. b ≢ [])) e h.alive).0 refl)
fill_lem c ((b ∷ bs) ∷ chunks) e h room more = fill_chunk c b bs chunks e h room

-- A reader that fills the buffer first.
pub Filled-Reads {ℓ} :
    {A : Type ℓ} (m : M A) (c : Conn) (a : A) (rest : Bytes) (f : Filled c)
    → Reads m (after c f.unread f.chunks) a rest
    → Reads (vkc_fill >> m) c a rest
Filled-Reads m c a rest f r = record {
  unread = r.unread;
  chunks = r.chunks;
  runs = rw f.runs r.runs;
  left = r.left;
  sound = r.sound;
}
