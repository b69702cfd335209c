-- ===== src/Ip/Joined.antt =====
-- Groups joined by `:` through the loop of `pog_parse_ipv6`.
use simple_dns.Common.{
  ℕ, zero, suc, ◌+◌, ◌-◌, ◌%◌, ◌^◌, ◌<◌, ◌≤◌, true, false, Option, List, [], ◌∷◌, ◌++◌, Bytes, All,
  length, Bool-cases, ◌≡◌, refl, sym, ap, ◌∙◌, inl, inr, arith, lt→leb, length-append, append_assoc,
  append-nil,
}
use simple_dns.Ip.V6.{Groups, current, put_group, v4_suffix, behind_group, ipv6_loop}
use simple_dns.Ip.Printed.{hex_text}
use simple_dns.Ip.Digits.{Ends, read_group-hex_text, hex_text-v4_suffix, first_digit, hex_char_not}

abbrev pub IsGroup : ℕ → Type 0
IsGroup v = v < 2 ^ 16

-- Groups with `:` between them, and what follows.
unfoldable pub joined : List ℕ → Bytes → Bytes
joined [] rest = rest
joined (v ∷ []) rest = hex_text v ++ rest
joined (v ∷ w ∷ gs) rest = hex_text v ++ (b':' ∷ joined (w ∷ gs) rest)

unfoldable pub put_all : Groups → List ℕ → Groups
put_all g [] = g
put_all g (v ∷ gs) = put_all (put_group g v) gs

unfoldable pub rounds : List ℕ → ℕ → ℕ
rounds [] k = k
rounds (v ∷ gs) k = suc (rounds gs k)

no_suffix : (s : Bytes) → Ends s → v4_suffix s ≡ false
unfolding v4_suffix
no_suffix [] e = refl
no_suffix (c ∷ s) e = rw e refl

one_group :
    (fuel v : ℕ) (g : Groups) (s : Bytes)
    → IsGroup v
    → current g < 8
    → Ends s
    → ipv6_loop (suc fuel) g (hex_text v ++ s) ≡ behind_group (ipv6_loop fuel) (put_group g v) s
unfolding ipv6_loop
one_group fuel v g s h room e =
    rw
      (
        hex_text-v4_suffix v s h,
        no_suffix s e,
        read_group-hex_text v s h e,
        lt→leb 8 (current g) room,
      )
      refl

-- The `:` in front of a group is no `::`.
one_colon :
    (loop : Groups → Bytes → Option Groups) (g : Groups) (v : ℕ) (s : Bytes)
    → IsGroup v
    → behind_group loop g (b':' ∷ (hex_text v ++ s)) ≡ loop g (hex_text v ++ s)
one_colon loop g v s h =
    let (d, r, small, e) = first_digit v h in rw (e, hex_char_not d b':' small (inr refl)) refl

joined_front :
    (v : ℕ) (gs : List ℕ) (rest : Bytes)
    → Ends rest
    → (s : Bytes) × (joined (v ∷ gs) rest ≡ hex_text v ++ s)
unfolding joined
joined_front v [] rest e = (rest, refl)
joined_front v (w ∷ gs) rest e = (b':' ∷ joined (w ∷ gs) rest, refl)

colon-joined :
    (loop : Groups → Bytes → Option Groups) (g : Groups) (v : ℕ) (gs : List ℕ) (rest : Bytes)
    → IsGroup v
    → Ends rest
    → behind_group loop g (b':' ∷ joined (v ∷ gs) rest) ≡ loop g (joined (v ∷ gs) rest)
colon-joined loop g v gs rest h e =
    let (s, front) = joined_front v gs rest e in rw front (one_colon loop g v s h)

current-put_group : (g : Groups) (v : ℕ) → current (put_group g v) ≡ suc (current g)
current-put_group g v = elim (Bool-cases g.have_dc) [
  | inl e ↦ rw e (omega (arith, length-append g.tail ((v % 2 ^ 16) ∷ [])))
  | inr e ↦ rw e (omega (arith, length-append g.head ((v % 2 ^ 16) ∷ [])))
]

-- The loop stores the groups one by one, and goes on with what follows.
pub ipv6_loop-joined :
    (k : ℕ) (g : Groups) (v : ℕ) (gs : List ℕ) (rest : Bytes)
    → All IsGroup (v ∷ gs)
    → current g + length (v ∷ gs) ≤ 8
    → Ends rest
    → ipv6_loop (rounds (v ∷ gs) k) g (joined (v ∷ gs) rest)
      ≡ behind_group (ipv6_loop k) (put_all g (v ∷ gs)) rest
unfolding rounds joined put_all
ipv6_loop-joined k g v [] rest all room e = one_group k v g rest all.0 (omega arith) e
ipv6_loop-joined k g v (w ∷ gs) rest all room e =
    one_group (rounds (w ∷ gs) k) v g (b':' ∷ joined (w ∷ gs) rest) all.0 (omega arith) refl
    ∙ colon-joined (ipv6_loop (rounds (w ∷ gs) k)) (put_group g v) w gs rest all.1.0 e
    ∙ ipv6_loop-joined k (put_group g v) w gs rest all.1 (omega (arith, current-put_group g v)) e

put_group_lem : (v : ℕ) → IsGroup v → v % 2 ^ 16 ≡ v
put_group_lem v h = omega arith

pub put_all-head :
    (head tail gs : List ℕ)
    → All IsGroup gs
    → put_all (record { have_dc = false; head = head; tail = tail }) gs
      ≡ record { have_dc = false; head = head ++ gs; tail = tail }
unfolding put_all
put_all-head head tail [] all =
    ap (λ (l : List ℕ). record { have_dc = false; head = l; tail = tail }) (sym (append-nil head))
put_all-head head tail (v ∷ gs) all = rw (put_group_lem v all.0) (
    put_all-head (head ++ (v ∷ [])) tail gs all.1
    ∙ ap (λ (l : List ℕ). record { have_dc = false; head = l; tail = tail })
        (append_assoc head (v ∷ []) gs))

pub put_all-tail :
    (head tail gs : List ℕ)
    → All IsGroup gs
    → put_all (record { have_dc = true; head = head; tail = tail }) gs
      ≡ record { have_dc = true; head = head; tail = tail ++ gs }
unfolding put_all
put_all-tail head tail [] all =
    ap (λ (l : List ℕ). record { have_dc = true; head = head; tail = l }) (sym (append-nil tail))
put_all-tail head tail (v ∷ gs) all = rw (put_group_lem v all.0) (
    put_all-tail head (tail ++ (v ∷ [])) gs all.1
    ∙ ap (λ (l : List ℕ). record { have_dc = true; head = head; tail = l })
        (append_assoc tail (v ∷ []) gs))

pub rounds_lem : (gs : List ℕ) (n : ℕ) → length gs ≤ n → rounds gs (n - length gs) ≡ n
unfolding rounds
rounds_lem [] n h = omega arith
rounds_lem (v ∷ gs) zero h = absurd (omega arith)
rounds_lem (v ∷ gs) (suc n) h =
    let one_less : suc n - suc (length gs) ≡ n - length gs = omega arith in
    rw one_less (ap suc (rounds_lem gs n (omega arith)))
