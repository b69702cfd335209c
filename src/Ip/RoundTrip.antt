-- ===== src/Ip/RoundTrip.antt =====
-- IPv6 addresses in object_graph.c: `pog_parse_ipv6` reads what `pog_format_ipv6` prints.
use simple_dns.Common.{
  ℕ, suc, ◌+◌, ◌-◌, ◌*◌, ◌/◌, ◌%◌, ◌^◌, ◌≤◌, ◌<◌, true, Option, some, List, [], ◌∷◌, ◌++◌, Bytes,
  length, replicate, All, length-append, append-nil, ◌==◌, ◌≡◌, refl, sym, ap, ◌∙◌, inl, inr, arith,
  le→ltb, ==_iff,
}
use mathlib.Core.Path.{subst}
use simple_dns.Common.Bits.{bit_or-shl}
use simple_dns.Ip.{◌>>=◌}
use simple_dns.Ip.V6.{
  Groups, no_groups, add_group, join_groups, ipv6_number, behind_dc, behind_group, ipv6_loop,
  leading_dc, pog_parse_ipv6,
}
use simple_dns.Ip.Printed.{group, groups, hex_char, hex_text, pog_format_ipv6}
use simple_dns.Ip.Digits.{first_digit, hex_char_not}
use simple_dns.Ip.Joined.{IsGroup, joined, rounds_lem, ipv6_loop-joined, put_all-head, put_all-tail}
use simple_dns.Ip.Compressed.{IsPrinted, length-split, pog_format_ipv6-IsPrinted}

add_group_lem : (r v s : ℕ) → r < 2 ^ 112 → IsGroup v → r * 2 ^ 16 + v ≡ s → add_group r v ≡ s
unfolding add_group
add_group_lem r v s h k e =
    let m : r * 2 ^ 16 % 2 ^ 128 ≡ r * 2 ^ 16 = omega arith in rw m (bit_or-shl 16 r v k ∙ e)

-- The groups of an address make up the address.
join_groups-groups : (ip : ℕ) → ip < 2 ^ 128 → join_groups 0 (groups ip) ≡ ip
unfolding join_groups groups
join_groups-groups ip h =
    rw
      (
        add_group_lem 0 (group ip 0) (ip / 2 ^ 112) (omega arith) (omega arith) (omega arith),
        add_group_lem (ip / 2 ^ 112) (group ip 1) (ip / 2 ^ 96) (omega arith) (omega arith)
            (omega arith),
        add_group_lem (ip / 2 ^ 96) (group ip 2) (ip / 2 ^ 80) (omega arith) (omega arith)
            (omega arith),
        add_group_lem (ip / 2 ^ 80) (group ip 3) (ip / 2 ^ 64) (omega arith) (omega arith)
            (omega arith),
        add_group_lem (ip / 2 ^ 64) (group ip 4) (ip / 2 ^ 48) (omega arith) (omega arith)
            (omega arith),
        add_group_lem (ip / 2 ^ 48) (group ip 5) (ip / 2 ^ 32) (omega arith) (omega arith)
            (omega arith),
        add_group_lem (ip / 2 ^ 32) (group ip 6) (ip / 2 ^ 16) (omega arith) (omega arith)
            (omega arith),
        add_group_lem (ip / 2 ^ 16) (group ip 7) ip (omega arith) (omega arith) (omega arith),
      )
      refl

groups-All : (ip : ℕ) → All IsGroup (groups ip)
unfolding groups
groups-All ip = omega arith

length-groups : (ip : ℕ) → length (groups ip) ≡ 8
unfolding groups
length-groups ip = refl

front :
    (v : ℕ) (gs : List ℕ) (rest : Bytes)
    → IsGroup v
    → (d : ℕ) × (s : Bytes) × (d < 16) × (joined (v ∷ gs) rest ≡ hex_char d ∷ s)
unfolding joined
front v [] rest h =
    let (d, s, small, e) = first_digit v h in (d, s ++ rest, small, ap (λ (t : Bytes). t ++ rest) e)
front v (w ∷ gs) rest h =
    let (d, s, small, e) = first_digit v h in
    (
      d,
      s ++ (b':' ∷ joined (w ∷ gs) rest),
      small,
      ap (λ (t : Bytes). t ++ (b':' ∷ joined (w ∷ gs) rest)) e,
    )

length-joined_ge :
    (gs : List ℕ) (rest : Bytes)
    → All IsGroup gs
    → length gs + length rest ≤ length (joined gs rest)
unfolding joined
length-joined_ge [] rest h = omega arith
length-joined_ge (v ∷ []) rest h =
    let (d, s, small, e) = first_digit v h.0 in
    omega (arith, length-append (hex_text v) rest, ap length e)
length-joined_ge (v ∷ w ∷ gs) rest h = omega (
  arith,
  length-append (hex_text v) (b':' ∷ joined (w ∷ gs) rest),
  length-joined_ge (w ∷ gs) rest h.1,
)

-- A text that a digit begins goes to the loop.
parse_digit :
    (text : Bytes) (d : ℕ) (s : Bytes)
    → d < 16
    → text ≡ hex_char d ∷ s
    → pog_parse_ipv6 text ≡ ipv6_loop (length text) no_groups text >>= ipv6_number
unfolding pog_parse_ipv6
parse_digit text d s h e = rw (e, hex_char_not d b':' h (inr refl)) refl

abbrev compressed : List ℕ → List ℕ → Groups
compressed pre post = record { have_dc = true; head = pre; tail = post }

-- The groups behind `::`.
loop_tail :
    (k : ℕ) (pre : List ℕ) (v : ℕ) (post : List ℕ)
    → length (v ∷ post) ≤ k
    → length (v ∷ post) ≤ 8
    → All IsGroup (v ∷ post)
    → ipv6_loop k (compressed pre []) (joined (v ∷ post) []) ≡ some (compressed pre (v ∷ post))
loop_tail k pre v post h room all =
    let loop : ℕ → Option Groups = λ n. ipv6_loop n (compressed pre []) (joined (v ∷ post) []) in
    ap loop (sym (rounds_lem (v ∷ post) k h))
    ∙ ipv6_loop-joined (k - length (v ∷ post)) (compressed pre []) v post [] all (omega arith) tt
    ∙ ap some (put_all-tail pre [] (v ∷ post) all)

behind_dc_tail :
    (k : ℕ) (pre post : List ℕ)
    → length post ≤ k
    → length post ≤ 8
    → All IsGroup post
    → behind_dc (ipv6_loop k) (compressed pre []) (joined post []) ≡ some (compressed pre post)
unfolding joined
behind_dc_tail k pre [] h room all = refl
behind_dc_tail k pre (v ∷ post) h room all =
    let (d, s, small, e) = front v post [] all.0 in
    ap (behind_dc (ipv6_loop k) (compressed pre [])) e
    ∙ sym (ap (ipv6_loop k (compressed pre [])) e)
    ∙ loop_tail k pre v post h room all

ipv6_number-compressed :
    (pre post : List ℕ) (l : ℕ)
    → length pre + (suc l + length post) ≡ 8
    → ipv6_number (compressed pre post)
      ≡ some (join_groups 0 (pre ++ (replicate (suc l) 0 ++ post)))
unfolding ipv6_number
ipv6_number-compressed pre post l h =
    let gap : 8 - (length pre + length post) ≡ suc l = omega arith in
    rw (gap, le→ltb 7 (length pre + length post) (omega arith)) refl

-- `::` in front.
parse_leading :
    (post : List ℕ)
    → length post < 8
    → All IsGroup post
    → pog_parse_ipv6 (b':' ∷ b':' ∷ joined post []) ≡ ipv6_number (compressed [] post)
unfolding pog_parse_ipv6 joined
parse_leading [] h all = unfold ipv6_number in (unfold join_groups in (unfold add_group in refl))
parse_leading (v ∷ post) h all =
    let (d, s, small, e) = front v post [] all.0 in
    let size : length (joined (v ∷ post) []) ≡ length (hex_char d ∷ s) = ap length e in
    let read : ipv6_loop (length (hex_char d ∷ s)) (compressed [] []) (hex_char d ∷ s)
        ≡ some (compressed [] (v ∷ post)) =
      sym (ap (ipv6_loop (length (hex_char d ∷ s)) (compressed [] [])) e)
      ∙ loop_tail (length (hex_char d ∷ s)) [] v post
          (omega (arith, size, length-joined_ge (v ∷ post) [] all)) (omega arith) all in
    ap (λ (t : Bytes). leading_dc (b':' ∷ t)) e ∙ ap (λ (o : Option Groups). o >>= ipv6_number) read

-- `::` behind groups.
parse_behind :
    (v : ℕ) (pre post : List ℕ)
    → length (v ∷ pre) + length post < 8
    → All IsGroup (v ∷ pre)
    → All IsGroup post
    → pog_parse_ipv6 (joined (v ∷ pre) (b':' ∷ b':' ∷ joined post []))
      ≡ ipv6_number (compressed (v ∷ pre) post)
parse_behind v pre post h all_pre all_post =
    let rest : Bytes = b':' ∷ b':' ∷ joined post [] in
    let text : Bytes = joined (v ∷ pre) rest in
    let (d, s, small, e) = front v pre rest all_pre.0 in
    let enough : length (v ∷ pre) + length rest ≤ length text =
      length-joined_ge (v ∷ pre) rest all_pre in
    let k : ℕ = length text - length (v ∷ pre) in
    let left : length post ≤ k = omega (arith, enough, length-joined_ge post [] all_post) in
    let read : ipv6_loop (length text) no_groups text ≡ some (compressed (v ∷ pre) post) =
      ap (λ (n : ℕ). ipv6_loop n no_groups text)
        (sym (rounds_lem (v ∷ pre) (length text) (omega (arith, enough))))
      ∙ ipv6_loop-joined k no_groups v pre rest all_pre (omega arith) refl
      ∙ ap (λ (g : Groups). behind_group (ipv6_loop k) g rest)
          (put_all-head [] [] (v ∷ pre) all_pre)
      ∙ behind_dc_tail k (v ∷ pre) post left (omega arith) all_post in
    parse_digit text d s small e ∙ ap (λ (o : Option Groups). o >>= ipv6_number) read

-- No `::`.
parse_whole :
    (v : ℕ) (gs : List ℕ)
    → length (v ∷ gs) ≡ 8
    → All IsGroup (v ∷ gs)
    → pog_parse_ipv6 (joined (v ∷ gs) []) ≡ some (join_groups 0 (v ∷ gs))
unfolding ipv6_number
parse_whole v gs h all =
    let text : Bytes = joined (v ∷ gs) [] in
    let (d, s, small, e) = front v gs [] all.0 in
    let enough : length (v ∷ gs) ≤ length text = omega (arith, length-joined_ge (v ∷ gs) [] all) in
    let read : ipv6_loop (length text) no_groups text ≡ some (record no_groups { head = v ∷ gs }) =
      ap (λ (n : ℕ). ipv6_loop n no_groups text) (sym (rounds_lem (v ∷ gs) (length text) enough))
      ∙ ipv6_loop-joined (length text - length (v ∷ gs)) no_groups v gs [] all (omega arith) tt
      ∙ ap some (put_all-head [] [] (v ∷ gs) all) in
    let none_left : 8 - (length (v ∷ gs) + 0) ≡ 0 = omega arith in
    let eight : (length (v ∷ gs) + 0 == 8) ≡ true =
      (==_iff (length (v ∷ gs) + 0) 8).1 (omega arith) in
    parse_digit text d s small e
    ∙ ap (λ (o : Option Groups). o >>= ipv6_number) read
    ∙ rw (none_left, eight, append-nil gs) refl

All-split :
    (pre : List ℕ) (rest : List ℕ) → All IsGroup (pre ++ rest) → All IsGroup pre × All IsGroup rest
All-split [] rest all = (tt, all)
All-split (v ∷ pre) rest all =
    let (left, right) = All-split pre rest all.1 in ((all.0, left), right)

parse_compressed :
    (pre post : List ℕ) (l : ℕ)
    → length pre + (suc l + length post) ≡ 8
    → All IsGroup pre
    → All IsGroup post
    → pog_parse_ipv6 (joined pre (b':' ∷ b':' ∷ joined post []))
      ≡ some (join_groups 0 (pre ++ (replicate (suc l) 0 ++ post)))
unfolding joined
parse_compressed [] post l h all_pre all_post =
    parse_leading post (omega arith) all_post ∙ ipv6_number-compressed [] post l h
parse_compressed (v ∷ pre) post l h all_pre all_post =
    parse_behind v pre post (omega arith) all_pre all_post
    ∙ ipv6_number-compressed (v ∷ pre) post l h

parse_printed :
    (gs : List ℕ) (text : Bytes)
    → length gs ≡ 8
    → All IsGroup gs
    → IsPrinted gs text
    → pog_parse_ipv6 text ≡ some (join_groups 0 gs)
unfolding IsPrinted
parse_printed [] text h all printed = absurd (omega arith)
parse_printed (v ∷ gs) text h all (inl e) = ap pog_parse_ipv6 e ∙ parse_whole v gs h all
parse_printed (v ∷ gs) text h all (inr (pre, l, post, split, e)) =
    let parts : All IsGroup (pre ++ (replicate (suc l) 0 ++ post)) =
      subst (All IsGroup) split all in
    let (all_pre, rest) = All-split pre (replicate (suc l) 0 ++ post) parts in
    let (zeros, all_post) = All-split (replicate (suc l) 0) post rest in
    ap pog_parse_ipv6 e
    ∙ parse_compressed pre post l (omega (arith, h, length-split (v ∷ gs) pre post l split)) all_pre
        all_post
    ∙ ap (λ (t : List ℕ). some (join_groups 0 t)) (sym split)

-- An IPv6 address below 2 ^ 128 that `pog_format_ipv6` prints into at least 40 bytes, a run of zero
-- groups compressed to `::`, is read back by `pog_parse_ipv6`.
pub pog_parse_ipv6-pog_format_ipv6 :
    (ip n : ℕ) → ip < 2 ^ 128 → 40 ≤ n → pog_parse_ipv6 (pog_format_ipv6 ip n) ≡ some ip
pog_parse_ipv6-pog_format_ipv6 ip n h k =
    parse_printed (groups ip) (pog_format_ipv6 ip n) (length-groups ip) (groups-All ip)
      (pog_format_ipv6-IsPrinted ip n k)
    ∙ ap some (join_groups-groups ip h)
