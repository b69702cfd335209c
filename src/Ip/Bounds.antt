-- ===== src/Ip/Bounds.antt =====
-- object_graph.c, `pog_parse_ip`: the number of an address has 128 bits.
use simple_dns.Common.{
  ℕ, zero, suc, ◌+◌, ◌-◌, ◌*◌, ◌%◌, ◌^◌, ◌≤◌, ◌<◌, bit_and, true, Bool-cases, inl, inr, Option,
  none, some, List, [], ◌∷◌, ◌++◌, Bytes, All, All-append, All-replicate, length, replicate, ltb,
  leb, ◌==◌, not, if◌then◌else◌, ltb_false→le, ◌≡◌, arith,
}
use mathlib.Core.Path.{subst}
use simple_dns.Common.Bits.{shr, bit_or-shl}
use simple_dns.Common.Text.Decimal.{is_digit}
use simple_dns.Ip.{◌>>=◌, read_octet, some_text, at_end, add_octet, ipv4_loop, pog_parse_ipv4}
use simple_dns.Ip.V6.{
  Groups, current, put_group, v4_suffix, read_group, behind_dc, behind_group, ipv6_loop, add_group,
  join_groups, full, ipv6_number, no_groups, leading_dc, pog_parse_ipv6,
}
use simple_dns.Ip.Family.{PogIp, has_char, family_ip, pog_parse_ip}

-- What holds of a result where there is one.
abbrev Result {ℓ} : {A : Type ℓ} → (A → Type 0) → Option A → Type 0
Result P none = Unit {0}
Result P (some a) = P a

bind-Result {ℓ κ} :
    {A : Type ℓ} {B : Type κ} (P : A → Type 0) (Q : B → Type 0) (o : Option A) (f : A → Option B)
    → Result P o
    → ((a : A) → P a → Result Q (f a))
    → Result Q (o >>= f)
bind-Result P Q none f h k = tt
bind-Result P Q (some a) f h k = k a h

Any-Result {ℓ} : {A : Type ℓ} (o : Option A) → Result (λ _. Unit {0}) o
Any-Result none = tt
Any-Result (some a) = tt

read_octet-Result :
    (s : Bytes) (octet count : ℕ) → octet ≤ 255 → Result (λ r. r.0 ≤ 255) (read_octet s octet count)
unfolding read_octet
read_octet-Result [] octet count h = elim (Bool-cases (count == 0)) [
  | inl e ↦ rw e tt
  | inr e ↦ rw e h
]
read_octet-Result (c ∷ s) octet count h = elim (Bool-cases (is_digit c)) [
  | inr d ↦ elim (Bool-cases (count == 0)) [ inl e ↦ rw (d, e) tt | inr e ↦ rw (d, e) h ]
  | inl d ↦ elim (Bool-cases (ltb 255 (octet * 10 + (c - b'0')))) [
    | inl e ↦ rw (d, e) tt
    | inr e ↦
        let small : octet * 10 + (c - b'0') ≤ 255 = ltb_false→le 255 (octet * 10 + (c - b'0')) e in
        elim (Bool-cases (leb 3 count)) [
          | inl f ↦ rw (d, e, f) tt
          | inr f ↦ rw (d, e, f) (read_octet-Result s (octet * 10 + (c - b'0')) (count + 1) small)
        ]
  ]
]

add_octet-lt : (ip octet : ℕ) → octet ≤ 255 → add_octet ip octet < 2 ^ 32
unfolding add_octet
add_octet-lt ip octet h =
    let kept : ip * 256 % 4294967296 ≡ ip % 16777216 * 256 = omega arith in
    rw kept (omega (arith, bit_or-shl 8 (ip % 16777216) octet (omega arith)))

at_end-Result {ℓ} : {A : Type ℓ} (P : A → Type 0) (a : A) (s : Bytes) → P a → Result P (at_end a s)
at_end-Result P a [] h = h
at_end-Result P a (c ∷ s) h = tt

pog_parse_ipv4-Result : (s : Bytes) → Result (λ v. v < 2 ^ 32) (pog_parse_ipv4 s)
unfolding pog_parse_ipv4
pog_parse_ipv4-Result s =
    bind-Result (λ _. Unit {0}) (λ v. v < 2 ^ 32) (ipv4_loop 3 0 s) _ (Any-Result (ipv4_loop 3 0 s))
      (λ a _.
        bind-Result (λ _. Unit {0}) (λ v. v < 2 ^ 32) (some_text a.1) _ (Any-Result (some_text a.1))
          (λ s2 _.
            bind-Result (λ r. r.0 ≤ 255) (λ v. v < 2 ^ 32) (read_octet s2 0 0) _
              (read_octet-Result s2 0 0 (omega arith))
              (λ r h.
                at_end-Result (λ v. v < 2 ^ 32) (add_octet a.0 r.0) r.1 (add_octet-lt a.0 r.0 h))))

-- The groups stored have 16 bits.
abbrev AreGroups : Groups → Type 0
AreGroups g = All (λ v. v < 2 ^ 16) g.head × All (λ v. v < 2 ^ 16) g.tail

group_added :
    (gs : List ℕ) (v : ℕ)
    → All (λ w. w < 2 ^ 16) gs
    → All (λ w. w < 2 ^ 16) (gs ++ ((v % 2 ^ 16) ∷ []))
group_added gs v h = All-append (λ w. w < 2 ^ 16) gs ((v % 2 ^ 16) ∷ []) h (omega arith, tt)

put_group-AreGroups : (g : Groups) (v : ℕ) → AreGroups g → AreGroups (put_group g v)
put_group-AreGroups g v h = elim (Bool-cases g.have_dc) [
  | inl e ↦ rw e (h.0, group_added g.tail v h.1)
  | inr e ↦ rw e (group_added g.head v h.0, h.1)
]

-- A loop that stores groups of 16 bits.
abbrev Stores : (Groups → Bytes → Option Groups) → Type 0
Stores loop = (g : Groups) (s : Bytes) → AreGroups g → Result AreGroups (loop g s)

behind_dc-Result :
    (loop : Groups → Bytes → Option Groups) (g : Groups) (s : Bytes)
    → Stores loop
    → AreGroups g
    → Result AreGroups (behind_dc loop g s)
behind_dc-Result loop g [] k h = h
behind_dc-Result loop g (c ∷ s) k h = k g (c ∷ s) h

behind_group-Result :
    (loop : Groups → Bytes → Option Groups) (g : Groups) (s : Bytes)
    → Stores loop
    → AreGroups g
    → Result AreGroups (behind_group loop g s)
behind_group-Result loop g [] k h = h
behind_group-Result loop g (c ∷ []) k h = tt
behind_group-Result loop g (c ∷ d ∷ s) k h = elim (Bool-cases (d == b':')) [
  | inr e ↦ rw e (k g (d ∷ s) h)
  | inl e ↦ elim (Bool-cases g.have_dc) [
    | inl f ↦ rw (e, f) tt
    | inr f ↦ rw (e, f) (behind_dc-Result loop (record g { have_dc = true }) s k h)
  ]
]

ipv6_loop-Result :
    (fuel : ℕ) (g : Groups) (s : Bytes) → AreGroups g → Result AreGroups (ipv6_loop fuel g s)
unfolding ipv6_loop
ipv6_loop-Result zero g s h = tt
ipv6_loop-Result (suc fuel) g s h = elim (Bool-cases (v4_suffix s)) [
  | inl e ↦ rw e (
      bind-Result (λ _. Unit {0}) AreGroups (pog_parse_ipv4 s) _ (Any-Result (pog_parse_ipv4 s))
        (λ v4 _. elim (Bool-cases (ltb 6 (current g))) [
          | inl f ↦ rw f tt
          | inr f ↦ rw f (
              put_group-AreGroups (put_group g (shr v4 16)) (bit_and v4 0xffff)
                (put_group-AreGroups g (shr v4 16) h))
        ]))
  | inr e ↦ rw e (
      bind-Result (λ _. Unit {0}) AreGroups (read_group s 0 0) _ (Any-Result (read_group s 0 0))
        (λ r _. elim (Bool-cases (leb 8 (current g))) [
          | inl f ↦ rw f tt
          | inr f ↦ rw f (
              behind_group-Result (ipv6_loop fuel) (put_group g r.0) r.1
                (λ g' s' h'. ipv6_loop-Result fuel g' s' h') (put_group-AreGroups g r.0 h))
        ]))
]

add_group-lt : (r v : ℕ) → v < 2 ^ 16 → add_group r v < 2 ^ 128
unfolding add_group
add_group-lt r v h =
    let kept : r * 2 ^ 16 % 2 ^ 128 ≡ r % 2 ^ 112 * 2 ^ 16 = omega arith in
    rw kept (omega (arith, bit_or-shl 16 (r % 2 ^ 112) v h))

join_groups-lt :
    (gs : List ℕ) (r : ℕ) → r < 2 ^ 128 → All (λ v. v < 2 ^ 16) gs → join_groups r gs < 2 ^ 128
unfolding join_groups
join_groups-lt [] r h k = h
join_groups-lt (v ∷ gs) r h k = join_groups-lt gs (add_group r v) (add_group-lt r v k.0) k.1

ipv6_number-Result : (g : Groups) → AreGroups g → Result (λ v. v < 2 ^ 128) (ipv6_number g)
unfolding ipv6_number
ipv6_number-Result g h =
    let total : ℕ = length g.head + length g.tail in
    let all : All (λ v. v < 2 ^ 16) (full g) =
      All-append (λ v. v < 2 ^ 16) g.head (replicate (8 - total) 0 ++ g.tail) h.0
        (All-append (λ v. v < 2 ^ 16) (replicate (8 - total) 0) g.tail
          (All-replicate (λ v. v < 2 ^ 16) (8 - total) 0 (omega arith)) h.1) in
    elim (Bool-cases (if g.have_dc then ltb 7 total else not (total == 8))) [
      | inl e ↦ rw e tt
      | inr e ↦ rw e (join_groups-lt (full g) 0 (omega arith) all)
    ]

read_number :
    (fuel : ℕ) (g : Groups) (s : Bytes)
    → AreGroups g
    → Result (λ v. v < 2 ^ 128) (ipv6_loop fuel g s >>= ipv6_number)
read_number fuel g s h =
    bind-Result AreGroups (λ v. v < 2 ^ 128) (ipv6_loop fuel g s) ipv6_number
      (ipv6_loop-Result fuel g s h) ipv6_number-Result

leading_dc-Result : (s : Bytes) → Result (λ v. v < 2 ^ 128) (leading_dc s)
leading_dc-Result [] = tt
leading_dc-Result (d ∷ []) = elim (Bool-cases (d == b':')) [
  | inl e ↦ rw e (omega arith)
  | inr e ↦ rw e tt
]
leading_dc-Result (d ∷ e ∷ s) = elim (Bool-cases (d == b':')) [
  | inl f ↦
      rw f (read_number (length (e ∷ s)) (record no_groups { have_dc = true }) (e ∷ s) (tt, tt))
  | inr f ↦ rw f tt
]

pog_parse_ipv6-Result : (s : Bytes) → Result (λ v. v < 2 ^ 128) (pog_parse_ipv6 s)
unfolding pog_parse_ipv6
pog_parse_ipv6-Result [] = tt
pog_parse_ipv6-Result (c ∷ s) = elim (Bool-cases (c == b':')) [
  | inl e ↦ rw e (leading_dc-Result s)
  | inr e ↦ rw e (read_number (length (c ∷ s)) no_groups (c ∷ s) (tt, tt))
]

family_ip-Result :
    (family : ℕ) (o : Option ℕ)
    → Result (λ v. v < 2 ^ 128) o
    → Result (λ ip. ip.v < 2 ^ 128) (family_ip family o)
family_ip-Result family none h = tt
family_ip-Result family (some v) h = h

wider : (o : Option ℕ) → Result (λ v. v < 2 ^ 32) o → Result (λ v. v < 2 ^ 128) o
wider none h = tt
wider (some v) h = omega (arith, h)

pog_parse_ip-Result : (s : Bytes) → Result (λ ip. ip.v < 2 ^ 128) (pog_parse_ip s)
unfolding pog_parse_ip
pog_parse_ip-Result s = elim (Bool-cases (has_char s b':')) [
  | inl e ↦ rw e (family_ip-Result 6 (pog_parse_ipv6 s) (pog_parse_ipv6-Result s))
  | inr e ↦ elim (Bool-cases (has_char s b'.')) [
    | inl f ↦
        rw (e, f)
          (family_ip-Result 4 (pog_parse_ipv4 s)
            (wider (pog_parse_ipv4 s) (pog_parse_ipv4-Result s)))
    | inr f ↦ rw (e, f) tt
  ]
]

-- The number of a parsed address is one of `__uint128_t`.
pub pog_parse_ip-lt : (s : Bytes) (ip : PogIp) → pog_parse_ip s ≡ some ip → ip.v < 2 ^ 128
pog_parse_ip-lt s ip h = subst (Result (λ (a : PogIp). a.v < 2 ^ 128)) h (pog_parse_ip-Result s)
