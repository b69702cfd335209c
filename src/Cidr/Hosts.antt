-- ===== src/Cidr/Hosts.antt =====
-- object_graph.c, the addresses that the loops of the lists visit.
use simple_dns.Common.{
  ℕ, ◌+◌, ◌-◌, ◌^◌, ◌≤◌, ◌<◌, le→ltb, lt→ltb, le→leb, lt→leb, dec_le, inl, inr, ◌⊎◌, ◌≡◌, refl, sym,
  ap, ◌∙◌, arith,
}
use simple_dns.Ip.Family.{PogIp}
use simple_dns.Cidr.{max_bits, pog_apply_mask, cidr_host_count, probe}
use simple_dns.Cidr.Mask.{first_of, first_of-bound, pog_apply_mask-first_of}
use simple_dns.Cidr.Network.{IsHost, host_bits}

PogIp-eq : (a b : PogIp) → a.family ≡ b.family → a.v ≡ b.v → a ≡ b
PogIp-eq a b f v =
    ap (λ (n : ℕ). record { family = n; v = a.v }) f
    ∙ ap (λ (n : ℕ). record { family = b.family; v = n }) v

not_left {ℓ κ} : {A : Type ℓ} {B : Type κ} → ¬ A → A ⊎ B → B
not_left n (inl a) = absurd (n a)
not_left n (inr b) = b

abbrev pub network_base : PogIp → ℕ → PogIp
network_base raw bits = pog_apply_mask raw bits

abbrev pub network_count : PogIp → ℕ → ℕ
network_count raw bits = cidr_host_count (network_base raw bits).family bits

module _ (raw : PogIp) (bits : ℕ) (small : raw.v < 2 ^ 128)
    (enough : bits ≤ max_bits raw.family) where
  abbrev base : PogIp
  base = network_base raw bits

  abbrev first : ℕ
  first = first_of raw (host_bits raw bits)

  abbrev count : ℕ
  count = network_count raw bits

  unlisted : 24 < host_bits raw bits → count ≡ 0
  unfolding cidr_host_count pog_apply_mask
  unlisted h = rw (le→ltb (max_bits raw.family) bits enough, lt→ltb 24 (host_bits raw bits) h) refl

  all_listed : host_bits raw bits ≤ 1 → count ≡ 2 ^ host_bits raw bits
  unfolding cidr_host_count pog_apply_mask
  all_listed h =
      rw
        (
          le→ltb (max_bits raw.family) bits enough,
          le→ltb 24 (host_bits raw bits) (omega arith),
          le→leb (max_bits raw.family - 1) bits (omega arith),
        )
        refl

  inner_listed :
      2 ≤ host_bits raw bits → host_bits raw bits ≤ 24 → count ≡ 2 ^ host_bits raw bits - 2
  unfolding cidr_host_count pog_apply_mask
  inner_listed h g =
      rw
        (
          le→ltb (max_bits raw.family) bits enough,
          le→ltb 24 (host_bits raw bits) g,
          lt→leb (max_bits raw.family - 1) bits (omega arith),
        )
        refl

  base_v : host_bits raw bits ≤ 24 → base.v ≡ first
  base_v h = pog_apply_mask-first_of raw bits small enough (omega arith)

  room : host_bits raw bits ≤ 24 → first + 2 ^ host_bits raw bits ≤ 2 ^ 128
  room h = first_of-bound raw (host_bits raw bits) small (omega arith)

  -- Where the network has at most two addresses, index `k` is its `k`-th one.
  probe_all :
      (k : ℕ)
      → host_bits raw bits ≤ 1
      → k < 2 ^ host_bits raw bits
      → (probe base bits k).v ≡ first + k
  unfolding probe pog_apply_mask
  probe_all k h g =
      rw (le→leb (max_bits raw.family - 1) bits (omega arith))
        (omega (arith, base_v (omega arith), room (omega arith)))

  -- Otherwise it is the one behind.
  probe_inner :
      (k : ℕ)
      → 2 ≤ host_bits raw bits
      → host_bits raw bits ≤ 24
      → k + 1 < 2 ^ host_bits raw bits
      → (probe base bits k).v ≡ first + k + 1
  unfolding probe pog_apply_mask
  probe_inner k h g b =
      rw (lt→leb (max_bits raw.family - 1) bits (omega arith)) (omega (arith, base_v g, room g))

  probe_family : (k : ℕ) → (probe base bits k).family ≡ raw.family
  unfolding probe pog_apply_mask
  probe_family k = refl

  pub probe-IsHost : (k : ℕ) → k < count → IsHost raw bits (probe base bits k)
  probe-IsHost k h = elim (dec_le (host_bits raw bits) 24) [
    | no n ↦ absurd (omega (arith, unlisted (omega arith)))
    | yes p ↦ elim (dec_le (host_bits raw bits) 1) [
      | yes q ↦
          let below : k < 2 ^ host_bits raw bits = omega (arith, all_listed q) in
          let value : (probe base bits k).v ≡ first + k = probe_all k q below in
          record {
            family = probe_family k;
            listed = p;
            lowest = omega (arith, value);
            highest = omega (arith, value);
            inside = inl q;
          }
      | no q ↦
          let two : 2 ≤ host_bits raw bits = omega arith in
          let below : k + 2 < 2 ^ host_bits raw bits = omega (arith, inner_listed two p) in
          let value : (probe base bits k).v ≡ first + k + 1 =
            probe_inner k two p (omega (arith, below)) in
          record {
            family = probe_family k;
            listed = p;
            lowest = omega (arith, value);
            highest = omega (arith, value);
            inside = inr (omega (arith, value), omega (arith, value));
          }
    ]
  ]

  -- Every host is visited.
  pub probe_reaches :
      (ip : PogIp) → IsHost raw bits ip → (k : ℕ) × (k < count) × (ip ≡ probe base bits k)
  probe_reaches ip x = elim (dec_le (host_bits raw bits) 1) [
    | yes q ↦
        let below : ip.v - first < 2 ^ host_bits raw bits = omega (arith, x.lowest, x.highest) in
        let value : (probe base bits (ip.v - first)).v ≡ first + (ip.v - first) =
          probe_all (ip.v - first) q below in
        (
          ip.v - first,
          omega (arith, all_listed q, below),
          PogIp-eq ip (probe base bits (ip.v - first))
              (x.family ∙ sym (probe_family (ip.v - first))) (omega (arith, value, x.lowest)),
        )
    | no q ↦
        let two : 2 ≤ host_bits raw bits = omega arith in
        let (above, within) = not_left q x.inside in
        let k : ℕ = ip.v - first - 1 in
        let below : k + 2 < 2 ^ host_bits raw bits = omega (arith, above, within) in
        let value : (probe base bits k).v ≡ first + k + 1 =
          probe_inner k two x.listed (omega (arith, below)) in
        (
          k,
          omega (arith, inner_listed two x.listed, below),
          PogIp-eq ip (probe base bits k) (x.family ∙ sym (probe_family k))
              (omega (arith, value, above)),
        )
  ]

  -- The visits go up.
  pub probe_lt : (j k : ℕ) → j < k → k < count → (probe base bits j).v < (probe base bits k).v
  probe_lt j k less h = elim (dec_le (host_bits raw bits) 24) [
    | no n ↦ absurd (omega (arith, unlisted (omega arith)))
    | yes p ↦ elim (dec_le (host_bits raw bits) 1) [
      | yes q ↦ omega (
        arith,
        probe_all j q (omega (arith, all_listed q)),
        probe_all k q (omega (arith, all_listed q)),
      )
      | no q ↦
          let two : 2 ≤ host_bits raw bits = omega arith in
          omega (
            arith,
            probe_inner j two p (omega (arith, inner_listed two p)),
            probe_inner k two p (omega (arith, inner_listed two p)),
          )
    ]
  ]
