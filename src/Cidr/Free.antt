-- ===== src/Cidr/Free.antt =====
-- object_graph.c, the list `cidr.free`.
use simple_dns.Common.{
  ℕ, zero, suc, ◌+◌, ◌-◌, ◌≤◌, Option, none, some, List, [], Bytes, length, get_elem?, map, ◌==◌,
  Bool-cases, ◌≡◌, refl, sym, ap, ◌∙◌, inl, inr, arith, Option-cases, Bool, ◌^◌, true, false, ◌<◌,
  ◌↔◌,
}
use simple_dns.Common.Text.Decimal.{bytes}
use simple_dns.Ip.Family.{PogIp, pog_format_ip}
use simple_dns.Cidr.{
  Object, get_field_unlocked, pog_apply_mask, cidr_get_net, cidr_host_count, probe,
  cidr_is_assigned,
}
use mathlib.Core.Path.{subst}
use mathlib.Core.List.{Memᴰ}
use simple_dns.Ip.Bounds.{pog_parse_ip-lt}
use simple_dns.Cidr.Network.{
  IsNetwork, IsHost, cidr_get_net→IsNetwork, IsNetwork→cidr_get_net, IsNetwork-unique,
}
use simple_dns.Cidr.Assigned.{IsAssigned, cidr_is_assigned_iff}
use simple_dns.Cidr.Hosts.{network_base, network_count, probe-IsHost, probe_reaches, probe_lt}
use simple_dns.Cidr.Visits.{
  hosts, unassigned, Ascending, unassigned-Ascending, kept, keeps, visited, visits, hosts-Ascending,
}
use simple_dns.Cidr.Lists.{free_len, free_len_loop, cidr_free_len, free_at_loop, cidr_free_at}

abbrev pub texts : List PogIp → List Bytes
texts ips = map (λ ip. pog_format_ip ip 48) ips

abbrev free_hosts : Option Object → Option (PogIp × ℕ) → List PogIp
free_hosts assigned none = []
free_hosts assigned (some (base, bits)) =
    unassigned assigned (hosts base bits 0 (cidr_host_count base.family bits))

-- The list that the loops give.
unfoldable free_ips : Option Object → List PogIp
unfolding bytes unassigned hosts
free_ips params = free_hosts (get_field_unlocked params (bytes "assigned")) (cidr_get_net params)

module _ (assigned : Option Object) (base : PogIp) (bits : ℕ) where
  free_len_loop_lem :
      (left k n : ℕ)
      → free_len_loop assigned base bits left k n
        ≡ n + length (unassigned assigned (hosts base bits k left))
  unfolding free_len_loop unassigned hosts
  free_len_loop_lem zero k n = omega arith
  free_len_loop_lem (suc left) k n =
      elim (Bool-cases (cidr_is_assigned assigned (probe base bits k))) [
        | inl e ↦ rw (e, free_len_loop_lem left (k + 1) n) refl
        | inr e ↦ rw (e, free_len_loop_lem left (k + 1) (n + 1)) (omega arith)
      ]

  free_at_loop_lem :
      (i left k found : ℕ)
      → found ≤ i
      → free_at_loop assigned base bits i left k found
        ≡ get_elem? (texts (unassigned assigned (hosts base bits k left))) (i - found)
  unfolding free_at_loop unassigned hosts
  free_at_loop_lem i zero k found h = refl
  free_at_loop_lem i (suc left) k found h =
      elim (Bool-cases (cidr_is_assigned assigned (probe base bits k))) [
        | inl e ↦ rw e (free_at_loop_lem i left (k + 1) found h)
        | inr e ↦ elim (Bool-cases (found == i)) [
          | inl f ↦ let none_left : i - found ≡ 0 = ground arith in rw (e, f, none_left) refl
          | inr f ↦
              let more : i - found ≡ suc (i - (found + 1)) = ground arith in
              rw (e, f, more) (free_at_loop_lem i left (k + 1) (found + 1) (ground arith))
        ]
      ]

nothing_assigned :
    (base : PogIp) (bits k left : ℕ) → length (unassigned none (hosts base bits k left)) ≡ left
unfolding unassigned hosts cidr_is_assigned
nothing_assigned base bits k zero = refl
nothing_assigned base bits k (suc left) = ap suc (nothing_assigned base bits (k + 1) left)

free_len_lem :
    (assigned : Option Object) (base : PogIp) (bits : ℕ)
    → free_len assigned base bits ≡ length (free_hosts assigned (some (base, bits)))
free_len_lem none base bits = sym (nothing_assigned base bits 0 (cidr_host_count base.family bits))
free_len_lem (some a) base bits =
    free_len_loop_lem (some a) base bits (cidr_host_count base.family bits) 0 0 ∙ omega arith

free_lists :
    (params : Option Object) (i : ℕ)
    → (cidr_free_len params ≡ length (free_ips params))
      × (cidr_free_at params i ≡ get_elem? (texts (free_ips params)) i)
unfolding cidr_free_len cidr_free_at free_ips
free_lists params i = elim (Option-cases (cidr_get_net params)) [
  | inl e ↦ rw e (refl, refl)
  | inr ((base, bits), e) ↦ rw e (
    free_len_lem (get_field_unlocked params (bytes "assigned")) base bits,
    free_at_loop_lem (get_field_unlocked params (bytes "assigned")) base bits i
          (cidr_host_count base.family bits) 0 0 (omega arith)
        ∙ ap
            (λ (j : ℕ).
              get_elem?
                (texts
                  (free_hosts (get_field_unlocked params (bytes "assigned")) (some (base, bits))))
                j)
            (omega arith),
  )
]

-- An address of the network that is a host and not in use.
pub record IsFree (params : Option Object) (ip : PogIp) : Type 0 where
  pub raw : PogIp
  pub bits : ℕ
  pub network : IsNetwork params raw bits
  pub host : IsHost raw bits ip
  pub unused : ¬ IsAssigned params ip

both_values : true ≡ false → ⊥
both_values h = cc

not_true : (b : Bool) → ¬ (b ≡ true) → b ≡ false
not_true true n = absurd (n refl)
not_true false n = refl

-- What the loops give on a network.
module _ (params : Option Object) (raw : PogIp) (bits : ℕ)
    (network : IsNetwork params raw bits) where
  abbrev in_use : Option Object
  in_use = get_field_unlocked params (bytes "assigned")

  abbrev given : List PogIp
  given = unassigned in_use (hosts (network_base raw bits) bits 0 (network_count raw bits))

  small : raw.v < 2 ^ 128
  small = pog_parse_ip-lt network.prefix raw network.address

  given-Ascending : Ascending given
  given-Ascending =
      unassigned-Ascending in_use (hosts (network_base raw bits) bits 0 (network_count raw bits)) (
        hosts-Ascending (network_base raw bits) bits (network_count raw bits)
          (probe_lt raw bits small network.enough) (network_count raw bits) 0 (omega arith))

  given→IsFree : (ip : PogIp) → Memᴰ ip given → IsFree params ip
  given→IsFree ip m =
      let (h, u) =
        kept in_use ip (hosts (network_base raw bits) bits 0 (network_count raw bits)) m in
      let (j, low, high, p) =
        visited (network_base raw bits) bits ip (network_count raw bits) 0 h in
      record {
        raw = raw;
        bits = bits;
        network = network;
        host =
            subst (IsHost raw bits) (sym p)
              (probe-IsHost raw bits small network.enough j (omega (arith, high)));
        unused = λ a. both_values (sym ((cidr_is_assigned_iff params ip).1 a) ∙ u);
      }

  IsFree→given : (ip : PogIp) → IsFree params ip → Memᴰ ip given
  IsFree→given ip x =
      let (r, b) = IsNetwork-unique params x.raw raw x.bits bits x.network network in
      let host : IsHost raw bits ip =
        subst (λ (n : ℕ). IsHost raw n ip) b (subst (λ (a : PogIp). IsHost a x.bits ip) r x.host) in
      let (k, less, p) = probe_reaches raw bits small network.enough ip host in
      keeps in_use ip (hosts (network_base raw bits) bits 0 (network_count raw bits))
        (subst
          (λ (a : PogIp). Memᴰ a (hosts (network_base raw bits) bits 0 (network_count raw bits)))
          (sym p)
          (visits (network_base raw bits) bits (network_count raw bits) 0 k (omega arith)
            (omega (arith, less))))
        (not_true (cidr_is_assigned in_use ip)
          (λ t. x.unused ((cidr_is_assigned_iff params ip).0 t)))

not_none : (x : PogIp × ℕ) → ◌≡◌ {A = Option (PogIp × ℕ)} none (some x) → ⊥
not_none x h = cc

-- The list that ascends and has just the addresses that are free.
abbrev AreFree : Option Object → List PogIp → Type 0
AreFree params ips = Ascending ips × ((ip : PogIp) → Memᴰ ip ips ↔ IsFree params ip)

free_ips-AreFree : (params : Option Object) → AreFree params (free_ips params)
unfolding free_ips
free_ips-AreFree params = elim (Option-cases (cidr_get_net params)) [
  | inl e ↦
      let unnamed : (ip : PogIp) → IsFree params ip → ⊥ = λ ip x.
        not_none (pog_apply_mask x.raw x.bits, x.bits)
          (sym e ∙ IsNetwork→cidr_get_net params x.raw x.bits x.network) in
      rw e (tt, λ ip. (λ m. elim m [ ], λ x. absurd (unnamed ip x)))
  | inr ((base, bits), e) ↦
      let (raw, network, same) = cidr_get_net→IsNetwork params base bits e in
      rw e (
        subst
          (λ (b : PogIp).
            AreFree params
              (free_hosts (get_field_unlocked params (bytes "assigned")) (some (b, bits))))
          (sym same)
          (
            given-Ascending params raw bits network,
            λ ip.
                (given→IsFree params raw bits network ip, IsFree→given params raw bits network ip),
          ))
]

-- The items of `cidr.free` are the texts of a list of addresses, in order: the list that ascends and has
-- just the hosts of the network that are not in use, which are the addresses that share the first bits
-- of the prefix, without the first and the last where there are more than two, and none where there are
-- more than 2^24. The length is that of this list, and there is no item behind it. Parameters that name
-- no network give the empty list.
pub cidr_free_at-IsFree :
    (params : Option Object)
    → (ips : List PogIp) × Ascending ips
      × ((ip : PogIp) → Memᴰ ip ips ↔ IsFree params ip)
      × (cidr_free_len params ≡ length ips)
      × ((i : ℕ) → cidr_free_at params i ≡ get_elem? (texts ips) i)
cidr_free_at-IsFree params =
    let (ascending, exact) = free_ips-AreFree params in
    (free_ips params, ascending, exact, (free_lists params 0).0, λ i. (free_lists params i).1)
