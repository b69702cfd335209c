-- ===== src/Cidr/Visits.antt =====
-- object_graph.c, the addresses that a loop over the hosts visits and does not find in use.
use simple_dns.Common.{
  ℕ, zero, suc, ◌+◌, ◌≤◌, Option, List, [], ◌∷◌, if◌then◌else◌, Bool-cases, ◌≡◌, refl, sym, ap, ◌∙◌,
  inl, inr, arith, All, dec_le, false, ◌<◌,
}
use simple_dns.Ip.Family.{PogIp}
use simple_dns.Cidr.{Object, probe, cidr_is_assigned}
use mathlib.Core.Path.{subst}
use mathlib.Core.List.{Memᴰ}

-- The hosts from index `k` on.
unfoldable pub hosts : PogIp → ℕ → ℕ → ℕ → List PogIp
hosts base bits k zero = []
hosts base bits k (suc left) = probe base bits k ∷ hosts base bits (k + 1) left

-- Those that are not in `assigned`.
unfoldable pub unassigned : Option Object → List PogIp → List PogIp
unassigned assigned [] = []
unassigned assigned (ip ∷ ips) =
    if cidr_is_assigned assigned ip then unassigned assigned ips else ip ∷ unassigned assigned ips

abbrev pub Ascending : List PogIp → Type 0
Ascending [] = Unit {0}
Ascending (x ∷ xs) = All (λ y. x.v < y.v) xs × Ascending xs

module _ (assigned : Option Object) where
  unassigned-All :
      (P : PogIp → Type 0) (xs : List PogIp) → All P xs → All P (unassigned assigned xs)
  unfolding unassigned
  unassigned-All P [] h = tt
  unassigned-All P (x ∷ xs) h = elim (Bool-cases (cidr_is_assigned assigned x)) [
    | inl e ↦ rw e (unassigned-All P xs h.1)
    | inr e ↦ rw e (h.0, unassigned-All P xs h.1)
  ]

  pub unassigned-Ascending : (xs : List PogIp) → Ascending xs → Ascending (unassigned assigned xs)
  unfolding unassigned
  unassigned-Ascending [] h = tt
  unassigned-Ascending (x ∷ xs) h = elim (Bool-cases (cidr_is_assigned assigned x)) [
    | inl e ↦ rw e (unassigned-Ascending xs h.1)
    | inr e ↦ rw e (unassigned-All (λ y. x.v < y.v) xs h.0, unassigned-Ascending xs h.1)
  ]

  pub kept :
      (ip : PogIp) (xs : List PogIp)
      → Memᴰ ip (unassigned assigned xs)
      → Memᴰ ip xs × (cidr_is_assigned assigned ip ≡ false)
  unfolding unassigned
  kept ip [] h = elim h [ ]
  kept ip (x ∷ xs) h = elim (Bool-cases (cidr_is_assigned assigned x)) [
    | inl e ↦
        let skipped : unassigned assigned (x ∷ xs) ≡ unassigned assigned xs = rw e refl in
        let (m, u) = kept ip xs (subst (Memᴰ ip) skipped h) in (Memᴰ.tail m, u)
    | inr e ↦
        let first : unassigned assigned (x ∷ xs) ≡ x ∷ unassigned assigned xs = rw e refl in
        front (kept ip xs) e (subst (Memᴰ ip) first h)
  ]
    where
      front :
          (Memᴰ ip (unassigned assigned xs) → Memᴰ ip xs × (cidr_is_assigned assigned ip ≡ false))
          → cidr_is_assigned assigned x ≡ false
          → Memᴰ ip (x ∷ unassigned assigned xs)
          → Memᴰ ip (x ∷ xs) × (cidr_is_assigned assigned ip ≡ false)
      front k e (Memᴰ.head p) = (Memᴰ.head p, ap (cidr_is_assigned assigned) p ∙ e)
      front k e (Memᴰ.tail m) = let (n, u) = k m in (Memᴰ.tail n, u)

  pub keeps :
      (ip : PogIp) (xs : List PogIp)
      → Memᴰ ip xs
      → cidr_is_assigned assigned ip ≡ false
      → Memᴰ ip (unassigned assigned xs)
  unfolding unassigned
  keeps ip [] h u = elim h [ ]
  keeps ip (x ∷ xs) (Memᴰ.head p) u = rw (sym (ap (cidr_is_assigned assigned) p) ∙ u) (Memᴰ.head p)
  keeps ip (x ∷ xs) (Memᴰ.tail m) u = elim (Bool-cases (cidr_is_assigned assigned x)) [
    | inl e ↦ rw e (keeps ip xs m u)
    | inr e ↦ rw e (Memᴰ.tail (keeps ip xs m u))
  ]

module _ (base : PogIp) (bits : ℕ) where
  pub visited :
      (ip : PogIp) (left k : ℕ)
      → Memᴰ ip (hosts base bits k left)
      → (j : ℕ) × (k ≤ j) × (j < k + left) × (ip ≡ probe base bits j)
  unfolding hosts
  visited ip zero k h = elim h [ ]
  visited ip (suc left) k (Memᴰ.head p) = (k, omega arith, omega arith, p)
  visited ip (suc left) k (Memᴰ.tail m) =
      let (j, low, high, p) = visited ip left (k + 1) m in
      (j, omega (arith, low), omega (arith, high), p)

  pub visits :
      (left k j : ℕ) → k ≤ j → j < k + left → Memᴰ (probe base bits j) (hosts base bits k left)
  unfolding hosts
  visits zero k j low high = absurd (omega arith)
  visits (suc left) k j low high = elim (dec_le j k) [
    | yes p ↦ Memᴰ.head (ap (probe base bits) (omega arith))
    | no n ↦ Memᴰ.tail (visits left (k + 1) j (omega arith) (omega arith))
  ]

  module _ (count : ℕ)
      (up : (j k : ℕ) → j < k → k < count → (probe base bits j).v < (probe base bits k).v) where
    later_above :
        (left j k : ℕ)
        → j < k
        → k + left ≤ count
        → All (λ y. (probe base bits j).v < y.v) (hosts base bits k left)
    unfolding hosts
    later_above zero j k less room = tt
    later_above (suc left) j k less room =
        (up j k less (omega arith), later_above left j (k + 1) (omega arith) (omega arith))

    pub hosts-Ascending : (left k : ℕ) → k + left ≤ count → Ascending (hosts base bits k left)
    unfolding hosts
    hosts-Ascending zero k room = tt
    hosts-Ascending (suc left) k room = (
      later_above left k (k + 1) (omega arith) (omega arith),
      hosts-Ascending left (k + 1) (omega arith),
    )
