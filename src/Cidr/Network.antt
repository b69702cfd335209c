-- ===== src/Cidr/Network.antt =====
-- object_graph.c, `cidr_get_net`: the network that the parameters of a list name.
use simple_dns.Common.{
  ℕ, ◌+◌, ◌-◌, ◌^◌, ◌≤◌, ◌<◌, Bool, true, false, Option, none, some, Bytes, ltb, ltb_false→le,
  le→ltb, ◌⊎◌, ◌≡◌, refl, sym, ap, ◌∙◌, arith,
}
use simple_dns.Common.Int.{ℤ, to_int}
use simple_dns.Common.Text.Decimal.{bytes}
use simple_dns.Ip.{◌>>=◌, refuse_if}
use simple_dns.Ip.Family.{PogIp, pog_parse_ip}
use simple_dns.Cidr.{
  Object, get_field_unlocked, max_bits, a_string, an_int, pog_apply_mask, cidr_get_net,
}
use simple_dns.Cidr.Mask.{first_of}

-- The parameters name the network of the address `raw` with a prefix of `bits` bits.
pub record IsNetwork (params : Option Object) (raw : PogIp) (bits : ℕ) : Type 0 where
  pub prefix : Bytes
  pub number : ℤ
  pub prefix_field : get_field_unlocked params (bytes "prefix") ≡ some (Object.string (some prefix))
  pub bits_field : get_field_unlocked params (bytes "bits") ≡ some (Object.int number)
  pub address : pog_parse_ip prefix ≡ some raw
  pub as_int : to_int number ≡ ℤ.pos bits
  pub enough : bits ≤ max_bits raw.family

-- The number of bits that tell the addresses of the network apart.
abbrev pub host_bits : PogIp → ℕ → ℕ
host_bits raw bits = max_bits raw.family - bits

-- An address of the network that the lists give: its own address and the broadcast address are no
-- hosts where it has more than two addresses, and a network of more than 2^24 addresses is not listed.
pub record IsHost (raw : PogIp) (bits : ℕ) (ip : PogIp) : Type 0 where
  pub family : ip.family ≡ raw.family
  pub listed : host_bits raw bits ≤ 24
  pub lowest : first_of raw (host_bits raw bits) ≤ ip.v
  pub highest : ip.v < first_of raw (host_bits raw bits) + 2 ^ host_bits raw bits
  pub inside :
      (host_bits raw bits ≤ 1)
      ⊎ ((first_of raw (host_bits raw bits) < ip.v)
          × (ip.v + 1 < first_of raw (host_bits raw bits) + 2 ^ host_bits raw bits))

module _ {ℓ} {A : Type ℓ} where
  abbrev or_else : A → Option A → A
  or_else a none = a
  or_else a (some b) = b

  pub same_some : {a b : A} → some a ≡ some b → a ≡ b
  same_some {a} h = ap (or_else a) h

  bind-some :
      {B : Type 0} (o : Option A) (f : A → Option B) (b : B)
      → (o >>= f) ≡ some b
      → (a : A) × (o ≡ some a) × (f a ≡ some b)
  bind-some none f b h = cc
  bind-some (some a) f b h = (a, refl, h)

a_string-some :
    (o : Option Object) (t : Bytes) → a_string o ≡ some t → o ≡ some (Object.string (some t))
a_string-some none t h = cc
a_string-some (some (Object.composite fields)) t h = cc
a_string-some (some (Object.int z)) t h = cc
a_string-some (some (Object.string text)) t h = ap (λ (x : Option Bytes). some (Object.string x)) h
a_string-some (some (Object.list items)) t h = cc
a_string-some (some Object.other) t h = cc

int_value :
    (z y : ℤ) (n : ℕ)
    → (elim y as (λ _. Option ℕ) [ ℤ.pos m ↦ some m | ℤ.negsuc m ↦ none ]) ≡ some n
    → y ≡ ℤ.pos n
int_value z (ℤ.pos m) n h = ap ℤ.pos (same_some h)
int_value z (ℤ.negsuc m) n h = cc

an_int-some :
    (o : Option Object) (n : ℕ)
    → an_int o ≡ some n
    → (z : ℤ) × (o ≡ some (Object.int z)) × (to_int z ≡ ℤ.pos n)
an_int-some none n h = cc
an_int-some (some (Object.composite fields)) n h = cc
an_int-some (some (Object.int z)) n h = (z, refl, int_value z (to_int z) n h)
an_int-some (some (Object.string text)) n h = cc
an_int-some (some (Object.list items)) n h = cc
an_int-some (some Object.other) n h = cc

not_refused : (b : Bool) (x y : PogIp × ℕ) → refuse_if b (some x) ≡ some y → (b ≡ false) × (x ≡ y)
not_refused true x y h = cc
not_refused false x y h = (refl, same_some h)

module _ (params : Option Object) (base : PogIp) (bits : ℕ) where
  abbrev Named : Type 0
  Named = (raw : PogIp) × IsNetwork params raw bits × (base ≡ pog_apply_mask raw bits)

  named :
      (prefix : Bytes) (n : ℕ) (raw : PogIp)
      → get_field_unlocked params (bytes "prefix") ≡ some (Object.string (some prefix))
      → (z : ℤ) × (get_field_unlocked params (bytes "bits") ≡ some (Object.int z))
        × (to_int z ≡ ℤ.pos n)
      → pog_parse_ip prefix ≡ some raw
      → (ltb (max_bits raw.family) n ≡ false)
        × (◌≡◌ {A = PogIp × ℕ} (pog_apply_mask raw n, n) (base, bits))
      → Named
  named prefix n raw e (z, f, i) a (fits, same) =
      let count : n ≡ bits = ap (λ (p : PogIp × ℕ). p.1) same in
      (
        raw,
        record {
          prefix = prefix;
          number = z;
          prefix_field = e;
          bits_field = f;
          address = a;
          as_int = i ∙ ap ℤ.pos count;
          enough = omega (arith, count, ltb_false→le (max_bits raw.family) n fits);
        },
        sym (ap (λ (p : PogIp × ℕ). p.0) same) ∙ ap (pog_apply_mask raw) count,
      )

  abbrev finish : PogIp → ℕ → Option (PogIp × ℕ)
  finish raw n = refuse_if (ltb (max_bits raw.family) n) (some (pog_apply_mask raw n, n))

  with_bits :
      (prefix : Bytes) (n : ℕ)
      → get_field_unlocked params (bytes "prefix") ≡ some (Object.string (some prefix))
      → an_int (get_field_unlocked params (bytes "bits")) ≡ some n
      → (pog_parse_ip prefix >>= λ raw. finish raw n) ≡ some (base, bits)
      → Named
  with_bits prefix n e f h =
      let (raw, a, last) = bind-some (pog_parse_ip prefix) (λ raw. finish raw n) (base, bits) h in
      named prefix n raw e (an_int-some (get_field_unlocked params (bytes "bits")) n f) a
        (not_refused (ltb (max_bits raw.family) n) (pog_apply_mask raw n, n) (base, bits) last)

  with_prefix :
      (prefix : Bytes)
      → get_field_unlocked params (bytes "prefix") ≡ some (Object.string (some prefix))
      → (an_int (get_field_unlocked params (bytes "bits")) >>= λ n.
          pog_parse_ip prefix >>= λ raw. finish raw n)
        ≡ some (base, bits)
      → Named
  with_prefix prefix e h =
      let (n, f, later) =
        bind-some (an_int (get_field_unlocked params (bytes "bits")))
          (λ n. pog_parse_ip prefix >>= λ raw. finish raw n) (base, bits) h in
      with_bits prefix n e f later

  -- What `cidr_get_net` returns is the network of its parameters, masked.
  pub cidr_get_net→IsNetwork : cidr_get_net params ≡ some (base, bits) → Named
  unfolding cidr_get_net
  cidr_get_net→IsNetwork h =
      let (prefix, e, later) =
        bind-some (a_string (get_field_unlocked params (bytes "prefix")))
          (λ prefix. an_int (get_field_unlocked params (bytes "bits")) >>= λ n.
            pog_parse_ip prefix >>= λ raw. finish raw n)
          (base, bits) h in
      with_prefix prefix (a_string-some (get_field_unlocked params (bytes "prefix")) prefix e) later

an_int-int : (z : ℤ) (n : ℕ) → to_int z ≡ ℤ.pos n → an_int (some (Object.int z)) ≡ some n
an_int-int z n e =
    ap (λ (y : ℤ). elim y as (λ _. Option ℕ) [ ℤ.pos m ↦ some m | ℤ.negsuc m ↦ none ]) e

IsNetwork-an_int :
    (params : Option Object) (raw : PogIp) (bits : ℕ)
    → IsNetwork params raw bits
    → an_int (get_field_unlocked params (bytes "bits")) ≡ some bits
IsNetwork-an_int params raw bits x = ap an_int x.bits_field ∙ an_int-int x.number bits x.as_int

pub IsNetwork→cidr_get_net :
    (params : Option Object) (raw : PogIp) (bits : ℕ)
    → IsNetwork params raw bits
    → cidr_get_net params ≡ some (pog_apply_mask raw bits, bits)
unfolding cidr_get_net
IsNetwork→cidr_get_net params raw bits x =
    rw
      (
        IsNetwork-an_int params raw bits x,
        x.prefix_field,
        x.address,
        le→ltb (max_bits raw.family) bits x.enough,
      )
      refl

-- The parameters name one network only.
pub IsNetwork-unique :
    (params : Option Object) (raw raw' : PogIp) (bits bits' : ℕ)
    → IsNetwork params raw bits
    → IsNetwork params raw' bits'
    → (raw ≡ raw') × (bits ≡ bits')
IsNetwork-unique params raw raw' bits bits' x y =
    let texts : x.prefix ≡ y.prefix =
      same_some (ap a_string (sym x.prefix_field ∙ y.prefix_field)) in
    (
      same_some (sym x.address ∙ ap pog_parse_ip texts ∙ y.address),
      same_some (sym (IsNetwork-an_int params raw bits x) ∙ IsNetwork-an_int params raw' bits' y),
    )
