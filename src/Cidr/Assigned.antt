-- ===== src/Cidr/Assigned.antt =====
-- object_graph.c, `cidr_is_assigned`: the addresses in use.
use simple_dns.Common.{
  ℕ, ◌&&◌, Bool, true, false, Bool-cases, Option, none, some, Bytes, ◌==◌, ==_iff, if◌then◌else◌,
  inl, inr, ◌⊎◌, ◌↔◌, ◌≡◌, refl, sym, ap, ◌∙◌,
}
use simple_dns.Common.Text.Decimal.{bytes}
use simple_dns.Ip.Family.{PogIp, pog_parse_ip}
use simple_dns.Cidr.{
  Object, Items, get_field_unlocked, same_ip, is_text_of, assigned_loop, cidr_is_assigned,
}

-- The text is an item of the list.
abbrev pub Contains : Items → Bytes → Type 0
Contains Items.no_item t = ⊥
Contains (Items.item a items) t = (a ≡ Object.string (some t)) ⊎ Contains items t
Contains (Items.null items) t = Contains items t

-- The address is in use: the list `assigned` of the parameters has a text of it.
pub record IsAssigned (params : Option Object) (ip : PogIp) : Type 0 where
  pub items : Items
  pub text : Bytes
  pub list_field : get_field_unlocked params (bytes "assigned") ≡ some (Object.list items)
  pub contained : Contains items text
  pub address : pog_parse_ip text ≡ some ip

both_true : (a b : Bool) → (a && b) ≡ true → (a ≡ true) × (b ≡ true)
both_true true b h = (refl, h)
both_true false b h = cc

same_ip→eq : (o : Option PogIp) (ip : PogIp) → same_ip o ip ≡ true → o ≡ some ip
same_ip→eq none ip h = cc
same_ip→eq (some a) ip h =
    let (f, v) = both_true (a.family == ip.family) (a.v == ip.v) h in
    ap (λ (n : ℕ). some (record { family = n; v = a.v })) ((==_iff a.family ip.family).0 f)
    ∙ ap (λ (n : ℕ). some (record { family = ip.family; v = n })) ((==_iff a.v ip.v).0 v)

same_ip_refl : (ip : PogIp) → same_ip (some ip) ip ≡ true
same_ip_refl ip = rw ((==_iff ip.family ip.family).1 refl, (==_iff ip.v ip.v).1 refl) refl

is_text_of→eq :
    (a : Object) (ip : PogIp)
    → is_text_of a ip ≡ true
    → (t : Bytes) × (a ≡ Object.string (some t)) × (pog_parse_ip t ≡ some ip)
is_text_of→eq (Object.composite fields) ip h = cc
is_text_of→eq (Object.int z) ip h = cc
is_text_of→eq (Object.string none) ip h = cc
is_text_of→eq (Object.string (some t)) ip h = (t, refl, same_ip→eq (pog_parse_ip t) ip h)
is_text_of→eq (Object.list items) ip h = cc
is_text_of→eq Object.other ip h = cc

assigned_loop→Contains :
    (items : Items) (ip : PogIp)
    → assigned_loop items ip ≡ true
    → (t : Bytes) × Contains items t × (pog_parse_ip t ≡ some ip)
unfolding assigned_loop
assigned_loop→Contains Items.no_item ip h = cc
assigned_loop→Contains (Items.item a items) ip h = elim (Bool-cases (is_text_of a ip)) [
  | inl e ↦ let (t, s, p) = is_text_of→eq a ip e in (t, inl s, p)
  | inr e ↦
      let later : assigned_loop items ip ≡ true =
        sym (ap (λ (b : Bool). if b then true else assigned_loop items ip) e) ∙ h in
      let (t, c, p) = assigned_loop→Contains items ip later in (t, inr c, p)
]
assigned_loop→Contains (Items.null items) ip h = assigned_loop→Contains items ip h

Contains→assigned_loop :
    (items : Items) (ip : PogIp) (t : Bytes)
    → Contains items t
    → pog_parse_ip t ≡ some ip
    → assigned_loop items ip ≡ true
unfolding assigned_loop
Contains→assigned_loop Items.no_item ip t c p = absurd c
Contains→assigned_loop (Items.item a items) ip t (inl e) p = rw (e, p, same_ip_refl ip) refl
Contains→assigned_loop (Items.item a items) ip t (inr c) p = elim (Bool-cases (is_text_of a ip)) [
  | inl e ↦ rw e refl
  | inr e ↦ rw e (Contains→assigned_loop items ip t c p)
]
Contains→assigned_loop (Items.null items) ip t c p = Contains→assigned_loop items ip t c p

in_list :
    (o : Option Object) (ip : PogIp)
    → cidr_is_assigned o ip ≡ true
    → (items : Items) × (o ≡ some (Object.list items)) × (assigned_loop items ip ≡ true)
unfolding cidr_is_assigned
in_list none ip h = cc
in_list (some (Object.composite fields)) ip h = cc
in_list (some (Object.int z)) ip h = cc
in_list (some (Object.string text)) ip h = cc
in_list (some (Object.list items)) ip h = (items, refl, h)
in_list (some Object.other) ip h = cc

found :
    (params : Option Object) (ip : PogIp)
    → cidr_is_assigned (get_field_unlocked params (bytes "assigned")) ip ≡ true
    → IsAssigned params ip
found params ip h =
    let (items, e, l) = in_list (get_field_unlocked params (bytes "assigned")) ip h in
    let (t, c, p) = assigned_loop→Contains items ip l in
    record { items = items; text = t; list_field = e; contained = c; address = p }

listed :
    (params : Option Object) (ip : PogIp)
    → IsAssigned params ip
    → cidr_is_assigned (get_field_unlocked params (bytes "assigned")) ip ≡ true
unfolding cidr_is_assigned
listed params ip x =
    rw x.list_field (Contains→assigned_loop x.items ip x.text x.contained x.address)

-- `cidr_is_assigned` finds the addresses in use.
pub cidr_is_assigned_iff :
    (params : Option Object) (ip : PogIp)
    → (cidr_is_assigned (get_field_unlocked params (bytes "assigned")) ip ≡ true)
      ↔ IsAssigned params ip
cidr_is_assigned_iff params ip = (found params ip, listed params ip)
