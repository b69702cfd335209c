-- ===== src/Cidr.antt =====
-- object_graph.c, the lists `cidr.all`, `cidr.free` and `cidr.subnets`. A number of bits that has been
-- found not negative is ℕ, `size_t` and `__uint128_t` are ℕ with what they wrap around, and the
-- object that `pog_vlist_emit_string` hands out is its text.
pub mod Lists
pub mod Mask
pub mod Network
pub mod Assigned
pub mod Hosts
pub mod Visits
pub mod Free
use simple_dns.Common.{
  ℕ, zero, suc, ◌+◌, ◌-◌, ◌*◌, ◌%◌, ◌^◌, bit_and, Bool, true, false, not, ◌&&◌, Option, none, some,
  List, [], ◌∷◌, ◌++◌, Bytes, take, ltb, leb, ◌==◌, if◌then◌else◌,
}
use simple_dns.Common.Bits.{shl}
use simple_dns.Common.Int.{ℤ, to_int}
use simple_dns.Common.Text.{str_eq}
use simple_dns.Common.Text.Decimal.{bytes, digits}
use simple_dns.Ip.{◌>>=◌, refuse_if}
use simple_dns.Ip.Family.{PogIp, pog_parse_ip, pog_format_ip}

-- What the lists read of an object; any other kind is `other`. A text that is NULL is `none`.
mutual
  pub data Object : Type 0 where
    composite : Fields → Object
    int : ℤ → Object
    string : Option Bytes → Object
    list : Items → Object
    other : Object

  pub data Fields : Type 0 where
    no_field : Fields
    field : Bytes → Object → Fields → Fields

  -- `null` is an item that is NULL.
  pub data Items : Type 0 where
    no_item : Items
    item : Object → Items → Items
    null : Items → Items

-- `strncmp(a, b, POG_MAX_KEY_LEN) == 0`
abbrev pub same_key : Bytes → Bytes → Bool
same_key a b = str_eq (take 64 a) (take 64 b)

unfoldable pub find_field : Fields → Bytes → Option Object
find_field Fields.no_field key = none
find_field (Fields.field k value fields) key =
    let rest = find_field fields key in if same_key k key then some value else rest

unfoldable pub get_field_unlocked : Option Object → Bytes → Option Object
unfolding find_field
get_field_unlocked (some (Object.composite fields)) key = find_field fields key
get_field_unlocked _ key = none

abbrev pub max_bits : ℕ → ℕ
max_bits family = if family == 4 then 32 else 128

-- `~(pog_u128)0`
abbrev pub ones : ℕ
ones = 2 ^ 128 - 1

unfoldable pub pog_apply_mask : PogIp → ℕ → PogIp
pog_apply_mask base bits =
    let mask =
      if bits == 0
      then 0
      else if leb (max_bits base.family) bits
      then ones
      else shl ones (max_bits base.family - bits) % 2 ^ 128 in
    record base { v = bit_and base.v mask }

abbrev a_string : Option Object → Option Bytes
a_string (some (Object.string text)) = text
a_string _ = none

-- The field as an `int`, when it is not negative.
abbrev an_int : Option Object → Option ℕ
an_int (some (Object.int z)) = elim (to_int z) [ ℤ.pos n ↦ some n | ℤ.negsuc n ↦ none ]
an_int _ = none

unfoldable pub cidr_get_net : Option Object → Option (PogIp × ℕ)
unfolding bytes
cidr_get_net params = do
  prefix ← a_string (get_field_unlocked params (bytes "prefix"))
  bits ← an_int (get_field_unlocked params (bytes "bits"))
  raw ← pog_parse_ip prefix
  refuse_if (ltb (max_bits raw.family) bits) (some (pog_apply_mask raw bits, bits))

unfoldable pub cidr_host_count : ℕ → ℕ → ℕ
cidr_host_count family bits =
    let host_bits = max_bits family - bits in
    let total = 2 ^ host_bits in
    if ltb (max_bits family) bits
    then 0
    else if ltb 24 host_bits
    then 0
    else if leb (max_bits family - 1) bits
    then total
    else total - 2

-- The host of index `k`: without the network's own address where the network has one.
unfoldable pub probe : PogIp → ℕ → ℕ → PogIp
probe base bits k =
    let offset = if leb (max_bits base.family - 1) bits then k else k + 1 in
    record base { v = (base.v + offset) % 2 ^ 128 }

unfoldable pub cidr_nth_ip : Option Object → ℕ → Option PogIp
unfolding probe
cidr_nth_ip params i = do
  (base, bits) ← cidr_get_net params
  refuse_if (leb (cidr_host_count base.family bits) i) (some (probe base bits i))

abbrev same_ip : Option PogIp → PogIp → Bool
same_ip none target = false
same_ip (some a) target = (a.family == target.family) && (a.v == target.v)

abbrev is_text_of : Object → PogIp → Bool
is_text_of (Object.string (some text)) target = same_ip (pog_parse_ip text) target
is_text_of _ target = false

unfoldable pub assigned_loop : Items → PogIp → Bool
assigned_loop Items.no_item target = false
assigned_loop (Items.item a items) target =
    let rest = assigned_loop items target in if is_text_of a target then true else rest
assigned_loop (Items.null items) target = assigned_loop items target

unfoldable pub cidr_is_assigned : Option Object → PogIp → Bool
unfolding assigned_loop
cidr_is_assigned (some (Object.list items)) target = assigned_loop items target
cidr_is_assigned _ target = false
