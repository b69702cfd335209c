-- ===== src/Ip/Printed.antt =====
-- object_graph.c, the text of an IPv6 address: `pog_format_ipv6`.
use simple_dns.Common.{
  ℕ, zero, suc, ◌+◌, ◌-◌, ◌*◌, ◌/◌, ◌%◌, ◌^◌, Bool, true, false, Option, none, some, List, [], ◌∷◌,
  ◌++◌, Bytes, take, drop, ltb, ◌==◌, if◌then◌else◌,
}
use simple_dns.Common.Bits.{shr}

abbrev pub group : ℕ → ℕ → ℕ
group ip i = shr ip (16 * (7 - i)) % 2 ^ 16

-- `g`
unfoldable pub groups : ℕ → List ℕ
groups ip =
    group ip 0
    ∷ group ip 1
    ∷ group ip 2
    ∷ group ip 3
    ∷ group ip 4
    ∷ group ip 5
    ∷ group ip 6
    ∷ group ip 7
    ∷ []

-- A start of -1 is `none`.
pub record Runs : Type 0 where
  pub best_s : Option ℕ
  pub best_l : ℕ
  pub cur_s : Option ℕ
  pub cur_l : ℕ

abbrev pub start_or : Option ℕ → ℕ → Option ℕ
start_or none i = some i
start_or (some s) i = some s

unfoldable pub run_step : ℕ → ℕ → Runs → Runs
run_step i v r =
    let longer = record r { cur_s = start_or r.cur_s i; cur_l = r.cur_l + 1 } in
    let best = record longer { best_s = longer.cur_s; best_l = longer.cur_l } in
    if v == 0
    then if ltb r.best_l longer.cur_l then best else longer
    else record r { cur_s = none; cur_l = 0 }

unfoldable pub run_loop : ℕ → List ℕ → Runs → Runs
run_loop i [] r = r
run_loop i (v ∷ gs) r = run_loop (i + 1) gs (run_step i v r)

abbrev pub no_runs : Runs
no_runs = record { best_s = none; best_l = 0; cur_s = none; cur_l = 0 }

-- `best_s` and `best_l` before the output.
unfoldable pub best_run : List ℕ → Option ℕ × ℕ
best_run gs =
    let r = run_loop 0 gs no_runs in if ltb r.best_l 2 then (none, 0) else (r.best_s, r.best_l)

abbrev pub hex_char : ℕ → ℕ
hex_char d = if ltb d 10 then d + b'0' else d - 10 + b'a'

-- `%x` of 16 bits
unfoldable pub hex_text : ℕ → Bytes
hex_text v =
    if ltb v 0x10
    then hex_char v ∷ []
    else if ltb v 0x100
    then hex_char (v / 0x10) ∷ hex_char (v % 0x10) ∷ []
    else if ltb v 0x1000
    then hex_char (v / 0x100) ∷ hex_char (v / 0x10 % 0x10) ∷ hex_char (v % 0x10) ∷ []
    else hex_char (v / 0x1000)
      ∷ hex_char (v / 0x100 % 0x10)
      ∷ hex_char (v / 0x10 % 0x10)
      ∷ hex_char (v % 0x10)
      ∷ []

abbrev pub is_start : Option ℕ → ℕ → Bool
is_start none i = false
is_start (some s) i = i == s

-- The loop over the groups from `i` on; a round consumes a group at least, so that 8 rounds are enough.
unfoldable pub put_groups : ℕ → ℕ → List ℕ → Option ℕ → ℕ → Bool → Bytes
put_groups zero i gs best_s best_l need_sep = []
put_groups (suc fuel) i [] best_s best_l need_sep = []
put_groups (suc fuel) i (v ∷ gs) best_s best_l need_sep =
    let compressed = put_groups fuel (i + best_l) (drop best_l (v ∷ gs)) best_s best_l false in
    let next = put_groups fuel (i + 1) gs best_s best_l true in
    if is_start best_s i
    then b':' ∷ b':' ∷ compressed
    else (if need_sep then b':' ∷ [] else []) ++ (hex_text v ++ next)

-- The text in a buffer of `n` bytes: no byte is written at or behind `end`.
unfoldable pub pog_format_ipv6 : ℕ → ℕ → Bytes
pog_format_ipv6 ip n =
    let gs = groups ip in
    let (best_s, best_l) = best_run gs in take (n - 1) (put_groups 8 0 gs best_s best_l false)
