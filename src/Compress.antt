-- ===== src/Compress.antt =====
-- dns_wire.c, "Compressing name emission": the context of the names written so far (`g_cc`,
-- `compress_reset`) and `name_to_wire_c`.
pub mod Spells
pub mod Sound
use simple_dns.Common.{
  ℕ, ◌+◌, ◌-◌, ◌/◌, ◌%◌, ◌^◌, bit_and, bit_or, Bool, true, false, ◌&&◌, Option, none, some, List,
  [], ◌∷◌, ◌++◌, Bytes, length, take, ltb, leb, if◌then◌else◌,
}
use simple_dns.Common.Bits.{shr}
use simple_dns.Common.Memory.{Outcome, ok, err, fault, ◌>>=◌, ◌>>◌, refuse_if, write}
use simple_dns.Common.Text.{strcase_eq, safe_strcpy}
use simple_dns.Endian.{to_u8}
use simple_dns.Name.{labels_in}

-- `names[k]` and `offsets[k]`
pub record Entry : Type 0 where
  pub name : Bytes
  pub offset : ℕ

-- `compress_ctx_t`, its `count` entries in the order of the arrays
abbrev pub Context : Type 0
Context = List Entry

unfoldable pub compress_reset : Context → Context
compress_reset ctx = []

-- The lookup loop: the offset of the first entry with this name.
unfoldable pub find : Context → Bytes → Option ℕ
find [] suffix = none
find (e ∷ es) suffix = if strcase_eq e.name suffix then some e.offset else find es suffix

-- The labels from one on, with dots between them, in the 256 bytes of `suffix`. The flag is `j > i`.
unfoldable pub suffix_loop : Bytes → Bool → List Bytes → Bytes
suffix_loop acc later [] = acc
suffix_loop acc later (l ∷ ls) =
    let rest = suffix_loop (acc ++ ((if later then b'.' ∷ [] else []) ++ l)) true ls in
    if leb 256 (length acc + length l + 1) then acc else rest

abbrev pub suffix_of : List Bytes → Bytes
suffix_of ls = suffix_loop [] false ls

-- Registers the suffix, where there is room and the offset has 14 bits.
unfoldable pub register : Context → Bytes → ℕ → Context
register ctx suffix suffix_abs =
    if ltb (length ctx) 128 && ltb suffix_abs 0x4000
    then ctx ++ (record { name = safe_strcpy [] suffix 256; offset = suffix_abs % 2 ^ 16 } ∷ [])
    else ctx

unfoldable pub put_pointer : ℕ → Bytes → ℕ → ℕ → Outcome (Bytes × ℕ)
put_pointer offset buf pos blen = do
  refuse_if (ltb blen (pos + 2))
  buf1 ← write buf pos (to_u8 (bit_or 0xc0 (shr offset 8)) ∷ [])
  buf2 ← write buf1 (pos + 1) (to_u8 (bit_and offset 0xff) ∷ [])
  ok (buf2, pos + 2)

unfoldable pub put_label : Bytes → Bytes → ℕ → ℕ → Outcome Bytes
put_label l buf pos blen = do
  refuse_if (ltb 63 (length l))
  refuse_if (leb blen (pos + length l + 1))
  buf1 ← write buf pos (to_u8 (length l) ∷ [])
  write buf1 (pos + 1) l

unfoldable pub put_root : Bytes → ℕ → ℕ → Outcome (Bytes × ℕ)
put_root buf pos blen = do
  refuse_if (leb blen pos)
  buf1 ← write buf pos (0 ∷ [])
  ok (buf1, pos + 1)

-- The context is thread-local: it keeps what was registered, also where the call then fails.
abbrev pub keep :
    {A B : Type 0} → Context → Outcome A → (A → Context × Outcome B) → Context × Outcome B
keep ctx (ok a) k = k a
keep ctx err k = (ctx, err)
keep ctx fault k = (ctx, fault)

-- The loop over the labels left, from `pos` on, where `pos` has the offset `abs` in the message. It
-- returns the offset behind what is written.
unfoldable pub compress_loop :
    List Bytes → Context → Bytes → ℕ → ℕ → ℕ → Context × Outcome (Bytes × ℕ)
unfolding find suffix_loop register put_pointer put_label put_root
compress_loop [] ctx buf pos blen abs = (ctx, put_root buf pos blen)
compress_loop (l ∷ ls) ctx buf pos blen abs =
    let suffix = suffix_of (l ∷ ls) in
    let ctx' = register ctx suffix abs in
    elim (find ctx suffix) [
      | some offset ↦ (ctx, put_pointer offset buf pos blen)
      | none ↦
          keep ctx' (put_label l buf pos blen)
            (λ buf'. compress_loop ls ctx' buf' (pos + 1 + length l) blen (abs + (1 + length l)))
    ]

-- The new context, and the buffer with the number of bytes written. At most 64 labels are kept.
unfoldable pub name_to_wire_c : Context → Bytes → Bytes → ℕ → ℕ → ℕ → Context × Outcome (Bytes × ℕ)
unfolding compress_loop
name_to_wire_c ctx name buf pos blen abs_off =
    let (ctx', o) = compress_loop (take 64 (labels_in name)) ctx buf pos blen abs_off in
    (ctx', o >>= λ r. ok (r.0, r.1 - pos))
