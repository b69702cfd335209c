-- ===== src/Edns/Append/Padding.antt =====
-- The padding of a response over an encrypted transport (RFC 8467).
use simple_dns.Common.{
  ℕ, ◌+◌, ◌-◌, ◌%◌, ◌≤◌, ◌<◌, true, false, Bytes, length, replicate, length-replicate, ◌==◌,
  if◌then◌else◌, Bool-cases, ◌⊎◌, inl, inr, ◌≡◌, refl, ap, ◌∙◌, arith,
}
use simple_dns.Common.Memory.{ok}
use simple_dns.Common.Memory.Safe.{Gives}
use simple_dns.Edns.Append.{Response, OptState, put_padding, put_option, has, pad_block}
use simple_dns.Edns.Append.Options.{Written, put_option_room}

-- What the padding makes of the end of the message.
abbrev pub Padded : ℕ → ℕ → OptState → Type 0
Padded block end s = if (end + 4) % block == 0 then s.rdata_off ≡ end else (s.rdata_off % block ≡ 0)

pad_sizes : (r : Response) → (pad_block r ≡ 128) ⊎ (pad_block r ≡ 468)
pad_sizes r = elim (Bool-cases (has (λ ei. ei.has_padding) r.req_ei)) [
  | inl e ↦ rw e (inl refl)
  | inr e ↦ rw e (inr refl)
]

-- The padding, by what is needed of the size of a block.
put_pad :
    (base : Bytes) (start blen block pad : ℕ) (s : OptState)
    → blen ≤ length base
    → blen ≤ 0xffff
    → Written base start blen s
    → pad ≤ 468
    → (pad == block) ≡ ((s.rdata_off + 4) % block == 0)
    → (((s.rdata_off + 4) % block == 0) ≡ false → (s.rdata_off + 4 + pad) % block ≡ 0)
    → s.rdata_off + 4 + 468 < blen
    → Gives
        (Padded block s.rdata_off)
        (if pad == block then ok s else put_option blen 12 (replicate pad 0) s)
put_pad base start blen block pad s enough small w few same fills room =
    let n : length {A = ℕ} (replicate {A = ℕ} pad 0) ≡ pad = length-replicate {A = ℕ} pad 0 in
    elim (Bool-cases ((s.rdata_off + 4) % block == 0)) [
      | inl e ↦ rw (same, e) (rw e refl)
      | inr e ↦
          rw
            (
              same,
              e,
              put_option_room base start blen enough small 12 (replicate pad 0) s w
                  (omega (arith, n)),
            )
            (rw e (ap (λ (i : ℕ). i % block) (omega (arith, n)) ∙ fills e))
    ]

-- On an encrypted transport with room for a block, the message ends at a multiple of the block after
-- the padding, except where its end and the header of one more option are a multiple
-- already: then nothing is appended. The block is 128 bytes for a client that asked for padding, else 468.
pub put_padding-Padded :
    (r : Response) (base : Bytes) (start blen opt_off : ℕ) (s : OptState)
    → blen ≤ length base
    → blen ≤ 0xffff
    → Written base start blen s
    → r.is_tcp ≡ true
    → s.rdata_off ≡ opt_off + 2 + s.rdata_len
    → s.rdata_off + 4 + 468 < blen
    → Gives (Padded (pad_block r) s.rdata_off) (put_padding r blen opt_off s)
unfolding put_padding
put_padding-Padded r base start blen opt_off s enough small w tcp at room =
    let cur : ℕ = s.rdata_off + 4 in
    let here : opt_off + 2 + s.rdata_len + 4 ≡ cur = omega (arith, at) in
    elim (pad_sizes r) [
      | inl e ↦
          rw (tcp, here, e)
            (put_pad base start blen 128 (128 - cur % 128) s enough small w (omega arith)
              (ground arith) (λ f. ground arith) room)
      | inr e ↦
          rw (tcp, here, e)
            (put_pad base start blen 468 (468 - cur % 468) s enough small w (omega arith)
              (ground arith) (λ f. ground arith) room)
    ]
