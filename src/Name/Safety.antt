-- ===== src/Name/Safety.antt =====
-- `name_from_wire` on any message: no access outside the message or the output buffer.
use simple_dns.Common.{
  ℕ, zero, suc, ◌+◌, ◌≤◌, ◌<◌, Option, none, some, [], ◌∷◌, Bytes, length, take, drop,
  length-append, length-take, leb, dec_le, le→leb, lt→leb, Bool-cases, inl, inr, ◌≡◌, refl, arith,
}
use simple_dns.Common.Memory.{Outcome, ok, err, fault, ◌>>=◌, read_fits, slice_fits}
use native.Mathlib.Nat.{le_refl}
use simple_dns.Common.Text.{strlower}
use simple_dns.Name.{
  Reader, Round, stop, next, add_label, follow, copy_label, name_round, name_loop, after_name,
  name_from_wire,
}

pub length-strlower : (s : Bytes) → length (strlower s) ≡ length s
unfolding strlower
length-strlower [] = refl
length-strlower (c ∷ s) = ground (arith, length-strlower s)

length-add_label : (o l : Bytes) → length (add_label o l) ≤ length o + length l + 1
length-add_label [] l = omega arith
length-add_label (c ∷ o) l = omega (arith, length-append (c ∷ o) (b'.' ∷ l))

-- What a successful call returns: an offset behind `off` and within the message, and a text that
-- leaves room for its NUL. A fault never happens.
abbrev pub Bounded : ℕ → ℕ → ℕ → Outcome (Bytes × ℕ) → Type 0
Bounded off plen olen (ok (name, after)) = (off < after) × (after ≤ plen) × (length name < olen)
Bounded off plen olen err = Unit
Bounded off plen olen fault = ⊥

abbrev JumpInv : ℕ → ℕ → Option ℕ → Type 0
JumpInv off plen none = Unit
JumpInv off plen (some j) = (off < j) × (j ≤ plen)

-- The state between rounds; `fresh` is the offset of a reader that has not jumped.
record IsGood (off plen olen : ℕ) (s : Reader) : Type 0 where
  within : s.pos ≤ plen
  room : length s.out < olen
  jump : JumpInv off plen s.jret
  ahead : s.jret ≡ none → off ≤ s.pos

-- The state after a round.
record IsPast (off plen olen : ℕ) (s : Reader) : Type 0 where
  within : s.pos ≤ plen
  room : length s.out < olen
  jump : JumpInv off plen s.jret
  ahead : s.jret ≡ none → off < s.pos

abbrev RoundInv : ℕ → ℕ → ℕ → Outcome Round → Type 0
RoundInv off plen olen (ok (stop s)) = IsPast off plen olen s
RoundInv off plen olen (ok (next s)) = IsPast off plen olen s
RoundInv off plen olen err = Unit
RoundInv off plen olen fault = ⊥

module _ (pkt : Bytes) (plen olen off : ℕ) (inside : plen ≤ length pkt) where
  follow-RoundInv :
      (s : Reader) (c : ℕ)
      → IsGood off plen olen s
      → s.pos < plen
      → RoundInv off plen olen (follow pkt plen olen s c)
  unfolding follow
  follow-RoundInv s c g h = elim (Bool-cases (leb plen (s.pos + 1))) [
    | inl e ↦ rw e tt
    | inr e ↦ let (lo, r) = read_fits pkt (s.pos + 1) (ground arith) in rw (e, r) (ground arith)
  ]

  copy_label-RoundInv :
      (s : Reader) (c : ℕ)
      → IsGood off plen olen s
      → s.pos < plen
      → RoundInv off plen olen (copy_label pkt plen olen s c)
  unfolding copy_label
  copy_label-RoundInv s c g h =
      let l : Bytes = take c (drop (s.pos + 1) pkt) in
      ground (
        arith,
        slice_fits pkt (s.pos + 1) c,
        length-add_label s.out l,
        length-take c (drop (s.pos + 1) pkt),
      )

  name_round-RoundInv :
      (s : Reader) → IsGood off plen olen s → RoundInv off plen olen (name_round pkt plen olen s)
  unfolding name_round
  name_round-RoundInv s g = elim (dec_le plen s.pos) [
    | yes end ↦ rw (le→leb plen s.pos end) tt
    | no more ↦
        let (c, r) = read_fits pkt s.pos (omega arith) in
        rw (lt→leb plen s.pos (omega arith), r)
          (ground
            (arith, follow-RoundInv s c g (omega arith), copy_label-RoundInv s c g (omega arith)))
  ]

  IsPast-IsGood : (s : Reader) → IsPast off plen olen s → IsGood off plen olen s
  IsPast-IsGood s p = record {
    within = p.within;
    room = p.room;
    jump = p.jump;
    ahead = λ e. omega (arith, p.ahead e);
  }

  abbrev LoopInv : Outcome Reader → Type 0
  LoopInv (ok s) = IsPast off plen olen s
  LoopInv err = Unit
  LoopInv fault = ⊥

  name_loop-suc :
      (rounds : ℕ) (s : Reader)
      → IsGood off plen olen s
      → ((s' : Reader) → IsPast off plen olen s' → LoopInv (name_loop pkt plen olen rounds s'))
      → LoopInv (name_loop pkt plen olen (suc rounds) s)
  unfolding name_loop
  name_loop-suc rounds s g later = grind (arith, name_round-RoundInv s g, later)

  name_loop-LoopInv :
      (rounds : ℕ) (s : Reader)
      → IsPast off plen olen s
      → LoopInv (name_loop pkt plen olen rounds s)
  name_loop-LoopInv zero s p = unfold name_loop in p
  name_loop-LoopInv (suc rounds) s p =
      name_loop-suc rounds s (IsPast-IsGood s p) (name_loop-LoopInv rounds)

  LoopInv-Bounded :
      (o : Outcome Reader)
      → LoopInv o
      → Bounded off plen olen (o >>= λ s. ok (strlower s.out, after_name s))
  LoopInv-Bounded (ok s) p = ground (arith, length-strlower s.out)
  LoopInv-Bounded err p = tt
  LoopInv-Bounded fault p = p

-- On any message and from any offset within it, `name_from_wire` reads only the message's `plen`
-- bytes and returns -1 or succeeds; then the offset returned is behind the one given and at most
-- `plen`, and the name with its NUL fits the `olen` bytes of `out`.
pub name_from_wire-Bounded :
    (pkt : Bytes) (plen off olen : ℕ)
    → plen ≤ length pkt
    → off ≤ plen
    → 0 < olen
    → Bounded off plen olen (name_from_wire pkt plen off olen)
unfolding name_from_wire
name_from_wire-Bounded pkt plen off olen inside start room =
    LoopInv-Bounded pkt plen olen off inside
      (name_loop pkt plen olen 128 (record { pos = off; out = []; jret = none }))
      (name_loop-suc pkt plen olen off inside 127 (record { pos = off; out = []; jret = none })
        (record { within = start; room = room; jump = tt; ahead = λ _. le_refl off })
        (name_loop-LoopInv pkt plen olen off inside 127))
