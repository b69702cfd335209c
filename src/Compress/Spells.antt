-- ===== src/Compress/Spells.antt =====
-- What a message spells at an offset, through compression pointers, and that `name_from_wire`
-- reads just that.
use simple_dns.Common.{
  ℕ, zero, suc, ◌+◌, ◌≤◌, ◌<◌, Option, none, some, List, [], ◌∷◌, ◌++◌, Bytes, length, All, drop,
  length-append, append_assoc, ◌≡◌, refl, ap, ◌∙◌, arith,
}
use mathlib.Core.Path.{subst}
use simple_dns.Common.Memory.{ok}
use simple_dns.Common.Memory.Cursor.{length_at_cons}
use simple_dns.Common.Text.{strlower}
use simple_dns.Common.Text.Split.{join}
use simple_dns.Name.{
  Reader, next, add_label, jump_return, name_round, name_loop, after_name, name_from_wire,
}
use simple_dns.Name.RoundTrip.{
  IsLabel, add_labels, add_labels-join, name_round-label, name_round-root, label_room,
  length-add_labels,
}
use simple_dns.Name.Pointer.{IsPointer, target, name_round-pointer}

-- The labels that `msg` spells at `o`, in `n` rounds of reading. Every byte read is in `msg`.
pub data Spells (msg : Bytes) : ℕ → ℕ → List Bytes → Type 0 where
  root : (o : ℕ) (rest : Bytes) → drop o msg ≡ 0 ∷ rest → Spells msg 1 o []
  label :
      (o : ℕ) (l rest : Bytes) {n : ℕ} {ls : List Bytes}
      → IsLabel l
      → drop o msg ≡ length l ∷ (l ++ rest)
      → Spells msg n (o + 1 + length l) ls
      → Spells msg (suc n) o (l ∷ ls)
  pointer :
      (o c lo : ℕ) (rest : Bytes) {n : ℕ} {ls : List Bytes}
      → IsPointer c lo
      → drop o msg ≡ c ∷ lo ∷ rest
      → target c lo < o
      → Spells msg n (target c lo) ls
      → Spells msg (suc n) o ls

-- The offset behind the name where it stands: behind its root label or its first pointer.
abbrev pub end_of : {msg : Bytes} {n o : ℕ} {ls : List Bytes} → Spells msg n o ls → ℕ
end_of (root o rest e) = o + 1
end_of (label o l rest h e sp) = end_of sp
end_of (pointer o c lo rest p e back sp) = o + 2

pub drop-append :
    (o : ℕ) (msg more : Bytes) {b : ℕ} {rest : Bytes}
    → drop o msg ≡ b ∷ rest
    → drop o (msg ++ more) ≡ b ∷ (rest ++ more)
drop-append zero [] more e = cc
drop-append zero (x ∷ msg) more e = ap (λ (t : Bytes). t ++ more) e
drop-append (suc o) [] more e = cc
drop-append (suc o) (x ∷ msg) more e = drop-append o msg more e

pub Spells-inside : {msg : Bytes} {n o : ℕ} {ls : List Bytes} → Spells msg n o ls → o < length msg
Spells-inside {msg} (root o rest e) = omega (arith, length_at_cons msg o e)
Spells-inside {msg} (label o l rest h e sp) = omega (arith, length_at_cons msg o e)
Spells-inside {msg} (pointer o c lo rest p e back sp) = omega (arith, length_at_cons msg o e)

-- More bytes behind a message do not change what it spells.
pub Spells-append :
    {msg : Bytes} (more : Bytes) {n o : ℕ} {ls : List Bytes}
    → Spells msg n o ls
    → Spells (msg ++ more) n o ls
Spells-append {msg} more (root o rest e) = root o (rest ++ more) (drop-append o msg more e)
Spells-append {msg} more (label o l rest h e sp) =
    label o l (rest ++ more) h
      (drop-append o msg more e ∙ ap (◌∷◌ (length l)) (append_assoc l rest more))
      (Spells-append more sp)
Spells-append {msg} more (pointer o c lo rest p e back sp) =
    pointer o c lo (rest ++ more) p (drop-append o msg more e) back (Spells-append more sp)

pub end_of-Spells-append :
    {msg : Bytes} (more : Bytes) {n o : ℕ} {ls : List Bytes} (sp : Spells msg n o ls)
    → end_of (Spells-append more sp) ≡ end_of sp
unfolding Spells-append
end_of-Spells-append more (root o rest e) = refl
end_of-Spells-append more (label o l rest h e sp) = end_of-Spells-append more sp
end_of-Spells-append more (pointer o c lo rest p e back sp) = refl

-- Equal messages and offsets spell the same, and the names end at the same place.
pub Spells-move :
    {msg msg' : Bytes} {n o o' : ℕ} {ls : List Bytes} (sp : Spells msg n o ls)
    → msg ≡ msg'
    → o ≡ o'
    → (sp' : Spells msg' n o' ls) × (end_of sp' ≡ end_of sp)
Spells-move {msg} {msg'} {n} {o} {o'} {ls} sp p q =
    subst (λ (i : ℕ). (sp' : Spells msg' n i ls) × (end_of sp' ≡ end_of sp)) q
      (subst (λ (m : Bytes). (sp' : Spells m n o ls) × (end_of sp' ≡ end_of sp)) p (sp, refl))

-- A jump made earlier decides the offset returned; without one, the place where the name ends.
abbrev pub returned : Option ℕ → ℕ → ℕ
returned none e = e
returned (some j) e = j

returned-jump_return : (j : Option ℕ) (r e : ℕ) → returned (jump_return j r) e ≡ returned j r
returned-jump_return none r e = refl
returned-jump_return (some j) r e = refl

module _ (msg more : Bytes) (olen : ℕ) (large : 64 < olen) where
  abbrev memory : Bytes
  memory = msg ++ more

  abbrev plen : ℕ
  plen = length msg

  inside : plen ≤ length memory
  inside = omega (arith, length-append msg more)

  -- The loop on what the message spells, and the state that it ends in.
  record Reads (rounds : ℕ) (s : Reader) (ls : List Bytes) (end : ℕ) : Type 0 where
    last : Reader
    runs : name_loop memory plen olen rounds s ≡ ok last
    text : last.out ≡ add_labels s.out ls
    after : after_name last ≡ returned s.jret end

  -- A round that goes on, in front of the later rounds.
  Reads-next :
      {rounds end end' : ℕ} {s s' : Reader} {ls ls' : List Bytes}
      → name_round memory plen olen s ≡ ok (next s')
      → add_labels s'.out ls' ≡ add_labels s.out ls
      → returned s'.jret end' ≡ returned s.jret end
      → Reads rounds s' ls' end'
      → Reads (suc rounds) s ls end
  unfolding name_loop
  Reads-next e t a r = record {
    last = r.last;
    runs = rw e r.runs;
    text = r.text ∙ t;
    after = r.after ∙ a;
  }

  at_memory :
      (o : ℕ) {b : ℕ} {rest : Bytes} → drop o msg ≡ b ∷ rest → drop o memory ≡ b ∷ (rest ++ more)
  at_memory o e = drop-append o msg more e

  name_loop-Spells :
      {n o : ℕ} {ls : List Bytes} (sp : Spells msg n o ls) (rounds : ℕ) (out : Bytes) (j : Option ℕ)
      → n ≤ rounds
      → length (add_labels out ls) < olen
      → Reads rounds (record { pos = o; out = out; jret = j }) ls (end_of sp)
  name_loop-Spells (root o rest e) zero out j h room = absurd (omega arith)
  name_loop-Spells (root o rest e) (suc rounds) out j h room =
      unfold name_loop in
      record {
        last = record { pos = o + 1; out = out; jret = j };
        runs = rw (
            name_round-root memory plen olen inside large (record { pos = o; out = out; jret = j })
              (rest ++ more) (at_memory o e) (omega (arith, length_at_cons msg o e)));
        text = refl;
        after =
            elim j
              as (λ k.
                after_name (record { pos = o + 1; out = out; jret = k }) ≡ returned k (o + 1)) [
                  | none ↦ refl
                  | some k ↦ refl
                ];
      }
  name_loop-Spells (label o l rest h e sp) zero out j le room = absurd (omega arith)
  name_loop-Spells (label o l rest {ls = ls} h e sp) (suc rounds) out j le room =
      Reads-next
        (name_round-label memory plen olen inside large (record { pos = o; out = out; jret = j }) l
          (rest ++ more) h (at_memory o e ∙ ap (◌∷◌ (length l)) (append_assoc l rest more))
          (omega (arith, length_at_cons msg o e, length-append l rest))
          (label_room out l olen h.1 large (omega (arith, length-add_labels (add_label out l) ls))))
        refl refl (name_loop-Spells sp rounds (add_label out l) j (omega arith) room)
  name_loop-Spells (pointer o c lo rest p e back sp) zero out j le room = absurd (omega arith)
  name_loop-Spells (pointer o c lo rest p e back sp) (suc rounds) out j le room =
      Reads-next
        (name_round-pointer memory plen olen inside (record { pos = o; out = out; jret = j }) c lo
          (rest ++ more) p (at_memory o e) (omega (arith, length_at_cons msg o e)) back)
        refl (returned-jump_return j (o + 2) _)
        (name_loop-Spells sp rounds out (jump_return j (o + 2)) (omega arith) room)

pub Spells-IsLabel : {msg : Bytes} {n o : ℕ} {ls : List Bytes} → Spells msg n o ls → All IsLabel ls
Spells-IsLabel (root o rest e) = tt
Spells-IsLabel (label o l rest h e sp) = (h, Spells-IsLabel sp)
Spells-IsLabel (pointer o c lo rest p e back sp) = Spells-IsLabel sp

-- What a message spells at an offset within 128 rounds is what `name_from_wire` returns, in lower
-- case, through any number of compression pointers; and the offset returned is the place where
-- the name ends in front of its first pointer's target.
pub name_from_wire-Spells :
    (msg more : Bytes) (olen : ℕ) {n o : ℕ} {ls : List Bytes} (sp : Spells msg n o ls)
    → 64 < olen
    → n ≤ 128
    → length (join b'.' ls) < olen
    → name_from_wire (msg ++ more) (length msg) o olen ≡ ok (strlower (join b'.' ls), end_of sp)
unfolding name_from_wire
name_from_wire-Spells msg more olen {ls = ls} sp large few room =
    let text : add_labels [] ls ≡ join b'.' ls = add_labels-join ls (Spells-IsLabel sp) in
    let r : Reads msg more olen large 128 (record { pos = _; out = []; jret = none }) ls
        (end_of sp) =
      name_loop-Spells msg more olen large sp 128 [] none few (omega (arith, ap length text)) in
    rw (r.runs, r.text, r.after, text)
