-- ===== src/Ip/Compressed.antt =====
-- The text that `pog_format_ipv6` prints: the groups joined, and `::` in place of a run of zeros.
use simple_dns.Common.{
  ℕ, zero, suc, ◌+◌, ◌-◌, ◌*◌, ◌≤◌, ◌<◌, Bool, true, false, Option, none, some, List, [], ◌∷◌, ◌++◌,
  Bytes, length, replicate, drop, take_all, drop-append_length, length-replicate, ◌==◌,
  if◌then◌else◌, ◌≡◌, refl, sym, ap, ◌∙◌, ◌⊎◌, inl, inr, arith, length-append,
}
use mathlib.Core.Path.{subst}
use simple_dns.Ip.Printed.{groups, best_run, hex_text, is_start, put_groups, pog_format_ipv6}
use simple_dns.Ip.Runs.{best_run-cases}
use simple_dns.Ip.Joined.{joined}

-- Joined groups, behind a `:` where one is needed.
abbrev separated : Bool → List ℕ → Bytes → Bytes
separated sep [] rest = rest
separated true (v ∷ gs) rest = b':' ∷ joined (v ∷ gs) rest
separated false (v ∷ gs) rest = joined (v ∷ gs) rest

separated_one :
    (sep : Bool) (v : ℕ) (gs : List ℕ) (rest : Bytes)
    → (if sep then b':' ∷ [] else []) ++ (hex_text v ++ separated true gs rest)
      ≡ separated sep (v ∷ gs) rest
unfolding joined
separated_one true v [] rest = refl
separated_one true v (w ∷ gs) rest = refl
separated_one false v [] rest = refl
separated_one false v (w ∷ gs) rest = refl

-- Behind the run, and where there is none.
put_groups_after :
    (fuel i : ℕ) (gs : List ℕ) (best : Option ℕ) (l : ℕ) (sep : Bool)
    → length gs ≤ fuel
    → ((j : ℕ) → i ≤ j → is_start best j ≡ false)
    → put_groups fuel i gs best l sep ≡ separated sep gs []
unfolding put_groups
put_groups_after zero i [] best l sep h none_left = refl
put_groups_after zero i (v ∷ gs) best l sep h none_left = absurd (omega arith)
put_groups_after (suc fuel) i [] best l sep h none_left = refl
put_groups_after (suc fuel) i (v ∷ gs) best l sep h none_left =
    rw
      (
        none_left i (omega arith),
        put_groups_after fuel (i + 1) gs best l true (omega arith)
            (λ j k. none_left j (omega arith)),
      )
      (separated_one sep v gs [])

not_before : (s j : ℕ) → s < j → is_start (some s) j ≡ false
not_before s j h = ground arith

put_groups_run :
    (fuel s l : ℕ) (post : List ℕ) (sep : Bool)
    → suc l + length post ≤ fuel
    → put_groups fuel s (replicate (suc l) 0 ++ post) (some s) (suc l) sep
      ≡ b':' ∷ b':' ∷ separated false post []
unfolding put_groups
put_groups_run zero s l post sep h = absurd (omega arith)
put_groups_run (suc fuel) s l post sep h =
    let here : (s == s) ≡ true = ground arith in
    let skip : drop l (replicate l 0 ++ post) ≡ post =
      ap (λ (n : ℕ). drop n (replicate l 0 ++ post)) (sym (length-replicate l 0))
      ∙ drop-append_length (replicate l 0) post in
    rw
      (
        here,
        skip,
        put_groups_after fuel (s + suc l) post (some s) (suc l) false (omega arith)
            (λ j k. not_before s j (omega arith)),
      )
      refl

put_groups_before :
    (fuel i s l : ℕ) (pre post : List ℕ) (sep : Bool)
    → i + length pre ≡ s
    → length pre + (suc l + length post) ≤ fuel
    → put_groups fuel i (pre ++ (replicate (suc l) 0 ++ post)) (some s) (suc l) sep
      ≡ separated sep pre (b':' ∷ b':' ∷ separated false post [])
unfolding put_groups
put_groups_before fuel i s l [] post sep e h =
    let here : i ≡ s = omega arith in rw here (put_groups_run fuel s l post sep (omega arith))
put_groups_before zero i s l (v ∷ pre) post sep e h = absurd (omega arith)
put_groups_before (suc fuel) i s l (v ∷ pre) post sep e h =
    let early : (i == s) ≡ false = ground arith in
    rw (early, put_groups_before fuel (i + 1) s l pre post true (omega arith) (omega arith))
      (separated_one sep v pre (b':' ∷ b':' ∷ separated false post []))

pub length-split :
    (gs pre post : List ℕ) (l : ℕ)
    → gs ≡ pre ++ (replicate (suc l) 0 ++ post)
    → length gs ≡ length pre + (suc l + length post)
length-split gs pre post l e =
    let zeros : List ℕ = replicate l 0 in
    let size : length zeros ≡ l = length-replicate l 0 in
    omega
      (arith, ap length e, length-append pre (0 ∷ (zeros ++ post)), length-append zeros post, size)

-- What `put_groups` prints: all groups joined, or those before and behind a run of zeros.
unfoldable pub IsPrinted : List ℕ → Bytes → Type 0
IsPrinted gs text =
    (text ≡ joined gs [])
    ⊎ ((pre : List ℕ) × (l : ℕ) × (post : List ℕ) × (gs ≡ pre ++ (replicate (suc l) 0 ++ post))
        × (text ≡ joined pre (b':' ∷ b':' ∷ joined post [])))

separated-joined : (gs : List ℕ) (rest : Bytes) → separated false gs rest ≡ joined gs rest
unfolding joined
separated-joined [] rest = refl
separated-joined (v ∷ gs) rest = refl

abbrev printed : List ℕ → Option ℕ × ℕ → Bytes
printed gs (s, l) = put_groups 8 0 gs s l false

printed-IsPrinted : (gs : List ℕ) → length gs ≤ 8 → IsPrinted gs (printed gs (best_run gs))
unfolding IsPrinted
printed-IsPrinted gs h = elim (best_run-cases gs) [
  | inl e ↦
      rw e (inl (put_groups_after 8 0 gs none 0 false h (λ j k. refl) ∙ separated-joined gs []))
  | inr (s, l, e, (pre, post, split, start)) ↦ rw e (
      inr (
        pre,
        l,
        post,
        split,
        ap (λ (t : List ℕ). put_groups 8 0 t (some s) (suc l) false) split
            ∙ put_groups_before 8 0 s l pre post false (omega (arith, start))
                (omega (arith, length-split gs pre post l split))
            ∙ separated-joined pre _
            ∙ ap (λ (t : Bytes). joined pre (b':' ∷ b':' ∷ t)) (separated-joined post []),
      ))
]

length-hex_text : (v : ℕ) → length (hex_text v) ≤ 4
unfolding hex_text
length-hex_text v = ground arith

length-joined :
    (v : ℕ) (gs : List ℕ) (rest : Bytes)
    → length (joined (v ∷ gs) rest) < 5 * length (v ∷ gs) + length rest
unfolding joined
length-joined v [] rest = omega (arith, length-append (hex_text v) rest, length-hex_text v)
length-joined v (w ∷ gs) rest = omega (
  arith,
  length-append (hex_text v) (b':' ∷ joined (w ∷ gs) rest),
  length-hex_text v,
  length-joined w gs rest,
)

length-joined_le :
    (gs : List ℕ) (rest : Bytes) → length (joined gs rest) ≤ 5 * length gs + length rest
unfolding joined
length-joined_le [] rest = omega arith
length-joined_le (v ∷ gs) rest = omega (arith, length-joined v gs rest)

length-printed :
    (v : ℕ) (gs : List ℕ) (text : Bytes)
    → length (v ∷ gs) ≤ 8
    → IsPrinted (v ∷ gs) text
    → length text < 40
unfolding IsPrinted
length-printed v gs text h (inl e) = omega (arith, ap length e, length-joined v gs [])
length-printed v gs text h (inr (pre, l, post, split, e)) = omega (
  arith,
  length-split (v ∷ gs) pre post l split,
  ap length e,
  length-joined_le pre (b':' ∷ b':' ∷ joined post []),
  length-joined_le post [],
)

-- In a buffer of 40 bytes the text is whole.
pub pog_format_ipv6-IsPrinted : (ip n : ℕ) → 40 ≤ n → IsPrinted (groups ip) (pog_format_ipv6 ip n)
unfolding pog_format_ipv6 groups
pog_format_ipv6-IsPrinted ip n h =
    let text : Bytes = printed (groups ip) (best_run (groups ip)) in
    let whole : IsPrinted (groups ip) text = printed-IsPrinted (groups ip) (omega arith) in
    subst (IsPrinted (groups ip))
      (sym (take_all (n - 1) text (omega (arith, length-printed _ _ text (omega arith) whole))))
      whole
