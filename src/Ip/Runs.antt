-- ===== src/Ip/Runs.antt =====
-- The runs of zero groups that `pog_format_ipv6` finds.
use simple_dns.Common.{
  ℕ, zero, suc, ◌+◌, ◌≤◌, Option, none, some, List, [], ◌∷◌, ◌++◌, length, replicate, ltb, ◌==◌,
  Bool-cases, ◌≡◌, refl, sym, ap, ◌∙◌, ◌⊎◌, inl, inr, arith, append_assoc, append-nil,
  length-append, ltb_false→le, ==_iff,
}
use mathlib.Core.Path.{subst}
use simple_dns.Ip.Printed.{Runs, start_or, run_step, run_loop, no_runs, best_run}

-- `l` zero groups from `s` on.
abbrev pub IsRun : List ℕ → ℕ → ℕ → Type 0
IsRun seen s l =
    (pre : List ℕ) × (post : List ℕ) × (seen ≡ pre ++ (replicate l 0 ++ post)) × (length pre ≡ s)

abbrev zeros : ℕ → List ℕ
zeros l = replicate l 0

abbrev IsLast : Option ℕ → ℕ → List ℕ → Type 0
IsLast none l seen = l ≡ 0
IsLast (some s) l seen = (pre : List ℕ) × (seen ≡ pre ++ replicate l 0) × (length pre ≡ s)

abbrev IsBest : Option ℕ → ℕ → List ℕ → Type 0
IsBest none l seen = l ≡ 0
IsBest (some s) l seen = IsRun seen s l

one_more_zero : (l : ℕ) → zeros l ++ (0 ∷ []) ≡ zeros (l + 1)
one_more_zero zero = refl
one_more_zero (suc l) =
    let e : suc l + 1 ≡ suc (l + 1) = omega arith in rw e (ap (◌∷◌ 0) (one_more_zero l))

IsLast-grows :
    (cs : Option ℕ) (l : ℕ) (seen : List ℕ)
    → IsLast cs l seen
    → IsLast (start_or cs (length seen)) (l + 1) (seen ++ (0 ∷ []))
IsLast-grows none l seen e = (seen, rw (e, sym (one_more_zero 0)) refl, refl)
IsLast-grows (some s) l seen (pre, e, k) = (
  pre,
  rw e
      (append_assoc pre (replicate l 0) (0 ∷ []) ∙ ap (λ (t : List ℕ). pre ++ t) (one_more_zero l)),
  k,
)

IsLast-IsBest : (cs : Option ℕ) (l : ℕ) (seen : List ℕ) → IsLast cs l seen → IsBest cs l seen
IsLast-IsBest none l seen e = e
IsLast-IsBest (some s) l seen (pre, e, k) =
    (pre, [], e ∙ ap (λ (t : List ℕ). pre ++ t) (sym (append-nil (replicate l 0))), k)

IsBest-grows :
    (bs : Option ℕ) (l v : ℕ) (seen : List ℕ) → IsBest bs l seen → IsBest bs l (seen ++ (v ∷ []))
IsBest-grows none l v seen e = e
IsBest-grows (some s) l v seen (pre, post, e, k) = (
  pre,
  post ++ (v ∷ []),
  rw e (
      append_assoc pre (replicate l 0 ++ post) (v ∷ [])
      ∙ ap (λ (t : List ℕ). pre ++ t) (append_assoc (replicate l 0) post (v ∷ []))),
  k,
)

abbrev Found : List ℕ → Runs → Type 0
Found seen r = IsLast r.cur_s r.cur_l seen × IsBest r.best_s r.best_l seen

run_step-Found :
    (v : ℕ) (seen : List ℕ) (r : Runs)
    → Found seen r
    → Found (seen ++ (v ∷ [])) (run_step (length seen) v r)
unfolding run_step
run_step-Found v seen r h = elim (Bool-cases (v == 0)) [
  | inl e ↦
      let zero_group : v ≡ 0 = (==_iff v 0).0 e in
      let longer : IsLast (start_or r.cur_s (length seen)) (r.cur_l + 1) (seen ++ (v ∷ [])) =
        rw zero_group (IsLast-grows r.cur_s r.cur_l seen h.0) in
      elim (Bool-cases (ltb r.best_l (r.cur_l + 1))) [
        | inl f ↦ rw (e, f) (longer, IsLast-IsBest _ _ _ longer)
        | inr f ↦ rw (e, f) (longer, IsBest-grows r.best_s r.best_l v seen h.1)
      ]
  | inr e ↦ rw e (refl, IsBest-grows r.best_s r.best_l v seen h.1)
]

run_loop-Found :
    (gs seen : List ℕ) (r : Runs) → Found seen r → Found (seen ++ gs) (run_loop (length seen) gs r)
unfolding run_loop
run_loop-Found [] seen r h = rw (append-nil seen) h
run_loop-Found (v ∷ gs) seen r h =
    let next : length seen + 1 ≡ length (seen ++ (v ∷ [])) =
      omega (arith, length-append seen (v ∷ [])) in
    let rest : List ℕ → ℕ → Type 0 = λ t n. Found t (run_loop n gs (run_step (length seen) v r)) in
    let ih : rest ((seen ++ (v ∷ [])) ++ gs) (length (seen ++ (v ∷ []))) =
      run_loop-Found gs (seen ++ (v ∷ [])) (run_step (length seen) v r)
        (run_step-Found v seen r h) in
    subst (λ t. rest t (length seen + 1)) (append_assoc seen (v ∷ []) gs)
      (subst (λ n. rest ((seen ++ (v ∷ [])) ++ gs) n) (sym next) ih)

some-IsRun :
    (bs : Option ℕ) (l : ℕ) (gs : List ℕ)
    → IsBest bs l gs
    → 2 ≤ l
    → (s : ℕ) × (k : ℕ) × (bs ≡ some s) × (l ≡ suc k) × IsRun gs s (suc k)
some-IsRun none l gs h k = absurd (omega arith)
some-IsRun (some s) zero gs h k = absurd (omega arith)
some-IsRun (some s) (suc l) gs h k = (s, l, refl, refl, h)

-- The run to compress, when there is one.
pub best_run-cases :
    (gs : List ℕ)
    → (best_run gs ≡ (none, 0))
      ⊎ ((s : ℕ) × (l : ℕ) × (best_run gs ≡ (some s, suc l)) × IsRun gs s (suc l))
unfolding best_run
best_run-cases gs =
    let found : Found gs (run_loop 0 gs no_runs) = run_loop-Found gs [] no_runs (refl, refl) in
    elim (Bool-cases (ltb (run_loop 0 gs no_runs).best_l 2)) [
      | inl e ↦ inl (rw e refl)
      | inr e ↦
          let (s, l, start, len, run) = some-IsRun _ _ gs found.1 (ltb_false→le _ 2 e) in
          inr (s, l, rw (e, start, len) refl, run)
    ]
