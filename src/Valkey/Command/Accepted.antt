-- ===== src/Valkey/Command/Accepted.antt =====
-- A transaction that returns replies, against any server: what the server has accepted.
use simple_dns.Common.{
  ℕ, zero, suc, ◌+◌, Bool, true, false, List, [], ◌∷◌, Bytes, length, Bool-cases, ==_iff,
  if◌then◌else◌, inl, inr, ◌≡◌, refl, sym, ap, ◌∙◌, arith,
}
use mathlib.Core.Path.{subst}
use simple_dns.Common.Int.{ℤ}
use simple_dns.Common.Memory.{Outcome, ok, err, fault}
use simple_dns.Common.Text.Decimal.{bytes}
use simple_dns.Valkey.{Conn, M, run, Kind, Reply, vkc_parse}
use simple_dns.Valkey.Command.{
  vkc_cmd, Txn, queued, vkc_txn_queue, is_simple, or_drop, replies, exec_replies, is_array,
  is_count, discarded, vkc_txn_commit, dropped,
}
use simple_dns.Valkey.Command.Session.{next, queue_all, finish}

-- Replies, one behind the other.
abbrev pub Answered : List Reply → Conn → Conn → Type 0
Answered [] c c' = c ≡ c'
Answered (r ∷ rs) c c' = (c1 : Conn) × (vkc_parse c ≡ (ok r, c1)) × Answered rs c1 c'

-- Commands, each of them sent and answered by a simple string.
abbrev pub Acknowledged : List (List Bytes) → Conn → Conn → Type 0
Acknowledged [] c c' = c ≡ c'
Acknowledged (args ∷ cmds) c c' =
    (r : Reply) × (c1 : Conn) × (vkc_cmd args c ≡ (ok r, c1))
    × (r.kind ≡ Kind.simple)
    × Acknowledged cmds c1 c'

-- EXEC is answered by an array of `n` items, and these are the replies.
pub record Executed (n : ℕ) (c : Conn) (rs : List Reply) (c' : Conn) : Type 0 where
  pub answer : Reply
  pub behind : Conn
  pub runs : vkc_cmd (bytes "EXEC" ∷ []) c ≡ (ok answer, behind)
  pub array : answer.kind ≡ Kind.array
  pub count : answer.count ≡ ℤ.pos n
  pub size : length rs ≡ n
  pub answered : Answered rs behind c'

-- MULTI, every command and EXEC have been accepted.
pub record Committed (cmds : List (List Bytes)) (c : Conn) (rs : List Reply) (c' : Conn)
    : Type 0 where
  pub answer : Reply
  pub begun_at : Conn
  pub queued_at : Conn
  pub begins : vkc_cmd (bytes "MULTI" ∷ []) c ≡ (ok answer, begun_at)
  pub accepted : answer.kind ≡ Kind.simple
  pub acknowledged : Acknowledged cmds begun_at queued_at
  pub executed : Executed (length cmds) queued_at rs c'

module _ {ℓ} {A : Type ℓ} where
  abbrev value : A → Outcome A → A
  value a (ok b) = b
  value a err = a
  value a fault = a

  same_value : {a b : A} → ok a ≡ ok b → a ≡ b
  same_value {a} h = ap (value a) h

  abbrev pub first : Outcome A × Conn → Outcome A
  first p = p.0

  abbrev second : Outcome A × Conn → Conn
  second p = p.1

  abbrev pub is_ok : Outcome A → Bool
  is_ok (ok b) = true
  is_ok err = false
  is_ok fault = false

  -- What is no success is none.
  pub no_success {κ} : {P : Type κ} (o : Outcome A) (a : A) → is_ok o ≡ false → o ≡ ok a → P
  no_success o a f h = let t : is_ok o ≡ true = ap is_ok h in cc

  -- A success is not changed by `or_drop`.
  or_drop-ok : (p : Outcome A × Conn) (a : A) (c' : Conn) → or_drop p ≡ (ok a, c') → p ≡ (ok a, c')
  or_drop-ok (ok b, c) a c' h = h
  or_drop-ok (err, c) a c' h = no_success err _ refl (ap first h)
  or_drop-ok (fault, c) a c' h = no_success fault _ refl (ap first h)

run-ok {ℓ κ} :
    {A : Type ℓ} {B : Type κ} (p : Outcome A × Conn) (f : A → M B) (b : B) (c' : Conn)
    → run p.0 f p.1 ≡ (ok b, c')
    → (a : A) × (p ≡ (ok a, p.1)) × (f a p.1 ≡ (ok b, c'))
run-ok (ok a, c) f b c' h = (a, refl, h)
run-ok (err, c) f b c' h = no_success err _ refl (ap first h)
run-ok (fault, c) f b c' h = no_success fault _ refl (ap first h)

replies→Answered :
    (n : ℕ) (c : Conn) (rs : List Reply) (c' : Conn)
    → replies n c ≡ (ok rs, c')
    → (length rs ≡ n) × Answered rs c c'
unfolding replies
replies→Answered zero c rs c' h =
    subst (λ (l : List Reply). (length l ≡ 0) × Answered l c c') (same_value (ap first h))
      (refl, ap second h)
replies→Answered (suc n) c rs c' h =
    let (r, e, h1) = run-ok (vkc_parse c) _ rs c' h in
    let (rs1, e1, h2) = run-ok (replies n (vkc_parse c).1) _ rs c' h1 in
    let (size, rest) = replies→Answered n (vkc_parse c).1 rs1 (replies n (vkc_parse c).1).1 e1 in
    subst (λ (l : List Reply). (length l ≡ suc n) × Answered l c c') (same_value (ap first h2))
      (ap suc size, ((vkc_parse c).1, e, subst (Answered rs1 (vkc_parse c).1) (ap second h2) rest))

Answered→replies :
    (rs : List Reply) (c c' : Conn) → Answered rs c c' → replies (length rs) c ≡ (ok rs, c')
unfolding replies
Answered→replies [] c c' h = ap (λ (x : Conn). (ok [], x)) h
Answered→replies (r ∷ rs) c c' (c1, e, h) = rw (e, Answered→replies rs c1 c' h) refl

pub simple_kind : (k : Kind) → is_simple k ≡ true → k ≡ Kind.simple
simple_kind Kind.simple h = refl
simple_kind Kind.error h = cc
simple_kind Kind.bulk h = cc
simple_kind Kind.integer h = cc
simple_kind Kind.nil h = cc
simple_kind Kind.array h = cc

array_kind : (k : Kind) → is_array k ≡ true → k ≡ Kind.array
array_kind Kind.simple h = cc
array_kind Kind.error h = cc
array_kind Kind.bulk h = cc
array_kind Kind.integer h = cc
array_kind Kind.nil h = cc
array_kind Kind.array h = refl

same_count : (z : ℤ) (n : ℕ) → is_count z n ≡ true → z ≡ ℤ.pos n
same_count (ℤ.pos m) n h = ap ℤ.pos ((==_iff m n).0 h)
same_count (ℤ.negsuc m) n h = cc

exec_replies-ok :
    (n : ℕ) (r : Reply) (c : Conn) (rs : List Reply) (c' : Conn)
    → exec_replies n r c ≡ (ok rs, c')
    → (r.kind ≡ Kind.array) × (r.count ≡ ℤ.pos n) × (replies n c ≡ (ok rs, c'))
unfolding exec_replies
exec_replies-ok n r c rs c' h = elim (Bool-cases (is_array r.kind)) [
  | inr e ↦
      let refused : (err, c) ≡ (ok rs, c') = rw (sym h) (rw e refl) in
      no_success err _ refl (ap first refused)
  | inl e ↦ elim (Bool-cases (is_count r.count n)) [
    | inr f ↦
        let refused : (err, c) ≡ (ok rs, c') = rw (sym h) (rw (e, f) refl) in
        no_success err _ refl (ap first refused)
    | inl f ↦
        let run_all : or_drop (replies n c) ≡ (ok rs, c') = rw (sym h) (rw (e, f) refl) in
        (array_kind r.kind e, same_count r.count n f, or_drop-ok (replies n c) rs c' run_all)
  ]
]

abbrev exec_args : List Bytes
exec_args = bytes "EXEC" ∷ []

commit_live :
    (t : Txn)
    → t.failed ≡ false
    → vkc_txn_commit t
      ≡ run
          (or_drop (vkc_cmd exec_args t.conn)).0
          (exec_replies t.n)
          (or_drop (vkc_cmd exec_args t.conn)).1
unfolding vkc_txn_commit
commit_live t e = rw e refl

commit→Executed :
    (t : Txn) (rs : List Reply) (c' : Conn)
    → t.failed ≡ false
    → vkc_txn_commit t ≡ (ok rs, c')
    → Executed t.n t.conn rs c'
commit→Executed t rs c' live h =
    let exec : Outcome Reply × Conn = or_drop (vkc_cmd exec_args t.conn) in
    let (r, e, h1) = run-ok exec (exec_replies t.n) rs c' (sym (commit_live t live) ∙ h) in
    let (array, count, h2) = exec_replies-ok t.n r exec.1 rs c' h1 in
    let (size, answered) = replies→Answered t.n exec.1 rs c' h2 in
    record {
      answer = r;
      behind = exec.1;
      runs = or_drop-ok (vkc_cmd exec_args t.conn) r exec.1 e;
      array = array;
      count = count;
      size = size;
      answered = answered;
    }

Executed→commit :
    (t : Txn) (rs : List Reply) (c' : Conn)
    → t.failed ≡ false
    → Executed t.n t.conn rs c'
    → vkc_txn_commit t ≡ (ok rs, c')
unfolding exec_replies
Executed→commit t rs c' live x =
    let same : is_count (ℤ.pos t.n) t.n ≡ true = (==_iff t.n t.n).1 refl in
    let all : replies t.n x.behind ≡ (ok rs, c') =
      subst (λ (n : ℕ). replies n x.behind ≡ (ok rs, c')) x.size
        (Answered→replies rs x.behind c' x.answered) in
    commit_live t live
    ∙ ap (λ (p : Outcome Reply × Conn). run (or_drop p).0 (exec_replies t.n) (or_drop p).1) x.runs
    ∙ rw (x.array, x.count, same, all) refl

-- A transaction that has failed returns no replies.
discarded-err :
    (b : Bool) (r : Outcome Reply × Conn) (c : Conn)
    → is_ok {A = List Reply} (if b then discarded r else (err, c)).0 ≡ false
discarded-err false r c = refl
discarded-err true (ok r, c1) c = refl
discarded-err true (err, c1) c = refl
discarded-err true (fault, c1) c = refl

commit_failed : (t : Txn) → t.failed ≡ true → is_ok (vkc_txn_commit t).0 ≡ false
unfolding vkc_txn_commit
commit_failed t e =
    rw e (discarded-err t.conn.connected (vkc_cmd (bytes "DISCARD" ∷ []) t.conn) t.conn)

queue_failed : (t : Txn) (args : List Bytes) → t.failed ≡ true → vkc_txn_queue t args ≡ ok t
unfolding vkc_txn_queue
queue_failed t args e = rw e refl

queue_live :
    (t : Txn) (args : List Bytes)
    → t.failed ≡ false
    → vkc_txn_queue t args ≡ queued t.n (vkc_cmd args t.conn).0 (vkc_cmd args t.conn).1
unfolding vkc_txn_queue
queue_live t args e = rw e refl

pub finish_failed :
    (cmds : List (List Bytes)) (t : Txn) (c : Conn)
    → t.failed ≡ true
    → is_ok (finish (queue_all cmds t) c).0 ≡ false
finish_failed [] t c e = commit_failed t e
finish_failed (args ∷ cmds) t c e =
    ap (λ (o : Outcome Txn). is_ok (finish (next o (queue_all cmds)) c).0) (queue_failed t args e)
    ∙ finish_failed cmds t c e

abbrev pub counted : Conn → ℕ → Txn
counted c n = record { conn = c; n = n; failed = false }

-- A reply after which replies are returned was a simple string.
queued-ok :
    (o : Outcome Reply) (c1 : Conn) (n : ℕ) (cmds : List (List Bytes)) (c : Conn) (rs : List Reply)
    (c' : Conn)
    → finish (next (queued n o c1) (queue_all cmds)) c ≡ (ok rs, c')
    → (r : Reply) × (o ≡ ok r)
      × (r.kind ≡ Kind.simple)
      × (finish (queue_all cmds (counted c1 (n + 1))) c ≡ (ok rs, c'))
queued-ok (ok r) c1 n cmds c rs c' h = elim (Bool-cases (is_simple r.kind)) [
  | inl e ↦ (r, refl, simple_kind r.kind e, rw (sym h) (rw e refl))
  | inr e ↦
      let t : Txn = record { conn = c1; n = n; failed = true } in
      let never : finish (queue_all cmds t) c ≡ (ok rs, c') = rw (sym h) (rw e refl) in
      no_success (finish (queue_all cmds t) c).0 rs (finish_failed cmds t c refl) (ap first never)
]
queued-ok err c1 n cmds c rs c' h =
    let t : Txn = record { conn = dropped c1; n = n; failed = true } in
    no_success (finish (queue_all cmds t) c).0 rs (finish_failed cmds t c refl) (ap first h)
queued-ok fault c1 n cmds c rs c' h = no_success fault rs refl (ap first h)

-- The commands behind the first `n`, and EXEC.
abbrev pub Rest : ℕ → List (List Bytes) → Conn → List Reply → Conn → Type 0
Rest n cmds c rs c' = (c1 : Conn) × Acknowledged cmds c c1 × Executed (n + length cmds) c1 rs c'

pub finish→Rest :
    (cmds : List (List Bytes)) (n : ℕ) (c1 c : Conn) (rs : List Reply) (c' : Conn)
    → finish (queue_all cmds (counted c1 n)) c ≡ (ok rs, c')
    → Rest n cmds c1 rs c'
finish→Rest [] n c1 c rs c' h =
    let all : n ≡ n + 0 = omega arith in
    (
      c1,
      refl,
      subst (λ (m : ℕ). Executed m c1 rs c') all (commit→Executed (counted c1 n) rs c' refl h),
    )
finish→Rest (args ∷ cmds) n c1 c rs c' h =
    let live =
      ap (λ (o : Outcome Txn). finish (next o (queue_all cmds)) c)
        (queue_live (counted c1 n) args refl) in
    let (r, e, kind, h1) =
      queued-ok (vkc_cmd args c1).0 (vkc_cmd args c1).1 n cmds c rs c' (sym live ∙ h) in
    let (c2, acknowledged, executed) = finish→Rest cmds (n + 1) (vkc_cmd args c1).1 c rs c' h1 in
    let all : n + 1 + length cmds ≡ n + suc (length cmds) = omega arith in
    (
      c2,
      (
        r,
        (vkc_cmd args c1).1,
        ap (λ (o : Outcome Reply). (o, (vkc_cmd args c1).1)) e,
        kind,
        acknowledged,
      ),
      subst (λ (m : ℕ). Executed m c2 rs c') all executed,
    )

pub Rest→finish :
    (cmds : List (List Bytes)) (n : ℕ) (c1 c : Conn) (rs : List Reply) (c' : Conn)
    → Rest n cmds c1 rs c'
    → finish (queue_all cmds (counted c1 n)) c ≡ (ok rs, c')
Rest→finish [] n c1 c rs c' (c2, same, executed) =
    let all : n + 0 ≡ n = omega arith in
    Executed→commit (counted c1 n) rs c' refl (
      subst (λ (x : Conn). Executed n x rs c') (sym same)
        (subst (λ (m : ℕ). Executed m c2 rs c') all executed))
Rest→finish (args ∷ cmds) n c1 c rs c' (c2, (r, c3, e, kind, acknowledged), executed) =
    let all : n + suc (length cmds) ≡ n + 1 + length cmds = omega arith in
    let later : finish (queue_all cmds (counted c3 (n + 1))) c ≡ (ok rs, c') =
      Rest→finish cmds (n + 1) c3 c rs c'
        (c2, acknowledged, subst (λ (m : ℕ). Executed m c2 rs c') all executed) in
    ap (λ (o : Outcome Txn). finish (next o (queue_all cmds)) c)
      (queue_live (counted c1 n) args refl)
    ∙ ap (λ (p : Outcome Reply × Conn). finish (next (queued n p.0 p.1) (queue_all cmds)) c) e
    ∙ rw kind later
