-- ===== src/Valkey/Command/Atomic.antt =====
-- Transactions against any server: when they return replies.
use simple_dns.Common.{
  ℕ, ◌+◌, true, List, [], ◌∷◌, Bytes, length, Bool-cases, inl, inr, ◌≡◌, ◌↔◌, refl, sym, ap, ◌∙◌,
  arith,
}
use mathlib.Core.Path.{subst}
use simple_dns.Common.Memory.{Outcome, ok, err, fault}
use simple_dns.Common.Text.Decimal.{bytes}
use simple_dns.Valkey.{Conn, Kind, Reply}
use simple_dns.Valkey.Ends.{Ends}
use simple_dns.Valkey.Command.{vkc_cmd, Txn, begun, dropped, is_simple, vkc_txn_begin}
use simple_dns.Valkey.Command.Session.{next, queue_all, finish, transaction}
use simple_dns.Valkey.Command.Accepted.{
  Committed, Executed, Rest, no_success, first, simple_kind, finish_failed, counted, finish→Rest,
  Rest→finish,
}
use simple_dns.Valkey.Command.Endings.{transaction-Ends}

abbrev multi_args : List Bytes
multi_args = bytes "MULTI" ∷ []

begun-ok :
    (o : Outcome Reply) (c1 : Conn) (cmds : List (List Bytes)) (c : Conn) (rs : List Reply)
    (c' : Conn)
    → finish (next (begun o c1) (queue_all cmds)) c ≡ (ok rs, c')
    → (r : Reply) × (o ≡ ok r) × (r.kind ≡ Kind.simple) × Rest 0 cmds c1 rs c'
begun-ok (ok r) c1 cmds c rs c' h = elim (Bool-cases (is_simple r.kind)) [
  | inl e ↦
      let live : finish (queue_all cmds (counted c1 0)) c ≡ (ok rs, c') = rw (sym h) (rw e refl) in
      (r, refl, simple_kind r.kind e, finish→Rest cmds 0 c1 c rs c' live)
  | inr e ↦
      let t : Txn = record { conn = c1; n = 0; failed = true } in
      let never : finish (queue_all cmds t) c ≡ (ok rs, c') = rw (sym h) (rw e refl) in
      no_success (finish (queue_all cmds t) c).0 rs (finish_failed cmds t c refl) (ap first never)
]
begun-ok err c1 cmds c rs c' h =
    let t : Txn = record { conn = dropped c1; n = 0; failed = true } in
    no_success (finish (queue_all cmds t) c).0 rs (finish_failed cmds t c refl) (ap first h)
begun-ok fault c1 cmds c rs c' h = no_success fault rs refl (ap first h)

returned→Committed :
    (cmds : List (List Bytes)) (c : Conn) (rs : List Reply) (c' : Conn)
    → transaction cmds c ≡ (ok rs, c')
    → Committed cmds c rs c'
unfolding vkc_txn_begin
returned→Committed cmds c rs c' h =
    let p : Outcome Reply × Conn = vkc_cmd multi_args c in
    let (r, e, kind, (c1, acknowledged, executed)) = begun-ok p.0 p.1 cmds c rs c' h in
    let all : 0 + length cmds ≡ length cmds = omega arith in
    record {
      answer = r;
      begun_at = p.1;
      queued_at = c1;
      begins = ap (λ (o : Outcome Reply). (o, p.1)) e;
      accepted = kind;
      acknowledged = acknowledged;
      executed = subst (λ (n : ℕ). Executed n c1 rs c') all executed;
    }

Committed→returned :
    (cmds : List (List Bytes)) (c : Conn) (rs : List Reply) (c' : Conn)
    → Committed cmds c rs c'
    → transaction cmds c ≡ (ok rs, c')
unfolding vkc_txn_begin
Committed→returned cmds c rs c' x =
    let all : length cmds ≡ 0 + length cmds = omega arith in
    let later : finish (queue_all cmds (counted x.begun_at 0)) c ≡ (ok rs, c') =
      Rest→finish cmds 0 x.begun_at c rs c' (
        x.queued_at,
        x.acknowledged,
        subst (λ (n : ℕ). Executed n x.queued_at rs c') all x.executed,
      ) in
    ap (λ (p : Outcome Reply × Conn). finish (next (begun p.0 p.1) (queue_all cmds)) c) x.begins
    ∙ rw x.accepted later

-- Whatever the server answers, and wherever the connection fails, a transaction ends with replies or an
-- error. It returns replies exactly when MULTI and each command have been answered by a simple string,
-- EXEC by an array that counts as many items as there were commands, and the items are these replies.
pub transaction-Committed :
    (cmds : List (List Bytes)) (c : Conn) (rs : List Reply) (c' : Conn)
    → Ends (transaction cmds c).0 × ((transaction cmds c ≡ (ok rs, c')) ↔ Committed cmds c rs c')
transaction-Committed cmds c rs c' =
    (transaction-Ends cmds c, (returned→Committed cmds c rs c', Committed→returned cmds c rs c'))
