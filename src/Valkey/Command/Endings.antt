-- ===== src/Valkey/Command/Endings.antt =====
-- Every command and every transaction ends, whatever the server answers.
use simple_dns.Common.{
  ℕ, zero, suc, Bool, true, false, List, [], ◌∷◌, ◌++◌, Bytes, length, Bool-cases, leb,
  if◌then◌else◌, inl, inr,
}
use simple_dns.Common.Memory.{Outcome, ok, err, fault}
use simple_dns.Common.Text.Decimal.{bytes}
use simple_dns.Valkey.{Conn, run, Reply, vkc_parse}
use simple_dns.Valkey.Ends.{Ends, run-Ends, vkc_parse-Ends}
use simple_dns.Valkey.Command.{
  vkc_send, put_args, bulk_text, command, vkc_send_cmd, vkc_cmd, Txn, begun, queued, vkc_txn_begin,
  vkc_txn_queue, is_simple, or_drop, replies, exec_replies, is_array, is_count, discarded,
  vkc_txn_commit,
}
use simple_dns.Valkey.Command.Session.{next, queue_all, finish, transaction}

put_args-Ends : (args : List Bytes) (text : Bytes) → Ends (put_args args text)
unfolding put_args
put_args-Ends [] text = elim (Bool-cases (leb 8192 (length text))) [
  | inl e ↦ rw e tt
  | inr e ↦ rw e tt
]
put_args-Ends (a ∷ args) text = elim (Bool-cases (leb 8192 (length text))) [
  | inl e ↦ rw e tt
  | inr e ↦ rw e (put_args-Ends args (text ++ bulk_text a))
]

vkc_send-Ends : (cmd : Bytes) (c : Conn) → Ends (vkc_send cmd c).0
unfolding vkc_send
vkc_send-Ends cmd c = elim (Bool-cases (leb (length cmd) c.accepts)) [
  | inl e ↦ rw e tt
  | inr e ↦ rw e tt
]

vkc_cmd-Ends : (args : List Bytes) (c : Conn) → Ends (vkc_cmd args c).0
unfolding vkc_cmd vkc_send_cmd command
vkc_cmd-Ends args c =
    run-Ends (run (command args) vkc_send c).0 (λ _. vkc_parse) (run (command args) vkc_send c).1
      (run-Ends (command args) vkc_send c (put_args-Ends args _) (λ cmd. vkc_send-Ends cmd c))
      (λ _. vkc_parse-Ends (run (command args) vkc_send c).1)

replies-Ends : (n : ℕ) (c : Conn) → Ends (replies n c).0
unfolding replies
replies-Ends zero c = tt
replies-Ends (suc n) c =
    run-Ends (vkc_parse c).0 _ (vkc_parse c).1 (vkc_parse-Ends c)
      (λ r. run-Ends (replies n (vkc_parse c).1).0 _ _ (replies-Ends n (vkc_parse c).1) (λ rs. tt))

or_drop-Ends {ℓ} : {A : Type ℓ} (p : Outcome A × Conn) → Ends p.0 → Ends (or_drop p).0
or_drop-Ends (ok a, c) h = tt
or_drop-Ends (err, c) h = tt
or_drop-Ends (fault, c) h = h

exec_replies-Ends : (n : ℕ) (r : Reply) (c : Conn) → Ends (exec_replies n r c).0
unfolding exec_replies
exec_replies-Ends n r c = elim (Bool-cases (is_array r.kind)) [
  | inr e ↦ rw e tt
  | inl e ↦ elim (Bool-cases (is_count r.count n)) [
    | inr f ↦ rw (e, f) tt
    | inl f ↦ rw (e, f) (or_drop-Ends (replies n c) (replies-Ends n c))
  ]
]

given_up-Ends :
    (b : Bool) (p : Outcome Reply × Conn) (c : Conn)
    → Ends p.0
    → Ends {A = List Reply} (if b then discarded p else (err, c)).0
given_up-Ends false p c h = tt
given_up-Ends true (ok r, c1) c h = tt
given_up-Ends true (err, c1) c h = tt
given_up-Ends true (fault, c1) c h = h

vkc_txn_commit-Ends : (t : Txn) → Ends (vkc_txn_commit t).0
unfolding vkc_txn_commit
vkc_txn_commit-Ends t = elim (Bool-cases t.failed) [
  | inl e ↦ rw e (
      given_up-Ends t.conn.connected (vkc_cmd (bytes "DISCARD" ∷ []) t.conn) t.conn
        (vkc_cmd-Ends (bytes "DISCARD" ∷ []) t.conn))
  | inr e ↦
      let exec = or_drop (vkc_cmd (bytes "EXEC" ∷ []) t.conn) in
      rw e (
        run-Ends exec.0 (exec_replies t.n) exec.1
          (or_drop-Ends (vkc_cmd (bytes "EXEC" ∷ []) t.conn)
            (vkc_cmd-Ends (bytes "EXEC" ∷ []) t.conn))
          (λ r. exec_replies-Ends t.n r exec.1))
]

queued-Ends : (n : ℕ) (o : Outcome Reply) (c : Conn) → Ends o → Ends (queued n o c)
queued-Ends n (ok r) c h = elim (Bool-cases (is_simple r.kind)) [
  | inl e ↦ rw e tt
  | inr e ↦ rw e tt
]
queued-Ends n err c h = tt
queued-Ends n fault c h = h

vkc_txn_queue-Ends : (t : Txn) (args : List Bytes) → Ends (vkc_txn_queue t args)
unfolding vkc_txn_queue
vkc_txn_queue-Ends t args = elim (Bool-cases t.failed) [
  | inl e ↦ rw e tt
  | inr e ↦
      rw e
        (queued-Ends t.n (vkc_cmd args t.conn).0 (vkc_cmd args t.conn).1 (vkc_cmd-Ends args t.conn))
]

begun-Ends : (o : Outcome Reply) (c : Conn) → Ends o → Ends (begun o c)
begun-Ends (ok r) c h = tt
begun-Ends err c h = tt
begun-Ends fault c h = h

next-Ends :
    (o : Outcome Txn) (f : Txn → Outcome Txn) → Ends o → ((t : Txn) → Ends (f t)) → Ends (next o f)
next-Ends (ok t) f h k = k t
next-Ends err f h k = tt
next-Ends fault f h k = h

queue_all-Ends : (cmds : List (List Bytes)) (t : Txn) → Ends (queue_all cmds t)
queue_all-Ends [] t = tt
queue_all-Ends (args ∷ cmds) t =
    next-Ends (vkc_txn_queue t args) (queue_all cmds) (vkc_txn_queue-Ends t args)
      (queue_all-Ends cmds)

finish-Ends : (o : Outcome Txn) (c : Conn) → Ends o → Ends (finish o c).0
finish-Ends (ok t) c h = vkc_txn_commit-Ends t
finish-Ends err c h = tt
finish-Ends fault c h = h

pub transaction-Ends : (cmds : List (List Bytes)) (c : Conn) → Ends (transaction cmds c).0
unfolding vkc_txn_begin
transaction-Ends cmds c =
    let r = vkc_cmd (bytes "MULTI" ∷ []) c in
    finish-Ends (next (begun r.0 r.1) (queue_all cmds)) c (
      next-Ends (begun r.0 r.1) (queue_all cmds)
        (begun-Ends r.0 r.1 (vkc_cmd-Ends (bytes "MULTI" ∷ []) c)) (queue_all-Ends cmds))
