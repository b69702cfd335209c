-- ===== src/Valkey/Command/Whole.antt =====
-- A whole transaction against a server that answers each command.
use simple_dns.Common.{
  ◌+◌, ◌^◌, ◌≤◌, ◌<◌, true, false, List, [], ◌∷◌, ◌++◌, Bytes, length, length-append, All, ◌==◌,
  ==_iff, map, ◌≡◌, refl, arith,
}
use simple_dns.Common.Memory.{ok}
use simple_dns.Common.Text.Decimal.{bytes}
use simple_dns.Valkey.{Conn}
use simple_dns.Valkey.Stream.{stream, IsConn, joined, after}
use simple_dns.Valkey.Parse.{Sent, simple, array, wire, IsSent, received}
use simple_dns.Valkey.Command.{Txn, vkc_txn_begin, exec_replies, vkc_txn_commit}
use simple_dns.Valkey.Command.Session.{
  Past, Past-trans, vkc_cmd_lem, wires, replies-Reads, transaction, AreTexts, acknowledged,
  queue_all_lem, multi, exec, multi_text, exec_text,
}

commit_lem :
    (ss : List Sent) (t : Txn) (rest : Bytes)
    → t.failed ≡ false
    → t.n ≡ length ss
    → length ss < 2 ^ 31
    → All IsSent ss
    → IsConn t.conn
    → 14 ≤ t.conn.accepts
    → stream t.conn ≡ wire (array (length ss)) (wires ss rest)
    → (c' : Conn) × (vkc_txn_commit t ≡ (ok (map received ss), c')) × Past t.conn exec rest c'
unfolding vkc_txn_commit exec_replies
commit_lem ss t rest fine n few w h room e =
    let (c1, runs, p) =
      vkc_cmd_lem (bytes "EXEC" ∷ []) exec (array (length ss)) t.conn (wires ss rest) exec_text h
        room few e in
    let r = replies-Reads ss c1 rest w p.sound p.left in
    let counted : (length ss == length ss) ≡ true = (==_iff (length ss) (length ss)).1 refl in
    (
      after c1 r.unread r.chunks,
      rw (fine, runs, n, counted, r.runs) refl,
      record { sent = p.sent; accepts = p.accepts; left = r.left; sound = r.sound },
    )

-- Against a server that answers OK, QUEUED to each command and then one reply to each, a transaction
-- of commands that fit the buffer, over a peer that takes all bytes, returns the replies in the order
-- of the commands, has sent MULTI, the commands and EXEC and nothing else, and leaves what the server
-- sends next, however the bytes are cut into chunks.
pub transaction_lem :
    (cmds : List (List Bytes)) (texts : List Bytes) (ss : List Sent) (c : Conn) (rest : Bytes)
    → AreTexts cmds texts
    → length ss ≡ length cmds
    → length ss < 2 ^ 31
    → All IsSent ss
    → IsConn c
    → length (multi ++ (joined texts ++ exec)) ≤ c.accepts
    → stream c
      ≡ wire (simple (79 ∷ 75 ∷ [])) (acknowledged cmds (wire (array (length ss)) (wires ss rest)))
    → (c' : Conn) × (transaction cmds c ≡ (ok (map received ss), c'))
      × Past c (multi ++ (joined texts ++ exec)) rest c'
unfolding vkc_txn_begin
transaction_lem cmds texts ss c rest w same few ws h room e =
    let size1 = length-append multi (joined texts ++ exec) in
    let size2 = length-append (joined texts) exec in
    let mid = wire (array (length ss)) (wires ss rest) in
    let (c1, runs, p) =
      vkc_cmd_lem (bytes "MULTI" ∷ []) multi (simple (79 ∷ 75 ∷ [])) c (acknowledged cmds mid)
        multi_text h (omega arith) (omega arith, omega arith, omega arith) e in
    let t : Txn = record { conn = c1; n = 0; failed = false } in
    let (c2, all, q) =
      queue_all_lem cmds texts t mid w refl p.sound (omega (arith, p.accepts)) p.left in
    let t2 : Txn = record { conn = c2; n = 0 + length cmds; failed = false } in
    let (c3, done, r) =
      commit_lem ss t2 rest refl (omega arith) few ws q.sound (omega (arith, p.accepts, q.accepts))
        q.left in
    (
      c3,
      rw (runs, all) done,
      Past-trans c c1 c3 multi (joined texts ++ exec) _ rest p
          (Past-trans c1 c2 c3 (joined texts) exec _ rest q r),
    )
