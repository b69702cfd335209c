-- ===== src/Valkey/Command.antt =====
-- dns_wire.c: commands and MULTI/EXEC transactions of the client.
pub mod Session
pub mod Whole
pub mod Accepted
pub mod Endings
pub mod Atomic
use simple_dns.Common.{
  ℕ, zero, suc, ◌+◌, ◌-◌, Bool, true, false, not, List, [], ◌∷◌, ◌++◌, Bytes, length, take, leb,
  ◌==◌, if◌then◌else◌,
}
use simple_dns.Common.Int.{ℤ}
use simple_dns.Common.Memory.{Outcome, ok, err, fault}
use simple_dns.Common.Text.Decimal.{bytes, digits}
use simple_dns.Valkey.{Conn, M, run, ◌>>=◌, ◌>>◌, give, refuse, Kind, Reply, vkc_parse}

-- The peer takes the bytes, or fails behind the last one that it takes.
unfoldable pub vkc_send : Bytes → M (Unit {0})
vkc_send cmd c =
    if leb (length cmd) c.accepts
    then (ok tt, record c { accepts = c.accepts - length cmd; sent = c.sent ++ cmd })
    else (err, record c { accepts = 0; sent = c.sent ++ take c.accepts cmd })

-- "$%d\r\n%s\r\n"
unfoldable pub bulk_text : Bytes → Bytes
bulk_text a = b'$' ∷ (digits 20 (length a) ++ 13 ∷ 10 ∷ (a ++ 13 ∷ 10 ∷ []))

-- The loop over the arguments. `text` is what `snprintf` would have written without a limit, of which
-- `pos` is the length.
unfoldable pub put_args : List Bytes → Bytes → Outcome Bytes
put_args [] text = if leb 8192 (length text) then err else ok text
put_args (a ∷ args) text =
    if leb 8192 (length text) then err else put_args args (text ++ bulk_text a)

unfoldable pub command : List Bytes → Outcome Bytes
command args = put_args args (b'*' ∷ (digits 20 (length args) ++ 13 ∷ 10 ∷ []))

unfoldable pub vkc_send_cmd : List Bytes → M (Unit {0})
vkc_send_cmd args = run (command args) vkc_send

unfoldable pub vkc_cmd : List Bytes → M Reply
vkc_cmd args = vkc_send_cmd args >> vkc_parse

pub record Txn : Type 0 where
  pub conn : Conn
  pub n : ℕ
  pub failed : Bool

-- `c->fd = -1`
abbrev pub dropped : Conn → Conn
dropped c = record c { connected = false }

abbrev pub is_simple : Kind → Bool
is_simple Kind.simple = true
is_simple _ = false

-- What a reply to MULTI makes of a transaction.
abbrev pub begun : Outcome Reply → Conn → Outcome Txn
begun (ok r) c = ok (record { conn = c; n = 0; failed = not (is_simple r.kind) })
begun err c = ok (record { conn = dropped c; n = 0; failed = true })
begun fault c = fault

unfoldable pub vkc_txn_begin : Conn → Outcome Txn
unfolding bytes
vkc_txn_begin c = let r = vkc_cmd (bytes "MULTI" ∷ []) c in begun r.0 r.1

-- What a reply to a command makes of it: QUEUED counts.
abbrev pub queued : ℕ → Outcome Reply → Conn → Outcome Txn
queued n (ok r) c =
    if is_simple r.kind
    then ok (record { conn = c; n = n + 1; failed = false })
    else ok (record { conn = c; n = n; failed = true })
queued n err c = ok (record { conn = dropped c; n = n; failed = true })
queued n fault c = fault

unfoldable pub vkc_txn_queue : Txn → List Bytes → Outcome Txn
vkc_txn_queue t args = let r = vkc_cmd args t.conn in if t.failed then ok t else queued t.n r.0 r.1

-- A failure behind EXEC gives the connection up.
abbrev pub or_drop {ℓ} : {A : Type ℓ} → Outcome A × Conn → Outcome A × Conn
or_drop (ok a, c) = (ok a, c)
or_drop (err, c) = (err, dropped c)
or_drop (fault, c) = (fault, c)

-- The loop over the replies.
unfoldable pub replies : ℕ → M (List Reply)
replies zero = give []
replies (suc n) = vkc_parse >>= λ r. replies n >>= λ rs. give (r ∷ rs)

abbrev pub is_array : Kind → Bool
is_array Kind.array = true
is_array _ = false

abbrev pub is_count : ℤ → ℕ → Bool
is_count (ℤ.pos m) n = m == n
is_count (ℤ.negsuc m) n = false

-- The replies behind the one to EXEC.
unfoldable pub exec_replies : ℕ → Reply → M (List Reply)
exec_replies n r c =
    if is_array r.kind
    then (if is_count r.count n then or_drop (replies n c) else (err, c))
    else (err, c)

-- The result of DISCARD is not looked at.
abbrev pub discarded {ℓ} : {A : Type ℓ} → Outcome Reply × Conn → Outcome A × Conn
discarded (ok r, c) = (err, c)
discarded (err, c) = (err, c)
discarded (fault, c) = (fault, c)

unfoldable pub vkc_txn_commit : Txn → Outcome (List Reply) × Conn
unfolding bytes
vkc_txn_commit t =
    let discard = discarded (vkc_cmd (bytes "DISCARD" ∷ []) t.conn) in
    let given_up = if t.conn.connected then discard else (err, t.conn) in
    let exec = or_drop (vkc_cmd (bytes "EXEC" ∷ []) t.conn) in
    if t.failed then given_up else run exec.0 (exec_replies t.n) exec.1
