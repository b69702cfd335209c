-- ===== src/Valkey/Command/Session.antt =====
-- A transaction against a server that answers each command.
use simple_dns.Common.{
  suc, ◌+◌, ◌-◌, ◌≤◌, false, List, [], ◌∷◌, ◌++◌, Bytes, length, length-append, append_assoc,
  append-nil, All, le→leb, map, ◌≡◌, refl, sym, ap, ◌∙◌, arith,
}
use simple_dns.Common.Memory.{Outcome, ok, err, fault}
use simple_dns.Common.Text.Decimal.{bytes, digits}
use simple_dns.Valkey.{Conn, M, Reply, vkc_parse}
use simple_dns.Valkey.Stream.{stream, IsConn, Reads, joined, bind-Reads, after}
use simple_dns.Valkey.Parse.{Sent, simple, wire, IsSent, received, vkc_parse-Reads}
use simple_dns.Valkey.Command.{
  vkc_send, put_args, bulk_text, command, vkc_send_cmd, vkc_cmd, Txn, vkc_txn_begin, vkc_txn_queue,
  replies, vkc_txn_commit,
}

-- A connection that has sent `text` and has `rest` to read.
pub record Past (c : Conn) (text rest : Bytes) (c' : Conn) : Type 0 where
  pub sent : c'.sent ≡ c.sent ++ text
  pub accepts : c'.accepts + length text ≡ c.accepts
  pub left : stream c' ≡ rest
  pub sound : IsConn c'

-- A command is sent whole and answered.
pub vkc_cmd_lem :
    (args : List Bytes) (text : Bytes) (s : Sent) (c : Conn) (rest : Bytes)
    → command args ≡ ok text
    → IsConn c
    → length text ≤ c.accepts
    → IsSent s
    → stream c ≡ wire s rest
    → (c' : Conn) × (vkc_cmd args c ≡ (ok (received s), c')) × Past c text rest c'
unfolding vkc_cmd vkc_send_cmd vkc_send
vkc_cmd_lem args text s c rest enc h room w e =
    let c1 = record c { accepts = c.accepts - length text; sent = c.sent ++ text } in
    let r = vkc_parse-Reads s c1 rest w (record { fits = h.fits; alive = h.alive }) e in
    (
      after c1 r.unread r.chunks,
      rw (enc, le→leb (length text) c.accepts room, r.runs) refl,
      record { sent = refl; accepts = omega arith; left = r.left; sound = r.sound },
    )

-- The replies to queued commands in front of what follows.
abbrev pub wires : List Sent → Bytes → Bytes
wires [] rest = rest
wires (s ∷ ss) rest = wire s (wires ss rest)

pub replies-Reads :
    (ss : List Sent) (c : Conn) (rest : Bytes)
    → All IsSent ss
    → IsConn c
    → stream c ≡ wires ss rest
    → Reads (replies (length ss)) c (map received ss) rest
unfolding replies
replies-Reads [] c rest w h e = record {
  unread = c.unread;
  chunks = c.chunks;
  runs = refl;
  left = e;
  sound = h;
}
replies-Reads (s ∷ ss) c rest w h e =
    bind-Reads vkc_parse _ c (received s) _ (wires ss rest) rest
      (vkc_parse-Reads s c (wires ss rest) w.0 h e)
      (λ c1 h1 e1.
        bind-Reads (replies (length ss)) _ c1 (map received ss) _ rest rest
          (replies-Reads ss c1 rest w.1 h1 e1)
          (λ c2 h2 e2. record {
            unread = c2.unread;
            chunks = c2.chunks;
            runs = refl;
            left = e2;
            sound = h2;
          }))

-- How a caller uses a transaction: it queues each command in turn, whatever became of the ones before.
abbrev pub next : Outcome Txn → (Txn → Outcome Txn) → Outcome Txn
next (ok t) f = f t
next err f = err
next fault f = fault

abbrev pub queue_all : List (List Bytes) → Txn → Outcome Txn
queue_all [] t = ok t
queue_all (args ∷ cmds) t = next (vkc_txn_queue t args) (queue_all cmds)

abbrev pub finish : Outcome Txn → M (List Reply)
finish (ok t) c = vkc_txn_commit t
finish err c = (err, c)
finish fault c = (fault, c)

abbrev pub transaction : List (List Bytes) → M (List Reply)
transaction cmds c = finish (next (vkc_txn_begin c) (queue_all cmds)) c

-- The texts of commands.
abbrev pub AreTexts : List (List Bytes) → List Bytes → Type 0
AreTexts [] [] = Unit {0}
AreTexts [] (t ∷ ts) = ⊥
AreTexts (args ∷ cmds) [] = ⊥
AreTexts (args ∷ cmds) (t ∷ ts) = (command args ≡ ok t) × AreTexts cmds ts

abbrev pub queued_reply : Sent
queued_reply = simple (81 ∷ 85 ∷ 69 ∷ 85 ∷ 69 ∷ 68 ∷ [])

abbrev pub acknowledged : List (List Bytes) → Bytes → Bytes
acknowledged [] rest = rest
acknowledged (args ∷ cmds) rest = wire queued_reply (acknowledged cmds rest)

queued_reply-IsSent : IsSent queued_reply
queued_reply-IsSent = (omega arith, omega arith, omega arith)

Past-refl : (c : Conn) (rest : Bytes) → IsConn c → stream c ≡ rest → Past c [] rest c
Past-refl c rest h e = record {
  sent = sym (append-nil c.sent);
  accepts = omega arith;
  left = e;
  sound = h;
}

pub Past-trans :
    (c c1 c2 : Conn) (text more mid rest : Bytes)
    → Past c text mid c1
    → Past c1 more rest c2
    → Past c (text ++ more) rest c2
Past-trans c c1 c2 text more mid rest a b = record {
  sent = b.sent ∙ ap (λ (s : Bytes). s ++ more) a.sent ∙ append_assoc c.sent text more;
  accepts = omega (arith, a.accepts, b.accepts, length-append text more);
  left = b.left;
  sound = b.sound;
}

pub queue_all_lem :
    (cmds : List (List Bytes)) (texts : List Bytes) (t : Txn) (rest : Bytes)
    → AreTexts cmds texts
    → t.failed ≡ false
    → IsConn t.conn
    → length (joined texts) ≤ t.conn.accepts
    → stream t.conn ≡ acknowledged cmds rest
    → (c' : Conn) × (queue_all cmds t
        ≡ ok (record { conn = c'; n = t.n + length cmds; failed = false }))
      × Past t.conn (joined texts) rest c'
unfolding vkc_txn_queue
queue_all_lem [] [] t rest w fine h room e =
    let same : t.n + 0 ≡ t.n = omega arith in
    (t.conn, rw (same, sym fine) refl, Past-refl t.conn rest h e)
queue_all_lem [] (text ∷ texts) t rest w fine h room e = absurd w
queue_all_lem (args ∷ cmds) [] t rest w fine h room e = absurd w
queue_all_lem (args ∷ cmds) (text ∷ texts) t rest w fine h room e =
    let size = length-append text (joined texts) in
    let (c1, runs, p) =
      vkc_cmd_lem args text queued_reply t.conn (acknowledged cmds rest) w.0 h (omega arith)
        queued_reply-IsSent e in
    let (c2, more, q) =
      queue_all_lem cmds texts (record { conn = c1; n = t.n + 1; failed = false }) rest w.1 refl
        p.sound (omega (arith, p.accepts)) p.left in
    let count : t.n + 1 + length cmds ≡ t.n + suc (length cmds) = omega arith in
    (
      c2,
      rw (fine, runs) (more ∙ rw count refl),
      Past-trans t.conn c1 c2 text (joined texts) _ rest p q,
    )

abbrev pub multi : Bytes
multi = 42 ∷ 49 ∷ 13 ∷ 10 ∷ 36 ∷ 53 ∷ 13 ∷ 10 ∷ 77 ∷ 85 ∷ 76 ∷ 84 ∷ 73 ∷ 13 ∷ 10 ∷ []

abbrev pub exec : Bytes
exec = 42 ∷ 49 ∷ 13 ∷ 10 ∷ 36 ∷ 52 ∷ 13 ∷ 10 ∷ 69 ∷ 88 ∷ 69 ∷ 67 ∷ 13 ∷ 10 ∷ []

pub multi_text : command (bytes "MULTI" ∷ []) ≡ ok multi
unfolding command put_args bulk_text bytes digits
multi_text = refl

pub exec_text : command (bytes "EXEC" ∷ []) ≡ ok exec
unfolding command put_args bulk_text bytes digits
exec_text = refl
