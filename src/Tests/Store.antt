-- ===== src/Tests/Store.antt =====
-- Replies of the store in chunks, and a transaction.
use simple_dns.Common.{
  ℕ, true, List, [], ◌∷◌, ◌++◌, Bytes, length, replicate, length-replicate, append-nil, map, ◌≡◌,
  ◌↔◌, ap, refl, arith,
}
use simple_dns.Common.Memory.{ok}
use simple_dns.Common.Text.Decimal.{digits}
use simple_dns.Valkey.{Conn, Kind, empty, vkc_parse}
use simple_dns.Valkey.Stream.{stream, IsConn, Reads, joined}
use simple_dns.Valkey.Parse.{Sent, simple, bulk, array, wire, received, vkc_parse-Reads}
use simple_dns.Valkey.Overrun.{vkc_parse_overrun}
use simple_dns.Valkey.Command.{command, put_args, bulk_text}
use simple_dns.Valkey.Command.Session.{Past, wires, acknowledged, transaction, multi, exec}
use simple_dns.Valkey.Command.Whole.{transaction_lem}
use simple_dns.Valkey.Ends.{Ends}
use simple_dns.Valkey.Command.Accepted.{Committed}
use simple_dns.Valkey.Command.Atomic.{transaction-Committed}

-- "$2\r\nab\r\n:" in three chunks, the first of them in the buffer.
abbrev conn : Conn
conn = record {
  connected = true;
  unread = 36 ∷ 50 ∷ [];
  chunks = (13 ∷ 10 ∷ 97 ∷ []) ∷ (98 ∷ 13 ∷ 10 ∷ 58 ∷ []) ∷ [];
  accepts = 400;
  sent = [];
}

conn-IsConn : IsConn conn
conn-IsConn = record { fits = omega arith; alive = (λ e. cc, (λ e. cc, tt)) }

conn-wire : stream conn ≡ wire (bulk (97 ∷ 98 ∷ [])) (58 ∷ [])
unfolding digits
conn-wire = refl

vkc_parse-Reads_example : Reads vkc_parse conn (received (bulk (97 ∷ 98 ∷ []))) (58 ∷ [])
vkc_parse-Reads_example =
    vkc_parse-Reads (bulk (97 ∷ 98 ∷ [])) conn (58 ∷ []) (omega arith) conn-IsConn conn-wire

many : Bytes
many = replicate 65535 97

length-many : length many ≡ 65535
unfolding many
length-many = length-replicate {A = ℕ} 65535 97

-- A block of 65537 bytes and an integer, in one chunk.
long_conn : Conn
long_conn = record {
  connected = true;
  unread = [];
  chunks = wire (bulk (many ++ 97 ∷ 97 ∷ [])) (58 ∷ 49 ∷ 13 ∷ 10 ∷ []) ∷ [];
  accepts = 0;
  sent = [];
}

vkc_parse_overrun_example :
    Reads vkc_parse long_conn (record (empty Kind.bulk) { str = many }) (13 ∷ 10 ∷ [])
unfolding long_conn
vkc_parse_overrun_example =
    vkc_parse_overrun many [] 97 97 58 49 long_conn (13 ∷ 10 ∷ []) length-many (omega arith)
      (record { fits = omega arith; alive = (λ e. cc, tt) })
      (append-nil (wire (bulk (many ++ 97 ∷ 97 ∷ [])) (58 ∷ 49 ∷ 13 ∷ 10 ∷ [])))

abbrev set_a : List Bytes
set_a = (83 ∷ 69 ∷ 84 ∷ []) ∷ (97 ∷ []) ∷ (49 ∷ []) ∷ []

abbrev set_a_text : Bytes
set_a_text =
    42 ∷ 51 ∷ 13 ∷ 10 ∷ 36 ∷ 51 ∷ 13 ∷ 10 ∷ 83 ∷ 69 ∷ 84 ∷ 13 ∷ 10 ∷ 36 ∷ 49 ∷ 13 ∷ 10 ∷ 97 ∷ 13
    ∷ 10 ∷ 36 ∷ 49 ∷ 13 ∷ 10 ∷ 49 ∷ 13 ∷ 10 ∷ []

set_a_lem : command set_a ≡ ok set_a_text
unfolding command put_args bulk_text digits
set_a_lem = refl

abbrev done : Sent
done = simple (79 ∷ 75 ∷ [])

-- "+OK", "+QUEUED", "*1", "+OK"
abbrev server : Conn
server = record {
  connected = true;
  unread = [];
  chunks = wire done (acknowledged (set_a ∷ []) (wire (array 1) (wires (done ∷ []) []))) ∷ [];
  accepts = 400;
  sent = [];
}

transaction_lem_example :
    (c' : Conn) × (transaction (set_a ∷ []) server ≡ (ok (map received (done ∷ [])), c'))
    × Past server (multi ++ (joined (set_a_text ∷ []) ++ exec)) [] c'
unfolding digits
transaction_lem_example =
    transaction_lem (set_a ∷ []) (set_a_text ∷ []) (done ∷ []) server [] (set_a_lem, tt)
      (omega arith) (omega arith) ((omega arith, omega arith, omega arith), tt)
      (record { fits = omega arith; alive = (λ e. cc, tt) }) (omega arith) refl

-- The server accepts the transaction: it returns the reply.
server_accepts : (transaction (set_a ∷ []) server).0 ≡ ok (map received (done ∷ []))
unfolding digits
server_accepts =
    ap (λ p. p.0)
      (transaction_lem (set_a ∷ []) (set_a_text ∷ []) (done ∷ []) server [] (set_a_lem, tt)
        (omega arith) (omega arith) ((omega arith, omega arith, omega arith), tt)
        (record { fits = omega arith; alive = (λ e. cc, tt) }) (omega arith) refl).1

transaction-Committed_example :
    Ends (transaction (set_a ∷ []) server).0
    × ((transaction (set_a ∷ []) server
          ≡ (ok (map received (done ∷ [])), (transaction (set_a ∷ []) server).1))
        ↔ Committed
            (set_a ∷ [])
            server
            (map received (done ∷ []))
            (transaction (set_a ∷ []) server).1)
transaction-Committed_example =
    transaction-Committed (set_a ∷ []) server (map received (done ∷ []))
      (transaction (set_a ∷ []) server).1
