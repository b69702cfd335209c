-- ===== src/Graph/Txns.antt =====
-- object_graph.c, transactions: `txn_begin`, `txn_abort`, `txn_commit`, and the frame of a logged call.
use simple_dns.Common.{
  ℕ, zero, suc, Bool, true, false, Option, none, some, List, [], ◌∷◌, length, take, if◌then◌else◌,
}
use simple_dns.Graph.{Root, TxnRec, Txn, Store, apply_undo}

unfoldable pub txn_begin : Store → Bool × Store
txn_begin s = elim s.active_txn [
  | some t ↦ (false, s)
  | none ↦ (
    true,
    record s {
      active_txn = some record {
        log = [];
        begin_obj_count = length s.objects;
        begin_next_id = s.next_id;
        begin_root_count = length s.roots;
      };
    },
  )
]

unfoldable pub undo_all : List TxnRec → Store → Store
undo_all [] s = s
undo_all (r ∷ log) s = undo_all log (apply_undo r s)

-- A last root is kept when it is in use.
abbrev pub kept_root : Root → List Root → List Root
kept_root r [] = if r.used then r ∷ [] else []
kept_root r (x ∷ xs) = r ∷ x ∷ xs

-- The roots without those at the end that are not used, but at least `keep` of them.
unfoldable pub trim : ℕ → List Root → List Root
trim keep [] = []
trim (suc keep) (r ∷ rs) = r ∷ trim keep rs
trim zero (r ∷ rs) = kept_root r (trim zero rs)

abbrev pub rewind : Txn → Store → Store
rewind t s = record s {
  objects = take t.begin_obj_count s.objects;
  next_id = t.begin_next_id;
  roots = trim t.begin_root_count s.roots;
  active_txn = none;
}

unfoldable pub txn_abort : Store → Bool × Store
unfolding undo_all trim
txn_abort s = elim s.active_txn [ none ↦ (false, s) | some t ↦ (true, rewind t (undo_all t.log s)) ]

-- What the next call of `wal_write_txn` reports.
abbrev pub wal_write_txn : List Bool → Store → Bool × Store
wal_write_txn [] s = (true, s)
wal_write_txn (b ∷ wal) s = (b, record s { wal = wal })

abbrev pub wal_outcome : Store → Bool × Store
wal_outcome s = if s.has_path then wal_write_txn s.wal s else (true, s)

abbrev pub committed : Option Txn → Bool × Store → Store → Bool × Store
committed none r s = (false, s)
committed (some t) (ok, s1) s =
    if ok then (true, record s1 { active_txn = none }) else (false, (txn_abort s1).1)

unfoldable pub txn_commit : Store → Bool × Store
unfolding txn_abort
txn_commit s = committed s.active_txn (wal_outcome s) s

-- `started` and the store, for a call that is a transaction of its own where none is active
unfoldable pub auto_begin : Store → Bool × Store
auto_begin s = if s.has_path then txn_begin s else (false, s)

unfoldable pub auto_end : Bool → Store → Bool × Store
auto_end started s = if started then txn_commit s else (true, s)

unfoldable pub log_push : TxnRec → Store → Store
log_push r s = elim s.active_txn [
  | none ↦ s
  | some t ↦ record s { active_txn = some (record t { log = r ∷ t.log }) }
]

-- The frame of every call: the change and its record.
unfoldable pub logged : (Store → Store) → TxnRec → Store → Bool × Store
unfolding auto_begin auto_end log_push
logged change r s = let (started, s1) = auto_begin s in auto_end started (log_push r (change s1))
