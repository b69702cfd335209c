-- ===== src/Tests/Transactions.antt =====
-- Transactions on a store of object_graph.c.
use simple_dns.Common.{true, false, none, some, List, [], ◌∷◌, Bool, replicate, ◌≡◌, refl, arith}
use simple_dns.Common.Int.{ℤ}
use simple_dns.Common.Text.{str_eq}
use simple_dns.Graph.{
  Node, Store, find_root, release_root, on_node, find_value, replace_value, apply_undo,
}
use simple_dns.Graph.Txns.{
  txn_begin, txn_abort, txn_commit, undo_all, trim, auto_begin, auto_end, log_push, logged,
}
use simple_dns.Graph.Calls.{
  set_node, new_node, new_int, set_int, set_field, bind, unbind, get_unlocked,
}
use simple_dns.Graph.Roots.{Unique}
use simple_dns.Graph.Perform.{Call, perform, perform_all}
use simple_dns.Graph.Abort.{Restored, txn_abort-perform_all, txn_commit-perform_all}

-- One object with one field, bound to the root "a".
abbrev store : List Bool → Store
store wal = record {
  objects =
      record { id = 1; node = Node.composite (record { key = 107 ∷ []; value = none } ∷ []) } ∷ [];
  next_id = 2;
  roots = record { name = 97 ∷ []; obj = some 0; used = true } ∷ [];
  active_txn = none;
  has_path = true;
  wal = wal;
}

store-Unique : (wal : List Bool) → Unique (store wal).roots
unfolding Unique find_root
store-Unique wal = (λ _. refl, tt)

-- A new number, in the field that is there and in a new one; the root moves to another name.
abbrev calls : List Call
calls =
    Call.create_int (ℤ.pos 5)
    ∷ Call.put_field 0 (107 ∷ []) (some 1)
    ∷ Call.put_field 0 (108 ∷ []) (some 1)
    ∷ Call.put_int 1 (ℤ.pos 6)
    ∷ Call.drop_root (97 ∷ [])
    ∷ Call.bind_root (98 ∷ []) (some 0)
    ∷ []

txn_abort-perform_all_example :
    ((txn_abort (perform_all calls (txn_begin (store [])).1)).0 ≡ true)
    × Restored (store []) (txn_abort (perform_all calls (txn_begin (store [])).1)).1
txn_abort-perform_all_example =
    txn_abort-perform_all (store []) calls refl (store-Unique []) (omega arith)

changed_path : (perform_all calls (txn_begin (store (false ∷ []))).1).has_path ≡ true
unfolding perform_all perform txn_begin new_node new_int set_int set_field bind unbind logged
    auto_begin auto_end log_push set_node on_node find_root release_root find_value replace_value
    str_eq
changed_path = refl

changed_wal : (perform_all calls (txn_begin (store (false ∷ []))).1).wal ≡ false ∷ []
unfolding perform_all perform txn_begin new_node new_int set_int set_field bind unbind logged
    auto_begin auto_end log_push set_node on_node find_root release_root find_value replace_value
    str_eq
changed_wal = refl

txn_commit-perform_all_example :
    ((txn_commit (perform_all calls (txn_begin (store (false ∷ []))).1)).0 ≡ false)
    × Restored
        (store (false ∷ []))
        (txn_commit (perform_all calls (txn_begin (store (false ∷ []))).1)).1
txn_commit-perform_all_example =
    txn_commit-perform_all (store (false ∷ [])) calls [] refl (store-Unique (false ∷ []))
      (omega arith) changed_path changed_wal

-- A root whose name has the 63 bytes that are kept of a longer name.
abbrev crowded : Store
crowded = record (store []) {
  roots = record { name = replicate 63 97; obj = some 0; used = true } ∷ [];
}

-- The longer name is bound and the transaction aborted: the other root is gone.
long_name :
    get_unlocked
      (txn_abort (perform (Call.bind_root (replicate 64 97) none) (txn_begin crowded).1)).1
      (replicate 63 97)
    ≡ none
unfolding perform txn_begin bind logged auto_begin auto_end log_push find_root str_eq txn_abort
    undo_all trim release_root get_unlocked apply_undo
long_name = refl
