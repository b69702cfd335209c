-- ===== src/Graph/Perform.antt =====
-- Sequences of calls of object_graph.c inside a transaction.
use simple_dns.Common.{ℕ, ◌≤◌, List, [], ◌∷◌, Bytes, length, All, refl}
use simple_dns.Common.Int.{ℤ}
use simple_dns.Graph.{Ref, Node, TxnRec, Store, find_root}
use simple_dns.Graph.Calls.{
  push_object, node_at, new_node, new_object, new_int, new_string, new_bytes, new_list, set_int,
  set_str, set_bytes, set_field, list_append, list_set, list_insert, list_remove, bind, unbind,
}
use simple_dns.Graph.Rollback.{Within, logged-Within, create-Undone}
use simple_dns.Graph.Steps.{
  int_of-Within, str_of-Within, bytes_of-Within, composite_of-Within, append_of-Within,
  set_item_of-Within, insert_of-Within, remove_of-Within,
}
use simple_dns.Graph.Names.{bind_at-Within, unbind_at-Within}

-- The calls that a transaction can make.
pub data Call : Type 0 where
  create_object : Call
  create_int : ℤ → Call
  create_string : Bytes → Call
  create_bytes : Bytes → Call
  create_list : Call
  put_int : ℕ → ℤ → Call
  put_str : ℕ → Bytes → Call
  put_bytes : ℕ → Bytes → Call
  put_field : ℕ → Bytes → Ref → Call
  append : ℕ → Ref → Call
  put_item : ℕ → ℕ → Ref → Call
  insert : ℕ → ℕ → Ref → Call
  remove : ℕ → ℕ → Call
  bind_root : Bytes → Ref → Call
  drop_root : Bytes → Call

unfoldable pub perform : Call → Store → Store
perform Call.create_object s = (new_object s).1
perform (Call.create_int v) s = (new_int v s).1
perform (Call.create_string v) s = (new_string v s).1
perform (Call.create_bytes v) s = (new_bytes v s).1
perform Call.create_list s = (new_list s).1
perform (Call.put_int o v) s = (set_int o v s).1
perform (Call.put_str o v) s = (set_str o v s).1
perform (Call.put_bytes o v) s = (set_bytes o v s).1
perform (Call.put_field o key v) s = (set_field o key v s).1
perform (Call.append o v) s = (list_append o v s).1
perform (Call.put_item o i v) s = (list_set o i v s).1
perform (Call.insert o i v) s = (list_insert o i v s).1
perform (Call.remove o i) s = (list_remove o i s).1
perform (Call.bind_root name o) s = (bind name o s).1
perform (Call.drop_root name) s = (unbind name s).1

unfoldable pub perform_all : List Call → Store → Store
unfolding perform
perform_all [] s = s
perform_all (c ∷ cs) s = perform_all cs (perform c s)

-- Keys and names that fit into their arrays.
abbrev pub Fits : Call → Type 0
Fits (Call.put_field o key v) = length key ≤ 63
Fits (Call.bind_root name o) = length name ≤ 63
Fits (Call.drop_root name) = length name ≤ 63
Fits _ = Unit {0}

create-Within : (node : Node) (s0 s : Store) → Within s0 s → Within s0 (new_node node s).1
unfolding new_node
create-Within node s0 s w =
    logged-Within (push_object node) TxnRec.is_create s0 s w (create-Undone node s)

perform-Within : (c : Call) (s0 s : Store) → Fits c → Within s0 s → Within s0 (perform c s)
unfolding perform new_object new_int new_string new_bytes new_list set_int set_str set_bytes
    set_field list_append list_set list_insert list_remove bind unbind
perform-Within Call.create_object s0 s h w = create-Within (Node.composite []) s0 s w
perform-Within (Call.create_int v) s0 s h w = create-Within (Node.int v) s0 s w
perform-Within (Call.create_string v) s0 s h w = create-Within (Node.string v) s0 s w
perform-Within (Call.create_bytes v) s0 s h w = create-Within (Node.bytes v) s0 s w
perform-Within Call.create_list s0 s h w = create-Within (Node.list []) s0 s w
perform-Within (Call.put_int o v) s0 s h w = int_of-Within o v s0 s (node_at s o) refl w
perform-Within (Call.put_str o v) s0 s h w = str_of-Within o v s0 s (node_at s o) refl w
perform-Within (Call.put_bytes o v) s0 s h w = bytes_of-Within o v s0 s (node_at s o) refl w
perform-Within (Call.put_field o key v) s0 s h w =
    composite_of-Within o key v s0 s (node_at s o) h refl w
perform-Within (Call.append o v) s0 s h w = append_of-Within o v s0 s (node_at s o) refl w
perform-Within (Call.put_item o i v) s0 s h w = set_item_of-Within o i v s0 s (node_at s o) refl w
perform-Within (Call.insert o i v) s0 s h w = insert_of-Within o i v s0 s (node_at s o) refl w
perform-Within (Call.remove o i) s0 s h w = remove_of-Within o i s0 s (node_at s o) refl w
perform-Within (Call.bind_root name o) s0 s h w =
    bind_at-Within name o s0 s (find_root name s.roots) h refl w
perform-Within (Call.drop_root name) s0 s h w =
    unbind_at-Within name s0 s (find_root name s.roots) h refl w

pub perform_all-Within :
    (cs : List Call) (s0 s : Store) → All Fits cs → Within s0 s → Within s0 (perform_all cs s)
unfolding perform_all
perform_all-Within [] s0 s h w = w
perform_all-Within (c ∷ cs) s0 s h w =
    perform_all-Within cs s0 (perform c s) h.1 (perform-Within c s0 s h.0 w)
