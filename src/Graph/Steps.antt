-- ===== src/Graph/Steps.antt =====
-- Calls of object_graph.c inside a transaction: each can be undone.
use simple_dns.Common.{
  ℕ, ◌≤◌, Option, none, some, List, [], ◌∷◌, ◌++◌, Bytes, length, take, take_all, ltb, get_elem?,
  Bool-cases, ◌≡◌, refl, sym, ap, ◌∙◌, inl, inr, ltb_false→le,
}
use simple_dns.Common.Int.{ℤ}
use simple_dns.Graph.{
  Ref, Field, Node, Cell, Root, TxnRec, Store, find_value, replace_value, insert_at, remove_at,
  set_at, undo_node, undo_root, rec_target,
}
use simple_dns.Graph.Calls.{
  node_at, change_node, int_of, str_of, bytes_of, field_of, composite_of, append_of, old_item_of,
  set_item_of, insert_of, gap_of, remove_of, set_node,
}
use simple_dns.Graph.Nodes.{
  set_field_undone, new_field_undone, list_append_undone, list_set_undone, list_insert_undone,
  list_remove_undone,
}
use simple_dns.Graph.Rollback.{Within, logged-Within, node-Undone}

node_of : Option Cell → Option Node
node_of none = none
node_of (some c) = some c.node

same_node : {a b : Node} → some a ≡ some b → a ≡ b
same_node {a} h = ap (λ (o : Option Node). elim o as (λ _. Node) [ none ↦ a | some b ↦ b ]) h

-- The object of a node that is there.
cell_of :
    (q : Option Cell) (n : Node)
    → elim q as (λ _. Option Node) [ none ↦ none | some c ↦ some c.node ] ≡ some n
    → (c : Cell) × (q ≡ some c) × (c.node ≡ n)
cell_of none n h = cc
cell_of (some c) n h = (c, refl, same_node h)

-- A change of a node that is there, with a record that undoes it.
change_node-Within :
    (o : ℕ) (new old : Node) (r : TxnRec) (s0 s : Store)
    → node_at s o ≡ some old
    → rec_target r ≡ some o
    → ((roots : List Root) → undo_root r roots ≡ roots)
    → undo_node r new ≡ old
    → Within s0 s
    → Within s0 (change_node o new r s).1
change_node-Within o new old r s0 s e at roots undone w =
    let (c, there, same) = cell_of (get_elem? s.objects o) old e in
    logged-Within (set_node o new) r s0 s w
      (node-Undone o new c r s there at roots (undone ∙ sym same))

pub int_of-Within :
    (o : ℕ) (v : ℤ) (s0 s : Store) (q : Option Node)
    → node_at s o ≡ q
    → Within s0 s
    → Within s0 (int_of o v q s).1
unfolding undo_node
int_of-Within o v s0 s none e w = w
int_of-Within o v s0 s (some (Node.composite fs)) e w = w
int_of-Within o v s0 s (some (Node.int z)) e w =
    change_node-Within o (Node.int v) (Node.int z) (TxnRec.wop_set_int o z) s0 s e refl
      (λ roots. refl) refl w
int_of-Within o v s0 s (some (Node.string b)) e w = w
int_of-Within o v s0 s (some (Node.bytes b)) e w = w
int_of-Within o v s0 s (some (Node.list xs)) e w = w

pub str_of-Within :
    (o : ℕ) (v : Bytes) (s0 s : Store) (q : Option Node)
    → node_at s o ≡ q
    → Within s0 s
    → Within s0 (str_of o v q s).1
unfolding undo_node
str_of-Within o v s0 s none e w = w
str_of-Within o v s0 s (some (Node.composite fs)) e w = w
str_of-Within o v s0 s (some (Node.int z)) e w = w
str_of-Within o v s0 s (some (Node.string b)) e w =
    change_node-Within o (Node.string v) (Node.string b) (TxnRec.wop_set_str o b) s0 s e refl
      (λ roots. refl) refl w
str_of-Within o v s0 s (some (Node.bytes b)) e w = w
str_of-Within o v s0 s (some (Node.list xs)) e w = w

pub bytes_of-Within :
    (o : ℕ) (v : Bytes) (s0 s : Store) (q : Option Node)
    → node_at s o ≡ q
    → Within s0 s
    → Within s0 (bytes_of o v q s).1
unfolding undo_node
bytes_of-Within o v s0 s none e w = w
bytes_of-Within o v s0 s (some (Node.composite fs)) e w = w
bytes_of-Within o v s0 s (some (Node.int z)) e w = w
bytes_of-Within o v s0 s (some (Node.string b)) e w = w
bytes_of-Within o v s0 s (some (Node.bytes b)) e w =
    change_node-Within o (Node.bytes v) (Node.bytes b) (TxnRec.wop_set_bytes o b) s0 s e refl
      (λ roots. refl) refl w
bytes_of-Within o v s0 s (some (Node.list xs)) e w = w

pub append_of-Within :
    (o : ℕ) (v : Ref) (s0 s : Store) (q : Option Node)
    → node_at s o ≡ q
    → Within s0 s
    → Within s0 (append_of o v q s).1
append_of-Within o v s0 s none e w = w
append_of-Within o v s0 s (some (Node.composite fs)) e w = w
append_of-Within o v s0 s (some (Node.int z)) e w = w
append_of-Within o v s0 s (some (Node.string b)) e w = w
append_of-Within o v s0 s (some (Node.bytes b)) e w = w
append_of-Within o v s0 s (some (Node.list xs)) e w =
    change_node-Within o (Node.list (xs ++ v ∷ [])) (Node.list xs) (TxnRec.wop_list_append o) s0 s e
      refl (λ roots. refl) (list_append_undone o v xs) w

field_of-Within :
    (o : ℕ) (key : Bytes) (v : Ref) (fs : List Field) (s0 s : Store) (q : Option Ref)
    → length key ≤ 63
    → node_at s o ≡ some (Node.composite fs)
    → find_value key fs ≡ q
    → Within s0 s
    → Within s0 (field_of o key v fs q s).1
field_of-Within o key v fs s0 s none short e f w =
    change_node-Within o _ (Node.composite fs) (TxnRec.wop_set_field o (take 63 key) none) s0 s e
      refl (λ roots. refl) (new_field_undone o (take 63 key) v fs) w
field_of-Within o key v fs s0 s (some old) short e f w =
    let same : take 63 key ≡ key = take_all 63 key short in
    let undone : undo_node (TxnRec.wop_set_field o (take 63 key) (some old))
          (Node.composite (replace_value key v fs))
        ≡ Node.composite fs =
      rw same (set_field_undone o key v old fs f) in
    change_node-Within o (Node.composite (replace_value key v fs)) (Node.composite fs)
      (TxnRec.wop_set_field o (take 63 key) (some old)) s0 s e refl (λ roots. refl) undone w

old_item_of-Within :
    (o i : ℕ) (v : Ref) (xs : List Ref) (s0 s : Store) (q : Option Ref)
    → node_at s o ≡ some (Node.list xs)
    → get_elem? xs i ≡ q
    → Within s0 s
    → Within s0 (old_item_of o i v xs q s).1
old_item_of-Within o i v xs s0 s none e f w = w
old_item_of-Within o i v xs s0 s (some old) e f w =
    change_node-Within o (Node.list (set_at i v xs)) (Node.list xs) (TxnRec.wop_list_set o i old) s0
      s e refl (λ roots. refl) (list_set_undone o i v old xs f) w

gap_of-Within :
    (o i : ℕ) (xs : List Ref) (s0 s : Store) (q : Option Ref)
    → node_at s o ≡ some (Node.list xs)
    → get_elem? xs i ≡ q
    → Within s0 s
    → Within s0 (gap_of o i xs q s).1
gap_of-Within o i xs s0 s none e f w = w
gap_of-Within o i xs s0 s (some old) e f w =
    change_node-Within o (Node.list (remove_at i xs)) (Node.list xs)
      (TxnRec.wop_list_remove o i old) s0 s e refl (λ roots. refl) (list_remove_undone o i old xs f)
      w

insert_list-Within :
    (o i : ℕ) (v : Ref) (xs : List Ref) (s0 s : Store)
    → node_at s o ≡ some (Node.list xs)
    → Within s0 s
    → Within s0 (insert_of o i v (some (Node.list xs)) s).1
insert_list-Within o i v xs s0 s e w = elim (Bool-cases (ltb (length xs) i)) [
  | inl f ↦ rw f w
  | inr f ↦ rw f (
      change_node-Within o (Node.list (insert_at i v xs)) (Node.list xs)
        (TxnRec.wop_list_insert o i) s0 s e refl (λ roots. refl)
        (list_insert_undone o i v xs (ltb_false→le (length xs) i f)) w)
]

pub composite_of-Within :
    (o : ℕ) (key : Bytes) (v : Ref) (s0 s : Store) (q : Option Node)
    → length key ≤ 63
    → node_at s o ≡ q
    → Within s0 s
    → Within s0 (composite_of o key v q s).1
composite_of-Within o key v s0 s none short e w = w
composite_of-Within o key v s0 s (some (Node.composite fs)) short e w =
    field_of-Within o key v fs s0 s (find_value key fs) short e refl w
composite_of-Within o key v s0 s (some (Node.int z)) short e w = w
composite_of-Within o key v s0 s (some (Node.string b)) short e w = w
composite_of-Within o key v s0 s (some (Node.bytes b)) short e w = w
composite_of-Within o key v s0 s (some (Node.list xs)) short e w = w

pub set_item_of-Within :
    (o i : ℕ) (v : Ref) (s0 s : Store) (q : Option Node)
    → node_at s o ≡ q
    → Within s0 s
    → Within s0 (set_item_of o i v q s).1
set_item_of-Within o i v s0 s none e w = w
set_item_of-Within o i v s0 s (some (Node.composite fs)) e w = w
set_item_of-Within o i v s0 s (some (Node.int z)) e w = w
set_item_of-Within o i v s0 s (some (Node.string b)) e w = w
set_item_of-Within o i v s0 s (some (Node.bytes b)) e w = w
set_item_of-Within o i v s0 s (some (Node.list xs)) e w =
    old_item_of-Within o i v xs s0 s (get_elem? xs i) e refl w

pub insert_of-Within :
    (o i : ℕ) (v : Ref) (s0 s : Store) (q : Option Node)
    → node_at s o ≡ q
    → Within s0 s
    → Within s0 (insert_of o i v q s).1
insert_of-Within o i v s0 s none e w = w
insert_of-Within o i v s0 s (some (Node.composite fs)) e w = w
insert_of-Within o i v s0 s (some (Node.int z)) e w = w
insert_of-Within o i v s0 s (some (Node.string b)) e w = w
insert_of-Within o i v s0 s (some (Node.bytes b)) e w = w
insert_of-Within o i v s0 s (some (Node.list xs)) e w = insert_list-Within o i v xs s0 s e w

pub remove_of-Within :
    (o i : ℕ) (s0 s : Store) (q : Option Node)
    → node_at s o ≡ q
    → Within s0 s
    → Within s0 (remove_of o i q s).1
remove_of-Within o i s0 s none e w = w
remove_of-Within o i s0 s (some (Node.composite fs)) e w = w
remove_of-Within o i s0 s (some (Node.int z)) e w = w
remove_of-Within o i s0 s (some (Node.string b)) e w = w
remove_of-Within o i s0 s (some (Node.bytes b)) e w = w
remove_of-Within o i s0 s (some (Node.list xs)) e w =
    gap_of-Within o i xs s0 s (get_elem? xs i) e refl w
