-- ===== src/Graph/Calls.antt =====
-- object_graph.c, the calls that change a store: new objects, setters, lists and roots.
use simple_dns.Common.{
  ℕ, ◌+◌, ◌%◌, ◌^◌, Bool, true, false, Option, none, some, List, [], ◌∷◌, ◌++◌, Bytes, length, take,
  ltb, if◌then◌else◌, get_elem?,
}
use simple_dns.Common.Int.{ℤ}
use simple_dns.Graph.{
  Ref, Field, Node, TxnRec, Store, on_node, find_value, replace_value, insert_at, remove_at, set_at,
  find_root, set_root, release_root,
}
use simple_dns.Graph.Txns.{logged}

abbrev pub push_object : Node → Store → Store
push_object node s = record s {
  objects = s.objects ++ record { id = s.next_id; node = node } ∷ [];
  next_id = (s.next_id + 1) % 2 ^ 32;
}

-- The new object is the last one; false stands for NULL.
unfoldable pub new_node : Node → Store → Bool × Store
unfolding logged
new_node node s = logged (push_object node) TxnRec.is_create s

unfoldable pub new_object : Store → Bool × Store
unfolding new_node
new_object s = new_node (Node.composite []) s

unfoldable pub new_int : ℤ → Store → Bool × Store
unfolding new_node
new_int v s = new_node (Node.int v) s

unfoldable pub new_string : Bytes → Store → Bool × Store
unfolding new_node
new_string v s = new_node (Node.string v) s

unfoldable pub new_bytes : Bytes → Store → Bool × Store
unfolding new_node
new_bytes v s = new_node (Node.bytes v) s

unfoldable pub new_list : Store → Bool × Store
unfolding new_node
new_list s = new_node (Node.list []) s

abbrev pub node_at : Store → ℕ → Option Node
node_at s o = elim (get_elem? s.objects o) [ none ↦ none | some c ↦ some c.node ]

unfoldable pub set_node : ℕ → Node → Store → Store
unfolding on_node
set_node o node s = record s { objects = on_node o (λ _. node) s.objects }

abbrev pub refused : Store → Bool × Store
refused s = (false, s)

abbrev pub change_node : ℕ → Node → TxnRec → Store → Bool × Store
change_node o node r s = logged (set_node o node) r s

abbrev pub int_of : ℕ → ℤ → Option Node → Store → Bool × Store
int_of o v (some (Node.int old)) = change_node o (Node.int v) (TxnRec.wop_set_int o old)
int_of o v _ = refused

abbrev pub str_of : ℕ → Bytes → Option Node → Store → Bool × Store
str_of o v (some (Node.string old)) = change_node o (Node.string v) (TxnRec.wop_set_str o old)
str_of o v _ = refused

abbrev pub bytes_of : ℕ → Bytes → Option Node → Store → Bool × Store
bytes_of o v (some (Node.bytes old)) = change_node o (Node.bytes v) (TxnRec.wop_set_bytes o old)
bytes_of o v _ = refused

-- The field that is there, or a new one.
abbrev pub field_of : ℕ → Bytes → Ref → List Field → Option Ref → Store → Bool × Store
field_of o key v fs (some old) =
    change_node o (Node.composite (replace_value key v fs))
      (TxnRec.wop_set_field o (take 63 key) (some old))
field_of o key v fs none =
    change_node o (Node.composite (fs ++ record { key = take 63 key; value = v } ∷ []))
      (TxnRec.wop_set_field o (take 63 key) none)

abbrev pub composite_of : ℕ → Bytes → Ref → Option Node → Store → Bool × Store
composite_of o key v (some (Node.composite fs)) = field_of o key v fs (find_value key fs)
composite_of o key v _ = refused

abbrev pub append_of : ℕ → Ref → Option Node → Store → Bool × Store
append_of o v (some (Node.list xs)) =
    change_node o (Node.list (xs ++ v ∷ [])) (TxnRec.wop_list_append o)
append_of o v _ = refused

-- `none` for an index at or behind the count
abbrev pub old_item_of : ℕ → ℕ → Ref → List Ref → Option Ref → Store → Bool × Store
old_item_of o i v xs (some old) =
    change_node o (Node.list (set_at i v xs)) (TxnRec.wop_list_set o i old)
old_item_of o i v xs none = refused

abbrev pub set_item_of : ℕ → ℕ → Ref → Option Node → Store → Bool × Store
set_item_of o i v (some (Node.list xs)) = old_item_of o i v xs (get_elem? xs i)
set_item_of o i v _ = refused

abbrev pub insert_of : ℕ → ℕ → Ref → Option Node → Store → Bool × Store
insert_of o i v (some (Node.list xs)) s =
    if ltb (length xs) i
    then (false, s)
    else change_node o (Node.list (insert_at i v xs)) (TxnRec.wop_list_insert o i) s
insert_of o i v _ s = (false, s)

abbrev pub gap_of : ℕ → ℕ → List Ref → Option Ref → Store → Bool × Store
gap_of o i xs (some old) =
    change_node o (Node.list (remove_at i xs)) (TxnRec.wop_list_remove o i old)
gap_of o i xs none = refused

abbrev pub remove_of : ℕ → ℕ → Option Node → Store → Bool × Store
remove_of o i (some (Node.list xs)) = gap_of o i xs (get_elem? xs i)
remove_of o i _ = refused

unfoldable pub set_int : ℕ → ℤ → Store → Bool × Store
unfolding logged set_node
set_int o v s = int_of o v (node_at s o) s

unfoldable pub set_str : ℕ → Bytes → Store → Bool × Store
unfolding logged set_node
set_str o v s = str_of o v (node_at s o) s

unfoldable pub set_bytes : ℕ → Bytes → Store → Bool × Store
unfolding logged set_node
set_bytes o v s = bytes_of o v (node_at s o) s

unfoldable pub set_field : ℕ → Bytes → Ref → Store → Bool × Store
unfolding logged set_node find_value replace_value
set_field o key v s = composite_of o key v (node_at s o) s

unfoldable pub list_append : ℕ → Ref → Store → Bool × Store
unfolding logged set_node
list_append o v s = append_of o v (node_at s o) s

unfoldable pub list_set : ℕ → ℕ → Ref → Store → Bool × Store
unfolding logged set_node
list_set o i v s = set_item_of o i v (node_at s o) s

unfoldable pub list_insert : ℕ → ℕ → Ref → Store → Bool × Store
unfolding logged set_node
list_insert o i v s = insert_of o i v (node_at s o) s

unfoldable pub list_remove : ℕ → ℕ → Store → Bool × Store
unfolding logged set_node
list_remove o i s = remove_of o i (node_at s o) s

abbrev pub bind_at : Bytes → Ref → Option Ref → Store → Bool × Store
bind_at name o (some old) =
    logged (λ s. record s { roots = set_root name o s.roots })
      (TxnRec.wop_bind_root (take 63 name) (some old))
bind_at name o none =
    logged
      (λ s. record s {
        roots = s.roots ++ record { name = take 63 name; obj = o; used = true } ∷ [];
      })
      (TxnRec.wop_bind_root (take 63 name) none)

unfoldable pub bind : Bytes → Ref → Store → Bool × Store
unfolding logged find_root set_root
bind name o s = bind_at name o (find_root name s.roots) s

abbrev pub unbind_at : Bytes → Option Ref → Store → Bool × Store
unbind_at name (some old) =
    logged (λ s. record s { roots = release_root name s.roots })
      (TxnRec.wop_unbind_root (take 63 name) old)
unbind_at name none = refused

unfoldable pub unbind : Bytes → Store → Bool × Store
unfolding logged find_root release_root
unbind name s = unbind_at name (find_root name s.roots) s

-- `get`
unfoldable pub get_unlocked : Store → Bytes → Ref
unfolding find_root
get_unlocked s name = elim (find_root name s.roots) [ none ↦ none | some o ↦ o ]
