-- ===== src/Graph.antt =====
-- object_graph.c, the store in memory: objects, roots, and transactions with their undo log. A pointer to
-- an object is its index in `objects`, or `none` for NULL; allocations succeed. Classes, indexes and
-- virtual lists are left out. What each call of `wal_write_txn` will report is a list.
pub mod Txns
pub mod Calls
pub mod Nodes
pub mod Roots
pub mod Rollback
pub mod Steps
pub mod Names
pub mod Perform
pub mod Abort
use simple_dns.Common.{
  ℕ, zero, suc, ◌+◌, ◌-◌, Bool, true, false, Option, none, some, List, [], ◌∷◌, ◌++◌, Bytes, length,
  take, ltb, leb, if◌then◌else◌, get_elem?,
}
use simple_dns.Common.Int.{ℤ}
use simple_dns.Cidr.{same_key}

abbrev pub Ref : Type 0
Ref = Option ℕ

pub record Field : Type 0 where
  pub key : Bytes
  pub value : Ref

-- `kind` and the union behind it
pub data Node : Type 0 where
  composite : List Field → Node
  int : ℤ → Node
  string : Bytes → Node
  bytes : Bytes → Node
  list : List Ref → Node

pub record Cell : Type 0 where
  pub id : ℕ
  pub node : Node

pub record Root : Type 0 where
  pub name : Bytes
  pub obj : Ref
  pub used : Bool

-- A record by its `op`, with what the undo reads of it: the target, the key, the index and the old
-- value, which is `none` where `had_prev` is false.
pub data TxnRec : Type 0 where
  is_create : TxnRec
  wop_set_int : ℕ → ℤ → TxnRec
  wop_set_str : ℕ → Bytes → TxnRec
  wop_set_bytes : ℕ → Bytes → TxnRec
  wop_set_field : ℕ → Bytes → Option Ref → TxnRec
  wop_list_append : ℕ → TxnRec
  wop_list_set : ℕ → ℕ → Ref → TxnRec
  wop_list_insert : ℕ → ℕ → TxnRec
  wop_list_remove : ℕ → ℕ → Ref → TxnRec
  wop_bind_root : Bytes → Option Ref → TxnRec
  wop_unbind_root : Bytes → Ref → TxnRec

-- `log` has the last record first.
pub record Txn : Type 0 where
  pub log : List TxnRec
  pub begin_obj_count : ℕ
  pub begin_next_id : ℕ
  pub begin_root_count : ℕ

-- `has_path` is that of a store on disk, which has a WAL.
pub record Store : Type 0 where
  pub objects : List Cell
  pub next_id : ℕ
  pub roots : List Root
  pub active_txn : Option Txn
  pub has_path : Bool
  pub wal : List Bool

-- A node at an index, changed in place.
unfoldable pub on_node : ℕ → (Node → Node) → List Cell → List Cell
on_node i f [] = []
on_node zero f (c ∷ cs) = record c { node = f c.node } ∷ cs
on_node (suc i) f (c ∷ cs) = c ∷ on_node i f cs

unfoldable pub find_value : Bytes → List Field → Option Ref
find_value key [] = none
find_value key (f ∷ fs) =
    let rest = find_value key fs in if same_key f.key key then some f.value else rest

unfoldable pub replace_value : Bytes → Ref → List Field → List Field
replace_value key v [] = []
replace_value key v (f ∷ fs) =
    let rest = replace_value key v fs in
    if same_key f.key key then record f { value = v } ∷ fs else f ∷ rest

abbrev or_here : Option (List Field) → Field → List Field → Bytes → Option (List Field)
or_here (some rest) f fs key = some (f ∷ rest)
or_here none f fs key = if same_key f.key key then some fs else none

-- Without the last field of the key.
unfoldable pub without_last : Bytes → List Field → Option (List Field)
without_last key [] = none
without_last key (f ∷ fs) = or_here (without_last key fs) f fs key

abbrev pub or_all : Option (List Field) → List Field → List Field
or_all none fs = fs
or_all (some rest) fs = rest

module _ {ℓ} {A : Type ℓ} where
  -- The `memmove` that opens a gap, and the item put into it.
  abbrev pub insert_at : ℕ → A → List A → List A
  insert_at zero v xs = v ∷ xs
  insert_at (suc i) v [] = v ∷ []
  insert_at (suc i) v (x ∷ xs) = x ∷ insert_at i v xs

  -- The `memmove` that closes a gap.
  abbrev pub remove_at : ℕ → List A → List A
  remove_at i [] = []
  remove_at zero (x ∷ xs) = xs
  remove_at (suc i) (x ∷ xs) = x ∷ remove_at i xs

  abbrev pub set_at : ℕ → A → List A → List A
  set_at i v [] = []
  set_at zero v (x ∷ xs) = v ∷ xs
  set_at (suc i) v (x ∷ xs) = x ∷ set_at i v xs

unfoldable pub find_root : Bytes → List Root → Option Ref
find_root name [] = none
find_root name (r ∷ rs) =
    let rest = find_root name rs in
    if r.used then (if same_key r.name name then some r.obj else rest) else rest

unfoldable pub set_root : Bytes → Ref → List Root → List Root
set_root name o [] = []
set_root name o (r ∷ rs) =
    let rest = r ∷ set_root name o rs in
    if r.used then (if same_key r.name name then record r { obj = o } ∷ rs else rest) else rest

-- `used = false; obj = NULL` of the root that is found
unfoldable pub release_root : Bytes → List Root → List Root
release_root name [] = []
release_root name (r ∷ rs) =
    let rest = r ∷ release_root name rs in
    if r.used
    then (if same_key r.name name then record r { obj = none; used = false } ∷ rs else rest)
    else rest

-- `used = true` again, at the first slot of the name that is not used
unfoldable pub restore_root : Bytes → Ref → List Root → List Root
restore_root name o [] = []
restore_root name o (r ∷ rs) =
    let rest = r ∷ restore_root name o rs in
    if r.used
    then rest
    else if same_key r.name name
    then record r { obj = o; used = true } ∷ rs
    else rest

-- What `apply_undo` does to the target of a record.
unfoldable pub undo_node : TxnRec → Node → Node
unfolding replace_value without_last
undo_node (TxnRec.wop_set_int o old) (Node.int v) = Node.int old
undo_node (TxnRec.wop_set_str o old) (Node.string v) = Node.string old
undo_node (TxnRec.wop_set_bytes o old) (Node.bytes v) = Node.bytes old
undo_node (TxnRec.wop_set_field o key (some old)) (Node.composite fs) =
    Node.composite (replace_value key old fs)
undo_node (TxnRec.wop_set_field o key none) (Node.composite fs) =
    Node.composite (or_all (without_last key fs) fs)
undo_node (TxnRec.wop_list_append o) (Node.list xs) = Node.list (take (length xs - 1) xs)
undo_node (TxnRec.wop_list_set o i old) (Node.list xs) =
    Node.list (if ltb i (length xs) then set_at i old xs else xs)
undo_node (TxnRec.wop_list_insert o i) (Node.list xs) =
    Node.list (if ltb i (length xs) then remove_at i xs else xs)
undo_node (TxnRec.wop_list_remove o i old) (Node.list xs) = Node.list (insert_at i old xs)
undo_node _ node = node

abbrev pub rec_target : TxnRec → Option ℕ
rec_target (TxnRec.wop_set_int o old) = some o
rec_target (TxnRec.wop_set_str o old) = some o
rec_target (TxnRec.wop_set_bytes o old) = some o
rec_target (TxnRec.wop_set_field o key old) = some o
rec_target (TxnRec.wop_list_append o) = some o
rec_target (TxnRec.wop_list_set o i old) = some o
rec_target (TxnRec.wop_list_insert o i) = some o
rec_target (TxnRec.wop_list_remove o i old) = some o
rec_target _ = none

abbrev pub undo_at : Option ℕ → TxnRec → List Cell → List Cell
undo_at none r cs = cs
undo_at (some o) r cs = on_node o (undo_node r) cs

abbrev pub undo_root : TxnRec → List Root → List Root
undo_root (TxnRec.wop_bind_root name (some old)) roots = set_root name old roots
undo_root (TxnRec.wop_bind_root name none) roots = release_root name roots
undo_root (TxnRec.wop_unbind_root name old) roots = restore_root name old roots
undo_root _ roots = roots

unfoldable pub apply_undo : TxnRec → Store → Store
unfolding on_node undo_node set_root release_root restore_root
apply_undo r s = record s {
  objects = undo_at (rec_target r) r s.objects;
  roots = undo_root r s.roots;
}
