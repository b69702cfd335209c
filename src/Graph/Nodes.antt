-- ===== src/Graph/Nodes.antt =====
-- Undo records of object_graph.c against the changes that they belong to, on the objects.
use simple_dns.Common.{
  ℕ, zero, suc, ◌-◌, ◌≤◌, ◌<◌, true, Option, none, some, List, [], ◌∷◌, ◌++◌, Bytes, length, take,
  get_elem?, Bool-cases, ◌≡◌, refl, sym, ap, ◌∙◌, inl, inr, arith, length-append,
  take-append_length, lt→ltb,
}
use simple_dns.Common.Int.{ℤ}
use simple_dns.Common.Text.{str_eq}
use simple_dns.Cidr.{same_key}
use simple_dns.Graph.{
  Ref, Field, Node, Cell, TxnRec, on_node, find_value, replace_value, without_last, insert_at,
  remove_at, set_at, undo_node,
}

module _ {ℓ} {A : Type ℓ} where
  abbrev content : A → Option A → A
  content a none = a
  content a (some b) = b

  pub same_content : {a b : A} → some a ≡ some b → a ≡ b
  same_content {a} {b} h = ap (content a) h

  remove_at-insert_at :
      (i : ℕ) (v : A) (xs : List A) → i ≤ length xs → remove_at i (insert_at i v xs) ≡ xs
  remove_at-insert_at zero v xs h = refl
  remove_at-insert_at (suc i) v [] h = absurd (omega arith)
  remove_at-insert_at (suc i) v (x ∷ xs) h = ap (◌∷◌ x) (remove_at-insert_at i v xs (omega arith))

  length-insert_at : (i : ℕ) (v : A) (xs : List A) → i ≤ length xs → i < length (insert_at i v xs)
  length-insert_at zero v xs h = omega arith
  length-insert_at (suc i) v [] h = absurd (omega arith)
  length-insert_at (suc i) v (x ∷ xs) h = omega (arith, length-insert_at i v xs (omega arith))

  insert_at-remove_at :
      (i : ℕ) (v : A) (xs : List A) → get_elem? xs i ≡ some v → insert_at i v (remove_at i xs) ≡ xs
  insert_at-remove_at i v [] h = cc
  insert_at-remove_at zero v (x ∷ xs) h = ap (λ (y : A). y ∷ xs) (sym (same_content h))
  insert_at-remove_at (suc i) v (x ∷ xs) h = ap (◌∷◌ x) (insert_at-remove_at i v xs h)

  set_at-set_at :
      (i : ℕ) (v old : A) (xs : List A)
      → get_elem? xs i ≡ some old
      → set_at i old (set_at i v xs) ≡ xs
  set_at-set_at i v old [] h = refl
  set_at-set_at zero v old (x ∷ xs) h = ap (λ (y : A). y ∷ xs) (sym (same_content h))
  set_at-set_at (suc i) v old (x ∷ xs) h = ap (◌∷◌ x) (set_at-set_at i v old xs h)

  length-set_at :
      (i : ℕ) (v old : A) (xs : List A) → get_elem? xs i ≡ some old → i < length (set_at i v xs)
  length-set_at i v old [] h = cc
  length-set_at zero v old (x ∷ xs) h = omega arith
  length-set_at (suc i) v old (x ∷ xs) h = omega (arith, length-set_at i v old xs h)

str_eq_self : (s : Bytes) → str_eq s s ≡ true
unfolding str_eq
str_eq_self [] = refl
str_eq_self (c ∷ s) = ground (arith, str_eq_self s)

pub same_key_self : (key : Bytes) → same_key key key ≡ true
same_key_self key = str_eq_self (take 64 key)

replace_value-replace_value :
    (key : Bytes) (v old : Ref) (fs : List Field)
    → find_value key fs ≡ some old
    → replace_value key old (replace_value key v fs) ≡ fs
unfolding find_value replace_value
replace_value-replace_value key v old [] h = refl
replace_value-replace_value key v old (f ∷ fs) h = elim (Bool-cases (same_key f.key key)) [
  | inl e ↦
      let here : some f.value ≡ some old = rw (sym h) (rw e refl) in
      rw (e, e) (ap (λ (w : Ref). record f { value = w } ∷ fs) (sym (same_content here)))
  | inr e ↦
      let later : find_value key fs ≡ some old = rw (sym h) (rw e refl) in
      rw (e, e) (ap (◌∷◌ f) (replace_value-replace_value key v old fs later))
]

without_last-append :
    (key : Bytes) (f : Field) (fs : List Field)
    → same_key f.key key ≡ true
    → without_last key (fs ++ f ∷ []) ≡ some fs
unfolding without_last
without_last-append key f [] h = rw h refl
without_last-append key f (g ∷ fs) h = rw (without_last-append key f fs h) refl

-- A change of one node, undone in a longer list.
pub on_node-on_node :
    (o : ℕ) (f : Node → Node) (new : Node) (c : Cell) (cs extra : List Cell)
    → get_elem? cs o ≡ some c
    → f new ≡ c.node
    → on_node o f (on_node o (λ _. new) cs ++ extra) ≡ cs ++ extra
unfolding on_node
on_node-on_node o f new c [] extra h e = cc
on_node-on_node zero f new c (d ∷ cs) extra h e =
    let same : f new ≡ d.node = e ∙ ap (λ (x : Cell). x.node) (sym (same_content h)) in
    ap (λ (n : Node). record d { node = n } ∷ (cs ++ extra)) same
on_node-on_node (suc o) f new c (d ∷ cs) extra h e =
    ap (◌∷◌ d) (on_node-on_node o f new c cs extra h e)

pub set_int_undone :
    (o : ℕ) (v old : ℤ) → undo_node (TxnRec.wop_set_int o old) (Node.int v) ≡ Node.int old
unfolding undo_node
set_int_undone o v old = refl

pub set_field_undone :
    (o : ℕ) (key : Bytes) (v old : Ref) (fs : List Field)
    → find_value key fs ≡ some old
    → undo_node (TxnRec.wop_set_field o key (some old)) (Node.composite (replace_value key v fs))
      ≡ Node.composite fs
unfolding undo_node
set_field_undone o key v old fs h = ap Node.composite (replace_value-replace_value key v old fs h)

pub new_field_undone :
    (o : ℕ) (key : Bytes) (v : Ref) (fs : List Field)
    → undo_node
        (TxnRec.wop_set_field o key none)
        (Node.composite (fs ++ record { key = key; value = v } ∷ []))
      ≡ Node.composite fs
unfolding undo_node
new_field_undone o key v fs =
    rw (without_last-append key (record { key = key; value = v }) fs (same_key_self key)) refl

pub list_append_undone :
    (o : ℕ) (v : Ref) (xs : List Ref)
    → undo_node (TxnRec.wop_list_append o) (Node.list (xs ++ v ∷ [])) ≡ Node.list xs
unfolding undo_node
list_append_undone o v xs =
    let count : length (xs ++ v ∷ []) - 1 ≡ length xs = omega (arith, length-append xs (v ∷ [])) in
    rw (count, take-append_length xs (v ∷ [])) refl

pub list_set_undone :
    (o i : ℕ) (v old : Ref) (xs : List Ref)
    → get_elem? xs i ≡ some old
    → undo_node (TxnRec.wop_list_set o i old) (Node.list (set_at i v xs)) ≡ Node.list xs
unfolding undo_node
list_set_undone o i v old xs h =
    rw (lt→ltb i (length (set_at i v xs)) (length-set_at i v old xs h), set_at-set_at i v old xs h)
      refl

pub list_insert_undone :
    (o i : ℕ) (v : Ref) (xs : List Ref)
    → i ≤ length xs
    → undo_node (TxnRec.wop_list_insert o i) (Node.list (insert_at i v xs)) ≡ Node.list xs
unfolding undo_node
list_insert_undone o i v xs h =
    rw
      (
        lt→ltb i (length (insert_at i v xs)) (length-insert_at i v xs h),
        remove_at-insert_at i v xs h,
      )
      refl

pub list_remove_undone :
    (o i : ℕ) (old : Ref) (xs : List Ref)
    → get_elem? xs i ≡ some old
    → undo_node (TxnRec.wop_list_remove o i old) (Node.list (remove_at i xs)) ≡ Node.list xs
unfolding undo_node
list_remove_undone o i old xs h = ap Node.list (insert_at-remove_at i old xs h)
