-- ===== src/Graph/Rollback.antt =====
-- Transactions of object_graph.c: `txn_abort` against the store before `txn_begin`.
use simple_dns.Common.{
  ℕ, Bool, true, false, Option, none, some, List, [], ◌∷◌, ◌++◌, Bytes, length, if◌then◌else◌,
  get_elem?, ◌≡◌, refl, sym, ap, ◌∙◌, append_assoc,
}
use mathlib.Core.Path.{subst}
use simple_dns.Graph.{
  Node, Cell, Root, TxnRec, Txn, Store, rec_target, on_node, find_root, undo_at, undo_node,
  undo_root, apply_undo,
}
use simple_dns.Graph.Txns.{auto_begin, auto_end, txn_begin, undo_all, logged, log_push}
use simple_dns.Graph.Calls.{set_node, push_object}
use simple_dns.Graph.Nodes.{on_node-on_node}
use simple_dns.Graph.Roots.{Unique, has_name}

-- Roots `u` are at least those of `t`: the same map, with the slots of `t` and perhaps more.
pub record Same (u t : List Root) : Type 0 where
  pub lookup : (name : Bytes) → find_root name u ≡ find_root name t
  pub unique : Unique u
  pub slots : (name : Bytes) → has_name name t ≡ true → has_name name u ≡ true

-- A store `u` that has all of `t`, and perhaps more objects behind.
pub record Covers (u t : Store) : Type 0 where
  pub extra : List Cell
  pub objects_same : u.objects ≡ t.objects ++ extra
  pub roots_same : Same u.roots t.roots

-- From `s` to `t` by a change whose record is `r`.
pub record Undone (r : TxnRec) (s t : Store) : Type 0 where
  pub active : t.active_txn ≡ s.active_txn
  pub unique : Unique s.roots → Unique t.roots
  pub back : (u : Store) → Unique s.roots → Covers u t → Covers (apply_undo r u) s

-- Within a transaction that began with the store `s0`.
pub record Within (s0 s : Store) : Type 0 where
  pub txn : Txn
  pub active : s.active_txn ≡ some txn
  pub begin_obj_count : txn.begin_obj_count ≡ length s0.objects
  pub begin_next_id : txn.begin_next_id ≡ s0.next_id
  pub unique : Unique s.roots
  pub back : (u : Store) → Covers u s → Covers (undo_all txn.log u) s0

-- A call that is logged inside a transaction.
abbrev pushed : TxnRec → Txn → Store → Store
pushed r t s = record s { active_txn = some (record t { log = r ∷ t.log }) }

same_either {ℓ} : {A : Type ℓ} (b : Bool) (a : A) → (if b then a else a) ≡ a
same_either true a = refl
same_either false a = refl

begun_already : (s : Store) (t : Txn) → s.active_txn ≡ some t → txn_begin s ≡ (false, s)
unfolding txn_begin
begun_already s t e =
    ap
      (λ (o : Option Txn). elim o as (λ _. Bool × Store) [
        | some t ↦ (false, s)
        | none ↦ (
          true,
          record s {
            active_txn = some record {
              log = [];
              begin_obj_count = length s.objects;
              begin_next_id = s.next_id;
              begin_root_count = length s.roots;
            };
          },
        )
      ])
      e

begin_inside : (s : Store) (t : Txn) → s.active_txn ≡ some t → auto_begin s ≡ (false, s)
unfolding auto_begin
begin_inside s t e =
    ap (λ (p : Bool × Store). if s.has_path then p else (false, s)) (begun_already s t e)
    ∙ same_either s.has_path (false, s)

push_inside :
    (r : TxnRec) (s : Store) (t : Txn) → s.active_txn ≡ some t → log_push r s ≡ pushed r t s
unfolding log_push
push_inside r s t e =
    ap
      (λ (o : Option Txn). elim o as (λ _. Store) [
        | none ↦ s
        | some t ↦ record s { active_txn = some (record t { log = r ∷ t.log }) }
      ])
      e

logged_inside :
    (change : Store → Store) (r : TxnRec) (s : Store) (t : Txn)
    → s.active_txn ≡ some t
    → (change s).active_txn ≡ some t
    → logged change r s ≡ (true, pushed r t (change s))
unfolding logged auto_end
logged_inside change r s t e k =
    ap (λ (p : Bool × Store). auto_end p.0 (log_push r (change p.1))) (begin_inside s t e)
    ∙ ap (λ (x : Store). (true, x)) (push_inside r (change s) t k)

pushed-Within :
    (r : TxnRec) (s0 s t : Store) (w : Within s0 s) → Undone r s t → Within s0 (pushed r w.txn t)
unfolding undo_all
pushed-Within r s0 s t w h = record {
  txn = record w.txn { log = r ∷ w.txn.log };
  active = refl;
  begin_obj_count = w.begin_obj_count;
  begin_next_id = w.begin_next_id;
  unique = h.unique w.unique;
  back = λ u c. w.back (apply_undo r u) (
      h.back u w.unique
        (record { extra = c.extra; objects_same = c.objects_same; roots_same = c.roots_same }));
}

pub logged-Within :
    (change : Store → Store) (r : TxnRec) (s0 s : Store)
    → Within s0 s
    → Undone r s (change s)
    → Within s0 (logged change r s).1
logged-Within change r s0 s w h =
    let call : (logged change r s).1 ≡ pushed r w.txn (change s) =
      ap (λ (p : Bool × Store). p.1)
        (logged_inside change r s w.txn w.active (h.active ∙ w.active)) in
    subst (Within s0) (sym call) (pushed-Within r s0 s (change s) w h)

-- A change of one object.
pub node-Undone :
    (o : ℕ) (new : Node) (c : Cell) (r : TxnRec) (s : Store)
    → get_elem? s.objects o ≡ some c
    → rec_target r ≡ some o
    → ((roots : List Root) → undo_root r roots ≡ roots)
    → undo_node r new ≡ c.node
    → Undone r s (set_node o new s)
unfolding set_node apply_undo
node-Undone o new c r s h at roots undone = record {
  active = refl;
  unique = λ x. x;
  back = λ u _ k. record {
    extra = k.extra;
    objects_same =
        ap (λ (t : Option ℕ). undo_at t r u.objects) at
        ∙ ap (on_node o (undo_node r)) k.objects_same
        ∙ on_node-on_node o (undo_node r) new c s.objects k.extra h undone;
    roots_same = record {
      lookup = λ name. ap (find_root name) (roots u.roots) ∙ k.roots_same.lookup name;
      unique = subst Unique (sym (roots u.roots)) k.roots_same.unique;
      slots = λ name e. ap (has_name name) (roots u.roots) ∙ k.roots_same.slots name e;
    };
  };
}

-- A new object.
pub create-Undone : (node : Node) (s : Store) → Undone TxnRec.is_create s (push_object node s)
unfolding apply_undo
create-Undone node s = record {
  active = refl;
  unique = λ x. x;
  back = λ u _ k. record {
    extra = record { id = s.next_id; node = node } ∷ k.extra;
    objects_same =
        k.objects_same
        ∙ append_assoc s.objects (record { id = s.next_id; node = node } ∷ []) k.extra;
    roots_same = k.roots_same;
  };
}
