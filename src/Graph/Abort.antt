-- ===== src/Graph/Abort.antt =====
-- Transactions of object_graph.c as a whole: `txn_begin`, calls, and `txn_abort` or a commit that fails.
use simple_dns.Common.{
  ℕ, Bool, true, false, Option, none, some, List, [], ◌∷◌, Bytes, length, take, All, if◌then◌else◌,
  ◌≡◌, refl, sym, ap, ◌∙◌, append-nil, take-append_length,
}
use mathlib.Core.Path.{subst}
use simple_dns.Graph.{Ref, Txn, Store}
use simple_dns.Graph.Txns.{
  wal_write_txn, wal_outcome, committed, txn_begin, txn_abort, txn_commit, undo_all, rewind,
}
use simple_dns.Graph.Calls.{get_unlocked}
use simple_dns.Graph.Roots.{Unique, find_root-trim}
use simple_dns.Graph.Rollback.{Covers, Within}
use simple_dns.Graph.Perform.{Call, Fits, perform_all, perform_all-Within}

abbrev first_txn : Store → Txn
first_txn s = record {
  log = [];
  begin_obj_count = length s.objects;
  begin_next_id = s.next_id;
  begin_root_count = length s.roots;
}

begun_txn :
    (s : Store)
    → s.active_txn ≡ none
    → txn_begin s ≡ (true, record s { active_txn = some (first_txn s) })
unfolding txn_begin
begun_txn s e =
    ap
      (λ (o : Option Txn). elim o as (λ _. Bool × Store) [
        | some t ↦ (false, s)
        | none ↦ (true, record s { active_txn = some (first_txn s) })
      ])
      e

begun_txn-Within :
    (s : Store) → Unique s.roots → Within s (record s { active_txn = some (first_txn s) })
unfolding undo_all
begun_txn-Within s h = record {
  txn = first_txn s;
  active = refl;
  begin_obj_count = refl;
  begin_next_id = refl;
  unique = h;
  back =
      λ u c. record { extra = c.extra; objects_same = c.objects_same; roots_same = c.roots_same };
}

covers_itself : (s : Store) → Unique s.roots → Covers s s
covers_itself s h = record {
  extra = [];
  objects_same = sym (append-nil s.objects);
  roots_same = record { lookup = λ name. refl; unique = h; slots = λ name e. e };
}

-- The store `t` is `s` again: its objects, its next id, no transaction, and its roots as a map.
pub record Restored (s t : Store) : Type 0 where
  pub objects : t.objects ≡ s.objects
  pub next_id : t.next_id ≡ s.next_id
  pub no_txn : t.active_txn ≡ none
  pub roots : (name : Bytes) → get_unlocked t name ≡ get_unlocked s name

rewind-Restored :
    (s0 s : Store) (w : Within s0 s) → Restored s0 (rewind w.txn (undo_all w.txn.log s))
unfolding get_unlocked
rewind-Restored s0 s w =
    let c : Covers (undo_all w.txn.log s) s0 = w.back s (covers_itself s w.unique) in
    record {
      objects =
          ap (λ (n : ℕ). take n (undo_all w.txn.log s).objects) w.begin_obj_count
          ∙ ap (take (length s0.objects)) c.objects_same
          ∙ take-append_length s0.objects c.extra;
      next_id = w.begin_next_id;
      no_txn = refl;
      roots = λ name.
          ap (λ (o : Option Ref). elim o as (λ _. Ref) [ none ↦ none | some r ↦ r ])
            (find_root-trim name w.txn.begin_root_count (undo_all w.txn.log s).roots
              ∙ c.roots_same.lookup name);
    }

aborted :
    (s : Store) (t : Txn)
    → s.active_txn ≡ some t
    → txn_abort s ≡ (true, rewind t (undo_all t.log s))
unfolding txn_abort
aborted s t e =
    ap
      (λ (o : Option Txn). elim o as (λ _. Bool × Store) [
        | none ↦ (false, s)
        | some t ↦ (true, rewind t (undo_all t.log s))
      ])
      e

abort_inside : (s0 s : Store) → Within s0 s → ((txn_abort s).0 ≡ true) × Restored s0 (txn_abort s).1
abort_inside s0 s w =
    let a : txn_abort s ≡ (true, rewind w.txn (undo_all w.txn.log s)) = aborted s w.txn w.active in
    (
      ap (λ (p : Bool × Store). p.0) a,
      subst (λ (p : Bool × Store). Restored s0 p.1) (sym a) (rewind-Restored s0 s w),
    )

inside :
    (s : Store) (cs : List Call)
    → s.active_txn ≡ none
    → Unique s.roots
    → All Fits cs
    → Within s (perform_all cs (txn_begin s).1)
inside s cs e h fits =
    let first : Store = record s { active_txn = some (first_txn s) } in
    subst (λ (p : Bool × Store). Within s (perform_all cs p.1)) (sym (begun_txn s e))
      (perform_all-Within cs s first fits (begun_txn-Within s h))

-- A transaction that is begun in a store whose roots in use have different names, whatever objects it
-- creates, fields, items and values it sets and roots it binds and unbinds, with keys and names
-- shorter than 64 bytes, and then aborted: `txn_abort` succeeds, and the store has the objects, the
-- next id and the roots, as a map, that it had before `txn_begin`, and no transaction.
pub txn_abort-perform_all :
    (s : Store) (cs : List Call)
    → s.active_txn ≡ none
    → Unique s.roots
    → All Fits cs
    → ((txn_abort (perform_all cs (txn_begin s).1)).0 ≡ true)
      × Restored s (txn_abort (perform_all cs (txn_begin s).1)).1
txn_abort-perform_all s cs e h fits =
    abort_inside s (perform_all cs (txn_begin s).1) (inside s cs e h fits)

less_wal : (s0 s : Store) (wal : List Bool) → Within s0 s → Within s0 (record s { wal = wal })
less_wal s0 s wal w = record {
  txn = w.txn;
  active = w.active;
  begin_obj_count = w.begin_obj_count;
  begin_next_id = w.begin_next_id;
  unique = w.unique;
  back = λ u c.
      w.back u
        (record { extra = c.extra; objects_same = c.objects_same; roots_same = c.roots_same });
}

failed :
    (s : Store) (t : Txn) (wal : List Bool)
    → s.active_txn ≡ some t
    → s.has_path ≡ true
    → s.wal ≡ false ∷ wal
    → txn_commit s ≡ (false, (txn_abort (record s { wal = wal })).1)
unfolding txn_commit
failed s t wal e path w =
    let report : wal_outcome s ≡ (false, record s { wal = wal }) =
      ap (λ (b : Bool). if b then wal_write_txn s.wal s else (true, s)) path
      ∙ ap (λ (l : List Bool). wal_write_txn l s) w in
    ap (λ (o : Option Txn). committed o (wal_outcome s) s) e
    ∙ ap (λ (r : Bool × Store). committed (some t) r s) report

-- The same transaction, committed where the store is on disk and its WAL cannot be written: the commit
-- fails, and the store has the objects, the next id and the roots, as a map, that it had before
-- `txn_begin`, and no transaction.
pub txn_commit-perform_all :
    (s : Store) (cs : List Call) (wal : List Bool)
    → s.active_txn ≡ none
    → Unique s.roots
    → All Fits cs
    → (perform_all cs (txn_begin s).1).has_path ≡ true
    → (perform_all cs (txn_begin s).1).wal ≡ false ∷ wal
    → ((txn_commit (perform_all cs (txn_begin s).1)).0 ≡ false)
      × Restored s (txn_commit (perform_all cs (txn_begin s).1)).1
txn_commit-perform_all s cs wal e h fits path w =
    let t : Store = perform_all cs (txn_begin s).1 in
    let within : Within s t = inside s cs e h fits in
    let f : txn_commit t ≡ (false, (txn_abort (record t { wal = wal })).1) =
      failed t within.txn wal within.active path w in
    (
      ap (λ (p : Bool × Store). p.0) f,
      subst (λ (p : Bool × Store). Restored s p.1) (sym f)
          (abort_inside s (record t { wal = wal }) (less_wal s t wal within)).1,
    )
