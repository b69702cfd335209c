-- ===== src/Graph/Names.antt =====
-- Calls of object_graph.c that bind and unbind roots inside a transaction: each can be undone.
use simple_dns.Common.{
  ◌≤◌, true, false, Option, none, some, List, [], ◌∷◌, ◌++◌, Bytes, length, take, take_all,
  Bool-cases, ◌≡◌, refl, sym, ◌∙◌, inl, inr,
}
use mathlib.Core.Path.{subst}
use simple_dns.Cidr.{same_key}
use simple_dns.Graph.{
  Ref, Root, TxnRec, Store, find_root, set_root, release_root, restore_root, apply_undo,
}
use simple_dns.Graph.Calls.{bind_at, unbind_at}
use simple_dns.Graph.Roots.{
  has_name, find_root-same, find_root-set_root, find_root-release_root, find_root-restore_root,
  find_root-append, set_root_here, release_root_here, restore_root_here, has_name-set_root,
  has_name-release_root, has_name-restore_root, has_name-append, find_root-has_name,
  set_root-Unique, release_root-Unique, restore_root-Unique, append-Unique,
}
use simple_dns.Graph.Rollback.{Within, Undone, logged-Within}

-- The same map, from what it has at a name and at all others.
lookups :
    (k : Bytes) (u s : List Root)
    → find_root k u ≡ find_root k s
    → ((name : Bytes) → same_key k name ≡ false → find_root name u ≡ find_root name s)
    → (name : Bytes) → find_root name u ≡ find_root name s
lookups k u s here other name = elim (Bool-cases (same_key k name)) [
  | inl e ↦ sym (find_root-same k name u e) ∙ here ∙ find_root-same k name s e
  | inr e ↦ other name e
]

set_roots : List Root → Store → Store
set_roots roots s = record s { roots = roots }

rebind-Undone :
    (k : Bytes) (o old : Ref) (s : Store)
    → find_root k s.roots ≡ some old
    → Undone (TxnRec.wop_bind_root k (some old)) s (record s { roots = set_root k o s.roots })
unfolding apply_undo
rebind-Undone k o old s h = record {
  active = refl;
  unique = set_root-Unique k o s.roots;
  back = λ u _ c. record {
    extra = c.extra;
    objects_same = c.objects_same;
    roots_same = record {
      lookup =
          lookups k (set_root k old u.roots) s.roots
            (set_root_here k old o u.roots (c.roots_same.lookup k ∙ set_root_here k o old s.roots h)
              ∙ sym h)
            (λ name e.
              find_root-set_root k name old u.roots e
              ∙ c.roots_same.lookup name
              ∙ find_root-set_root k name o s.roots e);
      unique = set_root-Unique k old u.roots c.roots_same.unique;
      slots = λ name e.
          has_name-set_root k name old u.roots
          ∙ c.roots_same.slots name (has_name-set_root k name o s.roots ∙ e);
    };
  };
}

abbrev appended : Bytes → Ref → Store → Store
appended k o s = record s { roots = s.roots ++ record { name = k; obj = o; used = true } ∷ [] }

bind-Undone :
    (k : Bytes) (o : Ref) (s : Store)
    → find_root k s.roots ≡ none
    → Undone (TxnRec.wop_bind_root k none) s (appended k o s)
unfolding apply_undo
bind-Undone k o s h = record {
  active = refl;
  unique = append-Unique k o s.roots h;
  back = λ u _ c. record {
    extra = c.extra;
    objects_same = c.objects_same;
    roots_same = record {
      lookup =
          lookups k (release_root k u.roots) s.roots
            (release_root_here k u.roots c.roots_same.unique ∙ sym h)
            (λ name e.
              find_root-release_root k name u.roots e
              ∙ c.roots_same.lookup name
              ∙ find_root-append k name o s.roots e);
      unique = release_root-Unique k u.roots c.roots_same.unique;
      slots = λ name e.
          has_name-release_root k name u.roots
          ∙ c.roots_same.slots name (has_name-append name s.roots _ e);
    };
  };
}

unbind-Undone :
    (k : Bytes) (old : Ref) (s : Store)
    → find_root k s.roots ≡ some old
    → Undone (TxnRec.wop_unbind_root k old) s (record s { roots = release_root k s.roots })
unfolding apply_undo
unbind-Undone k old s h = record {
  active = refl;
  unique = release_root-Unique k s.roots;
  back = λ u uq c.
      let gone : find_root k u.roots ≡ none =
        c.roots_same.lookup k ∙ release_root_here k s.roots uq in
      let slot : has_name k u.roots ≡ true =
        c.roots_same.slots k
          (has_name-release_root k k s.roots ∙ find_root-has_name k old s.roots h) in
      record {
        extra = c.extra;
        objects_same = c.objects_same;
        roots_same = record {
          lookup =
              lookups k (restore_root k old u.roots) s.roots
                (restore_root_here k old u.roots gone slot ∙ sym h)
                (λ name e.
                  find_root-restore_root k name old u.roots e
                  ∙ c.roots_same.lookup name
                  ∙ find_root-release_root k name s.roots e);
          unique = restore_root-Unique k old u.roots gone c.roots_same.unique;
          slots = λ name e.
              has_name-restore_root k name old u.roots
              ∙ c.roots_same.slots name (has_name-release_root k name s.roots ∙ e);
        };
      };
}

pub bind_at-Within :
    (name : Bytes) (o : Ref) (s0 s : Store) (q : Option Ref)
    → length name ≤ 63
    → find_root name s.roots ≡ q
    → Within s0 s
    → Within s0 (bind_at name o q s).1
bind_at-Within name o s0 s none short h w =
    let same : name ≡ take 63 name = sym (take_all 63 name short) in
    logged-Within (appended (take 63 name) o) (TxnRec.wop_bind_root (take 63 name) none) s0 s w (
      subst (λ (k : Bytes). Undone (TxnRec.wop_bind_root k none) s (appended k o s)) same
        (bind-Undone name o s h))
bind_at-Within name o s0 s (some old) short h w =
    let same : name ≡ take 63 name = sym (take_all 63 name short) in
    logged-Within (λ s. record s { roots = set_root name o s.roots })
      (TxnRec.wop_bind_root (take 63 name) (some old)) s0 s w
      (subst
        (λ (k : Bytes).
          Undone (TxnRec.wop_bind_root k (some old)) s
            (record s { roots = set_root name o s.roots }))
        same (rebind-Undone name o old s h))

pub unbind_at-Within :
    (name : Bytes) (s0 s : Store) (q : Option Ref)
    → length name ≤ 63
    → find_root name s.roots ≡ q
    → Within s0 s
    → Within s0 (unbind_at name q s).1
unbind_at-Within name s0 s none short h w = w
unbind_at-Within name s0 s (some old) short h w =
    let same : name ≡ take 63 name = sym (take_all 63 name short) in
    logged-Within (λ s. record s { roots = release_root name s.roots })
      (TxnRec.wop_unbind_root (take 63 name) old) s0 s w
      (subst
        (λ (k : Bytes).
          Undone (TxnRec.wop_unbind_root k old) s (record s { roots = release_root name s.roots }))
        same (unbind-Undone name old s h))
