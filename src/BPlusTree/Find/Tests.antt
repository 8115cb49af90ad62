-- ===== src/BPlusTree/Find/Tests.antt =====
-- A tree of one branch over two leaves.
use pucrs_metadata_db.Base.{
  ℕ, zero, suc, ◌+◌, ◌≤◌, ◌<◌, ◌≡◌, ◌≢◌, refl, subst, arith, ◌==◌, if◌then◌else◌, none, some, List,
  [], ◌∷◌, get_elem?, ok,
}
use mathlib.Core.Option.{some-injective}
use pucrs_metadata_db.BPlusTree.Entries.{LeafEntry, BranchEntry}
use pucrs_metadata_db.BPlusTree.Adapter.{Entries, leaf, branch, Node, InMemoryAdapter}
use pucrs_metadata_db.BPlusTree.Find.{find_leaf_for_key}
use pucrs_metadata_db.BPlusTree.Find.Search.{InOrder}
use pucrs_metadata_db.BPlusTree.Find.SearchTree.{IsLeafNode, IsSearchTree}
use pucrs_metadata_db.BPlusTree.Find.Walk.{find_leaf_for_key-ends}

abbrev pub left_entries : List (LeafEntry ℕ)
left_entries = record { key = 2; item = 20 } ∷ []

abbrev pub right_entries : List (LeafEntry ℕ)
right_entries = record { key = 5; item = 50 } ∷ record { key = 6; item = 60 } ∷ []

abbrev pub root_entries : List BranchEntry
root_entries = record { key = 5; lower = 1; greater_or_equal = 2 } ∷ []

abbrev pub node : Entries ℕ → Node ℕ
node es = record { parent_id = 0; left_id = 0; right_id = 0; entries = es }

abbrev pub tree : InMemoryAdapter ℕ
tree = record {
  root_id = 3;
  first_leaf_id = 1;
  next_node_id = 4;
  nodes = λ i.
      if i == 1
      then some (node (leaf left_entries))
      else (if i == 2
          then some (node (leaf right_entries))
          else (if i == 3 then some (node (branch root_entries)) else none));
}

one-InOrder : (k : ℕ) → InOrder (k ∷ [])
one-InOrder k zero zero a b l x y = ground (arith, x, y)
one-InOrder k zero (suc j) a b l x y = ground (arith, y)
one-InOrder k (suc i) j a b l x y = ground (arith, x)

two-InOrder : (k : ℕ) → InOrder (k ∷ suc k ∷ [])
two-InOrder k zero zero a b l x y = ground (arith, x, y)
two-InOrder k zero (suc zero) a b l x y = ground (arith, x, y)
two-InOrder k (suc zero) zero a b l x y = absurd (omega (arith, l))
two-InOrder k (suc zero) (suc zero) a b l x y = ground (arith, x, y)
two-InOrder k i (suc (suc j)) a b l x y = ground (arith, y)
two-InOrder k (suc (suc i)) j a b l x y = ground (arith, x)

left_inside :
    (i : ℕ) (e : LeafEntry ℕ) → get_elem? left_entries i ≡ some e → (0 ≤ e.key) × (e.key < 5)
left_inside zero e h = ground (arith, h)
left_inside (suc i) e h = ground (arith, h)

right_inside :
    (i : ℕ) (e : LeafEntry ℕ) → get_elem? right_entries i ≡ some e → (5 ≤ e.key) × (e.key < 9)
right_inside zero e h = ground (arith, h)
right_inside (suc zero) e h = ground (arith, h)
right_inside (suc (suc i)) e h = ground (arith, h)

left-IsLeafNode : IsLeafNode tree 1 0 5
left-IsLeafNode = record {
  entries = left_entries;
  stored = record { node = node (leaf left_entries); found = refl; shape = refl };
  in_order = one-InOrder 2;
  inside = left_inside;
}

right-IsLeafNode : IsLeafNode tree 2 5 9
right-IsLeafNode = record {
  entries = right_entries;
  stored = record { node = node (leaf right_entries); found = refl; shape = refl };
  in_order = two-InOrder 5;
  inside = right_inside;
}

root_first : (e : BranchEntry) → get_elem? root_entries 0 ≡ some e → IsLeafNode tree e.lower 0 e.key
root_first e h =
    subst (λ (x : BranchEntry). IsLeafNode tree x.lower 0 x.key) (some-injective _ e h)
      left-IsLeafNode

root_last :
    (i : ℕ) (e : BranchEntry)
    → get_elem? root_entries i ≡ some e
    → IsLeafNode tree e.greater_or_equal e.key 9
root_last zero e h =
    subst (λ (x : BranchEntry). IsLeafNode tree x.greater_or_equal x.key 9) (some-injective _ e h)
      right-IsLeafNode
root_last (suc i) e h = absurd (ground (arith, h))

no_second : (i : ℕ) (f : BranchEntry) → get_elem? root_entries (i + 1) ≢ some f
no_second i f h = ground (arith, h)

pub tree-IsSearchTree : IsSearchTree tree 1 3 0 9
tree-IsSearchTree = record {
  entries = root_entries;
  stored = record { node = node (branch root_entries); found = refl; shape = refl };
  some_entry = omega arith;
  in_order = one-InOrder 5;
  first_child = root_first;
  inner_child = λ i e f x y. absurd (no_second i f y);
  last_child = λ i e x y. root_last i e x;
}

find_leaf_for_key-ends_example :
    (l : ℕ) × (lo' : ℕ) × (hi' : ℕ) × (find_leaf_for_key 2 3 7 tree ≡ ok (l, tree))
    × IsLeafNode tree l lo' hi'
    × (lo' ≤ 7)
    × (7 < hi')
find_leaf_for_key-ends_example =
    find_leaf_for_key-ends tree 7 2 1 3 0 9 (omega arith) tree-IsSearchTree (omega arith)
      (omega arith)
