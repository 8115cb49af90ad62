-- ===== src/BPlusTree/Insert/Tests.antt =====
-- An insertion into a tree of one branch over two leaves.
use pucrs_metadata_db.Base.{
  ℕ, zero, suc, ◌≤◌, ◌<◌, ◌≡◌, refl, sym, ap, ◌∙◌, arith, ◌==◌, if◌then◌else◌, Option, none, some,
  List, [], ◌∷◌, length, get_elem?, ok, err, key_not_found,
}
use mathlib.Core.Option.{some-injective}
use pucrs_metadata_db.BPlusTree.Entries.{LeafEntry}
use pucrs_metadata_db.BPlusTree.Adapter.{
  leaf, Node, InMemoryAdapter, new_in_memory_adapter, node_of, is_leaf, load_node, load_root,
}
use pucrs_metadata_db.BPlusTree.NodeOps.{total_keys, branch_entries, leaf_entries}
use pucrs_metadata_db.BPlusTree.Leaf
use pucrs_metadata_db.BPlusTree.Branch
use pucrs_metadata_db.BPlusTree.Find.{
  bisect, search, find_in, find_on_node, find_leaf_for_key, find,
}
use pucrs_metadata_db.BPlusTree.Find.SearchTree.{Stored, IsLeafNode, IsSearchTree}
use pucrs_metadata_db.BPlusTree.Find.Tests.{node, tree, tree-IsSearchTree}
use pucrs_metadata_db.BPlusTree.Insert.{BPlusTree, insert}
use pucrs_metadata_db.BPlusTree.Insert.Lookup.{key_list}
use pucrs_metadata_db.BPlusTree.Insert.Ascending.{Ascending, Ascending-InOrder}
use pucrs_metadata_db.BPlusTree.Insert.Empty.{find-insert_empty}
use pucrs_metadata_db.BPlusTree.Insert.RootSplit.{IsFullRoot, find-insert_root_split}
use pucrs_metadata_db.BPlusTree.Insert.Answer.{answer_of, given}
use pucrs_metadata_db.BPlusTree.Insert.Room.{find-insert}

run : Unit {0}
unfolding node_of is_leaf load_node load_root total_keys branch_entries leaf_entries Leaf.item_at
    Branch.entry_at bisect search find_in find_on_node find_leaf_for_key find
run = tt

abbrev small : BPlusTree
small = record {
  leaf_capacity = 3;
  half_leaf_capacity = 1;
  branch_capacity = 3;
  half_branch_capacity = 1;
}

no_seven : find 2 7 tree ≡ err key_not_found
unfolding run
no_seven = refl

a_five : find 2 5 tree ≡ ok (50, tree)
unfolding run
a_five = refl

seven_walk : find_leaf_for_key 2 3 7 tree ≡ ok (2, tree)
unfolding run
seven_walk = refl

right_length : (l : ℕ) (es : List (LeafEntry ℕ)) → l ≡ 2 → Stored tree l (leaf es) → length es < 3
right_length l es e s =
    let found = sym (ap tree.nodes e) ∙ s.found in
    let same = ap (λ (n : Node ℕ). n.entries) (some-injective _ _ found) ∙ s.shape in
    ground (arith, same)

seven_room :
    (l : ℕ) (es : List (LeafEntry ℕ))
    → find_leaf_for_key 2 3 7 tree ≡ ok (l, tree)
    → Stored tree l (leaf es)
    → length es < 3
seven_room l es walk s = right_length l es (ground (arith, seven_walk, walk)) s

find-insert_example :
    (a' : InMemoryAdapter ℕ) × (insert small 2 7 70 tree ≡ ok (tt, a'))
    × ((k : ℕ)
        → k < 9
        → (old : Option ℕ) × (find 2 k tree ≡ given tree old)
          × (find 2 k a' ≡ given a' (if k == 7 then some 70 else old)))
find-insert_example =
    find-insert small tree 2 1 9 (omega arith) tree-IsSearchTree 7 70 (omega arith) no_seven
      seven_room

abbrev no_tree : InMemoryAdapter ℕ
no_tree = new_in_memory_adapter

no_node : no_tree.nodes no_tree.root_id ≡ none
unfolding new_in_memory_adapter
no_node = refl

find-insert_empty_example :
    (a' : InMemoryAdapter ℕ) × (insert small 0 7 70 no_tree ≡ ok (tt, a'))
    × IsSearchTree a' 0 a'.root_id 0 9
    × ((n k : ℕ) → k < 9 → answer_of (find (suc n) k a') ≡ (if k == 7 then some 70 else none))
find-insert_empty_example =
    find-insert_empty small no_tree 0 7 9 70 (omega arith) no_node (omega arith)

-- a leaf with two entries, which is full
abbrev tiny : BPlusTree
tiny = record {
  leaf_capacity = 2;
  half_leaf_capacity = 1;
  branch_capacity = 2;
  half_branch_capacity = 1;
}

abbrev two : List (LeafEntry ℕ)
two = record { key = 2; item = 20 } ∷ record { key = 5; item = 50 } ∷ []

abbrev one_leaf : InMemoryAdapter ℕ
one_leaf = record {
  root_id = 1;
  first_leaf_id = 1;
  next_node_id = 2;
  nodes = λ i. if i == 1 then some (node (leaf two)) else none;
}

two-Ascending : Ascending (key_list two)
two-Ascending zero zero a b l x y = absurd (omega (arith, l))
two-Ascending zero (suc zero) a b l x y = ground (arith, x, y)
two-Ascending zero (suc (suc j)) a b l x y = absurd (ground (arith, y))
two-Ascending (suc zero) zero a b l x y = absurd (omega (arith, l))
two-Ascending (suc zero) (suc j) a b l x y = absurd (ground (arith, l, y))
two-Ascending (suc (suc i)) j a b l x y = absurd (ground (arith, x))

two_inside : (i : ℕ) (e : LeafEntry ℕ) → get_elem? two i ≡ some e → (0 ≤ e.key) × (e.key < 9)
two_inside zero e h = ground (arith, h)
two_inside (suc zero) e h = ground (arith, h)
two_inside (suc (suc i)) e h = absurd (ground (arith, h))

abbrev one_leaf-IsLeafNode : IsLeafNode one_leaf 1 0 9
one_leaf-IsLeafNode = record {
  entries = two;
  stored = record { node = node (leaf two); found = refl; shape = refl };
  in_order = Ascending-InOrder (key_list two) two-Ascending;
  inside = two_inside;
}

one_leaf-IsFullRoot : IsFullRoot tiny one_leaf 9 one_leaf-IsLeafNode
one_leaf-IsFullRoot = record {
  full = refl;
  some_half = omega arith;
  half = omega arith;
  ascending = two-Ascending;
  old_root = omega arith;
  small_ids = omega arith;
  old_right = omega arith;
  other_right = λ h. omega (arith, h);
  no_right = refl;
}

no_three : find 1 3 one_leaf ≡ err key_not_found
unfolding run
no_three = refl

find-insert_root_split_example :
    (a' : InMemoryAdapter ℕ) × (insert tiny 1 3 30 one_leaf ≡ ok (tt, a'))
    × IsSearchTree a' 1 a'.root_id 0 9
    × ((m k : ℕ)
        → k < 9
        → answer_of (find (suc (suc m)) k a')
          ≡ (if k == 3 then some 30 else answer_of (find 1 k one_leaf)))
find-insert_root_split_example =
    find-insert_root_split tiny one_leaf 0 9 one_leaf-IsLeafNode one_leaf-IsFullRoot 3 30
      (omega arith) no_three
