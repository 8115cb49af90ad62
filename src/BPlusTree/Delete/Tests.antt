-- ===== src/BPlusTree/Delete/Tests.antt =====
-- A deletion from a tree of one branch over two leaves.
use pucrs_metadata_db.Base.{
  ℕ, zero, suc, ◌<◌, ◌≡◌, ◌⊎◌, inl, refl, sym, ap, subst, ◌∙◌, arith, ◌==◌, if◌then◌else◌, none,
  List, length, get_elem?, some, ◌≤◌, ok, err, key_not_found,
}
use mathlib.Core.Option.{some-injective}
use pucrs_metadata_db.BPlusTree.Entries.{LeafEntry}
use pucrs_metadata_db.BPlusTree.Adapter.{
  leaf, branch, Node, InMemoryAdapter, node_of, is_leaf, load_node, load_root,
}
use pucrs_metadata_db.BPlusTree.NodeOps.{total_keys, branch_entries, leaf_entries}
use pucrs_metadata_db.BPlusTree.Leaf
use pucrs_metadata_db.BPlusTree.Branch
use pucrs_metadata_db.BPlusTree.Find.{
  bisect, search, find_in, find_on_node, find_leaf_for_key, find,
}
use pucrs_metadata_db.BPlusTree.Find.SearchTree.{Stored, IsSearchTree}
use pucrs_metadata_db.BPlusTree.Find.Tests.{
  left_entries, right_entries, root_entries, node, tree, tree-IsSearchTree,
}
use pucrs_metadata_db.BPlusTree.Insert.{BPlusTree}
use pucrs_metadata_db.BPlusTree.Insert.Answer.{answer_of}
use pucrs_metadata_db.BPlusTree.Delete.{delete}
use pucrs_metadata_db.BPlusTree.Insert.Lookup.{key_list}
use pucrs_metadata_db.BPlusTree.Insert.Ascending.{Ascending}
use pucrs_metadata_db.BPlusTree.Delete.Lookup.{Distinct}
use pucrs_metadata_db.BPlusTree.Delete.Borrow.{IsPair}
use pucrs_metadata_db.BPlusTree.Delete.Refill.{IsDivided}
use pucrs_metadata_db.BPlusTree.Delete.LowLeaf.{find-delete_borrow}
use pucrs_metadata_db.BPlusTree.Delete.Enough.{find-delete}

run : Unit {0}
unfolding node_of is_leaf load_node load_root total_keys branch_entries leaf_entries Leaf.item_at
    Branch.entry_at bisect search find_in find_on_node find_leaf_for_key find
run = tt

abbrev small : BPlusTree
small = record {
  leaf_capacity = 3;
  half_leaf_capacity = 1;
  branch_capacity = 3;
  half_branch_capacity = 1;
}

no_eight : find 2 8 tree ≡ err key_not_found
unfolding run
no_eight = refl

a_six : find 2 6 tree ≡ ok (60, tree)
unfolding run
a_six = refl

six_walk : find_leaf_for_key 2 3 6 tree ≡ ok (2, tree)
unfolding run
six_walk = refl

right-Distinct : Distinct right_entries
right-Distinct zero (suc zero) e f l x y = ground (arith, x, y)
right-Distinct zero zero e f l x y = absurd (omega (arith, l))
right-Distinct zero (suc (suc j)) e f l x y = absurd (ground (arith, y))
right-Distinct (suc zero) zero e f l x y = absurd (omega (arith, l))
right-Distinct (suc zero) (suc j) e f l x y = absurd (ground (arith, l, y))
right-Distinct (suc (suc i)) j e f l x y = absurd (ground (arith, x))

right_shape :
    (l : ℕ) (es : List (LeafEntry ℕ)) → l ≡ 2 → Stored tree l (leaf es) → right_entries ≡ es
right_shape l es e s =
    let found = sym (ap tree.nodes e) ∙ s.found in
    let same = ap (λ (n : Node ℕ). n.entries) (some-injective _ _ found) ∙ s.shape in
    ground (arith, same)

six_enough :
    (l : ℕ) (es : List (LeafEntry ℕ))
    → find_leaf_for_key 2 3 6 tree ≡ ok (l, tree)
    → Stored tree l (leaf es)
    → Distinct es × ((1 < length es) ⊎ (l ≡ 3))
six_enough l es walk s =
    let same = right_shape l es (ground (arith, six_walk, walk)) s in
    (
      subst (λ x. Distinct x) same right-Distinct,
      inl (subst (λ x. 1 < length x) same (omega arith)),
    )

find-delete_example :
    (a' : InMemoryAdapter ℕ) × (delete small 2 6 tree ≡ ok (tt, a'))
    × IsSearchTree a' 1 a'.root_id 0 9
    × ((k : ℕ)
        → k < 9
        → answer_of (find 2 k a') ≡ (if k == 6 then none else answer_of (find 2 k tree)))
find-delete_example =
    find-delete small tree 2 1 9 (omega arith) tree-IsSearchTree 6 (omega arith) 60 a_six six_enough

-- The same leaves, linked to each other and to their root.
abbrev linked : InMemoryAdapter ℕ
linked = record {
  root_id = 3;
  first_leaf_id = 1;
  next_node_id = 4;
  nodes = λ i.
      if i == 1
      then some (record { parent_id = 3; left_id = 0; right_id = 2; entries = leaf left_entries })
      else (if i == 2
          then some
              (record { parent_id = 3; left_id = 1; right_id = 0; entries = leaf right_entries })
          else (if i == 3 then some (node (branch root_entries)) else none));
}

linked-IsPair : IsPair linked 1 2 5 left_entries right_entries
linked-IsPair = record {
  left_node = record { parent_id = 3; left_id = 0; right_id = 2; entries = leaf left_entries };
  right_node = record { parent_id = 3; left_id = 1; right_id = 0; entries = leaf right_entries };
  root_node = node (branch root_entries);
  at_left = refl;
  at_right = refl;
  at_root = refl;
  left_shape = refl;
  right_shape = refl;
  root_shape = refl;
  siblings = refl;
  left_parent = refl;
  right_parent = refl;
  apart = omega arith;
  left_apart = omega arith;
  right_apart = omega arith;
}

left-Ascending : Ascending (key_list left_entries)
left-Ascending i zero a b l x y = absurd (omega (arith, l))
left-Ascending i (suc j) a b l x y = absurd (ground (arith, y))

right-Ascending : Ascending (key_list right_entries)
right-Ascending i zero a b l x y = absurd (omega (arith, l))
right-Ascending zero (suc zero) a b l x y = ground (arith, x, y)
right-Ascending (suc i) (suc zero) a b l x y = absurd (omega (arith, l))
right-Ascending i (suc (suc j)) a b l x y = absurd (ground (arith, y))

left_below : (i : ℕ) (e : LeafEntry ℕ) → get_elem? left_entries i ≡ some e → e.key < 5
left_below zero e h = ground (arith, h)
left_below (suc i) e h = absurd (ground (arith, h))

right_above :
    (i : ℕ) (e : LeafEntry ℕ) → get_elem? right_entries i ≡ some e → (5 ≤ e.key) × (e.key < 9)
right_above zero e h = ground (arith, h)
right_above (suc zero) e h = ground (arith, h)
right_above (suc (suc i)) e h = absurd (ground (arith, h))

linked-IsDivided : IsDivided 9 5 left_entries right_entries
linked-IsDivided = record {
  up_left = left-Ascending;
  up_right = right-Ascending;
  below = left_below;
  above = right_above;
}

a_two : find 2 2 linked ≡ ok (20, linked)
unfolding run
a_two = refl

find-delete_borrow_example :
    (a' : InMemoryAdapter ℕ) × (delete small 2 2 linked ≡ ok (tt, a'))
    × IsSearchTree a' 1 a'.root_id 0 9
    × ((n k : ℕ)
        → k < 9
        → answer_of (find (suc (suc n)) k a')
          ≡ (if k == 2 then none else answer_of (find (suc (suc n)) k linked)))
find-delete_borrow_example =
    find-delete_borrow small linked-IsPair linked-IsDivided 0 2 (omega arith) 20 a_two refl
      (omega arith)
