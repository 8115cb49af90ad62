-- ===== src/BPlusTree/Tests.antt =====
-- A tree with nodes of three entries, filled until it has branches and emptied again.
use pucrs_metadata_db.Base.{
  ℕ, zero, suc, ◌+◌, ◌≡◌, refl, arith, List, [], ◌∷◌, map, Result, ok, err, panic, out_of_fuel,
}
use pucrs_metadata_db.BPlusTree.Entries.{
  leaf_insert_at, leaf_delete_at, delete_from, set_lower, branch_insert_at, branch_delete_at,
  replace_key_at, shift, unshift,
}
use pucrs_metadata_db.BPlusTree.Adapter.{
  InMemoryAdapter, new_in_memory_adapter, node_of, set_node, load_node, load_root, is_root, is_leaf,
  load_leaf, load_branch, load_first_leaf, free, create, create_leaf, create_branch, init,
  parent_id, set_parent_id, left_sibling_id, set_left_sibling_id, right_sibling_id,
  set_right_sibling_id, set_root,
}
use pucrs_metadata_db.BPlusTree.NodeOps.{
  total_keys, key_at, leaf_entries, branch_entries, set_entries,
}
use pucrs_metadata_db.BPlusTree.Leaf
use pucrs_metadata_db.BPlusTree.Branch
use pucrs_metadata_db.BPlusTree.Find.{
  bisect, search, find_in, find_on_node, find_leaf_for_key, find, all_loop, all, find_minimum,
}
use pucrs_metadata_db.BPlusTree.Find.Search.{InOrder}
use pucrs_metadata_db.BPlusTree.Insert.{
  BPlusTree, new, set_siblings, allocate_new_root, update_parent_id, insert_leaf_entries,
  insert_branch_entries, update_children, split_from, right_entries_of, leaf_split, branch_split,
  insert_on_branch, insert_on_leaf, insert,
}
use pucrs_metadata_db.BPlusTree.Delete.{
  same_parent, right_branch_sibling, left_branch_sibling, right_leaf_sibling, left_leaf_sibling,
  load_parent, can_lend, pipe_from_right_branch, pipe_from_left_branch, pipe_from_right_leaf,
  pipe_from_left_leaf, move_entries, set_left_of, join_branches, join_leaves, is_last_of_root,
  delete_from_branch, delete_key_from_branch, merge_leaves, delete_from_leaf, delete,
}

run : Unit {0}
unfolding leaf_insert_at leaf_delete_at delete_from set_lower branch_insert_at branch_delete_at
    replace_key_at shift unshift new_in_memory_adapter node_of set_node load_node load_root is_root
    is_leaf load_leaf load_branch load_first_leaf free create create_leaf create_branch init
    parent_id set_parent_id left_sibling_id set_left_sibling_id right_sibling_id
    set_right_sibling_id set_root total_keys key_at leaf_entries branch_entries set_entries
    Leaf.insert_at Leaf.item_at Leaf.delete_at Leaf.cut_from Branch.entry_at Branch.insert_at
    Branch.delete_at Branch.cut_from Branch.set_key_at Branch.shift_entries Branch.unshift_entry
    bisect search find_in find_on_node find_leaf_for_key find all_loop all find_minimum new
    set_siblings allocate_new_root update_parent_id insert_leaf_entries insert_branch_entries
    update_children split_from right_entries_of leaf_split branch_split insert_on_branch
    insert_on_leaf insert same_parent right_branch_sibling left_branch_sibling right_leaf_sibling
    left_leaf_sibling load_parent can_lend pipe_from_right_branch pipe_from_left_branch
    pipe_from_right_leaf pipe_from_left_leaf move_entries set_left_of join_branches join_leaves
    is_last_of_root delete_from_branch delete_key_from_branch merge_leaves delete_from_leaf delete
run = tt

abbrev small : BPlusTree
small = record {
  leaf_capacity = 3;
  half_leaf_capacity = 1;
  branch_capacity = 3;
  half_branch_capacity = 1;
}

abbrev insert_each : List ℕ → Result (InMemoryAdapter ℕ) → Result (InMemoryAdapter ℕ)
insert_each [] s = s
insert_each (k ∷ ks) (ok s) = elim (insert small 20 k (k + 100) s) [
  | ok r ↦ insert_each ks (ok r.1)
  | err e ↦ err e
  | panic ↦ panic
  | out_of_fuel ↦ out_of_fuel
]
insert_each (k ∷ ks) r = r

abbrev keys : Result (InMemoryAdapter ℕ) → Result (List ℕ)
keys (ok s) = elim (all 20 s) [
  | ok r ↦ ok (map (λ e. e.key) r.0)
  | err e ↦ err e
  | panic ↦ panic
  | out_of_fuel ↦ out_of_fuel
]
keys _ = panic

six_keys :
    keys (insert_each (5 ∷ 3 ∷ 8 ∷ 1 ∷ 9 ∷ 2 ∷ []) (ok new_in_memory_adapter))
    ≡ ok (1 ∷ 2 ∷ 3 ∷ 5 ∷ 8 ∷ 9 ∷ [])
unfolding run
six_keys = refl

abbrev delete_each : List ℕ → Result (InMemoryAdapter ℕ) → Result (InMemoryAdapter ℕ)
delete_each [] s = s
delete_each (k ∷ ks) (ok s) = elim (delete small 20 k s) [
  | ok r ↦ delete_each ks (ok r.1)
  | err e ↦ err e
  | panic ↦ panic
  | out_of_fuel ↦ out_of_fuel
]
delete_each (k ∷ ks) r = r

deleted :
    keys (
      delete_each
        (3 ∷ 9 ∷ 1 ∷ [])
        (insert_each (5 ∷ 3 ∷ 8 ∷ 1 ∷ 9 ∷ 2 ∷ []) (ok new_in_memory_adapter)))
    ≡ ok (2 ∷ 5 ∷ 8 ∷ [])
unfolding run
deleted = refl

abbrev odds : List ℕ
odds = 1 ∷ 3 ∷ []

odds-InOrder : InOrder odds
odds-InOrder zero zero a b l x y = ground (arith, x, y)
odds-InOrder zero (suc zero) a b l x y = ground (arith, x, y)
odds-InOrder zero (suc (suc j)) a b l x y = ground (arith, y)
odds-InOrder (suc i) zero a b l x y = omega (arith, l)
odds-InOrder (suc zero) (suc zero) a b l x y = ground (arith, x, y)
odds-InOrder (suc zero) (suc (suc j)) a b l x y = ground (arith, y)
odds-InOrder (suc (suc i)) j a b l x y = ground (arith, x)
