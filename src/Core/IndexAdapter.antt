-- ===== src/Core/IndexAdapter.antt =====
-- `uint32IndexNodeAdapter` and the methods of its nodes in
-- src/simplejsondb/core/uint32_index_node_adapter.go, as programs on the buffer. A node is a handle on its
-- block.
use pucrs_metadata_db.Base.{
  ℕ, ◌==◌, Bool, true, false, if◌then◌else◌, Option, none, some, List, Result, ok, err, panic,
  out_of_fuel,
}
use pucrs_metadata_db.Dbio.DataBlock.{DataBlock, write, uint8}
use pucrs_metadata_db.Dbio.DataFile.{DataFile}
use pucrs_metadata_db.BPlusTree.Entries.{BranchEntry}
use pucrs_metadata_db.Core.ControlBlock.{
  set_index_root_block_id, index_root_block_id, set_first_leaf, first_leaf,
}
use pucrs_metadata_db.Core.DataBlocksMap.{first_free, mark_as_used, mark_as_free}
use pucrs_metadata_db.Core.IndexLeaf.{
  IndexEntry, btree_pos_type, node_is_leaf, insert_entry, delete_entry, delete_entries_from,
}
use pucrs_metadata_db.Core.IndexBranch.{
  clear_node, node_parent_id, set_node_parent_id, set_node_left_sibling_id,
  set_node_right_sibling_id, initial_entry, delete_branch_entry, replace_branch_key,
  delete_branch_entries_from, shift_branch, insert_branch_entry, unshift_branch_entry,
}
use pucrs_metadata_db.Core.Repository.{Prog, Handle, pure, ◌>>=◌, ◌>>◌, fetch, look, change, dirty}

pub data IndexNode : Type 0 where
  leaf_node branch_node : Handle → IndexNode

-- What a method returns, and the block that it leaves.
unfoldable pub returned : {A : Type 0} → Result (A × DataBlock) → Result A
returned (ok (x, b)) = ok x
returned (err e) = err e
returned panic = panic
returned out_of_fuel = out_of_fuel

unfoldable pub left_by : {A : Type 0} → Result (A × DataBlock) → Result DataBlock
left_by (ok (x, b)) = ok b
left_by (err e) = err e
left_by panic = panic
left_by out_of_fuel = out_of_fuel

module _ {df : DataFile} where
  -- A method that changes the block and returns a value.
  unfoldable pub call : {A : Type 0} → Handle → (DataBlock → Result (A × DataBlock)) → Prog df A
  call node f = do x ← look node (λ b. returned (f b)); change node (λ b. left_by (f b)); pure x

  unfoldable pub load_block : ℕ → Prog df (Option Handle)
  load_block node_id = elim (node_id == 0) [
    | true ↦ pure none
    | false ↦ (do node ← fetch node_id; pure (some node))
  ]

  unfoldable pub load_node : ℕ → Prog df (Option IndexNode)
  load_node id = do
    loaded ← load_block id
    elim loaded [
      | none ↦ pure none
      | some node ↦ do
        is_leaf ← look node node_is_leaf
        pure (some (if is_leaf then leaf_node node else branch_node node))
    ]

  unfoldable pub load_root : Prog df (Option IndexNode)
  load_root = do
    cb ← fetch 0
    root_id ← look cb index_root_block_id
    elim (root_id == 0) [ true ↦ pure none | false ↦ load_node root_id ]

  -- The node is not asked for its kind.
  unfoldable pub load_leaf : ℕ → Prog df (Option Handle)
  load_leaf id = load_block id

  unfoldable pub load_branch : ℕ → Prog df (Option Handle)
  load_branch id = load_block id

  unfoldable pub load_first_leaf : Prog df (Option Handle)
  load_first_leaf = do cb ← fetch 0; id ← look cb first_leaf; load_leaf id

  unfoldable pub is_root : Handle → Prog df Bool
  is_root node = do parent ← look node node_parent_id; pure (parent == 0)

  unfoldable pub set_parent_id : Handle → ℕ → Prog df (Unit {0})
  set_parent_id node id = do change node (λ b. set_node_parent_id b id); dirty node.id

  unfoldable pub set_left_sibling_id : Handle → ℕ → Prog df (Unit {0})
  set_left_sibling_id node id = do change node (λ b. set_node_left_sibling_id b id); dirty node.id

  unfoldable pub set_right_sibling_id : Handle → ℕ → Prog df (Unit {0})
  set_right_sibling_id node id = do change node (λ b. set_node_right_sibling_id b id); dirty node.id

  unfoldable pub set_root : Handle → Prog df (Unit {0})
  set_root node = do
    cb ← fetch 0
    set_parent_id node 0
    change cb (λ b. set_index_root_block_id b node.id)
    dirty cb.id

  unfoldable pub free : Handle → Prog df (Unit {0})
  free node = mark_as_free node.id

  -- If no block is free this takes block 0.
  unfoldable pub allocate_block : Prog df Handle
  allocate_block = do
    block_id ← first_free
    block ← fetch block_id
    mark_as_used block_id
    change block clear_node
    pure block

  unfoldable pub create_leaf : Prog df Handle
  create_leaf = do
    block ← allocate_block
    change block (λ b. write b btree_pos_type (uint8 2))
    dirty block.id
    pure block

  unfoldable pub create_branch : BranchEntry → Prog df Handle
  create_branch entry = do
    block ← allocate_block
    change block (λ b. write b btree_pos_type (uint8 1))
    change block (λ b. initial_entry b entry)
    dirty block.id
    pure block

  unfoldable pub init : Prog df Handle
  init = do
    root ← create_leaf
    set_root root
    cb ← fetch 0
    change cb (λ b. set_first_leaf b root.id)
    dirty cb.id
    pure root

  unfoldable pub leaf_insert_at : Handle → ℕ → IndexEntry → Prog df (Unit {0})
  leaf_insert_at node position entry = do
    change node (λ b. insert_entry b position entry)
    dirty node.id

  unfoldable pub leaf_delete_at : Handle → ℕ → Prog df IndexEntry
  leaf_delete_at node position = do
    entry ← call node (λ b. delete_entry b position)
    dirty node.id
    pure entry

  unfoldable pub leaf_delete_from : Handle → ℕ → Prog df (List IndexEntry)
  leaf_delete_from node start_position = do
    entries ← call node (λ b. delete_entries_from b start_position)
    dirty node.id
    pure entries

  unfoldable pub branch_insert_at : Handle → ℕ → ℕ → ℕ → Prog df (Unit {0})
  branch_insert_at node position key gte_node_id = do
    change node (λ b. insert_branch_entry b position key gte_node_id)
    dirty node.id

  unfoldable pub branch_unshift : Handle → ℕ → ℕ → Prog df (Unit {0})
  branch_unshift node key lt_node_id = do
    change node (λ b. unshift_branch_entry b key lt_node_id)
    dirty node.id

  unfoldable pub branch_delete_from : Handle → ℕ → Prog df (List BranchEntry)
  branch_delete_from node start_position = do
    entries ← call node (λ b. delete_branch_entries_from b start_position)
    dirty node.id
    pure entries

  -- These three do not mark the block as dirty.
  unfoldable pub branch_delete_at : Handle → ℕ → Prog df BranchEntry
  branch_delete_at node position = call node (λ b. delete_branch_entry b position)

  unfoldable pub branch_replace_key_at : Handle → ℕ → ℕ → Prog df (Unit {0})
  branch_replace_key_at node position key = change node (λ b. replace_branch_key b position key)

  unfoldable pub branch_shift : Handle → Prog df (Unit {0})
  branch_shift node = change node shift_branch
