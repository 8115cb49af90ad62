-- ===== src/BPlusTree/Insert.antt =====
-- Insertion in src/bplustree/bplus_tree.go. `fuel` bounds the recursion from a branch to its parent and
-- the loops that follow the IDs of nodes downwards.
pub mod Lookup
pub mod Answer
pub mod Replaced
pub mod Changed
pub mod AtLeaf
pub mod Room
pub mod Empty
pub mod Nodes
pub mod Parts
pub mod Split
pub mod Ascending
pub mod TwoLeaves
pub mod Halves
pub mod RootSplit
mod Tests
use pucrs_metadata_db.Base.{
  ℕ, zero, suc, ◌+◌, ◌-◌, ◌/◌, ◌==◌, ltb, if◌then◌else◌, none, some, List, [], ◌∷◌, drop, Result,
  ok, panic, key_exists,
}
use pucrs_metadata_db.BPlusTree.Entries.{LeafEntry, BranchEntry, elem_at, set_lower}
use pucrs_metadata_db.BPlusTree.Adapter.{
  Prog, pure, fail, abort, no_fuel, lift, ◌>>=◌, ◌>>◌, is_root, load_node, load_root, load_branch,
  create_leaf, create_branch, init, parent_id, set_parent_id, set_left_sibling_id, right_sibling_id,
  set_right_sibling_id, set_root,
}
use pucrs_metadata_db.BPlusTree.NodeOps.{total_keys, key_at, branch_entries}
use pucrs_metadata_db.BPlusTree.Leaf
use pucrs_metadata_db.BPlusTree.Branch
use pucrs_metadata_db.BPlusTree.Find.{not_nil, find_on_node, find_leaf_for_key, find_minimum}

-- `bPlusTree` without its adapter; `half` capacities round down.
pub record BPlusTree : Type 0 where
  pub leaf_capacity : ℕ
  pub half_leaf_capacity : ℕ
  pub branch_capacity : ℕ
  pub half_branch_capacity : ℕ

unfoldable pub new : ℕ → ℕ → BPlusTree
new leaf_capacity branch_capacity = record {
  leaf_capacity = leaf_capacity;
  half_leaf_capacity = leaf_capacity / 2;
  branch_capacity = branch_capacity;
  half_branch_capacity = branch_capacity / 2;
}

module _ {Item : Type 0} where
  unfoldable pub set_siblings : ℕ → ℕ → Prog Item (Unit {0})
  set_siblings left right = do
    right_id ← right_sibling_id left
    old_right ← load_node right_id
    elim old_right [
      | none ↦ pure tt
      | some old_right ↦ do
        set_left_sibling_id old_right right
        set_right_sibling_id right old_right
    ]
    set_right_sibling_id left right
    set_left_sibling_id right left

  unfoldable pub allocate_new_root : ℕ → ℕ → ℕ → Prog Item ℕ
  allocate_new_root key lt_node gte_node = do
    parent ← create_branch (record { key = key; lower = lt_node; greater_or_equal = gte_node })
    set_parent_id lt_node parent
    set_parent_id gte_node parent
    set_root parent
    pure parent

  unfoldable pub update_parent_id : ℕ → ℕ → Prog Item (Unit {0})
  update_parent_id id new_parent_id = do
    node ← load_node id
    elim node [ none ↦ pure tt | some id ↦ set_parent_id id new_parent_id ]

  -- `right.InsertAt(i, entry)` for the entries in order.
  unfoldable pub insert_leaf_entries : ℕ → ℕ → List (LeafEntry Item) → Prog Item (Unit {0})
  insert_leaf_entries id i [] = pure tt
  insert_leaf_entries id i (e ∷ es) = do Leaf.insert_at id i e; insert_leaf_entries id (i + 1) es

  unfoldable pub insert_branch_entries : ℕ → ℕ → List BranchEntry → Prog Item (Unit {0})
  insert_branch_entries id i [] = pure tt
  insert_branch_entries id i (e ∷ es) = do
    Branch.insert_at id i e.key e.greater_or_equal
    insert_branch_entries id (i + 1) es

  unfoldable pub update_children : ℕ → List BranchEntry → Prog Item (Unit {0})
  update_children id [] = pure tt
  update_children id (e ∷ es) = do update_parent_id e.greater_or_equal id; update_children id es

-- Where a full node is cut; a position is below `half` only if `half` is not 0.
unfoldable pub split_from : ℕ → ℕ → ℕ
split_from half position = if ltb position half then half - 1 else half

-- The entries that the right branch gets.
unfoldable pub right_entries_of : ℕ → ℕ → ℕ → List BranchEntry → Result (List BranchEntry)
right_entries_of half position gte_id entries =
    if position == half
    then set_lower entries 0 gte_id
    else (elim entries [ [] ↦ panic | e ∷ es ↦ ok es ])

module _ {Item : Type 0} (t : BPlusTree) where
  unfoldable pub leaf_split : ℕ → ℕ → LeafEntry Item → Prog Item ℕ
  leaf_split leaf position entry = do
    right_entries ← Leaf.cut_from leaf (split_from t.half_leaf_capacity position)
    right ← create_leaf
    insert_leaf_entries right 0 right_entries
    if ltb position t.half_leaf_capacity
        then Leaf.insert_at leaf position entry
        else Leaf.insert_at right (position - t.half_leaf_capacity) entry
    set_siblings leaf right
    pure right

  unfoldable pub branch_split : ℕ → ℕ → ℕ → ℕ → ℕ → Prog Item (ℕ × ℕ)
  branch_split fuel branch position key gte_id = do
    entries ← Branch.cut_from branch (split_from t.half_branch_capacity position)
    if ltb position t.half_branch_capacity
        then Branch.insert_at branch position key gte_id
        else pure tt
    right_entries ← lift (right_entries_of t.half_branch_capacity position gte_id entries)
    first ← lift (elem_at right_entries 0)
    right ← create_branch first
    insert_branch_entries right 1 (drop 1 right_entries)
    if ltb t.half_branch_capacity position
        then Branch.insert_at right (position - t.half_branch_capacity - 1) key gte_id
        else pure tt
    set_siblings branch right
    first ← Branch.entry_at right 0
    update_parent_id first.lower right
    es ← branch_entries right
    update_children right es
    parent_key ← find_minimum fuel right
    pure (right, parent_key)

  unfoldable pub insert_on_branch : ℕ → ℕ → ℕ → ℕ → ℕ → Prog Item (Unit {0})
  insert_on_branch zero branch position key gte_id = no_fuel
  insert_on_branch (suc fuel) branch position key gte_id = do
    n ← total_keys branch
    if ltb n t.branch_capacity then Branch.insert_at branch position key gte_id else (do
      (right, parent_key) ← branch_split (suc fuel) branch position key gte_id
      root ← is_root branch
      if root then (allocate_new_root parent_key branch right >>= λ _. pure tt) else (do
        id ← parent_id branch
        loaded ← load_branch id
        parent ← not_nil loaded
        set_parent_id right parent
        (position, found) ← find_on_node parent parent_key
        if found then abort else insert_on_branch fuel parent position parent_key right))

  unfoldable pub insert_on_leaf : ℕ → ℕ → ℕ → LeafEntry Item → Prog Item (Unit {0})
  insert_on_leaf fuel leaf position entry = do
    n ← total_keys leaf
    if ltb n t.leaf_capacity then Leaf.insert_at leaf position entry else (do
      right ← leaf_split leaf position entry
      parent_key ← key_at right 0
      root ← is_root leaf
      if root then (allocate_new_root parent_key leaf right >>= λ _. pure tt) else (do
        id ← parent_id leaf
        loaded ← load_branch id
        parent ← not_nil loaded
        (position, found) ← find_on_node parent parent_key
        if found then abort else (do
          set_parent_id right parent
          insert_on_branch fuel parent position parent_key right)))

  unfoldable pub insert : ℕ → ℕ → Item → Prog Item (Unit {0})
  insert fuel key item = do
    root ← load_root
    leaf ← (elim root [ none ↦ init | some root ↦ find_leaf_for_key fuel root key ])
    (position, found) ← find_on_node leaf key
    if found
        then fail key_exists
        else insert_on_leaf fuel leaf position (record { key = key; item = item })
