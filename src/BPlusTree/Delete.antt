-- ===== src/BPlusTree/Delete.antt =====
-- Deletion in src/bplustree/bplus_tree.go: a node that runs low borrows from a sibling or merges with it.
pub mod Lookup
pub mod Kept
pub mod Enough
pub mod Borrow
pub mod Refill
pub mod Divided
pub mod LowLeaf
mod Tests
use pucrs_metadata_db.Base.{
  ℕ, zero, suc, ◌+◌, ◌-◌, ◌==◌, ltb, leb, Bool, true, false, ◌&&◌, if◌then◌else◌, Option, none,
  some, key_not_found,
}
use pucrs_metadata_db.BPlusTree.Adapter.{
  Prog, pure, fail, abort, no_fuel, ◌>>=◌, ◌>>◌, is_root, load_node, load_root, load_leaf,
  load_branch, free, parent_id, set_parent_id, left_sibling_id, set_left_sibling_id,
  right_sibling_id, set_right_sibling_id, set_root,
}
use pucrs_metadata_db.BPlusTree.NodeOps.{total_keys, key_at, leaf_entries}
use pucrs_metadata_db.BPlusTree.Leaf
use pucrs_metadata_db.BPlusTree.Branch
use pucrs_metadata_db.BPlusTree.Find.{not_nil, find_on_node, find_leaf_for_key, find_minimum}
use pucrs_metadata_db.BPlusTree.Insert.{BPlusTree, insert_leaf_entries, update_parent_id}

-- `position -= 1`. No node has an entry at -1: every use of it panics.
abbrev pub before : {Item : Type 0} → ℕ × Bool → Prog Item ℕ
before (position, true) = pure position
before (zero, false) = abort
before (suc position, false) = pure position

module _ {Item : Type 0} where
  -- A sibling counts if it has the same parent.
  unfoldable pub same_parent : ℕ → Option ℕ → Prog Item (Option ℕ)
  same_parent id none = pure none
  same_parent id (some sibling) = do
    p ← parent_id id
    q ← parent_id sibling
    pure (if p == q then some sibling else none)

  unfoldable pub right_branch_sibling : ℕ → Prog Item (Option ℕ)
  right_branch_sibling left = do
    id ← right_sibling_id left
    right ← load_branch id
    same_parent left right

  unfoldable pub left_branch_sibling : ℕ → Prog Item (Option ℕ)
  left_branch_sibling right = do
    id ← left_sibling_id right
    left ← load_branch id
    same_parent right left

  unfoldable pub right_leaf_sibling : ℕ → Prog Item (Option ℕ)
  right_leaf_sibling left = do
    id ← right_sibling_id left
    right ← load_leaf id
    same_parent left right

  unfoldable pub left_leaf_sibling : ℕ → Prog Item (Option ℕ)
  left_leaf_sibling right = do
    id ← left_sibling_id right
    left ← load_leaf id
    same_parent right left

  -- `t.adapter.LoadBranch(node.ParentID())`, which is used at once.
  unfoldable pub load_parent : ℕ → Prog Item ℕ
  load_parent id = do p ← parent_id id; parent ← load_branch p; not_nil parent

  -- `sibling != nil && sibling.TotalKeys() > half`
  unfoldable pub can_lend : ℕ → Option ℕ → Prog Item Bool
  can_lend half none = pure false
  can_lend half (some sibling) = do n ← total_keys sibling; pure (ltb half n)

  unfoldable pub pipe_from_right_branch : ℕ → ℕ → ℕ → Prog Item (Unit {0})
  pipe_from_right_branch fuel right left = do
    parent ← load_parent right
    first_key ← key_at right 0
    found ← find_on_node parent first_key
    position ← before found
    left_key ← key_at parent position
    first_from_right ← Branch.delete_at right 0
    n ← total_keys left
    Branch.insert_at left n left_key first_from_right.lower
    loaded ← load_node first_from_right.lower
    child ← not_nil loaded
    set_parent_id child left
    parent_key ← find_minimum fuel right
    Branch.set_key_at parent position parent_key

  unfoldable pub pipe_from_left_branch : ℕ → ℕ → Prog Item (Unit {0})
  pipe_from_left_branch left right = do
    parent ← load_parent right
    first_key ← key_at right 0
    found ← find_on_node parent first_key
    position ← before found
    right_key ← key_at parent position
    n ← total_keys left
    last_from_left ← Branch.delete_at left (n - 1)
    Branch.unshift_entry right right_key last_from_left.greater_or_equal
    loaded ← load_node last_from_left.greater_or_equal
    child ← not_nil loaded
    set_parent_id child right
    Branch.set_key_at parent position last_from_left.key

  unfoldable pub pipe_from_right_leaf : ℕ → ℕ → Prog Item (Unit {0})
  pipe_from_right_leaf right left = do
    first_from_right ← Leaf.delete_at right 0
    n ← total_keys left
    Leaf.insert_at left n first_from_right
    parent ← load_parent right
    found ← find_on_node parent first_from_right.key
    position ← before found
    key ← key_at right 0
    Branch.set_key_at parent position key

  unfoldable pub pipe_from_left_leaf : ℕ → ℕ → Prog Item (Unit {0})
  pipe_from_left_leaf left right = do
    first_from_right ← key_at right 0
    n ← total_keys left
    last_from_left ← Leaf.delete_at left (n - 1)
    Leaf.insert_at right 0 last_from_left
    parent ← load_parent right
    found ← find_on_node parent first_from_right
    position ← before found
    Branch.set_key_at parent position last_from_left.key

  -- `for right.TotalKeys() > 0`, a round for each of the `n` keys.
  unfoldable pub move_entries : ℕ → ℕ → ℕ → ℕ → Prog Item (Unit {0})
  move_entries zero left right insert_position = pure tt
  move_entries (suc n) left right insert_position = do
    e ← Branch.delete_at right 0
    Branch.insert_at left insert_position e.key e.greater_or_equal
    update_parent_id e.greater_or_equal left
    move_entries n left right (insert_position + 1)

  unfoldable pub set_left_of : Option ℕ → ℕ → Prog Item (Unit {0})
  set_left_of none left = pure tt
  set_left_of (some new_right) left = set_left_sibling_id new_right left

  -- The first half of `mergeBranches`: all of `right` goes to `left`. It returns the key that was
  -- the lowest of `right`.
  unfoldable pub join_branches : ℕ → ℕ → ℕ → Prog Item ℕ
  join_branches fuel left right = do
    insert_position ← total_keys left
    entry ← Branch.entry_at right 0
    left_key ← find_minimum fuel right
    Branch.insert_at left insert_position left_key entry.lower
    update_parent_id entry.lower left
    n ← total_keys right
    move_entries n left right (insert_position + 1)
    right_id ← right_sibling_id right
    set_right_sibling_id left right_id
    new_right ← right_branch_sibling right
    set_left_of new_right left
    free right
    pure left_key

  -- The first half of `mergeLeaves`, likewise.
  unfoldable pub join_leaves : ℕ → ℕ → Prog Item ℕ
  join_leaves left right = do
    insert_position ← total_keys left
    es ← leaf_entries right
    insert_leaf_entries left insert_position es
    right_id ← right_sibling_id right
    new_right ← load_leaf right_id
    set_left_of new_right left
    set_right_sibling_id left right_id
    key ← key_at right 0
    free right
    pure key

  -- `left` replaces a root that has a single key.
  unfoldable pub is_last_of_root : ℕ → Prog Item Bool
  is_last_of_root parent = do root ← is_root parent; n ← total_keys parent; pure (root && (n == 1))

module _ {Item : Type 0} (t : BPlusTree) where
  -- `deleteFromBranch`, with `mergeBranches` and `deleteKeyFromBranch`, through which it goes on to
  -- the parent.
  unfoldable pub delete_from_branch : ℕ → ℕ → ℕ → Prog Item (Unit {0})
  delete_from_branch zero branch position = no_fuel
  delete_from_branch (suc fuel) branch position = do
    if position == 0
        then Branch.shift_entries branch
        else (Branch.delete_at branch position >>= λ _. pure tt)
    n ← total_keys branch
    root ← is_root branch
    if leb t.half_branch_capacity n
        then pure tt
        else (if root then pure tt else (do
          right ← right_branch_sibling branch
          from_right ← can_lend t.half_branch_capacity right
          elim from_right [
            | true ↦ do r ← not_nil right; pipe_from_right_branch (suc fuel) r branch
            | false ↦ do
              left ← left_branch_sibling branch
              from_left ← can_lend t.half_branch_capacity left
              elim from_left [
                | true ↦ do l ← not_nil left; pipe_from_left_branch l branch
                | false ↦ do
                  (l, r) ← (elim right [
                    | some r ↦ pure (branch, r)
                    | none ↦ elim left [ some l ↦ pure (l, branch) | none ↦ abort ]
                  ])
                  left_key ← join_branches (suc fuel) l r
                  parent ← load_parent l
                  last ← is_last_of_root parent
                  elim last [
                    | true ↦ do free parent; set_root l
                    | false ↦ do
                      found ← find_on_node parent left_key
                      position ← before found
                      delete_from_branch fuel parent position
                  ]
              ]
          ]))

  unfoldable pub delete_key_from_branch : ℕ → ℕ → ℕ → Prog Item (Unit {0})
  delete_key_from_branch fuel branch key = do
    found ← find_on_node branch key
    position ← before found
    delete_from_branch fuel branch position

  unfoldable pub merge_leaves : ℕ → ℕ → ℕ → Prog Item (Unit {0})
  merge_leaves fuel left right = do
    key ← join_leaves left right
    parent ← load_parent left
    last ← is_last_of_root parent
    elim last [
      | true ↦ do free parent; set_root left
      | false ↦ delete_key_from_branch fuel parent key
    ]

  unfoldable pub delete_from_leaf : ℕ → ℕ → ℕ → Prog Item (Unit {0})
  delete_from_leaf fuel leaf position = do
    Leaf.delete_at leaf position >>= λ _. pure tt
    n ← total_keys leaf
    root ← is_root leaf
    if leb t.half_leaf_capacity n
        then pure tt
        else (if root then pure tt else (do
          right ← right_leaf_sibling leaf
          from_right ← can_lend t.half_leaf_capacity right
          elim from_right [
            | true ↦ do r ← not_nil right; pipe_from_right_leaf r leaf
            | false ↦ do
              left ← left_leaf_sibling leaf
              from_left ← can_lend t.half_leaf_capacity left
              elim from_left [
                | true ↦ do l ← not_nil left; pipe_from_left_leaf l leaf
                | false ↦ do
                  (l, r) ← (elim right [
                    | some r ↦ pure (leaf, r)
                    | none ↦ elim left [ some l ↦ pure (l, leaf) | none ↦ abort ]
                  ])
                  merge_leaves fuel l r
              ]
          ]))

  unfoldable pub delete : ℕ → ℕ → Prog Item (Unit {0})
  delete fuel key = do
    root ← load_root
    elim root [
      | none ↦ fail key_not_found
      | some root ↦ do
        leaf ← find_leaf_for_key fuel root key
        (position, found) ← find_on_node leaf key
        if found then delete_from_leaf fuel leaf position else fail key_not_found
    ]
