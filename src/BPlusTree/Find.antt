-- ===== src/BPlusTree/Find.antt =====
-- Searching in src/bplustree/bplus_tree.go: a node, the leaf of a key, the tree. Loops that follow the
-- IDs of nodes have fuel.
pub mod Search
pub mod SearchTree
pub mod Descent
pub mod Walk
pub mod Tests
use pucrs_metadata_db.Base.{
  ℕ, zero, suc, ◌+◌, ◌-◌, ◌/◌, ◌==◌, ltb, leb, Bool, true, false, not, ◌&&◌, if◌then◌else◌, Option,
  none, some, List, [], ◌∷◌, ◌++◌, length, get_elem?, map, Result, Error, ok, err, panic,
  out_of_fuel, key_not_found,
}
use pucrs_metadata_db.BPlusTree.Entries.{LeafEntry, BranchEntry, elem_at}
use pucrs_metadata_db.BPlusTree.Adapter.{
  Entries, leaf, branch, Node, InMemoryAdapter, Prog, pure, fail, abort, no_fuel, lift, ◌>>=◌, ◌>>◌,
  node_of, is_leaf, load_node, load_root, load_leaf, load_first_leaf, right_sibling_id,
}
use pucrs_metadata_db.BPlusTree.NodeOps.{keys_of, total_keys, key_at, leaf_entries}
use pucrs_metadata_db.BPlusTree.Leaf
use pucrs_metadata_db.BPlusTree.Branch

-- `node.KeyAt(i).Less(key)` for an `i` in range.
abbrev pub is_less : List ℕ → ℕ → ℕ → Bool
is_less keys i key = elim (get_elem? keys i) [ some k ↦ ltb k key | none ↦ false ]

-- `sort.Search(n, f)` of the standard library, with `f(i)` for `!node.KeyAt(i).Less(key)`: the
-- bisection of the interval `[i, j)`. A round halves it, so that `j - i` rounds are enough.
unfoldable pub bisect : ℕ → List ℕ → ℕ → ℕ → ℕ → ℕ
bisect zero keys key i j = i
bisect (suc fuel) keys key i j =
    let h = (i + j) / 2 in
    let upper = bisect fuel keys key (h + 1) j in
    let lower = bisect fuel keys key i h in
    if ltb i j then (if is_less keys h key then upper else lower) else i

unfoldable pub search : List ℕ → ℕ → ℕ
search keys key = bisect (length keys) keys key 0 (length keys)

-- Where the key is or would be, and whether it is there.
unfoldable pub find_in : List ℕ → ℕ → ℕ × Bool
find_in keys key =
    let p = search keys key in (p, elim (get_elem? keys p) [ some k ↦ k == key | none ↦ false ])

module _ {Item : Type 0} where
  -- `x.method()` on the result of a load: the nil interface panics.
  abbrev pub not_nil : Option ℕ → Prog Item ℕ
  not_nil (some id) = pure id
  not_nil none = abort

  unfoldable pub find_on_node : ℕ → ℕ → Prog Item (ℕ × Bool)
  find_on_node id key = do n ← node_of id; pure (find_in (keys_of n.entries) key)

  unfoldable pub find_leaf_for_key : ℕ → ℕ → ℕ → Prog Item ℕ
  find_leaf_for_key zero id key = no_fuel
  find_leaf_for_key (suc fuel) id key = do
    leaf_node ← is_leaf id
    if leaf_node then pure id else (do
      (position, _) ← find_on_node id key
      n ← total_keys id
      entry ← Branch.entry_at id (if leb n position then position - 1 else position)
      let child_id = if ltb key entry.key then entry.lower else entry.greater_or_equal
      child ← load_node child_id
      id ← not_nil child
      find_leaf_for_key fuel id key)

  unfoldable pub find : ℕ → ℕ → Prog Item Item
  find fuel key = do
    root ← load_root
    elim root [
      | none ↦ fail key_not_found
      | some root ↦ do
        id ← find_leaf_for_key fuel root key
        (index, found) ← find_on_node id key
        if found then Leaf.item_at id index else fail key_not_found
    ]

  -- `All` hands the entries to the iterator one by one: the model returns them in that order.
  unfoldable pub all_loop : ℕ → Option ℕ → Prog Item (List (LeafEntry Item))
  all_loop fuel none = pure []
  all_loop zero (some id) = no_fuel
  all_loop (suc fuel) (some id) = do
    right_id ← right_sibling_id id
    es ← leaf_entries id
    next ← load_leaf right_id
    rest ← all_loop fuel next
    pure (es ++ rest)

  unfoldable pub all : ℕ → Prog Item (List (LeafEntry Item))
  all fuel = do first ← load_first_leaf; all_loop fuel first

  unfoldable pub find_minimum : ℕ → ℕ → Prog Item ℕ
  find_minimum zero id = no_fuel
  find_minimum (suc fuel) id = do
    entry ← Branch.entry_at id 0
    child ← load_node entry.lower
    id ← not_nil child
    leaf_node ← is_leaf id
    if leaf_node then key_at id 0 else find_minimum fuel id
