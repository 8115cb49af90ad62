-- ===== src/BPlusTree/NodeOps.antt =====
-- What the methods of `inMemoryLeaf` and `inMemoryBranch` in src/bplustree/in_memory_adapter.go share.
use pucrs_metadata_db.Base.{ℕ, List, length, map}
use pucrs_metadata_db.BPlusTree.Entries.{LeafEntry, BranchEntry, elem_at}
use pucrs_metadata_db.BPlusTree.Adapter.{
  Entries, leaf, branch, Prog, pure, abort, lift, ◌>>=◌, node_of, set_node,
}

module _ {Item : Type 0} where
  abbrev pub keys_of : Entries Item → List ℕ
  keys_of (leaf es) = map (λ e. e.key) es
  keys_of (branch es) = map (λ e. e.key) es

  unfoldable pub total_keys : ℕ → Prog Item ℕ
  total_keys id = do n ← node_of id; pure (length (keys_of n.entries))

  unfoldable pub key_at : ℕ → ℕ → Prog Item ℕ
  key_at id position = do n ← node_of id; lift (elem_at (keys_of n.entries) position)

  -- The entries of a leaf and of a branch: only `LeafNode`s and `BranchNode`s have the methods below.
  unfoldable pub leaf_entries : ℕ → Prog Item (List (LeafEntry Item))
  leaf_entries id = do n ← node_of id; elim n.entries [ leaf es ↦ pure es | branch es ↦ abort ]

  unfoldable pub branch_entries : ℕ → Prog Item (List BranchEntry)
  branch_entries id = do n ← node_of id; elim n.entries [ leaf es ↦ abort | branch es ↦ pure es ]

  unfoldable pub set_entries : ℕ → Entries Item → Prog Item (Unit {0})
  set_entries id es = do n ← node_of id; set_node id (record n { entries = es })
