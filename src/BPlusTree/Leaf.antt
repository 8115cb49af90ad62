-- ===== src/BPlusTree/Leaf.antt =====
-- The methods of `inMemoryLeaf` in src/bplustree/in_memory_adapter.go that concern its entries.
use pucrs_metadata_db.Base.{ℕ, List}
use pucrs_metadata_db.BPlusTree.Entries.{
  LeafEntry, elem_at, leaf_insert_at, leaf_delete_at, delete_from,
}
use pucrs_metadata_db.BPlusTree.Adapter.{leaf, Prog, pure, lift, ◌>>=◌, ◌>>◌}
use pucrs_metadata_db.BPlusTree.NodeOps.{leaf_entries, set_entries}

module _ {Item : Type 0} where
  unfoldable pub insert_at : ℕ → ℕ → LeafEntry Item → Prog Item (Unit {0})
  insert_at id position entry = do
    es ← leaf_entries id
    es ← lift (leaf_insert_at es position entry)
    set_entries id (leaf es)

  unfoldable pub item_at : ℕ → ℕ → Prog Item Item
  item_at id position = do es ← leaf_entries id; e ← lift (elem_at es position); pure (e.item)

  unfoldable pub delete_at : ℕ → ℕ → Prog Item (LeafEntry Item)
  delete_at id position = do
    es ← leaf_entries id
    (entry, es) ← lift (leaf_delete_at es position)
    set_entries id (leaf es)
    pure entry

  unfoldable pub cut_from : ℕ → ℕ → Prog Item (List (LeafEntry Item))
  cut_from id position = do
    es ← leaf_entries id
    (cut, es) ← lift (delete_from es position)
    set_entries id (leaf es)
    pure cut
