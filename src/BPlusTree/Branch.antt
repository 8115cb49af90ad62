-- ===== src/BPlusTree/Branch.antt =====
-- The methods of `inMemoryBranch` in src/bplustree/in_memory_adapter.go that concern its entries.
use pucrs_metadata_db.Base.{ℕ, List}
use pucrs_metadata_db.BPlusTree.Entries.{
  BranchEntry, elem_at, branch_insert_at, branch_delete_at, delete_from, replace_key_at, shift,
  unshift,
}
use pucrs_metadata_db.BPlusTree.Adapter.{branch, Prog, pure, lift, ◌>>=◌, ◌>>◌}
use pucrs_metadata_db.BPlusTree.NodeOps.{branch_entries, set_entries}

module _ {Item : Type 0} where
  unfoldable pub entry_at : ℕ → ℕ → Prog Item BranchEntry
  entry_at id position = do es ← branch_entries id; lift (elem_at es position)

  unfoldable pub insert_at : ℕ → ℕ → ℕ → ℕ → Prog Item (Unit {0})
  insert_at id position key greater_or_equal_id = do
    es ← branch_entries id
    es ← lift (branch_insert_at es position key greater_or_equal_id)
    set_entries id (branch es)

  unfoldable pub delete_at : ℕ → ℕ → Prog Item BranchEntry
  delete_at id position = do
    es ← branch_entries id
    (entry, es) ← lift (branch_delete_at es position)
    set_entries id (branch es)
    pure entry

  unfoldable pub cut_from : ℕ → ℕ → Prog Item (List BranchEntry)
  cut_from id position = do
    es ← branch_entries id
    (cut, es) ← lift (delete_from es position)
    set_entries id (branch es)
    pure cut

  unfoldable pub set_key_at : ℕ → ℕ → ℕ → Prog Item (Unit {0})
  set_key_at id position key = do
    es ← branch_entries id
    es ← lift (replace_key_at es position key)
    set_entries id (branch es)

  unfoldable pub shift_entries : ℕ → Prog Item (Unit {0})
  shift_entries id = do es ← branch_entries id; es ← lift (shift es); set_entries id (branch es)

  unfoldable pub unshift_entry : ℕ → ℕ → ℕ → Prog Item (Unit {0})
  unshift_entry id key lower_id = do
    es ← branch_entries id
    es ← lift (unshift es key lower_id)
    set_entries id (branch es)
