-- ===== src/BPlusTree/Find/SearchTree.antt =====
-- Search trees in the map of nodes.
use pucrs_metadata_db.Base.{ℕ, zero, suc, ◌+◌, ◌≤◌, ◌<◌, ◌≡◌, some, List, length, get_elem?}
use pucrs_metadata_db.BPlusTree.Entries.{LeafEntry, BranchEntry}
use pucrs_metadata_db.BPlusTree.Adapter.{Entries, leaf, branch, Node, InMemoryAdapter}
use pucrs_metadata_db.BPlusTree.NodeOps.{keys_of}
use pucrs_metadata_db.BPlusTree.Find.Search.{InOrder}

module _ {Item : Type 0} (a : InMemoryAdapter Item) where
  -- The node `id` is stored with these entries.
  pub record Stored (id : ℕ) (es : Entries Item) : Type 0 where
    pub node : Node Item
    pub found : a.nodes id ≡ some node
    pub shape : node.entries ≡ es

  -- A leaf: its keys are in order and lie in the interval from `lo` up to `hi`.
  pub record IsLeafNode (id lo hi : ℕ) : Type 0 where
    pub entries : List (LeafEntry Item)
    pub stored : Stored id (leaf entries)
    pub in_order : InOrder (keys_of {Item = Item} (leaf entries))
    pub inside :
        (i : ℕ) (e : LeafEntry Item) → get_elem? entries i ≡ some e → (lo ≤ e.key) × (e.key < hi)

  -- A branch: its keys are in order, and they divide the interval among its children.
  pub record IsBranchNode (Child : ℕ → ℕ → ℕ → Type 0) (id lo hi : ℕ) : Type 0 where
    pub entries : List BranchEntry
    pub stored : Stored id (branch entries)
    pub some_entry : 0 < length entries
    pub in_order : InOrder (keys_of {Item = Item} (branch entries))
    pub first_child : (e : BranchEntry) → get_elem? entries 0 ≡ some e → Child e.lower lo e.key
    pub inner_child :
        (i : ℕ) (e f : BranchEntry)
        → get_elem? entries i ≡ some e
        → get_elem? entries (i + 1) ≡ some f
        → (f.lower ≡ e.greater_or_equal) × (e.key < f.key) × Child e.greater_or_equal e.key f.key
    pub last_child :
        (i : ℕ) (e : BranchEntry)
        → get_elem? entries i ≡ some e
        → i + 1 ≡ length entries
        → Child e.greater_or_equal e.key hi

  -- A tree of depth `d`, with all keys from `lo` up to `hi`.
  abbrev pub IsSearchTree : ℕ → ℕ → ℕ → ℕ → Type 0
  IsSearchTree zero id lo hi = IsLeafNode id lo hi
  IsSearchTree (suc d) id lo hi = IsBranchNode (IsSearchTree d) id lo hi
