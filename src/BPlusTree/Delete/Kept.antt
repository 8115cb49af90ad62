-- ===== src/BPlusTree/Delete/Kept.antt =====
-- A search tree in src/bplustree stays one where a leaf loses entries.
use pucrs_metadata_db.Base.{
  ℕ, zero, suc, ◌≡◌, arith, ◌==◌, ==_iff, ==_of_ne, Bool-cases, inl, inr, some, List, get_elem?,
}
use native.Mathlib.Decide.{ℕ_discrete}
use pucrs_metadata_db.BPlusTree.Entries.{LeafEntry}
use pucrs_metadata_db.BPlusTree.Adapter.{leaf, InMemoryAdapter}
use pucrs_metadata_db.BPlusTree.Find.Search.{InOrder}
use pucrs_metadata_db.BPlusTree.Find.SearchTree.{Stored, IsLeafNode, IsSearchTree}
use pucrs_metadata_db.BPlusTree.Insert.Lookup.{key_list}
use pucrs_metadata_db.BPlusTree.Insert.Replaced.{replaced, after, same_node, branch_kept, leaf_kept}

-- Every entry of `xs` is one of `ys`.
abbrev pub Among : {A : Type 0} → List A → List A → Type 0
Among {A} xs ys = (i : ℕ) (x : A) → get_elem? xs i ≡ some x → (j : ℕ) × (get_elem? ys j ≡ some x)

module _ {Item : Type 0} (a : InMemoryAdapter Item) (l : ℕ) (es : List (LeafEntry Item))
    (s : Stored a l (leaf es)) (es' : List (LeafEntry Item)) (sorted : InOrder (key_list es'))
    (among : Among es' es) where
  leaf_still : (id lo hi : ℕ) → IsLeafNode a id lo hi → IsLeafNode (replaced a l es s es') id lo hi
  leaf_still id lo hi t = record {
    entries = after a l es s es' id t.entries;
    stored = leaf_kept a l es s es' id t.entries t.stored;
    in_order = elim (Bool-cases (id == l)) [ inl e ↦ rw e sorted | inr e ↦ rw e t.in_order ];
    inside = elim (ℕ_discrete id l) [
      | no ne ↦ rw (==_of_ne id l ne) t.inside
      | yes e ↦ rw ((==_iff id l).1 e) (λ i x h.
          let (j, found) = among i x h in
          let same = same_node a l es s es' id (leaf t.entries) t.stored e in
          t.inside j x (ground (arith, same, found)))
    ];
  }

  -- The whole tree is still a search tree, of the same depth and with the same bounds.
  pub tree_still :
      (d id lo hi : ℕ) → IsSearchTree a d id lo hi → IsSearchTree (replaced a l es s es') d id lo hi
  tree_still zero id lo hi t = leaf_still id lo hi t
  tree_still (suc d) id lo hi t = record {
    entries = t.entries;
    stored = branch_kept a l es s es' id t.entries t.stored;
    some_entry = t.some_entry;
    in_order = t.in_order;
    first_child = λ e h. tree_still d e.lower lo e.key (t.first_child e h);
    inner_child = λ i e f h h'.
        let (joined, order, child) = t.inner_child i e f h h' in
        (joined, order, tree_still d e.greater_or_equal e.key f.key child);
    last_child = λ i e h h'. tree_still d e.greater_or_equal e.key hi (t.last_child i e h h');
  }
