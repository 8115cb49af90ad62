-- ===== src/BPlusTree/Insert/TwoLeaves.antt =====
-- Trees of two leaves in src/bplustree, as a split of the root leaves them.
use pucrs_metadata_db.Base.{
  ℕ, zero, suc, ◌+◌, ◌≤◌, ◌<◌, ◌≡◌, ◌≢◌, sym, ap, subst, ◌∙◌, arith, some, List, [], ◌∷◌, ◌++◌,
  get_elem?, ok,
}
use native.Mathlib.Decide.{dec_lt}
use pucrs_metadata_db.BPlusTree.Entries.{LeafEntry, BranchEntry}
use pucrs_metadata_db.BPlusTree.Adapter.{leaf, branch, Node, InMemoryAdapter, load_node}
use pucrs_metadata_db.BPlusTree.Find.{find_leaf_for_key, find}
use pucrs_metadata_db.BPlusTree.Find.SearchTree.{Stored, IsLeafNode, IsSearchTree}
use pucrs_metadata_db.BPlusTree.Find.Descent.{leaf_is_leaf, node_loads, child_of, chosen}
use pucrs_metadata_db.BPlusTree.Find.Walk.{step}
use pucrs_metadata_db.BPlusTree.Insert.Lookup.{key_list, item_of, item_of_absent}
use pucrs_metadata_db.BPlusTree.Insert.Answer.{answer_of}
use pucrs_metadata_db.BPlusTree.Insert.Changed.{old_item}
use pucrs_metadata_db.BPlusTree.Insert.Ascending.{
  Ascending, Ascending-InOrder, one-InOrder, item_of-append,
}

-- A tree of two leaves under a root, of which the left one has the keys below `pivot`.
module _ {Item : Type 0} (c : InMemoryAdapter Item) (l r pivot hi : ℕ) (x y z : Node Item)
    (left right : List (LeafEntry Item)) (at_l : c.nodes l ≡ some x) (at_r : c.nodes r ≡ some y)
    (at_root : c.nodes c.root_id ≡ some z) (has_left : x.entries ≡ leaf left)
    (has_right : y.entries ≡ leaf right)
    (has_root : z.entries ≡ branch (record { key = pivot; lower = l; greater_or_equal = r } ∷ []))
    (up_left : Ascending (key_list left)) (up_right : Ascending (key_list right))
    (below : (i : ℕ) (e : LeafEntry Item) → get_elem? left i ≡ some e → e.key < pivot)
    (above : (i : ℕ) (e : LeafEntry Item)
      → get_elem? right i ≡ some e
      → (pivot ≤ e.key) × (e.key < hi)) where
  abbrev root_entry : BranchEntry
  root_entry = record { key = pivot; lower = l; greater_or_equal = r }

  abbrev pub left_leaf : IsLeafNode c l 0 pivot
  left_leaf = record {
    entries = left;
    stored = record { node = x; found = at_l; shape = has_left };
    in_order = Ascending-InOrder (key_list left) up_left;
    inside = λ i e h. (omega arith, below i e h);
  }

  abbrev right_leaf : IsLeafNode c r pivot hi
  right_leaf = record {
    entries = right;
    stored = record { node = y; found = at_r; shape = has_right };
    in_order = Ascending-InOrder (key_list right) up_right;
    inside = above;
  }

  pub only_entry :
      (i : ℕ) (e : BranchEntry) → get_elem? (root_entry ∷ []) i ≡ some e → root_entry ≡ e
  only_entry zero e h = ground (arith, h)
  only_entry (suc i) e h = absurd (ground (arith, h))

  pub no_second : (i : ℕ) (f : BranchEntry) → get_elem? (root_entry ∷ []) (i + 1) ≢ some f
  no_second i f h = ground (arith, h)

  abbrev pub two_leaves : IsSearchTree c 1 c.root_id 0 hi
  two_leaves = record {
    entries = root_entry ∷ [];
    stored = record { node = z; found = at_root; shape = has_root };
    some_entry = omega arith;
    in_order = one-InOrder pivot;
    first_child = λ e h.
        subst (λ (e : BranchEntry). IsLeafNode c e.lower 0 e.key) (only_entry 0 e h) left_leaf;
    inner_child = λ i e f h k. absurd (no_second i f k);
    last_child = λ i e h k.
        subst (λ (e : BranchEntry). IsLeafNode c e.greater_or_equal e.key hi) (only_entry i e h)
          right_leaf;
  }

  module _ (m k : ℕ) (small : k < hi) where
    -- One step from the root.
    pub down :
        (w : ℕ) (es : List (LeafEntry Item))
        → child_of k root_entry ≡ w
        → Stored c w (leaf es)
        → find_leaf_for_key (suc (suc m)) c.root_id k c ≡ ok (w, c)
    unfolding find_leaf_for_key
    down w es here s =
        let (e, h, _) =
          chosen c (IsSearchTree c 0) c.root_id 0 hi k two_leaves (omega arith) small in
        let same : child_of k e ≡ w =
          ap (λ (e : BranchEntry). child_of k e) (sym (only_entry _ e h)) ∙ here in
        let loads = node_loads c w (leaf es) s in
        let is_here = leaf_is_leaf c w es s in
        step c k (suc m) c.root_id (root_entry ∷ []) two_leaves.stored e h
          (subst (λ v. load_node v c ≡ ok (some v, c)) (sym same) loads)
        ∙ ap (λ v. find_leaf_for_key (suc m) v k c) same
        ∙ ground (arith, is_here)

    left_only : k < pivot → item_of k (left ++ right) ≡ item_of k left
    left_only less =
        item_of-append left right k
        ∙ ground (
          arith,
          item_of_absent k right (λ i e h same. omega (arith, (above i e h).0, less, same)),
        )

    right_only : pivot ≤ k → item_of k (left ++ right) ≡ item_of k right
    right_only more =
        item_of-append left right k
        ∙ ground
            (arith, item_of_absent k left (λ i e h same. omega (arith, below i e h, more, same)))

    pub two_leaves_find : answer_of (find (suc (suc m)) k c) ≡ item_of k (left ++ right)
    two_leaves_find = elim (dec_lt k pivot) [
      | yes less ↦
          old_item c (suc (suc m)) 1 hi (omega arith) two_leaves k l 0 pivot
            (down l left (ground (arith, less)) left_leaf.stored) left_leaf
          ∙ sym (left_only less)
      | no more ↦
          old_item c (suc (suc m)) 1 hi (omega arith) two_leaves k r pivot hi
            (down r right (ground (arith, more)) right_leaf.stored) right_leaf
          ∙ sym (right_only (omega arith))
    ]
