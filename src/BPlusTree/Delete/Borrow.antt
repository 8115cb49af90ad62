-- ===== src/BPlusTree/Delete/Borrow.antt =====
-- `Delete` of src/bplustree/bplus_tree.go in a tree of two leaves, where the left one runs low and the right
-- one can lend an entry.
use pucrs_metadata_db.Base.{
  ℕ, ◌+◌, ◌≤◌, ◌<◌, ◌≡◌, ◌≢◌, refl, sym, ap, ◌∙◌, arith, true, some, List, [], ◌∷◌, ◌++◌, length,
  get_elem?, ok,
}
use pucrs_metadata_db.BPlusTree.Entries.{LeafEntry, without_at, leaf_delete_at, replace_key_at}
use pucrs_metadata_db.BPlusTree.Adapter.{
  leaf, branch, Node, InMemoryAdapter, put_node, node_of, set_node, load_leaf, load_branch,
  parent_id, right_sibling_id, ◌>>=◌,
}
use pucrs_metadata_db.BPlusTree.NodeOps.{
  total_keys, key_at, leaf_entries, branch_entries, set_entries,
}
use pucrs_metadata_db.BPlusTree.Leaf
use pucrs_metadata_db.BPlusTree.Branch
use pucrs_metadata_db.BPlusTree.Find.{bisect, search, find_in, find_on_node}
use pucrs_metadata_db.BPlusTree.Find.Descent.{length-map}
use pucrs_metadata_db.BPlusTree.Insert.Lookup.{with_at-end}
use pucrs_metadata_db.BPlusTree.Insert.Nodes.{put_self, put-other, with_entries, insert_at-put}
use pucrs_metadata_db.BPlusTree.Delete.{
  before, same_parent, right_leaf_sibling, load_parent, can_lend, pipe_from_right_leaf,
}

module _ {Item : Type 0} (s : InMemoryAdapter Item) (id : ℕ) (x : Node Item)
    (at : s.nodes id ≡ some x) (es : List (LeafEntry Item)) (shape : x.entries ≡ leaf es) where
  pub delete_at-put :
      (p : ℕ) (e : LeafEntry Item)
      → get_elem? es p ≡ some e
      → Leaf.delete_at id p s ≡ ok (e, with_entries s id x at (without_at es p))
  unfolding Leaf.delete_at leaf_entries set_entries node_of set_node leaf_delete_at
  delete_at-put p e h = ground (arith, at, shape, h)

  pub total_keys-leaf : total_keys id s ≡ ok (length es, s)
  unfolding total_keys node_of
  total_keys-leaf = ground (arith, at, shape, length-map (λ (e : LeafEntry Item). e.key) es)

-- Two leaves under a root, linked as siblings.
pub record IsPair {Item : Type 0} (c : InMemoryAdapter Item) (l r pivot : ℕ)
    (left right : List (LeafEntry Item)) : Type 0 where
  pub left_node : Node Item
  pub right_node : Node Item
  pub root_node : Node Item
  pub at_left : c.nodes l ≡ some left_node
  pub at_right : c.nodes r ≡ some right_node
  pub at_root : c.nodes c.root_id ≡ some root_node
  pub left_shape : left_node.entries ≡ leaf left
  pub right_shape : right_node.entries ≡ leaf right
  pub root_shape :
      root_node.entries ≡ branch (record { key = pivot; lower = l; greater_or_equal = r } ∷ [])
  pub siblings : left_node.right_id ≡ r
  pub left_parent : left_node.parent_id ≡ c.root_id
  pub right_parent : right_node.parent_id ≡ c.root_id
  pub apart : l ≢ r
  pub left_apart : l ≢ c.root_id
  pub right_apart : r ≢ c.root_id

module _ {Item : Type 0} (c : InMemoryAdapter Item) (l r pivot : ℕ) (left : List (LeafEntry Item))
    (first second : LeafEntry Item) (right : List (LeafEntry Item))
    (v : IsPair c l r pivot left (first ∷ second ∷ right)) (above : pivot ≤ first.key) where
  pub sibling : right_leaf_sibling l c ≡ ok (some r, c)
  unfolding right_leaf_sibling right_sibling_id load_leaf same_parent parent_id node_of
  sibling =
      ground
        (arith, v.at_left, v.at_right, v.right_shape, v.siblings, v.left_parent, v.right_parent)

  pub lends : (half : ℕ) → half < length right + 2 → can_lend half (some r) c ≡ ok (true, c)
  unfolding can_lend
  lends half more = ground (
    arith,
    total_keys-leaf c r v.right_node v.at_right (first ∷ second ∷ right) v.right_shape,
    more,
  )

  abbrev pub lent : InMemoryAdapter Item
  lent = with_entries c r v.right_node v.at_right (second ∷ right)

  pub lent_left : lent.nodes l ≡ some v.left_node
  lent_left = put-other c r l _ v.apart ∙ v.at_left

  abbrev pub borrowed : InMemoryAdapter Item
  borrowed = with_entries lent l v.left_node lent_left (left ++ (first ∷ []))

  pub borrowed_right :
      borrowed.nodes r ≡ some (record v.right_node { entries = leaf (second ∷ right) })
  borrowed_right = put-other lent l r _ (λ e. v.apart (sym e)) ∙ put_self c r _

  borrowed_root : borrowed.nodes c.root_id ≡ some v.root_node
  borrowed_root =
      put-other lent l c.root_id _ (λ e. v.left_apart (sym e))
      ∙ put-other c r c.root_id _ (λ e. v.right_apart (sym e))
      ∙ v.at_root

  abbrev pub new_root_node : Node Item
  new_root_node = record v.root_node {
    entries = branch (record { key = second.key; lower = l; greater_or_equal = r } ∷ []);
  }

  abbrev pub balanced : InMemoryAdapter Item
  balanced = put_node borrowed c.root_id (some new_root_node)

  moves_first :
      (Leaf.delete_at r 0 c ≡ ok (first, lent))
      × (total_keys l lent ≡ ok (length left, lent))
      × (Leaf.insert_at l (length left) first lent ≡ ok (tt, borrowed))
  moves_first = (
    delete_at-put c r v.right_node v.at_right (first ∷ second ∷ right) v.right_shape 0 first refl,
    total_keys-leaf lent l v.left_node lent_left left v.left_shape,
    insert_at-put lent l v.left_node lent_left left v.left_shape (length left) first (omega arith)
        ∙ ap (λ (es : List (LeafEntry Item)). ok (tt, with_entries lent l v.left_node lent_left es))
            (with_at-end left first),
  )

  parent_found : load_parent r borrowed ≡ ok (c.root_id, borrowed)
  unfolding load_parent parent_id load_branch node_of
  parent_found = ground (arith, borrowed_right, borrowed_root, v.root_shape, v.right_parent)

  place_found :
      (find_on_node c.root_id first.key >>= λ found. before found) borrowed ≡ ok (0, borrowed)
  unfolding find_on_node node_of find_in search bisect
  place_found = ground (arith, borrowed_root, v.root_shape, above)

  pivot_set : (key_at r 0 >>= λ key. Branch.set_key_at c.root_id 0 key) borrowed ≡ ok (tt, balanced)
  unfolding key_at node_of Branch.set_key_at branch_entries replace_key_at set_entries set_node
  pivot_set = ground (arith, borrowed_right, borrowed_root, v.root_shape)

  pub pipes : pipe_from_right_leaf r l c ≡ ok (tt, balanced)
  unfolding pipe_from_right_leaf
  pipes =
      ground
        (arith, moves_first.0, moves_first.1, moves_first.2, parent_found, place_found, pivot_set)
