-- ===== src/BPlusTree/Delete/Refill.antt =====
-- What `Find` of src/bplustree/bplus_tree.go gives after a deletion that borrowed from the right leaf.
use pucrs_metadata_db.Base.{
  ℕ, suc, ◌≤◌, ◌<◌, ◌≡◌, refl, sym, ◌∙◌, some, List, [], ◌∷◌, ◌++◌, get_elem?,
}
use pucrs_metadata_db.BPlusTree.Entries.{LeafEntry, without_at}
use pucrs_metadata_db.BPlusTree.Adapter.{leaf, InMemoryAdapter}
use pucrs_metadata_db.BPlusTree.Find.{find}
use pucrs_metadata_db.BPlusTree.Find.SearchTree.{IsSearchTree}
use pucrs_metadata_db.BPlusTree.Insert.Lookup.{key_list, item_of}
use pucrs_metadata_db.BPlusTree.Insert.Answer.{answer_of}
use pucrs_metadata_db.BPlusTree.Insert.Nodes.{put_self, put-other, with_entries}
use pucrs_metadata_db.BPlusTree.Insert.Ascending.{Ascending}
use pucrs_metadata_db.BPlusTree.Insert.TwoLeaves.{two_leaves, two_leaves_find}
use pucrs_metadata_db.BPlusTree.Delete.Borrow.{
  IsPair, balanced, lent, borrowed, borrowed_right, new_root_node,
}

-- The keys of two leaves: in order, and divided by the key of the root.
pub record IsDivided {Item : Type 0} (hi pivot : ℕ) (left right : List (LeafEntry Item))
    : Type 0 where
  pub up_left : Ascending (key_list left)
  pub up_right : Ascending (key_list right)
  pub below : (i : ℕ) (e : LeafEntry Item) → get_elem? left i ≡ some e → e.key < pivot
  pub above :
      (i : ℕ) (e : LeafEntry Item) → get_elem? right i ≡ some e → (pivot ≤ e.key) × (e.key < hi)

module _ {Item : Type 0} {c : InMemoryAdapter Item} {l r pivot hi : ℕ}
    {left right : List (LeafEntry Item)} (v : IsPair c l r pivot left right)
    (o : IsDivided hi pivot left right) where
  pub pair_tree : IsSearchTree c 1 c.root_id 0 hi
  pair_tree =
      two_leaves c l r pivot hi v.left_node v.right_node v.root_node left right v.at_left v.at_right
        v.at_root v.left_shape v.right_shape v.root_shape o.up_left o.up_right o.below o.above

  pub pair_find :
      (m k : ℕ) → k < hi → answer_of (find (suc (suc m)) k c) ≡ item_of k (left ++ right)
  pair_find m k small =
      two_leaves_find c l r pivot hi v.left_node v.right_node v.root_node left right v.at_left
        v.at_right v.at_root v.left_shape v.right_shape v.root_shape o.up_left o.up_right o.below
        o.above m k small

-- The left leaf without an entry.
module _ {Item : Type 0} {c : InMemoryAdapter Item} {l r pivot : ℕ}
    {left right : List (LeafEntry Item)} (v : IsPair c l r pivot left right) (p : ℕ) where
  abbrev pub shrunk : InMemoryAdapter Item
  shrunk = with_entries c l v.left_node v.at_left (without_at left p)

  pub shrunk-IsPair : IsPair shrunk l r pivot (without_at left p) right
  shrunk-IsPair = record {
    left_node = record v.left_node { entries = leaf (without_at left p) };
    right_node = v.right_node;
    root_node = v.root_node;
    at_left = put_self c l _;
    at_right = put-other c l r _ (λ e. v.apart (sym e)) ∙ v.at_right;
    at_root = put-other c l c.root_id _ (λ e. v.left_apart (sym e)) ∙ v.at_root;
    left_shape = refl;
    right_shape = v.right_shape;
    root_shape = v.root_shape;
    siblings = v.siblings;
    left_parent = v.left_parent;
    right_parent = v.right_parent;
    apart = v.apart;
    left_apart = v.left_apart;
    right_apart = v.right_apart;
  }

module _ {Item : Type 0} {c : InMemoryAdapter Item} {l r pivot : ℕ} {left : List (LeafEntry Item)}
    {first second : LeafEntry Item} {right : List (LeafEntry Item)}
    (v : IsPair c l r pivot left (first ∷ second ∷ right)) (above : pivot ≤ first.key) where
  abbrev pub filled : InMemoryAdapter Item
  filled = balanced c l r pivot left first second right v above

  pub filled-IsPair : IsPair filled l r second.key (left ++ (first ∷ [])) (second ∷ right)
  filled-IsPair = record {
    left_node = record v.left_node { entries = leaf (left ++ (first ∷ [])) };
    right_node = record v.right_node { entries = leaf (second ∷ right) };
    root_node = new_root_node c l r pivot left first second right v above;
    at_left =
        put-other (borrowed c l r pivot left first second right v above) c.root_id l _ v.left_apart
        ∙ put_self (lent c l r pivot left first second right v above) l _;
    at_right =
        put-other (borrowed c l r pivot left first second right v above) c.root_id r _ v.right_apart
        ∙ borrowed_right c l r pivot left first second right v above;
    at_root = put_self (borrowed c l r pivot left first second right v above) c.root_id _;
    left_shape = refl;
    right_shape = refl;
    root_shape = refl;
    siblings = v.siblings;
    left_parent = v.left_parent;
    right_parent = v.right_parent;
    apart = v.apart;
    left_apart = v.left_apart;
    right_apart = v.right_apart;
  }
