-- ===== src/BPlusTree/Insert/Replaced.antt =====
-- The entries of one leaf are replaced: the walks of src/bplustree/bplus_tree.go end where they did.
use pucrs_metadata_db.Base.{
  ℕ, zero, suc, ◌≤◌, ◌<◌, ◌≡◌, refl, sym, ap, ◌∙◌, arith, ◌==◌, ==_iff, ==_of_ne, if◌then◌else◌,
  some, List, ok,
}
use native.Mathlib.Decide.{ℕ_discrete}
use mathlib.Core.Option.{some-injective}
use pucrs_metadata_db.BPlusTree.Entries.{LeafEntry, BranchEntry}
use pucrs_metadata_db.BPlusTree.Adapter.{
  Entries, leaf, branch, Node, InMemoryAdapter, put_node, load_node,
}
use pucrs_metadata_db.BPlusTree.Find.{find_leaf_for_key}
use pucrs_metadata_db.BPlusTree.Find.SearchTree.{Stored, IsLeafNode, IsSearchTree}
use pucrs_metadata_db.BPlusTree.Find.Descent.{node_loads, leaf_is_leaf, child_of, chosen}
use pucrs_metadata_db.BPlusTree.Find.Walk.{tree_loads, step}

module _ {Item : Type 0} (a : InMemoryAdapter Item) (l : ℕ) (es : List (LeafEntry Item))
    (s : Stored a l (leaf es)) (es' : List (LeafEntry Item)) where
  -- The adapter after the entries of the leaf were replaced.
  abbrev pub replaced : InMemoryAdapter Item
  replaced = put_node a l (some (record s.node { entries = leaf es' }))

  abbrev pub after : ℕ → List (LeafEntry Item) → List (LeafEntry Item)
  after id xs = if id == l then es' else xs

  pub same_node : (id : ℕ) (xs : Entries Item) → Stored a id xs → id ≡ l → xs ≡ leaf es
  same_node id xs x e =
      let found = sym (ap a.nodes e) ∙ x.found in
      let same = some-injective _ _ (sym s.found ∙ found) in
      sym x.shape ∙ sym (ap (λ (n : Node Item). n.entries) same) ∙ s.shape

  pub branch_kept :
      (id : ℕ) (bs : List BranchEntry) → Stored a id (branch bs) → Stored replaced id (branch bs)
  branch_kept id bs x = elim (ℕ_discrete id l) [
    | yes e ↦ let same = same_node id (branch bs) x e in absurd (ground (arith, same))
    | no ne ↦ record { node = x.node; found = rw (==_of_ne id l ne) x.found; shape = x.shape }
  ]

  pub leaf_kept :
      (id : ℕ) (xs : List (LeafEntry Item))
      → Stored a id (leaf xs)
      → Stored replaced id (leaf (after id xs))
  leaf_kept id xs x = elim (ℕ_discrete id l) [
    | yes e ↦ record {
      node = record s.node { entries = leaf es' };
      found = rw ((==_iff id l).1 e) refl;
      shape = rw ((==_iff id l).1 e) refl;
    }
    | no ne ↦ record {
      node = x.node;
      found = rw (==_of_ne id l ne) x.found;
      shape = rw (==_of_ne id l ne) x.shape;
    }
  ]

  pub loads_kept :
      (d id lo hi : ℕ) → IsSearchTree a d id lo hi → load_node id replaced ≡ ok (some id, replaced)
  loads_kept zero id lo hi t = node_loads replaced id _ (leaf_kept id t.entries t.stored)
  loads_kept (suc d) id lo hi t = node_loads replaced id _ (branch_kept id t.entries t.stored)

  -- The walk ends at the same leaf as before.
  pub walk_both :
      (fuel d id lo hi k : ℕ)
      → d < fuel
      → IsSearchTree a d id lo hi
      → lo ≤ k
      → k < hi
      → (w : ℕ) × (lo' : ℕ) × (hi' : ℕ) × (find_leaf_for_key fuel id k a ≡ ok (w, a))
        × (find_leaf_for_key fuel id k replaced ≡ ok (w, replaced))
        × IsLeafNode a w lo' hi'
  unfolding find_leaf_for_key
  walk_both zero d id lo hi k f t x y = absurd (omega (arith, f))
  walk_both (suc fuel) zero id lo hi k f t x y = (
    id,
    lo,
    hi,
    ground (arith, leaf_is_leaf a id t.entries t.stored),
    ground (arith, leaf_is_leaf replaced id (after id t.entries) (leaf_kept id t.entries t.stored)),
    t,
  )
  walk_both (suc fuel) (suc d) id lo hi k f t x y =
      let (e, h, (lo', hi', child, x', y')) = chosen a (IsSearchTree a d) id lo hi k t x y in
      let (w, lw, hw, here, there, n) =
        walk_both fuel d (child_of k e) lo' hi' k (omega arith) child x' y' in
      (
        w,
        lw,
        hw,
        step a k fuel id t.entries t.stored e h (tree_loads a k d (child_of k e) lo' hi' child)
            ∙ here,
        step replaced k fuel id t.entries (branch_kept id t.entries t.stored) e h
              (loads_kept d (child_of k e) lo' hi' child)
            ∙ there,
        n,
      )
