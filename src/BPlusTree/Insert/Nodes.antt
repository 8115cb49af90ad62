-- ===== src/BPlusTree/Insert/Nodes.antt =====
-- What the calls of `leafSplit` and `allocateNewRoot` in src/bplustree/bplus_tree.go do to the map of nodes.
use pucrs_metadata_db.Base.{
  ℕ, ◌+◌, ◌%◌, ◌≤◌, ◌≡◌, ◌≢◌, refl, sym, ap, fun_ext, ◌∙◌, arith, ◌==◌, ==_iff, ==_of_ne,
  if◌then◌else◌, Option, none, some, List, [], ◌∷◌, ◌++◌, length, length-append, take, drop, ok,
}
use native.Mathlib.Decide.{ℕ_discrete}
use mathlib.Core.List.{append-nil, append_assoc}
use pucrs_metadata_db.BPlusTree.Entries.{LeafEntry, delete_from, with_at}
use pucrs_metadata_db.BPlusTree.Adapter.{
  leaf, branch, Node, InMemoryAdapter, put_node, load_node, node_of, set_node, create,
  create_branch, set_parent_id, set_left_sibling_id, right_sibling_id, set_right_sibling_id,
  set_root,
}
use pucrs_metadata_db.BPlusTree.NodeOps.{leaf_entries, set_entries}
use pucrs_metadata_db.BPlusTree.Leaf
use pucrs_metadata_db.BPlusTree.Insert.{set_siblings, allocate_new_root, insert_leaf_entries}
use pucrs_metadata_db.BPlusTree.Insert.Lookup.{leaf_insert_at-ok, with_at-end}

module _ {Item : Type 0} where
  pub put_self :
      (s : InMemoryAdapter Item) (id : ℕ) (x : Option (Node Item)) → (put_node s id x).nodes id ≡ x
  put_self s id x = rw ((==_iff id id).1 refl) refl

  pub put-other :
      (s : InMemoryAdapter Item) (id j : ℕ) (x : Option (Node Item))
      → j ≢ id
      → (put_node s id x).nodes j ≡ s.nodes j
  put-other s id j x ne = rw (==_of_ne j id ne) refl

  put-put :
      (s : InMemoryAdapter Item) (id : ℕ) (x y : Option (Node Item))
      → put_node (put_node s id x) id y ≡ put_node s id y
  put-put s id x y =
      ap (λ (f : ℕ → Option (Node Item)). record s { nodes = f }) (fun_ext λ j. same j)
    where
      same :
          (j : ℕ)
          → (if j == id then y else if j == id then x else s.nodes j)
            ≡ (if j == id then y else s.nodes j)
      same j = ground arith

  put_same :
      (s : InMemoryAdapter Item) (id : ℕ) (x : Option (Node Item))
      → s.nodes id ≡ x
      → put_node s id x ≡ s
  put_same s id x h =
      ap (λ (f : ℕ → Option (Node Item)). record s { nodes = f }) (fun_ext λ j. same j)
    where
      same : (j : ℕ) → (if j == id then x else s.nodes j) ≡ s.nodes j
      same j = elim (ℕ_discrete j id) [
        | yes e ↦ rw ((==_iff j id).1 e) (sym h ∙ ap s.nodes (sym e))
        | no ne ↦ rw (==_of_ne j id ne) refl
      ]

  module _ (s : InMemoryAdapter Item) (id : ℕ) (x : Node Item) (at : s.nodes id ≡ some x) where
    -- The adapter with other entries of the leaf.
    abbrev pub with_entries : List (LeafEntry Item) → InMemoryAdapter Item
    with_entries es = put_node s id (some (record x { entries = leaf es }))

    module _ (es : List (LeafEntry Item)) (shape : x.entries ≡ leaf es) where
      pub insert_at-put :
          (p : ℕ) (new : LeafEntry Item)
          → p ≤ length es
          → Leaf.insert_at id p new s ≡ ok (tt, with_entries (with_at es p new))
      unfolding Leaf.insert_at leaf_entries set_entries node_of set_node
      insert_at-put p new h = ground (arith, at, shape, leaf_insert_at-ok es p new h)

      pub cut_from-put :
          (p : ℕ) → p ≤ length es → Leaf.cut_from id p s ≡ ok (drop p es, with_entries (take p es))
      unfolding Leaf.cut_from leaf_entries set_entries node_of set_node delete_from
      cut_from-put p h = ground (arith, at, shape, h)

  -- The loop of `InsertAt` adds the entries at the end.
  pub insert_leaf_entries-put :
      (s : InMemoryAdapter Item) (id : ℕ) (x : Node Item) (at : s.nodes id ≡ some x)
      (done ys : List (LeafEntry Item)) (i : ℕ)
      → x.entries ≡ leaf done
      → i ≡ length done
      → insert_leaf_entries id i ys s ≡ ok (tt, with_entries s id x at (done ++ ys))
  unfolding insert_leaf_entries
  insert_leaf_entries-put s id x at done [] i shape h =
      let whole : record x { entries = leaf (done ++ []) } ≡ x =
        ap (λ (es : List (LeafEntry Item)). record x { entries = leaf es }) (append-nil done)
        ∙ ap (λ es. record x { entries = es }) (sym shape) in
      ap (λ a. ok (tt, a)) (sym (put_same s id _ (at ∙ ap some (sym whole))))
  insert_leaf_entries-put s id x at done (e ∷ ys) i shape h =
      let grown = done ++ (e ∷ []) in
      let s' = with_entries s id x at grown in
      let x' : Node Item = record x { entries = leaf grown } in
      let first : Leaf.insert_at id i e s ≡ ok (tt, s') =
        insert_at-put s id x at done shape i e (omega (arith, h))
        ∙ ap (λ (es : List (LeafEntry Item)). ok (tt, with_entries s id x at es))
            (ap (λ n. with_at done n e) h ∙ with_at-end done e) in
      let rest =
        insert_leaf_entries-put s' id x' (put_self s id (some x')) grown ys (i + 1) refl
          (omega (arith, h, length-append done (e ∷ []))) in
      ground (arith, first, rest)
      ∙ ap (λ a. ok (tt, a))
          (put-put s id (some x') (some (record x { entries = leaf (grown ++ ys) }))
            ∙ ap (λ (es : List (LeafEntry Item)). with_entries s id x at es)
                (append_assoc done (e ∷ []) ys))

  -- Two nodes, of which the first has no right sibling, become siblings.
  pub set_siblings-put :
      (s : InMemoryAdapter Item) (l r : ℕ) (x y : Node Item)
      → s.nodes l ≡ some x
      → s.nodes r ≡ some y
      → l ≢ r
      → s.nodes x.right_id ≡ none
      → set_siblings l r s
        ≡ ok (
          tt,
          put_node
              (put_node s l (some (record x { right_id = r })))
              r
              (some (record y { left_id = l })),
        )
  unfolding set_siblings right_sibling_id load_node set_right_sibling_id set_left_sibling_id node_of
      set_node
  set_siblings-put s l r x y at_l at_r ne none_there =
      let other = put-other s l r (some (record x { right_id = r })) (λ e. ne (sym e)) ∙ at_r in
      ground (arith, at_l, none_there, other)

  module _ (s : InMemoryAdapter Item) (key l r : ℕ) (x y : Node Item) (at_l : s.nodes l ≡ some x)
      (at_r : s.nodes r ≡ some y) (ne : l ≢ r) (new_l : l ≢ s.next_node_id)
      (new_r : r ≢ s.next_node_id) where
    abbrev pub new_root : Node Item
    new_root = record {
      parent_id = 0;
      left_id = 0;
      right_id = 0;
      entries = branch (record { key = key; lower = l; greater_or_equal = r } ∷ []);
    }

    abbrev created : InMemoryAdapter Item
    created = record s {
      next_node_id = (s.next_node_id + 1) % 65536;
      nodes = λ j. if j == s.next_node_id then some new_root else s.nodes j;
    }

    abbrev adopted : InMemoryAdapter Item
    adopted =
        put_node (put_node created l (some (record x { parent_id = s.next_node_id }))) r
          (some (record y { parent_id = s.next_node_id }))

    -- The adapter with a new root over the two nodes.
    abbrev pub rooted : InMemoryAdapter Item
    rooted = put_node (record adopted { root_id = s.next_node_id }) s.next_node_id (some new_root)

    pub allocate_new_root-rooted : allocate_new_root key l r s ≡ ok (s.next_node_id, rooted)
    unfolding allocate_new_root create_branch create set_parent_id set_root node_of set_node
    allocate_new_root-rooted =
        ground (arith, at_l, at_r, ne, new_l, new_r, (==_iff s.next_node_id s.next_node_id).1 refl)

    pub rooted_left : rooted.nodes l ≡ some (record x { parent_id = s.next_node_id })
    rooted_left = ground (arith, ne, new_l)

    pub rooted_right : rooted.nodes r ≡ some (record y { parent_id = s.next_node_id })
    rooted_right = ground (arith, new_r)

    pub rooted_root : rooted.nodes s.next_node_id ≡ some new_root
    rooted_root = ground arith
