-- ===== src/BPlusTree/Insert/Split.antt =====
-- `leafSplit` of src/bplustree/bplus_tree.go on a leaf without a right sibling: the two leaves share out the
-- entries with the new one among them.
use pucrs_metadata_db.Base.{
  ℕ, suc, ◌+◌, ◌-◌, ◌%◌, ◌≤◌, ◌<◌, ◌≡◌, ◌≢◌, refl, sym, ap, subst, ◌∙◌, arith, ◌==◌, ==_iff,
  ==_of_ne, ltb, Bool-cases, inl, inr, if◌then◌else◌, none, some, List, [], length, length-take,
  length-drop, take, drop, ok,
}
use pucrs_metadata_db.BPlusTree.Entries.{LeafEntry, with_at}
use pucrs_metadata_db.BPlusTree.Adapter.{
  Prog, ◌>>=◌, ◌>>◌, leaf, Node, InMemoryAdapter, put_node, create, create_leaf,
}
use pucrs_metadata_db.BPlusTree.Leaf
use pucrs_metadata_db.BPlusTree.Insert.{
  BPlusTree, leaf_split, split_from, insert_leaf_entries, set_siblings,
}
use pucrs_metadata_db.BPlusTree.Insert.Parts.{
  take-with_at_low, drop-with_at_low, take-with_at_high, drop-with_at_high,
}
use pucrs_metadata_db.BPlusTree.Insert.Nodes.{
  put_self, put-other, with_entries, insert_at-put, cut_from-put, insert_leaf_entries-put,
  set_siblings-put,
}

module _ {Item : Type 0} (s : InMemoryAdapter Item) (l : ℕ) (x : Node Item)
    (at : s.nodes l ≡ some x) (es : List (LeafEntry Item)) (shape : x.entries ≡ leaf es)
    (fresh : l ≢ s.next_node_id) (m : ℕ) (inside : m ≤ length es) where
  abbrev right_node : List (LeafEntry Item) → Node Item
  right_node ys = record { parent_id = 0; left_id = 0; right_id = 0; entries = leaf ys }

  abbrev left_node : List (LeafEntry Item) → Node Item
  left_node ys = record x { entries = leaf ys }

  abbrev cut : InMemoryAdapter Item
  cut = with_entries s l x at (take m es)

  abbrev with_right : InMemoryAdapter Item
  with_right = record cut {
    next_node_id = (s.next_node_id + 1) % 65536;
    nodes = λ j. if j == s.next_node_id then some (right_node []) else cut.nodes j;
  }

  blank : with_right.nodes s.next_node_id ≡ some (right_node [])
  blank = rw ((==_iff s.next_node_id s.next_node_id).1 refl) refl

  abbrev moved : InMemoryAdapter Item
  moved = with_entries with_right s.next_node_id (right_node []) blank (drop m es)

  -- The right leaf gets what is cut off.
  moves :
      {B : Type 0} (k : ℕ → Prog Item B)
      → (Leaf.cut_from l m >>= λ ys.
            create_leaf >>= λ right. insert_leaf_entries right 0 ys >> k right)
          s
        ≡ k s.next_node_id moved
  unfolding create_leaf create
  moves k = ground (
    arith,
    cut_from-put s l x at es shape m inside,
    insert_leaf_entries-put with_right s.next_node_id (right_node []) blank [] (drop m es) 0 refl
        refl,
  )

  moved_left : moved.nodes l ≡ some (left_node (take m es))
  moved_left =
      put-other with_right s.next_node_id l _ fresh
      ∙ rw (==_of_ne l s.next_node_id fresh) (put_self s l _)

  moved_right : moved.nodes s.next_node_id ≡ some (right_node (drop m es))
  moved_right = put_self with_right s.next_node_id _

  moved_other : (j : ℕ) → j ≢ l → j ≢ s.next_node_id → moved.nodes j ≡ s.nodes j
  moved_other j ne ne' =
      put-other with_right s.next_node_id j _ ne'
      ∙ rw (==_of_ne j s.next_node_id ne') (put-other s l j _ ne)

  module _ (right_less : x.right_id ≢ l) (right_old : x.right_id ≢ s.next_node_id)
      (no_right : s.nodes x.right_id ≡ none) (c : InMemoryAdapter Item)
      (left right : List (LeafEntry Item)) (c_left : c.nodes l ≡ some (left_node left))
      (c_right : c.nodes s.next_node_id ≡ some (right_node right))
      (c_other : c.nodes x.right_id ≡ none) where
    abbrev joined : InMemoryAdapter Item
    joined =
        put_node (put_node c l (some (record x { entries = leaf left; right_id = s.next_node_id })))
          s.next_node_id (some (record (right_node right) { left_id = l }))

    joins : set_siblings l s.next_node_id c ≡ ok (tt, joined)
    joins =
        set_siblings-put c l s.next_node_id (left_node left) (right_node right) c_left c_right fresh
          c_other

    joined_left :
        joined.nodes l ≡ some (record x { entries = leaf left; right_id = s.next_node_id })
    joined_left = put-other (put_node c l _) s.next_node_id l _ fresh ∙ put_self c l _

    joined_right : joined.nodes s.next_node_id ≡ some (record (right_node right) { left_id = l })
    joined_right = put_self (put_node c l _) s.next_node_id _

-- What a split of the leaf `l` leaves, if it gives the leaves these entries.
pub record IsSplit {Item : Type 0} (s s' : InMemoryAdapter Item) (l : ℕ) (x : Node Item)
    (left right : List (LeafEntry Item)) : Type 0 where
  pub left_there : s'.nodes l ≡ some (record x { entries = leaf left; right_id = s.next_node_id })
  pub right_there :
      s'.nodes s.next_node_id
      ≡ some (record { parent_id = 0; left_id = l; right_id = 0; entries = leaf right })
  pub same_root : s'.root_id ≡ s.root_id
  pub next_id : s'.next_node_id ≡ (s.next_node_id + 1) % 65536

module _ {Item : Type 0} (t : BPlusTree) (s : InMemoryAdapter Item) (l : ℕ) (x : Node Item)
    (at : s.nodes l ≡ some x) (es : List (LeafEntry Item)) (shape : x.entries ≡ leaf es)
    (fresh : l ≢ s.next_node_id) (right_less : x.right_id ≢ l)
    (right_old : x.right_id ≢ s.next_node_id) (no_right : s.nodes x.right_id ≡ none)
    (new : LeafEntry Item) where
  abbrev rest : ℕ → ℕ → Prog Item ℕ
  rest position right =
      (if ltb position t.half_leaf_capacity
        then Leaf.insert_at l position new
        else Leaf.insert_at right (position - t.half_leaf_capacity) new)
      >> (set_siblings l right >> (λ a. ok (right, a)))

  -- The split, by what the step that puts the new entry in leaves.
  IsSplit-by :
      (p m : ℕ) (inside : m ≤ length es) (c : InMemoryAdapter Item)
      (left right : List (LeafEntry Item))
      → split_from t.half_leaf_capacity p ≡ m
      → (if ltb p t.half_leaf_capacity
            then Leaf.insert_at l p new
            else Leaf.insert_at s.next_node_id (p - t.half_leaf_capacity) new)
          (moved s l x at es shape fresh m inside)
        ≡ ok (tt, c)
      → c.nodes l ≡ some (record x { entries = leaf left })
      → c.nodes s.next_node_id
        ≡ some (record { parent_id = 0; left_id = 0; right_id = 0; entries = leaf right })
      → c.nodes x.right_id ≡ none
      → c.root_id ≡ s.root_id
      → c.next_node_id ≡ (s.next_node_id + 1) % 65536
      → (s' : InMemoryAdapter Item) × (leaf_split t l p new s ≡ ok (s.next_node_id, s'))
        × IsSplit s s' l x left right
  unfolding leaf_split
  IsSplit-by p m inside c left right from puts c_left c_right c_other root next =
      let sets =
        joins s l x at es shape fresh m inside right_less right_old no_right c left right c_left
          c_right c_other in
      (
        joined s l x at es shape fresh m inside right_less right_old no_right c left right c_left
            c_right c_other,
        ap
              (λ n.
                (Leaf.cut_from l n >>= λ ys.
                create_leaf >>= λ r. insert_leaf_entries r 0 ys >> rest p r)
                  s)
              from
            ∙ moves s l x at es shape fresh m inside (rest p)
            ∙ ground (arith, puts, sets),
        record {
          left_there =
              joined_left s l x at es shape fresh m inside right_less right_old no_right c left
                right c_left c_right c_other;
          right_there =
              joined_right s l x at es shape fresh m inside right_less right_old no_right c left
                right c_left c_right c_other;
          same_root = root;
          next_id = next;
        },
      )

  as_shared :
      (p : ℕ) (left right left' right' : List (LeafEntry Item))
      → left ≡ left'
      → right ≡ right'
      → (s' : InMemoryAdapter Item) × (leaf_split t l p new s ≡ ok (s.next_node_id, s'))
        × IsSplit s s' l x left right
      → (s' : InMemoryAdapter Item) × (leaf_split t l p new s ≡ ok (s.next_node_id, s'))
        × IsSplit s s' l x left' right'
  as_shared p left right left' right' e e' (s', runs, split) = (
    s',
    runs,
    subst (λ ys. IsSplit s s' l x left' ys) e' (subst (λ ys. IsSplit s s' l x ys right) e split),
  )

  -- Both leaves together have the old entries with the new one among them, the left one `half` of them.
  pub leaf_split-IsSplit :
      (p : ℕ)
      → 0 < t.half_leaf_capacity
      → t.half_leaf_capacity ≤ length es
      → p ≤ length es
      → (s' : InMemoryAdapter Item) × (leaf_split t l p new s ≡ ok (s.next_node_id, s'))
        × IsSplit s s' l x
            (take t.half_leaf_capacity (with_at es p new))
            (drop t.half_leaf_capacity (with_at es p new))
  unfolding split_from
  leaf_split-IsSplit p some_half inside small = elim (Bool-cases (ltb p t.half_leaf_capacity)) [
    | inl low ↦
        let h = t.half_leaf_capacity - 1 in
        let half : t.half_leaf_capacity ≡ suc h = omega arith in
        let lower : p ≤ h = ground arith in
        let fits : h ≤ length es = omega arith in
        let before = moved s l x at es shape fresh h fits in
        let there = moved_left s l x at es shape fresh h fits in
        let left = with_at (take h es) p new in
        let split =
          IsSplit-by p h fits
            (with_entries before l (record x { entries = leaf (take h es) }) there left) left
            (drop h es) (rw low refl)
            (rw low (
              insert_at-put before l (record x { entries = leaf (take h es) }) there (take h es)
                refl p new (omega (arith, length-take h es))))
            (put_self before l _)
            (put-other before l s.next_node_id _ (λ e. fresh (sym e))
              ∙ moved_right s l x at es shape fresh h fits)
            (put-other before l x.right_id _ right_less
              ∙ moved_other s l x at es shape fresh h fits x.right_id right_less right_old
              ∙ no_right)
            refl refl in
        as_shared p _ _ _ _
          (sym (ap (λ n. take n (with_at es p new)) half ∙ take-with_at_low es p h new lower))
          (sym (ap (λ n. drop n (with_at es p new)) half ∙ drop-with_at_low es p h new lower small))
          split
    | inr high ↦
        let h = t.half_leaf_capacity in
        let upper : h ≤ p = ground arith in
        let before = moved s l x at es shape fresh h inside in
        let there = moved_right s l x at es shape fresh h inside in
        let node : Node Item = record {
          parent_id = 0;
          left_id = 0;
          right_id = 0;
          entries = leaf (drop h es);
        } in
        let right = with_at (drop h es) (p - h) new in
        let split =
          IsSplit-by p h inside (with_entries before s.next_node_id node there right) (take h es)
            right (rw high refl)
            (rw high (
              insert_at-put before s.next_node_id node there (drop h es) refl (p - h) new
                (omega (arith, length-drop h es))))
            (put-other before s.next_node_id l _ fresh
              ∙ moved_left s l x at es shape fresh h inside)
            (put_self before s.next_node_id _)
            (put-other before s.next_node_id x.right_id _ right_old
              ∙ moved_other s l x at es shape fresh h inside x.right_id right_less right_old
              ∙ no_right)
            refl refl in
        as_shared p _ _ _ _ (sym (take-with_at_high es p h new upper small))
          (sym (drop-with_at_high es p h new upper small)) split
  ]
