-- ===== src/BPlusTree/Find/Descent.antt =====
-- The walk from the root of a search tree to the leaf of a key.
use pucrs_metadata_db.Base.{
  ℕ, zero, suc, ◌+◌, ◌-◌, ◌≤◌, ◌<◌, ◌≡◌, refl, sym, ap, subst, ◌∙◌, arith, true, false,
  if◌then◌else◌, leb, ltb, Bool-cases, ltb_of_le, le→leb, leb_of_lt, inl, inr, some, List, [], ◌∷◌,
  length, get_elem?, get_elem?-lt_length, map, ok,
}
use native.Mathlib.Decide.{dec_lt}
use pucrs_metadata_db.BPlusTree.Entries.{LeafEntry, BranchEntry}
use pucrs_metadata_db.BPlusTree.Adapter.{
  Entries, leaf, branch, InMemoryAdapter, node_of, is_leaf, load_node,
}
use pucrs_metadata_db.BPlusTree.NodeOps.{keys_of, total_keys, branch_entries}
use pucrs_metadata_db.BPlusTree.Branch
use pucrs_metadata_db.BPlusTree.Find.{find_in, search, find_on_node}
use pucrs_metadata_db.BPlusTree.Find.Search.{elem_in, search-Splits}
use pucrs_metadata_db.BPlusTree.Find.SearchTree.{Stored, IsBranchNode}

pub get_elem?-map :
    {A : Type 0} (f : A → ℕ) (xs : List A) (i : ℕ) (x : A)
    → get_elem? xs i ≡ some x
    → get_elem? (map f xs) i ≡ some (f x)
get_elem?-map f [] i x h = ground (arith, h)
get_elem?-map f (y ∷ xs) zero x h = ground (arith, h)
get_elem?-map f (y ∷ xs) (suc i) x h = get_elem?-map f xs i x h

pub length-map : {A : Type 0} (f : A → ℕ) (xs : List A) → length (map f xs) ≡ length xs
length-map f [] = refl
length-map f (x ∷ xs) = ap suc (length-map f xs)

module _ {Item : Type 0} (a : InMemoryAdapter Item) (id : ℕ) where
  module _ (es : List BranchEntry) (s : Stored a id (branch es)) where
    pub branch_is_leaf : is_leaf id a ≡ ok (false, a)
    unfolding is_leaf node_of
    branch_is_leaf = ground (arith, s.found, s.shape)

    pub branch_total : total_keys id a ≡ ok (length (map (λ e. e.key) es), a)
    unfolding total_keys node_of
    branch_total = ground (arith, s.found, s.shape)

    pub branch_entry :
        (p : ℕ) (e : BranchEntry) → get_elem? es p ≡ some e → Branch.entry_at id p a ≡ ok (e, a)
    unfolding Branch.entry_at branch_entries node_of
    branch_entry p e h = ground (arith, s.found, s.shape, h)

  pub on_node :
      (es : Entries Item)
      → Stored a id es
      → (key : ℕ) → find_on_node id key a ≡ ok (find_in (keys_of es) key, a)
  unfolding find_on_node node_of
  on_node es s key = ground (arith, s.found, s.shape)

  pub node_loads : (es : Entries Item) → Stored a id es → load_node id a ≡ ok (some id, a)
  unfolding load_node
  node_loads es s = rw s.found

  pub leaf_is_leaf :
      (es : List (LeafEntry Item)) → Stored a id (leaf es) → is_leaf id a ≡ ok (true, a)
  unfolding is_leaf node_of
  leaf_is_leaf es s = ground (arith, s.found, s.shape)

-- The child that the walk takes at an entry, and the entry.
abbrev pub child_of : ℕ → BranchEntry → ℕ
child_of key e = if ltb key e.key then e.lower else e.greater_or_equal

abbrev pub place : List BranchEntry → ℕ → ℕ
place es key =
    let p = search (map (λ e. e.key) es) key in
    if leb (length (map (λ e. e.key) es)) p then p - 1 else p

module _ {Item : Type 0} (a : InMemoryAdapter Item) (Child : ℕ → ℕ → ℕ → Type 0) (id lo hi key : ℕ)
    (n : IsBranchNode a Child id lo hi) (above : lo ≤ key) (under : key < hi) where
  abbrev pub Right : ℕ → Type 0
  Right c = (lo' : ℕ) × (hi' : ℕ) × Child c lo' hi' × (lo' ≤ key) × (key < hi')

  abbrev es : List BranchEntry
  es = n.entries

  abbrev keys : List ℕ
  keys = map (λ e. e.key) es

  below_first :
      (p : ℕ) (e : BranchEntry)
      → get_elem? es p ≡ some e
      → ((q k : ℕ) → q < p → get_elem? keys q ≡ some k → k < key)
      → key < e.key
      → Right e.lower
  below_first zero e h before less = (lo, e.key, n.first_child e h, above, less)
  below_first (suc q) e h before less =
      let (f, g) = elem_in es q (omega (arith, get_elem?-lt_length es (suc q) e h)) in
      let (same, increasing, child) = n.inner_child q f e g (ap (get_elem? es) (omega arith) ∙ h) in
      (
        f.key,
        e.key,
        subst (λ c. Child c f.key e.key) (sym same) child,
        omega (arith, before q f.key (omega arith) (get_elem?-map (λ e. e.key) es q f g)),
        less,
      )

  from_entry :
      (p : ℕ) (e : BranchEntry)
      → get_elem? es p ≡ some e
      → e.key ≤ key
      → ((p + 1 < length es) → key ≡ e.key)
      → Right e.greater_or_equal
  from_entry p e h low exact = elim (dec_lt (p + 1) (length es)) [
    | no end ↦
        (e.key, hi, n.last_child p e h (omega (arith, get_elem?-lt_length es p e h)), low, under)
    | yes more ↦
        let (f, g) = elem_in es (p + 1) more in
        let (same, increasing, child) = n.inner_child p e f h g in
        (e.key, f.key, child, low, omega (arith, exact more, increasing))
  ]

  at_entry : (e : BranchEntry) → get_elem? es (search keys key) ≡ some e → Right (child_of key e)
  at_entry e h =
      let v = search-Splits keys key n.in_order in
      elim (Bool-cases (ltb key e.key)) [
        | inl less ↦ rw less (below_first (search keys key) e h v.before (ground (arith, less)))
        | inr not_less ↦ rw not_less (
            from_entry (search keys key) e h (ground (arith, not_less)) (λ more. ground (
              arith,
              not_less,
              v.after (search keys key) e.key (omega arith)
                  (get_elem?-map (λ e. e.key) es (search keys key) e h),
            )))
      ]

  past_entries :
      (e : BranchEntry)
      → length es ≤ search keys key
      → get_elem? es (search keys key - 1) ≡ some e
      → Right (child_of key e)
  past_entries e past h =
      let v = search-Splits keys key n.in_order in
      let less : e.key < key =
        v.before (search keys key - 1) e.key (omega (arith, n.some_entry))
          (get_elem?-map (λ e. e.key) es (search keys key - 1) e h) in
      rw (ltb_of_le key e.key (omega (arith, less))) (
        from_entry (search keys key - 1) e h (omega (arith, less))
          (λ more. absurd (omega (arith, past, more))))

  -- The walk finds an entry, and the child that it takes has the key in its interval.
  pub chosen : (e : BranchEntry) × (get_elem? es (place es key) ≡ some e) × Right (child_of key e)
  chosen =
      let v = search-Splits keys key n.in_order in
      let same = length-map (λ e. e.key) es in
      elim (dec_lt (search keys key) (length es)) [
        | yes inside ↦
            let (e, h) = elem_in es (search keys key) inside in
            (
              e,
              rw (leb_of_lt (length keys) (search keys key) (omega (arith, same))) h,
              at_entry e h,
            )
        | no past ↦
            let (e, h) =
              elem_in es (search keys key - 1) (omega (arith, v.in_keys, same, n.some_entry)) in
            (
              e,
              rw (le→leb (length keys) (search keys key) (omega (arith, same))) h,
              past_entries e (omega arith) h,
            )
      ]
