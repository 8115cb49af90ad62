-- ===== src/BPlusTree/Adapter.antt =====
-- src/bplustree/in_memory_adapter.go: the nodes in a map from IDs, and the programs on it. The interface
-- types `Node`, `LeafNode` and `BranchNode` are the IDs of nodes: a method looks its node up, which is
-- the object itself as long as the node has not been freed, and the tree calls no method of a freed
-- one.
use pucrs_metadata_db.Base.{
  ℕ, ◌+◌, ◌%◌, ◌==◌, Bool, true, false, if◌then◌else◌, Option, none, some, List, [], ◌∷◌, Result,
  Error, ok, err, panic, out_of_fuel,
}
use pucrs_metadata_db.BPlusTree.Entries.{LeafEntry, BranchEntry}

pub data Entries (Item : Type 0) : Type 0 where
  leaf : List (LeafEntry Item) → Entries Item
  branch : List BranchEntry → Entries Item

pub record Node (Item : Type 0) : Type 0 where
  pub parent_id : ℕ
  pub left_id : ℕ
  pub right_id : ℕ
  pub entries : Entries Item

pub record InMemoryAdapter (Item : Type 0) : Type 0 where
  pub root_id : ℕ
  pub first_leaf_id : ℕ
  pub next_node_id : ℕ
  pub nodes : ℕ → Option (Node Item)

unfoldable pub new_in_memory_adapter : {Item : Type 0} → InMemoryAdapter Item
new_in_memory_adapter = record {
  root_id = 9999;
  first_leaf_id = 0;
  next_node_id = 1;
  nodes = λ _. none;
}

-- A program on the tree with items of type `Item`.
abbrev pub Prog : Type 0 → Type 0 → Type 0
Prog Item A = InMemoryAdapter Item → Result (A × InMemoryAdapter Item)

module _ {Item : Type 0} where
  abbrev pub pure : {A : Type 0} → A → Prog Item A
  pure x s = ok (x, s)

  abbrev pub fail : {A : Type 0} → Error → Prog Item A
  fail e s = err e

  abbrev pub abort : {A : Type 0} → Prog Item A
  abort s = panic

  abbrev pub no_fuel : {A : Type 0} → Prog Item A
  no_fuel s = out_of_fuel

  abbrev pub state : Prog Item (InMemoryAdapter Item)
  state s = ok (s, s)

  abbrev pub store : InMemoryAdapter Item → Prog Item (Unit {0})
  store s _ = ok (tt, s)

  abbrev pub lift : {A : Type 0} → Result A → Prog Item A
  lift (ok x) s = ok (x, s)
  lift (err e) s = err e
  lift panic s = panic
  lift out_of_fuel s = out_of_fuel

  infixl 5 ◌>>=◌ ◌>>◌
  abbrev pub ◌>>=◌ : {A B : Type 0} → Prog Item A → (A → Prog Item B) → Prog Item B
  (m >>= f) s = elim (m s) [
    | ok r ↦ f r.0 r.1
    | err e ↦ err e
    | panic ↦ panic
    | out_of_fuel ↦ out_of_fuel
  ]

  abbrev pub ◌>>◌ : {B : Type 0} → Prog Item (Unit {0}) → Prog Item B → Prog Item B
  m >> k = m >>= λ _. k

  abbrev pub put_node : InMemoryAdapter Item → ℕ → Option (Node Item) → InMemoryAdapter Item
  put_node a id n = record a { nodes = λ j. if j == id then n else a.nodes j }

  -- A use of the object behind an ID.
  unfoldable pub node_of : ℕ → Prog Item (Node Item)
  node_of id a = elim (a.nodes id) [ some n ↦ ok (n, a) | none ↦ panic ]

  unfoldable pub set_node : ℕ → Node Item → Prog Item (Unit {0})
  set_node id n a = ok (tt, put_node a id (some n))

  abbrev pub is_leaf_node : Node Item → Bool
  is_leaf_node n = elim n.entries [ leaf es ↦ true | branch es ↦ false ]

  unfoldable pub load_node : ℕ → Prog Item (Option ℕ)
  load_node id a = ok (elim (a.nodes id) [ some n ↦ some id | none ↦ none ], a)

  unfoldable pub load_root : Prog Item (Option ℕ)
  load_root a = load_node a.root_id a

  unfoldable pub is_root : ℕ → Prog Item Bool
  is_root id a = ok (a.root_id == id, a)

  unfoldable pub is_leaf : ℕ → Prog Item Bool
  is_leaf id = do n ← node_of id; pure (is_leaf_node n)

  -- The type assertion panics on a node of the other kind.
  unfoldable pub load_leaf : ℕ → Prog Item (Option ℕ)
  load_leaf id a = elim (a.nodes id) [
    | none ↦ ok (none, a)
    | some n ↦ if is_leaf_node n then ok (some id, a) else panic
  ]

  unfoldable pub load_branch : ℕ → Prog Item (Option ℕ)
  load_branch id a = elim (a.nodes id) [
    | none ↦ ok (none, a)
    | some n ↦ if is_leaf_node n then panic else ok (some id, a)
  ]

  -- A missing leaf panics here.
  unfoldable pub load_first_leaf : Prog Item (Option ℕ)
  load_first_leaf a = elim (a.nodes a.first_leaf_id) [
    | none ↦ panic
    | some n ↦ if is_leaf_node n then ok (some a.first_leaf_id, a) else panic
  ]

  unfoldable pub free : ℕ → Prog Item (Unit {0})
  free id a = ok (tt, put_node a id none)

  -- `nextNodeID` is a `uint16`.
  unfoldable pub create : Entries Item → Prog Item ℕ
  create es a = ok (
    a.next_node_id,
    record a {
      next_node_id = (a.next_node_id + 1) % 65536;
      nodes = λ j.
          if j == a.next_node_id
          then some (record { parent_id = 0; left_id = 0; right_id = 0; entries = es })
          else a.nodes j;
    },
  )

  unfoldable pub create_leaf : Prog Item ℕ
  create_leaf = create (leaf [])

  unfoldable pub create_branch : BranchEntry → Prog Item ℕ
  create_branch entry = create (branch (entry ∷ []))

  unfoldable pub init : Prog Item ℕ
  init = do
    root ← create_leaf
    a ← state
    store (record a { root_id = root; first_leaf_id = root })
    pure root

  unfoldable pub parent_id : ℕ → Prog Item ℕ
  parent_id id = do n ← node_of id; pure (n.parent_id)

  unfoldable pub set_parent_id : ℕ → ℕ → Prog Item (Unit {0})
  set_parent_id id p = do n ← node_of id; set_node id (record n { parent_id = p })

  unfoldable pub left_sibling_id : ℕ → Prog Item ℕ
  left_sibling_id id = do n ← node_of id; pure (n.left_id)

  unfoldable pub set_left_sibling_id : ℕ → ℕ → Prog Item (Unit {0})
  set_left_sibling_id id p = do n ← node_of id; set_node id (record n { left_id = p })

  unfoldable pub right_sibling_id : ℕ → Prog Item ℕ
  right_sibling_id id = do n ← node_of id; pure (n.right_id)

  unfoldable pub set_right_sibling_id : ℕ → ℕ → Prog Item (Unit {0})
  set_right_sibling_id id p = do n ← node_of id; set_node id (record n { right_id = p })

  unfoldable pub set_root : ℕ → Prog Item (Unit {0})
  set_root id = do a ← state; store (record a { root_id = id }); set_parent_id id 0
