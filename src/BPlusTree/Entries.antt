-- ===== src/BPlusTree/Entries.antt =====
-- src/bplustree/exports.go and the nodes of src/bplustree/in_memory_adapter.go: their entries as lists, with
-- a panic for an index out of range.
use pucrs_metadata_db.Base.{
  ℕ, ◌+◌, ◌-◌, ◌==◌, leb, ltb, if◌then◌else◌, none, some, List, [], ◌∷◌, ◌++◌, length, get_elem?,
  set, take, drop, Result, ok, panic, ◌>>=◌, ◌>>◌, assert,
}

pub record LeafEntry (Item : Type 0) : Type 0 where
  pub key : ℕ
  pub item : Item

pub record BranchEntry : Type 0 where
  pub key : ℕ
  pub lower : ℕ
  pub greater_or_equal : ℕ

-- `xs[p]`
abbrev pub elem_at : {A : Type 0} → List A → ℕ → Result A
elem_at xs p = elim (get_elem? xs p) [ some x ↦ ok x | none ↦ panic ]

abbrev pub without_at : {A : Type 0} → List A → ℕ → List A
without_at xs p = take p xs ++ drop (p + 1) xs

abbrev pub with_at : {A : Type 0} → List A → ℕ → A → List A
with_at xs p x = take p xs ++ (x ∷ drop p xs)

-- `inMemoryLeaf.InsertAt`: the three cases append, prepend, and move up what follows. A position
-- past the end panics.
unfoldable pub leaf_insert_at :
    {Item : Type 0} → List (LeafEntry Item) → ℕ → LeafEntry Item → Result (List (LeafEntry Item))
leaf_insert_at entries position entry =
    if position == length entries
    then ok (entries ++ (entry ∷ []))
    else (if position == 0
        then ok (entry ∷ entries)
        else (if ltb (length entries) position then panic else ok (with_at entries position entry)))

-- `inMemoryLeaf.DeleteAt`: the entry and what is left.
unfoldable pub leaf_delete_at :
    {Item : Type 0} → List (LeafEntry Item) → ℕ → Result (LeafEntry Item × List (LeafEntry Item))
leaf_delete_at entries position = do
  deleted ← elem_at entries position
  ok (deleted, without_at entries position)

-- `DeleteFrom` of both kinds of nodes: what is cut off and what is left.
unfoldable pub delete_from : {A : Type 0} → List A → ℕ → Result (List A × List A)
delete_from entries start_position = do
  assert (leb start_position (length entries))
  ok (drop start_position entries, take start_position entries)

-- `b.entries[p].LowerThanKeyNodeID = id`
unfoldable pub set_lower : List BranchEntry → ℕ → ℕ → Result (List BranchEntry)
set_lower entries position id = do
  e ← elem_at entries position
  ok (set entries position (record e { lower = id }))

unfoldable pub branch_insert_at : List BranchEntry → ℕ → ℕ → ℕ → Result (List BranchEntry)
branch_insert_at entries position key id =
    if position == 0
    then (do
      e ← elem_at entries 0
      entries ← set_lower entries 0 id
      ok (record { key = key; lower = e.lower; greater_or_equal = id } ∷ entries))
    else (do
      before ← elem_at entries (position - 1)
      let entry : BranchEntry = record {
        key = key;
        lower = before.greater_or_equal;
        greater_or_equal = id;
      }
      if position == length entries
          then ok (entries ++ (entry ∷ []))
          else (do entries ← set_lower entries position id; ok (with_at entries position entry)))

unfoldable pub branch_delete_at : List BranchEntry → ℕ → Result (BranchEntry × List BranchEntry)
branch_delete_at entries position = do
  entry ← elem_at entries position
  if position + 1 == length entries
      then ok (entry, take position entries)
      else (if position == 0 then ok (entry, drop 1 entries) else (do
        before ← elem_at entries (position - 1)
        entries ← set_lower entries (position + 1) before.greater_or_equal
        ok (entry, without_at entries position)))

unfoldable pub replace_key_at : List BranchEntry → ℕ → ℕ → Result (List BranchEntry)
replace_key_at entries position key = do
  e ← elem_at entries position
  ok (set entries position (record e { key = key }))

unfoldable pub shift : List BranchEntry → Result (List BranchEntry)
shift entries = do e ← elem_at entries 0; set_lower (drop 1 entries) 0 e.lower

unfoldable pub unshift : List BranchEntry → ℕ → ℕ → Result (List BranchEntry)
unshift entries key id = do
  e ← elem_at entries 0
  ok (record { key = key; lower = id; greater_or_equal = e.lower } ∷ entries)
