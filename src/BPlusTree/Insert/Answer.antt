-- ===== src/BPlusTree/Insert/Answer.antt =====
-- `Find` of src/bplustree/bplus_tree.go answers from a leaf as from a map.
use pucrs_metadata_db.Base.{
  ℕ, zero, suc, ◌≡◌, refl, sym, ap, ◌∙◌, arith, Bool, false, ◌==◌, if◌then◌else◌, Option, none,
  some, List, [], ◌∷◌, get_elem?, Result, ok, err, panic, out_of_fuel, key_not_found,
}
use pucrs_metadata_db.BPlusTree.Entries.{LeafEntry}
use pucrs_metadata_db.BPlusTree.Adapter.{leaf, InMemoryAdapter, load_root}
use pucrs_metadata_db.BPlusTree.Leaf
use pucrs_metadata_db.BPlusTree.Find.{search, find_in, find_leaf_for_key, find}
use pucrs_metadata_db.BPlusTree.Find.Search.{InOrder}
use pucrs_metadata_db.BPlusTree.Find.SearchTree.{Stored}
use pucrs_metadata_db.BPlusTree.Find.Descent.{on_node}
use pucrs_metadata_db.BPlusTree.Find.Walk.{leaf_item, answer}
use pucrs_metadata_db.BPlusTree.Insert.Lookup.{key_list, item_of, pick, item_of-search}

-- What `Find` answers, without the adapter that it leaves.
abbrev pub answer_of : {Item : Type 0} → Result (Item × InMemoryAdapter Item) → Option Item
answer_of (ok (item, a)) = some item
answer_of (err e) = none
answer_of panic = none
answer_of out_of_fuel = none

-- What `Find` answers from a map.
abbrev pub given :
    {Item : Type 0} → InMemoryAdapter Item → Option Item → Result (Item × InMemoryAdapter Item)
given a (some item) = ok (item, a)
given a none = err key_not_found

-- Whether the entry at a position, if there is one, has the key.
abbrev pub hit : {Item : Type 0} → ℕ → Option (LeafEntry Item) → Bool
hit key none = false
hit key (some e) = e.key == key

keys_at :
    {Item : Type 0} (es : List (LeafEntry Item)) (i : ℕ)
    → get_elem? (key_list es) i ≡ (elim (get_elem? es i) [ some e ↦ some e.key | none ↦ none ])
keys_at [] i = refl
keys_at (e ∷ es) zero = refl
keys_at (e ∷ es) (suc i) = keys_at es i

module _ {Item : Type 0} (a : InMemoryAdapter Item) (fuel key l : ℕ) (es : List (LeafEntry Item))
    (root : load_root a ≡ ok (some a.root_id, a))
    (walk : find_leaf_for_key fuel a.root_id key a ≡ ok (l, a)) (s : Stored a l (leaf es))
    (sorted : InOrder (key_list es)) where
  abbrev pub place : ℕ
  place = search (key_list es) key

  pub found_flag : find_in (key_list es) key ≡ (place, hit key (get_elem? es place))
  unfolding find_in
  found_flag = ground (arith, keys_at es place)

  leaf_answer :
      find fuel key a
      ≡ (if hit key (get_elem? es place) then Leaf.item_at l place a else err key_not_found)
  leaf_answer =
      answer a key fuel l es (find_in (key_list es) key) root walk (on_node a l (leaf es) s key)
      ∙ ap (λ (r : ℕ × Bool). if r.1 then Leaf.item_at l r.0 a else err key_not_found) found_flag

  picked :
      (x : Option (LeafEntry Item))
      → get_elem? es place ≡ x
      → find fuel key a
        ≡ (elim (pick key x) [ some item ↦ ok (item, a) | none ↦ err key_not_found ])
  picked none e = ground (arith, leaf_answer)
  picked (some x) e = ground (arith, leaf_answer, leaf_item a key l place es x s e)

  -- `Find` answers from the leaf that the walk ends at as from a map.
  pub find-item_of :
      find fuel key a
      ≡ (elim (item_of key es) [ some item ↦ ok (item, a) | none ↦ err key_not_found ])
  find-item_of =
      picked (get_elem? es place) refl
      ∙ ap (λ (x : Option Item). elim x [ some item ↦ ok (item, a) | none ↦ err key_not_found ])
          (sym (item_of-search key es sorted))

pub answer-found :
    {Item : Type 0} (a : InMemoryAdapter Item) (x : Option Item)
    → answer_of (elim x [ some item ↦ ok (item, a) | none ↦ err key_not_found ]) ≡ x
answer-found a none = refl
answer-found a (some item) = refl

pub given-item :
    {Item : Type 0} (a : InMemoryAdapter Item) (x : Option Item)
    → (elim x [ some item ↦ ok (item, a) | none ↦ err key_not_found ]) ≡ given a x
given-item a none = refl
given-item a (some item) = refl

pub answer-given :
    {Item : Type 0} (a : InMemoryAdapter Item) (x : Option Item) → answer_of (given a x) ≡ x
answer-given a none = refl
answer-given a (some item) = refl
