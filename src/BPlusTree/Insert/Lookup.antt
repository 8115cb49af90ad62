-- ===== src/BPlusTree/Insert/Lookup.antt =====
-- The entries of a leaf as a map from keys to items, and what an insertion into the list does to it.
use pucrs_metadata_db.Base.{
  ℕ, zero, suc, ◌-◌, ◌≤◌, ◌<◌, ◌≡◌, ◌≢◌, refl, sym, ap, subst, arith, ◌==◌, ltb, if◌then◌else◌,
  Option, none, some, List, [], ◌∷◌, ◌++◌, length, get_elem?, map, ok,
}
use native.Mathlib.Decide.{ℕ_discrete}
use pucrs_metadata_db.BPlusTree.Entries.{LeafEntry, with_at, leaf_insert_at}
use pucrs_metadata_db.BPlusTree.Find.{search}
use pucrs_metadata_db.BPlusTree.Find.Search.{InOrder, Splits, search-Splits}
use pucrs_metadata_db.BPlusTree.Find.Descent.{get_elem?-map}

abbrev pub key_list : {Item : Type 0} → List (LeafEntry Item) → List ℕ
key_list es = map (λ e. e.key) es

-- The item of the first entry with the key.
abbrev pub item_of : {Item : Type 0} → ℕ → List (LeafEntry Item) → Option Item
item_of key [] = none
item_of key (e ∷ es) = if e.key == key then some e.item else item_of key es

abbrev pub pick : {Item : Type 0} → ℕ → Option (LeafEntry Item) → Option Item
pick key none = none
pick key (some e) = if e.key == key then some e.item else none

module _ {Item : Type 0} where
  pub item_of_absent :
      (key : ℕ) (es : List (LeafEntry Item))
      → ((i : ℕ) (e : LeafEntry Item) → get_elem? es i ≡ some e → e.key ≢ key)
      → item_of key es ≡ none
  item_of_absent key [] h = refl
  item_of_absent key (x ∷ es) h =
      ground (arith, h 0 x refl, item_of_absent key es (λ i e q. h (suc i) e q))

  at_split :
      (key : ℕ) (es : List (LeafEntry Item)) (p : ℕ)
      → ((i : ℕ) (e : LeafEntry Item) → i < p → get_elem? es i ≡ some e → e.key < key)
      → ((i : ℕ) (e : LeafEntry Item) → p ≤ i → get_elem? es i ≡ some e → key ≤ e.key)
      → ((i j : ℕ) (e f : LeafEntry Item)
          → i ≤ j
          → get_elem? es i ≡ some e
          → get_elem? es j ≡ some f
          → e.key ≤ f.key)
      → item_of key es ≡ pick key (get_elem? es p)
  at_split key [] p before after sorted = refl
  at_split key (x ∷ es) zero before after sorted = elim (ℕ_discrete x.key key) [
    | yes same ↦ ground (arith, same)
    | no other ↦
        let rest = item_of_absent key es (λ i e h same.
          omega (arith, after 0 x (omega arith) refl, sorted 0 (suc i) x e (omega arith) refl h)) in
        ground (arith, rest)
  ]
  at_split key (x ∷ es) (suc p) before after sorted = ground (
    arith,
    before 0 x (omega arith) refl,
    at_split key es p (λ i e l h. before (suc i) e (omega arith) h)
        (λ i e l h. after (suc i) e (omega arith) h)
        (λ i j e f l h k. sorted (suc i) (suc j) e f (omega arith) h k),
  )

  -- The binary search finds the first entry with the key.
  pub item_of-search :
      (key : ℕ) (es : List (LeafEntry Item))
      → InOrder (key_list es)
      → item_of key es ≡ pick key (get_elem? es (search (key_list es) key))
  item_of-search key es sorted =
      let v = search-Splits (key_list es) key sorted in
      at_split key es (search (key_list es) key)
        (λ i e l h. v.before i e.key l (get_elem?-map (λ e. e.key) es i e h))
        (λ i e l h. v.after i e.key l (get_elem?-map (λ e. e.key) es i e h))
        (λ i j e f l h k.
          sorted i j e.key f.key l (get_elem?-map (λ e. e.key) es i e h)
            (get_elem?-map (λ e. e.key) es j f k))

  -- An entry that is put in changes the item of its key, which had none, and of no other key.
  pub item_of-with_at_other :
      (es : List (LeafEntry Item)) (p : ℕ) (new : LeafEntry Item) (key : ℕ)
      → key ≢ new.key
      → item_of key (with_at es p new) ≡ item_of key es
  item_of-with_at_other es zero new key ne = ground arith
  item_of-with_at_other [] (suc p) new key ne = ground arith
  item_of-with_at_other (x ∷ es) (suc p) new key ne =
      ground (arith, item_of-with_at_other es p new key ne)

  pub item_of-with_at_self :
      (es : List (LeafEntry Item)) (p : ℕ) (new : LeafEntry Item)
      → item_of new.key es ≡ none
      → item_of new.key (with_at es p new) ≡ some new.item
  item_of-with_at_self es zero new absent = ground arith
  item_of-with_at_self [] (suc p) new absent = ground arith
  item_of-with_at_self (x ∷ es) (suc p) new absent = ground (arith, item_of-with_at_self es p new)

  pub with_at-end :
      (es : List (LeafEntry Item)) (new : LeafEntry Item)
      → with_at es (length es) new ≡ es ++ (new ∷ [])
  with_at-end [] new = refl
  with_at-end (x ∷ es) new = ap (λ (ys : List (LeafEntry Item)). x ∷ ys) (with_at-end es new)

  -- The three cases of `InsertAt` are one.
  pub leaf_insert_at-ok :
      (es : List (LeafEntry Item)) (p : ℕ) (new : LeafEntry Item)
      → p ≤ length es
      → leaf_insert_at es p new ≡ ok (with_at es p new)
  unfolding leaf_insert_at
  leaf_insert_at-ok es zero new h = ground (arith, with_at-end es new)
  leaf_insert_at-ok es (suc p) new h = elim (ℕ_discrete (suc p) (length es)) [
    | yes e ↦ ground (arith, with_at-end es new, ap (λ n. with_at es n new) e)
    | no ne ↦ ground arith
  ]

  pub map-with_at :
      (es : List (LeafEntry Item)) (p : ℕ) (new : LeafEntry Item)
      → key_list (with_at es p new) ≡ with_at (key_list es) p new.key
  map-with_at es zero new = refl
  map-with_at [] (suc p) new = refl
  map-with_at (x ∷ es) (suc p) new = ap (λ (ys : List ℕ). x.key ∷ ys) (map-with_at es p new)

pub get_elem?-with_at :
    {A : Type 0} (xs : List A) (q : ℕ) (x : A) (i : ℕ)
    → q ≤ length xs
    → get_elem? (with_at xs q x) i
      ≡ (if ltb i q then get_elem? xs i else if i == q then some x else get_elem? xs (i - 1))
get_elem?-with_at xs zero x zero h = refl
get_elem?-with_at xs zero x (suc i) h = ground arith
get_elem?-with_at [] (suc q) x i h = absurd (omega (arith, h))
get_elem?-with_at (y ∷ xs) (suc q) x zero h = ground arith
get_elem?-with_at (y ∷ xs) (suc q) x (suc zero) h = ground (arith, get_elem?-with_at xs q x zero)
get_elem?-with_at (y ∷ xs) (suc q) x (suc (suc i)) h =
    ground (arith, get_elem?-with_at xs q x (suc i))

pub with_at-InOrder :
    (keys : List ℕ) (key p : ℕ) → InOrder keys → Splits keys key p → InOrder (with_at keys p key)
with_at-InOrder keys key p sorted v i j x y l hi hj = ground (
  arith,
  get_elem?-with_at keys p key i v.in_keys,
  get_elem?-with_at keys p key j v.in_keys,
  v.before i x,
  v.after (j - 1) y,
  sorted i j x y l,
  sorted i (j - 1) x y,
  sorted (i - 1) (j - 1) x y,
)

pub with_at_keys-InOrder :
    {Item : Type 0} (es : List (LeafEntry Item)) (new : LeafEntry Item)
    → InOrder (key_list es)
    → InOrder (key_list (with_at es (search (key_list es) new.key) new))
with_at_keys-InOrder es new sorted =
    let p = search (key_list es) new.key in
    subst (λ keys. InOrder keys) (sym (map-with_at es p new))
      (with_at-InOrder (key_list es) new.key p sorted (search-Splits (key_list es) new.key sorted))
