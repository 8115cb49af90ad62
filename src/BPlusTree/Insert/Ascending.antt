-- ===== src/BPlusTree/Insert/Ascending.antt =====
-- Strictly increasing keys, and the two parts that a split of src/bplustree/bplus_tree.go makes of them.
use pucrs_metadata_db.Base.{
  ℕ, zero, suc, ◌+◌, ◌-◌, ◌<◌, ◌≡◌, ◌≢◌, refl, sym, ap, ◌∙◌, arith, none, some, List, [], ◌∷◌, ◌++◌,
  get_elem?, get_elem?-lt_length, get_elem?-take, get_elem?-drop, length-take, take, drop,
}
use native.Mathlib.Decide.{ℕ_discrete}
use pucrs_metadata_db.BPlusTree.Entries.{LeafEntry, with_at}
use pucrs_metadata_db.BPlusTree.Find.Search.{InOrder, Splits}
use pucrs_metadata_db.BPlusTree.Find.Descent.{get_elem?-map}
use pucrs_metadata_db.BPlusTree.Insert.Lookup.{key_list, item_of, get_elem?-with_at}

abbrev pub Ascending : List ℕ → Type 0
Ascending keys =
    (i j a b : ℕ) → i < j → get_elem? keys i ≡ some a → get_elem? keys j ≡ some b → a < b

pub Ascending-InOrder : (keys : List ℕ) → Ascending keys → InOrder keys
Ascending-InOrder keys up i j a b l h k = elim (ℕ_discrete i j) [
  | yes e ↦ ground (arith, ap (get_elem? keys) e, h, k)
  | no ne ↦ omega (arith, up i j a b (omega arith) h k)
]

pub one-InOrder : (x : ℕ) → InOrder (x ∷ [])
one-InOrder x zero zero a b l h k = ground (arith, h, k)
one-InOrder x zero (suc j) a b l h k = ground (arith, k)
one-InOrder x (suc i) j a b l h k = ground (arith, h)

pub with_at-Ascending :
    (keys : List ℕ) (key p : ℕ)
    → Ascending keys
    → Splits keys key p
    → ((i k : ℕ) → get_elem? keys i ≡ some k → k ≢ key)
    → Ascending (with_at keys p key)
with_at-Ascending keys key p up v absent i j x y l hi hj = ground (
  arith,
  get_elem?-with_at keys p key i v.in_keys,
  get_elem?-with_at keys p key j v.in_keys,
  v.before i x,
  v.after (j - 1) y,
  absent (j - 1) y,
  up i j x y,
  up i (j - 1) x y,
  up (i - 1) (j - 1) x y,
)

module _ {Item : Type 0} where
  -- The entry of a key in the list of keys.
  pub entry_of :
      (es : List (LeafEntry Item)) (i k : ℕ)
      → get_elem? (key_list es) i ≡ some k
      → (e : LeafEntry Item) × (get_elem? es i ≡ some e) × (e.key ≡ k)
  entry_of [] i k h = absurd (ground (arith, h))
  entry_of (e ∷ es) zero k h = (e, refl, ground (arith, h))
  entry_of (e ∷ es) (suc i) k h = entry_of es i k h

  pub absent_keys :
      (es : List (LeafEntry Item)) (key : ℕ)
      → item_of key es ≡ none
      → (i k : ℕ) → get_elem? (key_list es) i ≡ some k
      → k ≢ key
  absent_keys [] key h i k g = absurd (ground (arith, g))
  absent_keys (e ∷ es) key h zero k g = ground (arith, h, g)
  absent_keys (e ∷ es) key h (suc i) k g = absent_keys es key (ground (arith, h)) i k g

  pub item_of-append :
      (xs ys : List (LeafEntry Item)) (k : ℕ)
      → item_of k (xs ++ ys) ≡ (elim (item_of k xs) [ some item ↦ some item | none ↦ item_of k ys ])
  item_of-append [] ys k = refl
  item_of-append (x ∷ xs) ys k = ground (arith, item_of-append xs ys k)

  module _ (es : List (LeafEntry Item)) (up : Ascending (key_list es)) (h : ℕ) where
    pub taken_entry :
        (i : ℕ) (e : LeafEntry Item)
        → get_elem? (take h es) i ≡ some e
        → (i < h) × (get_elem? es i ≡ some e)
    taken_entry i e g =
        let lt : i < h = omega (arith, get_elem?-lt_length (take h es) i e g, length-take h es) in
        (lt, sym (get_elem?-take h es i lt) ∙ g)

    pub take-Ascending : Ascending (key_list (take h es))
    take-Ascending i j a b l x y =
        let (e, ge, ke) = entry_of (take h es) i a x in
        let (f, gf, kf) = entry_of (take h es) j b y in
        let (_, he) = taken_entry i e ge in
        let (_, hf) = taken_entry j f gf in
        omega (
          arith,
          ke,
          kf,
          up i j e.key f.key l (get_elem?-map (λ e. e.key) es i e he)
              (get_elem?-map (λ e. e.key) es j f hf),
        )

    pub drop-Ascending : Ascending (key_list (drop h es))
    drop-Ascending i j a b l x y =
        let (e, ge, ke) = entry_of (drop h es) i a x in
        let (f, gf, kf) = entry_of (drop h es) j b y in
        omega (
          arith,
          ke,
          kf,
          up (h + i) (h + j) e.key f.key (omega arith)
              (get_elem?-map (λ e. e.key) es (h + i) e (sym (get_elem?-drop h es i) ∙ ge))
              (get_elem?-map (λ e. e.key) es (h + j) f (sym (get_elem?-drop h es j) ∙ gf)),
        )
