-- ===== src/BPlusTree/Delete/Divided.antt =====
-- The entries of two leaves, after one is deleted from the left leaf and the first of the right one is lent
-- to it, as `deleteFromLeaf` and `pipeFromRightLeaf` of src/bplustree/bplus_tree.go do.
use pucrs_metadata_db.Base.{
  ℕ, zero, suc, ◌+◌, ◌<◌, ◌≡◌, ◌⊎◌, inl, inr, refl, sym, ap, subst, ◌∙◌, arith, ◌==◌, ==_of_ne, ltb,
  if◌then◌else◌, Option, none, some, List, [], ◌∷◌, ◌++◌, length, get_elem?,
}
use native.Mathlib.Decide.{ℕ_discrete}
use mathlib.Core.List.{append_assoc}
use pucrs_metadata_db.BPlusTree.Entries.{LeafEntry, without_at}
use pucrs_metadata_db.BPlusTree.Find.Descent.{get_elem?-map}
use pucrs_metadata_db.BPlusTree.Insert.Lookup.{key_list, item_of, item_of_absent}
use pucrs_metadata_db.BPlusTree.Insert.Ascending.{
  Ascending, Ascending-InOrder, entry_of, item_of-append,
}
use pucrs_metadata_db.BPlusTree.Delete.Lookup.{
  Distinct, get_elem?-without_at, map-without_at, item_of-without_at_other, item_of-without_at_self,
}
use pucrs_metadata_db.BPlusTree.Delete.Refill.{IsDivided}

without_at-Ascending : (xs : List ℕ) (p : ℕ) → Ascending xs → Ascending (without_at xs p)
without_at-Ascending xs p up i j x y l hi hj = ground (
  arith,
  get_elem?-without_at xs p i,
  get_elem?-without_at xs p j,
  up i j x y,
  up i (j + 1) x y,
  up (i + 1) (j + 1) x y,
)

module _ {Item : Type 0} where
  -- An entry of a list with one more at its end.
  in_longer :
      (xs : List (LeafEntry Item)) (f : LeafEntry Item) (i : ℕ) (e : LeafEntry Item)
      → get_elem? (xs ++ (f ∷ [])) i ≡ some e
      → ((i < length xs) × (get_elem? xs i ≡ some e)) ⊎ ((i ≡ length xs) × (f ≡ e))
  in_longer [] f zero e h = inr (refl, ground (arith, h))
  in_longer [] f (suc i) e h = absurd (ground (arith, h))
  in_longer (x ∷ xs) f zero e h = inl (omega arith, h)
  in_longer (x ∷ xs) f (suc i) e h = elim (in_longer xs f i e h) [
    | inl q ↦ inl (omega (arith, q.0), q.1)
    | inr q ↦ inr (omega (arith, q.0), q.1)
  ]

  longer-Ascending :
      (xs : List (LeafEntry Item)) (f : LeafEntry Item)
      → Ascending (key_list xs)
      → ((i : ℕ) (e : LeafEntry Item) → get_elem? xs i ≡ some e → e.key < f.key)
      → Ascending (key_list (xs ++ (f ∷ [])))
  longer-Ascending xs f up less i j a b l x y =
      let (e, ge, ke) = entry_of (xs ++ (f ∷ [])) i a x in
      let (g, gg, kg) = entry_of (xs ++ (f ∷ [])) j b y in
      let at_i = in_longer xs f i e ge in
      let at_j = in_longer xs f j g gg in
      elim at_j [
        | inl q ↦ elim at_i [
          | inl q' ↦ omega (
            arith,
            ke,
            kg,
            up i j e.key g.key l (get_elem?-map (λ (e : LeafEntry Item). e.key) xs i e q'.1)
                (get_elem?-map (λ (e : LeafEntry Item). e.key) xs j g q.1),
          )
          | inr q' ↦ absurd (omega (arith, q'.0, q.0, l))
        ]
        | inr q ↦ elim at_i [
          | inl q' ↦ omega (arith, ke, kg, less i e q'.1, ap (λ (e : LeafEntry Item). e.key) q.1)
          | inr q' ↦ absurd (omega (arith, q'.0, q.0, l))
        ]
      ]

  kept_entry :
      (es : List (LeafEntry Item)) (p i : ℕ) (e : LeafEntry Item)
      → get_elem? (without_at es p) i ≡ some e
      → (j : ℕ) × (get_elem? es j ≡ some e)
  kept_entry es p i e h = (if ltb i p then i else i + 1, sym (get_elem?-without_at es p i) ∙ h)

  module _ {hi pivot : ℕ} {left : List (LeafEntry Item)} {first second : LeafEntry Item}
      {right : List (LeafEntry Item)} (o : IsDivided hi pivot left (first ∷ second ∷ right))
      (p : ℕ) where
    in_order : first.key < second.key
    in_order = o.up_right 0 1 first.key second.key (omega arith) refl refl

    left_less :
        (i : ℕ) (e : LeafEntry Item) → get_elem? (without_at left p) i ≡ some e → e.key < first.key
    left_less i e h =
        let (j, there) = kept_entry left p i e h in
        omega (arith, o.below j e there, (o.above 0 first refl).0)

    pub filled-IsDivided :
        IsDivided hi second.key (without_at left p ++ (first ∷ [])) (second ∷ right)
    filled-IsDivided = record {
      up_left =
          longer-Ascending (without_at left p) first
            (subst (λ keys. Ascending keys) (sym (map-without_at left p))
              (without_at-Ascending (key_list left) p o.up_left))
            left_less;
      up_right = λ i j a b l x y. o.up_right (suc i) (suc j) a b (omega arith) x y;
      below = λ i e h. elim (in_longer (without_at left p) first i e h) [
        | inl q ↦ omega (arith, left_less i e q.1, in_order)
        | inr q ↦ omega (arith, ap (λ (e : LeafEntry Item). e.key) q.1, in_order)
      ];
      above = λ i e h. (
        Ascending-InOrder (key_list (first ∷ second ∷ right)) o.up_right 1 (suc i) second.key e.key
            (omega arith) refl
            (get_elem?-map (λ (e : LeafEntry Item). e.key) (second ∷ right) i e h),
        (o.above (suc i) e h).1,
      );
    }

    -- The entries of both leaves, without that of the key.
    pub left_over_item :
        (key : ℕ) (e : LeafEntry Item)
        → get_elem? left p ≡ some e
        → e.key ≡ key
        → (k : ℕ)
        → item_of k ((without_at left p ++ (first ∷ [])) ++ (second ∷ right))
          ≡ (if k == key then none else item_of k (left ++ (first ∷ second ∷ right)))
    left_over_item key e h same k =
        let rest = first ∷ second ∷ right in
        ap (item_of k) (append_assoc (without_at left p) (first ∷ []) (second ∷ right))
        ∙ item_of-append (without_at left p) rest k
        ∙ elim (ℕ_discrete k key) [
          | yes here ↦
              let gone : item_of k (without_at left p) ≡ none =
                ap (λ x. item_of x (without_at left p)) (here ∙ sym same)
                ∙ item_of-without_at_self left p e left-Distinct h in
              let none_right : item_of k rest ≡ none = item_of_absent k rest (λ i f g equal.
                omega (arith, (o.above i f g).0, o.below p e h, same, here, equal)) in
              ground (arith, gone, none_right, here)
          | no ne ↦
              let kept = item_of-without_at_other left p e k h (λ x. ne (x ∙ same)) in
              rw (==_of_ne k key ne) (
                ap (λ (x : Option Item). elim x [ some item ↦ some item | none ↦ item_of k rest ])
                  kept
                ∙ sym (item_of-append left rest k))
        ]
      where
        left-Distinct : Distinct left
        left-Distinct i j e f l x y =
            let less =
              o.up_left i j e.key f.key l (get_elem?-map (λ (e : LeafEntry Item). e.key) left i e x)
                (get_elem?-map (λ (e : LeafEntry Item). e.key) left j f y) in
            λ same. omega (arith, less, same)
