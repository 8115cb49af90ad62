-- ===== src/BPlusTree/Insert/Parts.antt =====
-- The two parts of a list of entries with a new one among them, as `leafSplit` of
-- src/bplustree/bplus_tree.go makes them.
use pucrs_metadata_db.Base.{
  ℕ, zero, suc, ◌-◌, ◌≤◌, ◌≡◌, refl, ap, ◌∙◌, arith, List, [], ◌∷◌, length, take, drop,
}
use pucrs_metadata_db.BPlusTree.Entries.{with_at}

module _ {A : Type 0} where
  pub take-with_at_low :
      (es : List A) (p h : ℕ) (x : A)
      → p ≤ h
      → take (suc h) (with_at es p x) ≡ with_at (take h es) p x
  take-with_at_low [] zero zero x l = refl
  take-with_at_low [] zero (suc h) x l = refl
  take-with_at_low [] (suc p) (suc h) x l = refl
  take-with_at_low [] (suc p) zero x l = absurd (omega (arith, l))
  take-with_at_low (e ∷ es) zero h x l = refl
  take-with_at_low (e ∷ es) (suc p) zero x l = absurd (omega (arith, l))
  take-with_at_low (e ∷ es) (suc p) (suc h) x l =
      ap (λ (ys : List A). e ∷ ys) (take-with_at_low es p h x (omega arith))

  pub drop-with_at_low :
      (es : List A) (p h : ℕ) (x : A)
      → p ≤ h
      → p ≤ length es
      → drop (suc h) (with_at es p x) ≡ drop h es
  drop-with_at_low [] zero zero x l b = refl
  drop-with_at_low [] zero (suc h) x l b = refl
  drop-with_at_low [] (suc p) h x l b = absurd (omega (arith, b))
  drop-with_at_low (e ∷ es) zero h x l b = refl
  drop-with_at_low (e ∷ es) (suc p) zero x l b = absurd (omega (arith, l))
  drop-with_at_low (e ∷ es) (suc p) (suc h) x l b =
      drop-with_at_low es p h x (omega arith) (omega arith)

  pub take-with_at_high :
      (es : List A) (p h : ℕ) (x : A) → h ≤ p → p ≤ length es → take h (with_at es p x) ≡ take h es
  take-with_at_high es p zero x l b = refl
  take-with_at_high es zero (suc h) x l b = absurd (omega (arith, l))
  take-with_at_high [] (suc p) (suc h) x l b = absurd (omega (arith, b))
  take-with_at_high (e ∷ es) (suc p) (suc h) x l b =
      ap (λ (ys : List A). e ∷ ys) (take-with_at_high es p h x (omega arith) (omega arith))

  pub drop-with_at_high :
      (es : List A) (p h : ℕ) (x : A)
      → h ≤ p
      → p ≤ length es
      → drop h (with_at es p x) ≡ with_at (drop h es) (p - h) x
  drop-with_at_high es p zero x l b = ap (λ n. with_at es n x) (omega arith)
  drop-with_at_high es zero (suc h) x l b = absurd (omega (arith, l))
  drop-with_at_high [] (suc p) (suc h) x l b = absurd (omega (arith, b))
  drop-with_at_high (e ∷ es) (suc p) (suc h) x l b =
      drop-with_at_high es p h x (omega arith) (omega arith)
      ∙ ap (λ n. with_at (drop h es) n x) (omega arith)
