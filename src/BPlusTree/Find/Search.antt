-- ===== src/BPlusTree/Find/Search.antt =====
-- What `findOnNode` answers on a node with its keys in order.
use pucrs_metadata_db.Base.{
  ℕ, zero, suc, ◌+◌, ◌/◌, ◌≤◌, ◌<◌, ◌≡◌, ◌↔◌, refl, ap, ◌∙◌, true, false, arith, some, List, [],
  ◌∷◌, length, get_elem?, Bool-cases, inl, inr, lt→ltb, ltb_of_le, get_elem?-lt_length,
}
use native.Mathlib.Decide.{dec_lt}
use pucrs_metadata_db.BPlusTree.Find.{is_less, bisect, search, find_in}

-- The keys do not decrease.
abbrev pub InOrder : List ℕ → Type 0
InOrder keys = (i j a b : ℕ) → i ≤ j → get_elem? keys i ≡ some a → get_elem? keys j ≡ some b → a ≤ b

-- The keys before the position are below the key, those from it on are not.
pub record Splits (keys : List ℕ) (key p : ℕ) : Type 0 where
  pub in_keys : p ≤ length keys
  pub before : (i k : ℕ) → i < p → get_elem? keys i ≡ some k → k < key
  pub after : (i k : ℕ) → p ≤ i → get_elem? keys i ≡ some k → key ≤ k

pub elem_in {ℓ} :
    {A : Type ℓ} (xs : List A) (i : ℕ) → i < length xs → (x : A) × (get_elem? xs i ≡ some x)
elem_in [] i h = absurd (omega (arith, h))
elem_in (x ∷ xs) zero h = (x, refl)
elem_in (x ∷ xs) (suc i) h = elem_in xs i (omega arith)

module _ (keys : List ℕ) (key : ℕ) (sorted : InOrder keys) where
  -- What the middle of the interval tells of the keys on its side.
  less-before :
      (h : ℕ)
      → h < length keys
      → is_less keys h key ≡ true
      → (i k : ℕ) → i < h + 1
      → get_elem? keys i ≡ some k
      → k < key
  less-before h b e i k x y =
      let (m, q) = elem_in keys h b in ground (arith, q, sorted i h k m (omega arith) y q)

  not_less-after :
      (h : ℕ)
      → h < length keys
      → is_less keys h key ≡ false
      → (i k : ℕ) → h ≤ i
      → get_elem? keys i ≡ some k
      → key ≤ k
  not_less-after h b e i k x y =
      let (m, q) = elem_in keys h b in ground (arith, q, sorted h i m k x q y)

  bisect-Splits :
      (fuel i j : ℕ)
      → j ≤ fuel + i
      → i ≤ j
      → j ≤ length keys
      → ((n k : ℕ) → n < i → get_elem? keys n ≡ some k → k < key)
      → ((n k : ℕ) → j ≤ n → get_elem? keys n ≡ some k → key ≤ k)
      → Splits keys key (bisect fuel keys key i j)
  unfolding bisect
  bisect-Splits zero i j f o l lo hi = record {
    in_keys = omega arith;
    before = lo;
    after = λ n k x y. hi n k (omega arith) y;
  }
  bisect-Splits (suc fuel) i j f o l lo hi = elim (dec_lt i j) [
    | no done ↦
        rw (ltb_of_le i j (omega arith))
          (record { in_keys = omega arith; before = lo; after = λ n k x y. hi n k (omega arith) y })
    | yes more ↦ elim (Bool-cases (is_less keys ((i + j) / 2) key)) [
      | inl less ↦
          rw (lt→ltb i j more, less)
            (bisect-Splits fuel ((i + j) / 2 + 1) j (omega arith) (omega arith) l
              (less-before ((i + j) / 2) (omega arith) less) hi)
      | inr not_less ↦
          rw (lt→ltb i j more, not_less)
            (bisect-Splits fuel i ((i + j) / 2) (omega arith) (omega arith) (omega arith) lo
              (not_less-after ((i + j) / 2) (omega arith) not_less))
    ]
  ]

  -- On keys in order, the binary search of `findOnNode` gives the position before which all keys
  -- are smaller and from which on none is, within the fuel that `search` gives it.
  pub search-Splits : Splits keys key (search keys key)
  unfolding search
  search-Splits =
      bisect-Splits (length keys) 0 (length keys) (omega arith) (omega arith) (omega arith)
        (λ n k x y. omega arith) (λ n k x y. absurd (omega (arith, get_elem?-lt_length keys n k y)))

  found_at : (i : ℕ) → get_elem? keys i ≡ some key → get_elem? keys (search keys key) ≡ some key
  found_at i e =
      let v = search-Splits in
      let not_past : search keys key ≤ i = elim (dec_lt i (search keys key)) [
        | yes past ↦ omega (arith, v.before i key past e)
        | no x ↦ omega (arith, x)
      ] in
      let (m, q) =
        elem_in keys (search keys key)
          (omega (arith, get_elem?-lt_length keys i key e, not_past)) in
      let same : m ≡ key = omega (
        arith,
        v.after (search keys key) m (omega arith) q,
        sorted (search keys key) i m key not_past q e,
      ) in
      q ∙ ap some same

  -- `findOnNode` says that the key is there if and only if it is among the keys, which are in order.
  pub find_in-found : ((find_in keys key).1 ≡ true) ↔ ((i : ℕ) × (get_elem? keys i ≡ some key))
  unfolding find_in
  find_in-found =
      (λ h. (search keys key, ground (arith, h)), λ (i, e). ground (arith, found_at i e))
