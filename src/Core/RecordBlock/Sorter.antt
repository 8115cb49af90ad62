-- ===== src/Core/RecordBlock/Sorter.antt =====
-- What `sort.Sort` of the standard library does to a list of headers.
use pucrs_metadata_db.Base.{
  ℕ, ◌+◌, ◌≤◌, ◌≡◌, refl, ◌∙◌, Bool, true, arith, ◌==◌, if◌then◌else◌, none, List, [], ◌∷◌, length,
}
use pucrs_metadata_db.Core.RecordBlock.{Header, find_header, reusable}

abbrev pub count : (Header → Bool) → List Header → ℕ
count p [] = 0
count p (h ∷ hs) = (if p h then 1 else 0) + count p hs

abbrev pub IsAscending : List Header → Type 0
IsAscending [] = Unit {0}
IsAscending (h ∷ []) = Unit {0}
IsAscending (h ∷ k ∷ hs) = (h.starts_at ≤ k.starts_at) × IsAscending (k ∷ hs)

-- It permutes the headers, so that as many pass any test as before, and puts their starts in order.
pub record IsSorter (sort : List Header → List Header) : Type 0 where
  pub counts : (p : Header → Bool) (hs : List Header) → count p (sort hs) ≡ count p hs
  pub ascending : (hs : List Header) → IsAscending (sort hs)

count-true : (hs : List Header) → count (λ _. true) hs ≡ length hs
count-true [] = refl
count-true (h ∷ hs) = omega (arith, count-true hs)

pub find_header-none :
    (p : Header → Bool) (hs : List Header) → count p hs ≡ 0 → find_header p hs ≡ none
unfolding find_header
find_header-none p [] h = refl
find_header-none p (x ∷ hs) h = ground (arith, find_header-none p hs)

module _ {sort : List Header → List Header} (s : IsSorter sort) where
  pub length-sort : (hs : List Header) → length (sort hs) ≡ length hs
  length-sort hs = omega (arith, count-true hs, count-true (sort hs), s.counts (λ _. true) hs)

  -- With no header of the record and no header of a removed one there is nothing to reuse.
  pub reusable-none :
      (id : ℕ) (hs : List Header)
      → count (λ h. h.record_id == id) hs ≡ 0
      → count (λ h. h.record_id == 0) hs ≡ 0
      → reusable id (sort hs) ≡ none
  unfolding reusable
  reusable-none id hs a b = rw (
    reusable,
    find_header-none (λ h. h.record_id == id) (sort hs) (s.counts _ hs ∙ a),
    find_header-none (λ h. h.record_id == 0) (sort hs) (s.counts _ hs ∙ b),
  )
