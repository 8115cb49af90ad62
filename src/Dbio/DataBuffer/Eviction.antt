-- ===== src/Dbio/DataBuffer/Eviction.antt =====
-- The loop of `evictFrame` ends, and changes nothing but reference bits.
use mathlib.Core.Path.{subst}
use pucrs_metadata_db.Base.{
  ℕ, zero, suc, ◌+◌, ◌%◌, ◌≤◌, ◌<◌, ◌≡◌, refl, ap, true, false, Option, some, List, [], ◌∷◌, length,
  get_elem?, arith, Bool-cases, inl, inr, Result, ok, err, panic, out_of_fuel,
}
use pucrs_metadata_db.Dbio.DataBuffer.{Frame, Frames, set_frame, Victim, victim_loop}

-- The frames agree in all but the reference bit.
pub record SameButReferenced (f g : Frame) : Type 0 where
  pub in_use : f.in_use ≡ g.in_use
  pub is_dirty : f.is_dirty ≡ g.is_dirty
  pub contents : f.contents ≡ g.contents

get_elem?-lt :
    {A : Type 0} (xs : List A) (p : ℕ) → p < length xs → (v : A) × (get_elem? xs p ≡ some v)
get_elem?-lt [] p h = absurd (omega arith)
get_elem?-lt (x ∷ xs) zero h = (x, refl)
get_elem?-lt (x ∷ xs) (suc p) h = get_elem?-lt xs p (omega arith)

module _ (vs : List ℕ) (map : ℕ → Option ℕ) (size : ℕ) where
  -- Every victim is in the buffer.
  abbrev pub AllMapped : Type 0
  AllMapped = (p v : ℕ) → get_elem? vs p ≡ some v → (k : ℕ) × (map v ≡ some k)

  abbrev Cleared : Frames → ℕ → Type 0
  Cleared fs p =
      (q v k : ℕ) → q < p → get_elem? vs q ≡ some v → map v ≡ some k → (fs k).referenced ≡ false

  -- The loop found a victim that is in the buffer, and touched reference bits only.
  abbrev pub Finds : Frames → Frames × Result Victim → Type 0
  Finds fs (fs', ok v) =
      (get_elem? vs v.position ≡ some v.id)
      × (map v.id ≡ some v.frame)
      × ((k : ℕ) → SameButReferenced (fs' k) (fs k))
  Finds fs _ = ⊥

  abbrev clear_at : Frames → ℕ → Frames
  clear_at fs k = set_frame fs k (record (fs k) { referenced = false })

  module _ (fuel p : ℕ) (fs : Frames) (v k : ℕ) (found : get_elem? vs p ≡ some v)
      (here : map v ≡ some k) where
    loop_pass :
        (fs k).referenced ≡ true
        → victim_loop vs map size (suc fuel) p fs
          ≡ victim_loop vs map size fuel ((p + 1) % size) (clear_at fs k)
    unfolding victim_loop
    loop_pass h = rw (found, here, h, victim_loop)

    loop_stop :
        (fs k).referenced ≡ false
        → victim_loop vs map size (suc fuel) p fs
          ≡ (fs, ok (record { position = p; id = v; frame = k }))
    unfolding victim_loop
    loop_stop h = rw (found, here, h, victim_loop)

  Finds-trans :
      (fs fs' : Frames) (r : Frames × Result Victim)
      → ((k : ℕ) → SameButReferenced (fs' k) (fs k))
      → Finds fs' r
      → Finds fs r
  Finds-trans fs fs' (fs'', ok v) h f = (f.0, f.1, λ k. ground (arith, h k, f.2 k))
  Finds-trans fs fs' (fs'', err e) h f = f
  Finds-trans fs fs' (fs'', panic) h f = f
  Finds-trans fs fs' (fs'', out_of_fuel) h f = f

  clear_at-Cleared :
      (fs : Frames) (p v k : ℕ)
      → get_elem? vs p ≡ some v
      → map v ≡ some k
      → Cleared fs p
      → Cleared (clear_at fs k) (p + 1)
  clear_at-Cleared fs p v k found here c q w j h e m = ground (arith, c q w j)

  clear_at-same : (fs : Frames) (k j : ℕ) → SameButReferenced (clear_at fs k j) (fs j)
  clear_at-same fs k j = ground arith

  module _ (mapped : AllMapped) (full : length vs ≡ size) (positive : 0 < size) where
    -- After `p` rounds the loop stands at `q`, and the first `p` victims are cleared.
    victim_loop-Finds :
        (fuel p q : ℕ) (fs : Frames)
        → fuel + p ≡ size + 1
        → p ≤ size
        → q ≡ p % size
        → Cleared fs p
        → Finds fs (victim_loop vs map size fuel q fs)
    victim_loop-Finds zero p q fs e b eq c = absurd (omega arith)
    victim_loop-Finds (suc fuel) p q fs e b eq c =
        let (v, found) = get_elem?-lt vs q (omega arith) in
        let (k, here) = mapped q v found in
        elim (Bool-cases ((fs k).referenced)) [
          | inr stop ↦ rw (loop_stop fuel q fs v k found here stop) (found, here, λ j. ground arith)
          | inl pass ↦
              let inside : q ≡ p = ground (arith, c q v k) in
              rw (loop_pass fuel q fs v k found here pass) (
                Finds-trans fs (clear_at fs k) _ (clear_at-same fs k) (
                  victim_loop-Finds fuel (p + 1) ((q + 1) % size) (clear_at fs k) (omega arith)
                    (ground (arith, c q v k)) (ap (λ r. (r + 1) % size) inside)
                    (clear_at-Cleared fs p v k (subst (λ r. get_elem? vs r ≡ some v) inside found)
                      here c)))
        ]

    -- With every victim in the buffer and the list as long as the buffer has frames, `size + 1`
    -- rounds suffice: the loop ends with a victim, and no access of it fails.
    pub victim_loop-ends : (fs : Frames) → Finds fs (victim_loop vs map size (size + 1) 0 fs)
    victim_loop-ends fs =
        victim_loop-Finds (size + 1) 0 0 fs (omega arith) (omega arith) (omega arith)
          (λ q v k h. absurd (omega arith))
