-- ===== src/Dbio/DataBuffer/Fetch/Steps.antt =====
-- The two steps of a miss: a frame is released, and a free frame is filled.
use mathlib.Core.Path.{subst}
use native.Mathlib.Decide.{ℕ_discrete, dec_lt}
use pucrs_metadata_db.Base.{
  ℕ, ◌-◌, ◌<◌, ◌≡◌, refl, sym, ap, ◌∙◌, ◌≢◌, ◌⊎◌, Bool, true, false, ==_of_ne, ==_refl, none, some,
  List, [], ◌∷◌, ◌++◌, length, length-append, get_elem?, arith, ok, Option-cases, inl, inr, without,
  before_without, length-without, get_elem?-without, get_elem?-lt_length, get_elem?-append_left,
  get_elem?-append_right,
}
use pucrs_metadata_db.Dbio.Bytes.{Mem}
use pucrs_metadata_db.Dbio.DataFile.{DataFile}
use pucrs_metadata_db.Dbio.DataBuffer.{Victim, DataBuffer, release, filled}
use pucrs_metadata_db.Dbio.DataBuffer.Valid.{
  IsValid, SameView, count-set_frame, count-set_frame_free,
}

module _ {df : DataFile} {db : DataBuffer df} (v : IsValid db) where
  module _ (w : Victim) (at : get_elem? db.next_victims w.position ≡ some w.id)
      (here : db.id_to_frame w.id ≡ some w.frame)
      (saved : df.read_block db.file w.id ≡ ok (db.frames w.frame).contents) where
    abbrev rest : List ℕ
    rest = without db.next_victims w.position

    -- where an element of `rest` stood: not at the victim's place
    rest_from :
        (q j : ℕ)
        → get_elem? rest q ≡ some j
        → (get_elem? db.next_victims (before_without db.next_victims w.position q) ≡ some j)
          × (j ≢ w.id)
    rest_from q j h =
        let p-lt = get_elem?-lt_length db.next_victims w.position w.id at in
        let q-lt = get_elem?-lt_length rest q j h in
        let moved = sym (get_elem?-without db.next_victims w.position q p-lt q-lt) ∙ h in
        (
          moved,
          λ e.
              let same =
                v.victims_once (before_without db.next_victims w.position q) w.position j moved
                  (at ∙ ap some (sym e)) in
              ground (arith, same, length-without db.next_victims w.position p-lt),
        )

    released-view : SameView (release db w) db
    unfolding release
    released-view i = elim (ℕ_discrete i w.id) [
      | yes e ↦ ground (arith, ap db.id_to_frame e, ap (df.read_block db.file) e)
      | no ne ↦ elim (Option-cases (db.id_to_frame i)) [
        | inl h ↦ ground arith
        | inr (k, h) ↦ ground arith
      ]
    ]

    -- The released buffer is valid and shows the same blocks.
    pub release-IsValid : IsValid (release db w) × SameView (release db w) db
    unfolding release
    release-IsValid =
        let p-lt = get_elem?-lt_length db.next_victims w.position w.id at in
        let shorter = length-without db.next_victims w.position p-lt in
        (
          record {
            positive = v.positive;
            fits = omega (arith, shorter, v.fits);
            injective = λ i j k h g. ground (arith, v.injective i j k);
            frame_small = λ i k h. ground (arith, v.frame_small i k);
            frame_in_use = λ i k h. ground (arith, v.frame_in_use i k, v.injective i w.id k);
            counted = omega (
              arith,
              shorter,
              v.counted,
              count-set_frame_free db.size 0 w.frame db.frames
                  (record (db.frames w.frame) { in_use = false; is_dirty = false }) (omega arith)
                  (omega (arith, v.frame_small w.id w.frame here))
                  (v.frame_in_use w.id w.frame here) refl,
            );
            victims_mapped = λ q j h.
                let (m, ne) = rest_from q j h in
                let (k, e) = v.victims_mapped (before_without db.next_victims w.position q) j m in
                (k, rw (==_of_ne j w.id ne) e);
            victims_once = λ p q j h g.
                let same =
                  v.victims_once (before_without db.next_victims w.position p)
                    (before_without db.next_victims w.position q) j (rest_from p j h).0
                    (rest_from q j g).0 in
                ground (
                  arith,
                  same,
                  shorter,
                  get_elem?-lt_length rest p j h,
                  get_elem?-lt_length rest q j g,
                );
            clean = λ i k h d. ground (arith, v.clean i k, v.injective i w.id k);
          },
          released-view,
        )

  -- What stands in the list of victims once `id` is added at its end.
  last_victim :
      (id q j : ℕ)
      → get_elem? (db.next_victims ++ (id ∷ [])) q ≡ some j
      → (get_elem? db.next_victims q ≡ some j) ⊎ ((q ≡ length db.next_victims) × (j ≡ id))
  last_victim id q j h = elim (dec_lt q (length db.next_victims)) [
    | yes old ↦ inl (sym (get_elem?-append_left db.next_victims (id ∷ []) q old) ∙ h)
    | no new ↦
        let e = sym (get_elem?-append_right db.next_victims (id ∷ []) q (omega arith)) ∙ h in
        let bound = get_elem?-lt_length (db.next_victims ++ (id ∷ [])) q j h in
        let here : q ≡ length db.next_victims =
          omega (arith, length-append db.next_victims (id ∷ [])) in
        inr (
          here,
          ground (
            arith,
            subst (λ n. get_elem? (id ∷ []) n ≡ some j) {x = q - length db.next_victims} {y = 0}
                (omega arith) e,
          ),
        )
  ]

  module _ (id k : ℕ) (absent : db.id_to_frame id ≡ none) (small : k < db.size)
      (free : (db.frames k).in_use ≡ false) (room : length db.next_victims < db.size) (e : Bool)
      (m : Mem) (q : df.read_block db.file id ≡ ok m) where
    added : (p j : ℕ) → get_elem? db.next_victims p ≡ some j → j ≢ id
    added p j h same = let (k', g) = v.victims_mapped p j h in cc (ap db.id_to_frame same)

    pub filled-view : SameView (filled db id k e m) db
    unfolding filled
    filled-view i = elim (ℕ_discrete i id) [
      | yes e ↦ ground (arith, ap db.id_to_frame e, ap (df.read_block db.file) e)
      | no ne ↦ elim (Option-cases (db.id_to_frame i)) [
        | inl h ↦ ground arith
        | inr (k', h) ↦ ground (arith, v.frame_in_use i k' h)
      ]
    ]

    -- The buffer with the block in a free frame is valid.
    pub filled-IsValid : IsValid (filled db id k e m)
    unfolding filled
    filled-IsValid = record {
      positive = v.positive;
      fits = omega (arith, length-append db.next_victims (id ∷ []));
      injective =
          λ i j n h g. ground (arith, v.injective i j n, v.frame_in_use i n, v.frame_in_use j n);
      frame_small = λ i n h. ground (arith, v.frame_small i n);
      frame_in_use = λ i n h. ground (arith, v.frame_in_use i n);
      counted = omega (
        arith,
        v.counted,
        length-append db.next_victims (id ∷ []),
        count-set_frame db.size 0 k db.frames
            (record (db.frames k) { in_use = true; referenced = e; contents = m }) (omega arith)
            (omega arith) free refl,
      );
      victims_mapped = λ p j h. elim (last_victim id p j h) [
        | inl old ↦
            let (n, there) = v.victims_mapped p j old in
            (n, rw (==_of_ne j id (added p j old)) there)
        | inr (_, new) ↦ (k, rw (new, ==_refl id))
      ];
      victims_once = λ p r j h g. ground (
        arith,
        last_victim id p j h,
        last_victim id r j g,
        v.victims_once p r j,
        added p j,
        added r j,
      );
      clean = λ i n h d.
          ground
            (arith, v.clean i n, v.frame_in_use i n, ap (df.read_block db.file) {x = i} {y = id});
    }
