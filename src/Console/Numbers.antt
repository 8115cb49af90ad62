-- ===== src/Console/Numbers.antt =====
-- Numbers in the arguments of src/cmd/sjdb-cli/main.go.
use pucrs_metadata_db.Base.{
  ℕ, zero, suc, ◌+◌, ◌-◌, ◌*◌, ◌/◌, ◌%◌, ◌≤◌, ◌<◌, ◌≡◌, ◌≢◌, refl, ap, ◌∙◌, arith, ltb, true, false,
  Bool-cases, inl, inr, if◌then◌else◌, none, some, [], ◌∷◌, ◌++◌,
}
use pucrs_metadata_db.Console.Strings.{Text, space, trim_left, trim_right, cut, digits, parse_uint}

-- The decimal digits of a number; its value is fuel enough.
unfoldable pub decimal_loop : ℕ → ℕ → Text
decimal_loop zero n = (b'0' + n) ∷ []
decimal_loop (suc fuel) n = elim (ltb n 10) [
  | true ↦ (b'0' + n) ∷ []
  | false ↦ decimal_loop fuel (n / 10) ++ ((b'0' + n % 10) ∷ [])
]

unfoldable pub decimal : ℕ → Text
decimal n = decimal_loop n n

digits-append :
    (n : ℕ) (xs ys : Text)
    → digits n (xs ++ ys) ≡ (elim (digits n xs) [ none ↦ none | some m ↦ digits m ys ])
unfolding digits
digits-append n [] ys = refl
digits-append n (x ∷ xs) ys = ground (arith, digits-append (n * 10 + (x - b'0')) xs ys)

one_digit : (n d : ℕ) → d < 10 → digits n ((b'0' + d) ∷ []) ≡ some (n * 10 + d)
unfolding digits
one_digit n d h = ground arith

digits-decimal_loop : (fuel n : ℕ) → n ≤ fuel → digits 0 (decimal_loop fuel n) ≡ some n
unfolding decimal_loop
digits-decimal_loop zero n h = one_digit 0 n (omega arith) ∙ ap some (omega arith)
digits-decimal_loop (suc fuel) n h = elim (Bool-cases (ltb n 10)) [
  | inl small ↦ rw (small, decimal_loop) (one_digit 0 n (ground arith) ∙ ap some (omega arith))
  | inr large ↦
      rw
        (
          large,
          decimal_loop,
          digits-append 0 (decimal_loop fuel (n / 10)) ((b'0' + n % 10) ∷ []),
          digits-decimal_loop fuel (n / 10) (ground arith),
        )
        (one_digit (n / 10) (n % 10) (omega arith) ∙ ap some (omega arith))
]

digits-parse_uint :
    (xs : Text) (n : ℕ)
    → digits 0 xs ≡ some n
    → xs ≢ []
    → parse_uint xs ≡ (if ltb n 4294967296 then some n else none)
unfolding parse_uint
digits-parse_uint [] n h ne = absurd (ne refl)
digits-parse_uint (x ∷ xs) n h ne = rw (h, parse_uint) refl

append_some : (xs : Text) (x : ℕ) → xs ++ (x ∷ []) ≢ []
append_some [] x h = ground (arith, h)
append_some (y ∷ xs) x h = ground (arith, h)

decimal_loop_some : (fuel n : ℕ) → decimal_loop fuel n ≢ []
unfolding decimal_loop
decimal_loop_some zero n h = ground (arith, h)
decimal_loop_some (suc fuel) n h =
    ground (arith, h, append_some (decimal_loop fuel (n / 10)) (b'0' + n % 10))

-- The decimal digits of a number are read back as that number if it is below 2 ^ 32, and are refused otherwise.
pub parse_uint-decimal :
    (n : ℕ) → parse_uint (decimal n) ≡ (if ltb n 4294967296 then some n else none)
unfolding decimal
parse_uint-decimal n =
    digits-parse_uint (decimal_loop n n) n (digits-decimal_loop n n (omega arith))
      (decimal_loop_some n n)

-- What `parse_uint` takes for a number has digits only.
pub digits_of_number : (xs : Text) (n : ℕ) → parse_uint xs ≡ some n → digits 0 xs ≡ some n
unfolding parse_uint
digits_of_number [] n h = ground (arith, h)
digits_of_number (x ∷ xs) n h = ground (arith, h)

module _ (m : ℕ) where
  -- Digits have no space.
  pub cut-digits :
      (n : ℕ) (xs rest : Text) → digits n xs ≡ some m → cut (xs ++ (space ∷ rest)) ≡ (xs, some rest)
  unfolding digits cut
  cut-digits n [] rest h = refl
  cut-digits n (x ∷ xs) rest h =
      let ih = cut-digits (n * 10 + (x - b'0')) xs rest in ground (arith, ih, h)

  pub cut_all : (n : ℕ) (xs : Text) → digits n xs ≡ some m → cut xs ≡ (xs, none)
  unfolding digits cut
  cut_all n [] h = refl
  cut_all n (x ∷ xs) h = let ih = cut_all (n * 10 + (x - b'0')) xs in ground (arith, ih, h)

  pub trim_left-digits : (n : ℕ) (xs : Text) → digits n xs ≡ some m → trim_left xs ≡ xs
  unfolding digits trim_left
  trim_left-digits n [] h = refl
  trim_left-digits n (x ∷ xs) h = ground (arith, h)

  pub trim_right-digits : (n : ℕ) (xs : Text) → digits n xs ≡ some m → trim_right xs ≡ xs
  unfolding digits trim_right
  trim_right-digits n [] h = refl
  trim_right-digits n (x ∷ []) h = ground (arith, h)
  trim_right-digits n (x ∷ y ∷ xs) h =
      let ih = trim_right-digits (n * 10 + (x - b'0')) (y ∷ xs) in ground (arith, ih, h)
