-- ===== src/Console/Strings.antt =====
-- What src/cmd/sjdb-cli/main.go uses of the packages strings and strconv, on texts as lists of bytes.
use Prim.Native.Char.{code}
use Prim.Native.String.{String}
use pucrs_metadata_db.Base.{
  ℕ, zero, suc, ◌+◌, ◌-◌, ◌*◌, ◌==◌, leb, ltb, Bool, true, false, ◌&&◌, if◌then◌else◌, Option, none,
  some, List, [], ◌∷◌, get_elem?, Result, ok, panic,
}

abbrev pub Text : Type 0
Text = List ℕ

-- The bytes of an ASCII literal.
abbrev pub codes : String → Text
codes String.[] = []
codes (String.◌∷◌ c s) = code c ∷ codes s

abbrev pub space : ℕ
space = b' '

unfoldable pub same_text : Text → Text → Bool
same_text [] [] = true
same_text [] (y ∷ ys) = false
same_text (x ∷ xs) [] = false
same_text (x ∷ xs) (y ∷ ys) = (x == y) && same_text xs ys

-- `strings.HasPrefix(s, prefix)`
unfoldable pub has_prefix : Text → Text → Bool
has_prefix s [] = true
has_prefix [] (y ∷ ys) = false
has_prefix (x ∷ xs) (y ∷ ys) = (x == y) && has_prefix xs ys

unfoldable pub trim_left : Text → Text
trim_left [] = []
trim_left (x ∷ xs) = let rest = trim_left xs in if x == space then rest else x ∷ xs

unfoldable pub trim_right : Text → Text
trim_right [] = []
trim_right (x ∷ xs) = elim (trim_right xs) [
  | [] ↦ if x == space then [] else x ∷ []
  | y ∷ ys ↦ x ∷ y ∷ ys
]

-- `strings.Trim(s, " ")`
unfoldable pub trim : Text → Text
trim s = trim_right (trim_left s)

-- The text before the first space, and the one after it if there is a space.
unfoldable pub cut : Text → Text × Option Text
cut [] = ([], none)
cut (x ∷ xs) = let rest = cut xs in if x == space then ([], some xs) else (x ∷ rest.0, rest.1)

-- `strings.SplitN(s, " ", n)`: at most `n` parts.
unfoldable pub split_n : Text → ℕ → List Text
split_n s zero = []
split_n s (suc zero) = s ∷ []
split_n s (suc (suc n)) = elim (cut s).1 [
  | none ↦ s ∷ []
  | some rest ↦ (cut s).0 ∷ split_n rest (suc n)
]

-- `parts[i]`
unfoldable pub part : List Text → ℕ → Result Text
part parts i = elim (get_elem? parts i) [ some s ↦ ok s | none ↦ panic ]

unfoldable pub digits : ℕ → Text → Option ℕ
digits n [] = some n
digits n (x ∷ xs) =
    let rest = digits (n * 10 + (x - b'0')) xs in if leb b'0' x && leb x b'9' then rest else none

-- `strconv.ParseUint(s, 10, 32)`, without a value if it returns an error.
unfoldable pub parse_uint : Text → Option ℕ
parse_uint [] = none
parse_uint (x ∷ xs) = elim (digits 0 (x ∷ xs)) [
  | none ↦ none
  | some n ↦ if ltb n 4294967296 then some n else none
]
