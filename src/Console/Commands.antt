-- ===== src/Console/Commands.antt =====
-- The commands of src/cmd/sjdb-cli/main.go and the requests that they make.
use pucrs_metadata_db.Base.{
  ℕ, ◌≡◌, refl, ap, ◌∙◌, arith, some, List, [], ◌∷◌, ◌++◌, Result, Error, ok, err, panic,
  out_of_fuel,
}
use mathlib.Core.List.{append_assoc}
use pucrs_metadata_db.Console.Strings.{
  Text, codes, space, has_prefix, trim_right, trim, split_n, part, parse_uint,
}
use pucrs_metadata_db.Console.Numbers.{
  digits_of_number, cut-digits, cut_all, trim_left-digits, trim_right-digits,
}
use pucrs_metadata_db.Console.{
  SimpleJsonDb, Message, usage, updated, failed, Console, and_then, print, answered, call, report,
  with_number, insert_parts, insert, update_parts, update, command,
}

abbrev pub words : Text → Text → Text
words first rest = first ++ (space ∷ rest)

module _ (first : Text) (n : ℕ) (parsed : parse_uint first ≡ some n) where
  pub split_two : (rest : Text) → split_n (words first rest) 2 ≡ first ∷ rest ∷ []
  unfolding split_n
  split_two rest =
      let h = cut-digits n 0 first rest (digits_of_number first n parsed) in ground (arith, h)

  split_one : split_n first 2 ≡ first ∷ []
  unfolding split_n
  split_one = let h = cut_all n 0 first (digits_of_number first n parsed) in ground (arith, h)

  pub trim_number : trim first ≡ first
  unfolding trim
  trim_number =
      let h = digits_of_number first n parsed in
      ap trim_right (trim_left-digits n 0 first h) ∙ trim_right-digits n 0 first h

module _ (api : SimpleJsonDb) (indent : Text → Text) (c : Console api) where
  abbrev says : List Message → Console api
  says ms = record c { written = c.written ++ ms }

  -- The line `insert`, a number that fits in 32 bits, a space and a text inserts that text under the
  -- number: the console makes that one request and reports its error, if there is one.
  pub command-insert :
      (first text : Text) (id : ℕ)
      → parse_uint first ≡ some id
      → command api indent (codes "insert " ++ words first text) c
        ≡ and_then api (report api) (call api (api.insert_record id text) c)
  unfolding command has_prefix insert insert_parts with_number part
  command-insert first text id parsed = rw (split_two first id parsed text, parsed) refl

  left_by : api.State → List Message → Console api × Result (Unit {0})
  left_by s ms = (record c { db = s; written = ms }, ok tt)

  refused :
      (e : Error) (r : api.State × Result (Unit {0}))
      → r.1 ≡ err e
      → and_then api
          (λ answer c'. and_then api (λ _. print api updated) (report api answer c'))
          (answered api c r)
        ≡ (record c { db = r.0; written = c.written ++ (failed e ∷ updated ∷ []) }, ok tt)
  unfolding report print answered left_by
  refused e (s, ok x) h = absurd (ground (arith, h))
  refused e (s, err e') h =
      ap (λ ms. left_by s ms) (append_assoc c.written (failed e' ∷ []) (updated ∷ []))
      ∙ ap (λ x. left_by s (c.written ++ (failed x ∷ updated ∷ []))) (ground (arith, h))
  refused e (s, panic) h = absurd (ground (arith, h))
  refused e (s, out_of_fuel) h = absurd (ground (arith, h))

  -- The line `update` with a number that fits in 32 bits, a space and a text makes that request; if the
  -- request returns an error, the console reports it, and then says that the record was updated.
  pub update_refused :
      (first text : Text) (id : ℕ) (e : Error)
      → parse_uint first ≡ some id
      → (api.update_record id text c.db).1 ≡ err e
      → command api indent (codes "update " ++ words first text) c ≡ (
        record c {
          db = (api.update_record id text c.db).0;
          written = c.written ++ (failed e ∷ updated ∷ []);
        },
        ok tt,
      )
  unfolding command has_prefix update update_parts with_number part call
  update_refused first text id e parsed h =
      rw (split_two first id parsed text, parsed) (refused e (api.update_record id text c.db) h)

  -- The line `insert` with only a number, which has no space after it, prints the usage and then panics.
  pub insert_without_text :
      (first : Text) (id : ℕ)
      → parse_uint first ≡ some id
      → command api indent (codes "insert " ++ first) c ≡ (says (usage ∷ []), panic)
  unfolding command has_prefix insert insert_parts with_number part print
  insert_without_text first id parsed = rw (split_one first id parsed, parsed) refl
