-- ===== src/Console/Requests.antt =====
-- The lines `insert` and `find` of src/cmd/sjdb-cli/main.go as requests, over any database.
use pucrs_metadata_db.Base.{
  ℕ, ◌≡◌, refl, sym, ap, ◌∙◌, inl, inr, some, List, [], ◌∷◌, ◌++◌, Result, ok, err, panic,
  out_of_fuel,
}
use mathlib.Core.List.{append-nil, append_assoc}
use pucrs_metadata_db.Core.RecordLoader.{Record}
use pucrs_metadata_db.Console.Strings.{Text, codes, same_text, has_prefix, parse_uint}
use pucrs_metadata_db.Console.Commands.{words, trim_number, command-insert}
use pucrs_metadata_db.Console.{
  SimpleJsonDb, Message, failed, found, line_end, Console, and_then, ◌>>◌, pure, print, answered,
  call, report, with_number, number, find, command, main_loop,
}

abbrev pub insert_line : Text → Text → Text
insert_line first text = codes "insert " ++ words first text

abbrev pub find_line : Text → Text
find_line first = codes "find " ++ first

-- What is written of an answer to a request: nothing for a success of `InsertRecord`, the laid out text of a
-- record, and every error.
abbrev pub insert_says : Result (Unit {0}) → List Message
insert_says (ok x) = []
insert_says (err e) = failed e ∷ []
insert_says panic = []
insert_says out_of_fuel = []

abbrev pub find_says : (Text → Text) → Result Record → List Message
find_says indent (ok r) = found (indent r.record_data ++ (line_end ∷ [])) ∷ []
find_says indent (err e) = failed e ∷ []
find_says indent panic = []
find_says indent out_of_fuel = []

-- How the console goes on after a request: an error of the request does not end it, a panic does.
abbrev pub outcome : {A : Type 0} → Result A → Result (Unit {0})
outcome (ok x) = ok tt
outcome (err e) = ok tt
outcome panic = panic
outcome out_of_fuel = out_of_fuel

module _ (api : SimpleJsonDb) (indent : Text → Text) (first : Text) (id : ℕ)
    (parsed : parse_uint first ≡ some id) where
  abbrev left_by : Console api → api.State → List Message → Console api
  left_by c s ms = record c { db = s; written = c.written ++ ms }

  nothing_said :
      (c : Console api) (s : api.State) (o : Result (Unit {0}))
      → ◌≡◌ {A = Console api × Result (Unit {0})} (record c { db = s }, o) (left_by c s [], o)
  nothing_said c s o =
      ap (λ (ms : List Message). (record c { db = s; written = ms }, o))
        (sym (append-nil c.written))

  insert_answered :
      (c : Console api) (p : api.State × Result (Unit {0}))
      → and_then api (report api) (answered api c p)
        ≡ (left_by c p.0 (insert_says p.1), outcome p.1)
  unfolding answered report print
  insert_answered c (s, ok x) = nothing_said c s (ok tt)
  insert_answered c (s, err e) = refl
  insert_answered c (s, panic) = nothing_said c s panic
  insert_answered c (s, out_of_fuel) = nothing_said c s out_of_fuel

  find_answered :
      (c : Console api) (p : api.State × Result Record)
      → and_then api
          (λ answer. elim answer [
            | inl e ↦ print api (failed e)
            | inr r ↦ print api (found (indent r.record_data ++ (line_end ∷ [])))
          ])
          (answered api c p)
        ≡ (left_by c p.0 (find_says indent p.1), outcome p.1)
  unfolding answered print
  find_answered c (s, ok r) = refl
  find_answered c (s, err e) = refl
  find_answered c (s, panic) = nothing_said c s panic
  find_answered c (s, out_of_fuel) = nothing_said c s out_of_fuel

  command-find :
      (c : Console api)
      → let p = api.find_record id c.db in
        command api indent (find_line first) c ≡ (left_by c p.0 (find_says indent p.1), outcome p.1)
  unfolding command has_prefix find number with_number call
  command-find c =
      rw (trim_number first id parsed, parsed) (find_answered c (api.find_record id c.db))

  last_line : (r : Console api × Result (Unit {0})) → and_then api (λ _. pure api tt) r ≡ r
  last_line (c, ok x) = refl
  last_line (c, err e) = refl
  last_line (c, panic) = refl
  last_line (c, out_of_fuel) = refl

  -- Let the console, over any database, read a line `insert` with a number that fits in 32 bits, a space and a
  -- text, and then a line `find` with the same number, and let the request to insert not panic. Then the
  -- console makes the request to insert the text under the number, and after it, also if that one
  -- returned an error, the one to find it. It writes the errors that they return, and for a record
  -- that is found its data as `json.Indent` lays it out, with a line end. It ends as the second
  -- request does: a panic of it ends the console, an error does not.
  pub main_loop_requests :
      (text : Text) (c : Console api)
      → outcome (api.insert_record id text c.db).1 ≡ ok tt
      → let (s, r) = api.insert_record id text c.db in
        let (s', r') = api.find_record id s in
        main_loop api indent (insert_line first text ∷ find_line first ∷ []) c
        ≡ (left_by c s' (insert_says r ++ find_says indent r'), outcome r')
  unfolding main_loop same_text call
  main_loop_requests text c goes_on =
      let p = api.insert_record id text c.db in
      let c' = left_by c p.0 (insert_says p.1) in
      let inserts : command api indent (insert_line first text) c ≡ (c', ok tt) =
        command-insert api indent c first text id parsed
        ∙ insert_answered c p
        ∙ ap (λ o. (c', o)) goes_on in
      let q = api.find_record id p.0 in
      ap (and_then api (λ _. ◌>>◌ api (command api indent (find_line first)) (pure api tt))) inserts
      ∙ last_line (command api indent (find_line first) c')
      ∙ command-find c'
      ∙ ap (λ ms. (record c { db = q.0; written = ms }, outcome q.1))
          (append_assoc c.written (insert_says p.1) (find_says indent q.1))
