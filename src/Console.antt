-- ===== src/Console.antt =====
-- src/cmd/sjdb-cli/main.go: the console, over the interface `SimpleJSONDB` of
-- src/simplejsondb/simple_json_db.go.
pub mod Strings
pub mod Numbers
pub mod Commands
pub mod Bulk
pub mod Requests
mod Tests
use pucrs_metadata_db.Base.{
  ℕ, zero, suc, ◌+◌, ◌-◌, ◌==◌, ltb, Bool, true, false, if◌then◌else◌, ◌⊎◌, inl, inr, Option, none,
  some, List, [], ◌∷◌, ◌++◌, length, drop, map, Result, Error, ok, err, panic, out_of_fuel,
}
use pucrs_metadata_db.Core.RecordLoader.{Record}
use pucrs_metadata_db.Console.Strings.{
  Text, codes, same_text, has_prefix, trim, split_n, part, parse_uint,
}

pub record SimpleJsonDb : Type 1 where
  pub State : Type 0
  pub insert_record : ℕ → Text → State → State × Result (Unit {0})
  pub delete_record : ℕ → State → State × Result (Unit {0})
  pub update_record : ℕ → Text → State → State × Result (Unit {0})
  pub find_record : ℕ → State → State × Result Record
  pub search_records : Text → Text → State → State × Result (List Record)
  pub dump_index : State → State × Text

pub data LogLevel : Type 0 where
  debug info warn : LogLevel

-- What the console writes; `found` has the text of a record, as `json.Indent` of encoding/json lays it out.
pub data Message : Type 0 where
  usage updated invalid_range no_records : Message
  failed : Error → Message
  not_a_number unknown_command invalid_log_level found tree : Text → Message
  inserting inserted deleting removed deleted : ℕ → Message
  listed : Record → Message

-- `"\n"`
abbrev pub line_end : ℕ
line_end = 10

module _ (api : SimpleJsonDb) where
  -- `written` has the messages in order.
  pub record Console : Type 0 where
    pub db : api.State
    pub log_level : LogLevel
    pub written : List Message

  abbrev pub Prog : Type 0 → Type 0
  Prog A = Console → Console × Result A

  abbrev pub pure : {A : Type 0} → A → Prog A
  pure x c = (c, ok x)

  abbrev pub lift : {A : Type 0} → Result A → Prog A
  lift r c = (c, r)

  abbrev pub and_then : {A B : Type 0} → (A → Prog B) → Console × Result A → Console × Result B
  and_then next (c, ok x) = next x c
  and_then next (c, err e) = (c, err e)
  and_then next (c, panic) = (c, panic)
  and_then next (c, out_of_fuel) = (c, out_of_fuel)

  infixl 5 ◌>>=◌ ◌>>◌
  abbrev pub ◌>>=◌ : {A B : Type 0} → Prog A → (A → Prog B) → Prog B
  (first >>= next) c = and_then next (first c)

  abbrev pub ◌>>◌ : {B : Type 0} → Prog (Unit {0}) → Prog B → Prog B
  first >> second = first >>= λ _. second

  unfoldable pub print : Message → Prog (Unit {0})
  print m c = (record c { written = c.written ++ (m ∷ []) }, ok tt)

  unfoldable pub set_level : LogLevel → Prog (Unit {0})
  set_level l c = (record c { log_level = l }, ok tt)

  -- A call whose error the console handles.
  unfoldable pub answered :
      {A : Type 0} → Console → api.State × Result A → Console × Result (Error ⊎ A)
  answered c (s, ok x) = (record c { db = s }, ok (inr x))
  answered c (s, err e) = (record c { db = s }, ok (inl e))
  answered c (s, panic) = (record c { db = s }, panic)
  answered c (s, out_of_fuel) = (record c { db = s }, out_of_fuel)

  unfoldable pub call : {A : Type 0} → (api.State → api.State × Result A) → Prog (Error ⊎ A)
  call request c = answered c (request c.db)

  unfoldable pub report : Error ⊎ Unit {0} → Prog (Unit {0})
  report (inl e) = print (failed e)
  report (inr x) = pure tt

  unfoldable pub set_log_level : Text → Prog (Unit {0})
  set_log_level level =
      if same_text level (codes "debug")
      then set_level debug
      else if same_text level (codes "info")
      then set_level info
      else if same_text level (codes "warn")
      then set_level warn
      else print (invalid_log_level level)

  -- `use_it` for the number that was read, if it was one.
  unfoldable pub with_number : Text → Option ℕ → (ℕ → Prog (Unit {0})) → Prog (Unit {0})
  with_number s none use_it = print (not_a_number s)
  with_number s (some n) use_it = use_it n

  -- A wrong number of parts prints the usage, and goes on.
  unfoldable pub insert_parts : List Text → Prog (Unit {0})
  insert_parts parts = do
    if length parts == 2 then pure tt else print usage
    first ← lift (part parts 0)
    with_number first (parse_uint first) (λ id. do
      text ← lift (part parts 1)
      answer ← call (api.insert_record id text)
      report answer)

  unfoldable pub insert : Text → Prog (Unit {0})
  insert args = insert_parts (split_n args 2)

  unfoldable pub update_parts : List Text → Prog (Unit {0})
  update_parts parts = do
    if length parts == 2 then pure tt else print usage
    first ← lift (part parts 0)
    with_number first (parse_uint first) (λ id. do
      text ← lift (part parts 1)
      answer ← call (api.update_record id text)
      report answer
      print updated)

  unfoldable pub update : Text → Prog (Unit {0})
  update args = update_parts (split_n args 2)

  unfoldable pub number : Text → (ℕ → Prog (Unit {0})) → Prog (Unit {0})
  number s use_it = with_number (trim s) (parse_uint (trim s)) use_it

  -- An error is reported, and ends the loop.
  unfoldable pub go_on : Prog Bool → Error ⊎ Unit {0} → Prog Bool
  go_on rest (inl e) = (print (failed e) >> pure false)
  go_on rest (inr x) = rest

  -- Rounds of a loop over IDs, of which each goes on only if its call succeeds.
  unfoldable pub for_ids :
      (ℕ → Message) → (ℕ → api.State → api.State × Result (Unit {0})) → ℕ → ℕ → Prog Bool
  for_ids starting request zero id = pure true
  for_ids starting request (suc rounds) id = do
    print (starting id)
    answer ← call (request id)
    go_on (for_ids starting request rounds (id + 1)) answer

  unfoldable pub for_range :
      (ℕ → Message)
      → (ℕ → Message)
      → (ℕ → api.State → api.State × Result (Unit {0}))
      → List Text
      → Prog (Unit {0})
  for_range starting ended request parts = do
    first ← lift (part parts 0)
    number first (λ initial_id. do
      last ← lift (part parts 1)
      number last (λ last_id. if ltb last_id initial_id then print invalid_range else (do
        done ← for_ids starting request (last_id - initial_id + 1) initial_id
        if done then print (ended (last_id - initial_id + 1)) else pure tt)))

  unfoldable pub bulk_insert_parts : List Text → Prog (Unit {0})
  bulk_insert_parts parts =
      if length parts == 3
      then (do
        text ← lift (part parts 2)
        for_range inserting inserted (λ id. api.insert_record id text) parts)
      else print usage

  unfoldable pub bulk_insert : Text → Prog (Unit {0})
  bulk_insert args = bulk_insert_parts (split_n args 3)

  unfoldable pub bulk_delete_parts : List Text → Prog (Unit {0})
  bulk_delete_parts parts =
      if length parts == 2 then for_range deleting removed api.delete_record parts else print usage

  unfoldable pub bulk_delete : Text → Prog (Unit {0})
  bulk_delete args = bulk_delete_parts (split_n args 2)

  -- `json.Indent` appends to an empty buffer, which `indent` gives; its error is dropped. A line end follows.
  unfoldable pub find : (Text → Text) → Text → Prog (Unit {0})
  find indent args = number args (λ id. do
    answer ← call (api.find_record id)
    elim answer [
      | inl e ↦ print (failed e)
      | inr r ↦ print (found (indent r.record_data ++ (line_end ∷ [])))
    ])

  unfoldable pub print_records : List Record → Prog (Unit {0})
  print_records [] = pure tt
  print_records (r ∷ rs) = do print (listed r); print_records rs

  unfoldable pub search : Text → Prog (Unit {0})
  search args = do
    let parts = split_n args 3
    if length parts == 2
        then (do
          key ← lift (part parts 0)
          value ← lift (part parts 1)
          answer ← call (api.search_records key value)
          elim answer [
            | inl e ↦ print (failed e)
            | inr records ↦ if length records == 0 then print no_records else print_records records
          ])
        else print usage

  -- A deletion is said on the standard output and in the log.
  unfoldable pub delete_record : Text → Prog (Unit {0})
  delete_record args = number args (λ id. do
    answer ← call (api.delete_record id)
    elim answer [ inl e ↦ print (failed e) | inr x ↦ print (deleted id) >> print (deleted id) ])

  unfoldable pub show_tree : Prog (Unit {0})
  show_tree c = let (s, text) = api.dump_index c.db in print (tree text) (record c { db = s })

  -- A line that is not `exit`; the cases in their order.
  unfoldable pub command : (Text → Text) → Text → Prog (Unit {0})
  command indent line =
      if has_prefix line (codes "set-log-level ")
      then set_log_level (trim (drop 14 line))
      else if has_prefix line (codes "insert ")
      then insert (drop 7 line)
      else if has_prefix line (codes "bulk-insert ")
      then bulk_insert (drop 12 line)
      else if has_prefix line (codes "find ")
      then find indent (drop 5 line)
      else if has_prefix line (codes "search ")
      then search (drop 7 line)
      else if has_prefix line (codes "update ")
      then update (drop 7 line)
      else if has_prefix line (codes "delete ")
      then delete_record (drop 7 line)
      else if has_prefix line (codes "bulk-delete ")
      then bulk_delete (drop 12 line)
      else if has_prefix (trim line) (codes "show-tree")
      then show_tree
      else if same_text line (codes "help")
      then print usage
      else if same_text line []
      then pure tt
      else print (unknown_command line)

  -- The loop reads lines until `exit`, which no case before it in the switch takes, or until there is none.
  unfoldable pub main_loop : (Text → Text) → List Text → Prog (Unit {0})
  main_loop indent [] = pure tt
  main_loop indent (line ∷ lines) = elim (same_text line (codes "exit")) [
    | true ↦ pure tt
    | false ↦ command indent line >> main_loop indent lines
  ]
