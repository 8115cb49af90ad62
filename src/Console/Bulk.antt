-- ===== src/Console/Bulk.antt =====
-- `bulk-insert` and `bulk-delete` of src/cmd/sjdb-cli/main.go as requests for one ID after the other.
use pucrs_metadata_db.Base.{
  ℕ, zero, suc, ◌+◌, ◌-◌, ◌≤◌, ◌≡◌, refl, sym, ap, ◌∙◌, arith, ltb_of_le, Bool, true, false,
  if◌then◌else◌, some, List, [], ◌∷◌, ◌++◌, Result, ok, err, panic, out_of_fuel,
}
use mathlib.Core.List.{append-nil, append_assoc}
use pucrs_metadata_db.Console.Strings.{Text, codes, has_prefix, split_n, part, parse_uint}
use pucrs_metadata_db.Console.Numbers.{digits_of_number, cut-digits}
use pucrs_metadata_db.Console.Commands.{words, split_two, trim_number}
use pucrs_metadata_db.Console.{
  SimpleJsonDb, Message, inserting, inserted, deleting, removed, Console, and_then, print, answered,
  call, with_number, number, pure, go_on, for_ids, for_range, bulk_insert_parts, bulk_insert,
  bulk_delete_parts, bulk_delete, command,
}

abbrev pub then_next :
    {State : Type 0}
    → (State → State × Result (Unit {0}))
    → State × Result (Unit {0})
    → State × Result (Unit {0})
then_next next (s, ok x) = next s
then_next next (s, err e) = (s, err e)
then_next next (s, panic) = (s, panic)
then_next next (s, out_of_fuel) = (s, out_of_fuel)

-- The requests for `rounds` IDs from `id` on, up to the first that fails.
abbrev pub each :
    {State : Type 0}
    → (ℕ → State → State × Result (Unit {0}))
    → ℕ
    → ℕ
    → State
    → State × Result (Unit {0})
each request zero id s = (s, ok tt)
each request (suc rounds) id s = then_next (each request rounds (id + 1)) (request id s)

-- A message for each of the IDs.
abbrev pub announced : (ℕ → Message) → ℕ → ℕ → List Message
announced starting zero id = []
announced starting (suc rounds) id = starting id ∷ announced starting rounds (id + 1)

module _ (api : SimpleJsonDb) (starting : ℕ → Message)
    (request : ℕ → api.State → api.State × Result (Unit {0})) where
  abbrev left_by : Console api → api.State → List Message → Console api
  left_by c s ms = record c { db = s; written = ms }

  -- What the loop leaves, by what the requests leave.
  record Runs (c : Console api) (ms : List Message) (r : api.State × Result (Unit {0}))
      (out : Console api × Result Bool) : Type 0 where
    state : out.0.db ≡ r.0
    all_done : r.1 ≡ ok tt → out ≡ (left_by c r.0 (c.written ++ ms), ok true)

  after_call :
      (rounds id : ℕ) (c : Console api) (r : api.State × Result (Unit {0}))
      → ((c' : Console api)
          → Runs c'
              (announced starting rounds (id + 1))
              (each request rounds (id + 1) c'.db)
              (for_ids api starting request rounds (id + 1) c'))
      → Runs c (announced starting (suc rounds) id) (then_next (each request rounds (id + 1)) r) (
          and_then api
            (go_on api (for_ids api starting request rounds (id + 1)))
            (answered api (record c { written = c.written ++ (starting id ∷ []) }) r))
  unfolding answered go_on print
  after_call rounds id c (s, ok x) next =
      let c' : Console api = record c { db = s; written = c.written ++ (starting id ∷ []) } in
      let ih = next c' in
      record {
        state = ih.state;
        all_done = λ h.
            ih.all_done h
            ∙ ap (λ ms. (left_by c (each request rounds (id + 1) s).0 ms, ok true))
                (append_assoc c.written (starting id ∷ []) (announced starting rounds (id + 1)));
      }
  after_call rounds id c (s, err e) next = record {
    state = refl;
    all_done = λ h. absurd (ground (arith, h));
  }
  after_call rounds id c (s, panic) next = record {
    state = refl;
    all_done = λ h. absurd (ground (arith, h));
  }
  after_call rounds id c (s, out_of_fuel) next = record {
    state = refl;
    all_done = λ h. absurd (ground (arith, h));
  }

  for_ids-Runs :
      (rounds id : ℕ) (c : Console api)
      → Runs c
          (announced starting rounds id)
          (each request rounds id c.db)
          (for_ids api starting request rounds id c)
  unfolding for_ids print call
  for_ids-Runs zero id c = record {
    state = refl;
    all_done = λ h. ap (λ ms. (left_by c c.db ms, ok true)) (sym (append-nil c.written));
  }
  for_ids-Runs (suc rounds) id c =
      after_call rounds id c (request id c.db) (λ c'. for_ids-Runs rounds (id + 1) c')

  module _ (ended : ℕ → Message) (first last : Text) (i j : ℕ) (parsed : parse_uint first ≡ some i)
      (parsed' : parse_uint last ≡ some j) (order : i ≤ j) (parts : List Text)
      (part_0 : part parts 0 ≡ ok first) (part_1 : part parts 1 ≡ ok last) (c : Console api) where
    abbrev rounds : ℕ
    rounds = j - i + 1

    for_range-runs :
        for_range api starting ended request parts c
        ≡ and_then api
            (λ done. if done then print api (ended rounds) else pure api tt)
            (for_ids api starting request rounds i c)
    unfolding for_range number with_number
    for_range-runs =
        rw
          (
            part_0,
            trim_number first i parsed,
            parsed,
            part_1,
            trim_number last j parsed',
            parsed',
            ltb_of_le j i order,
          )
          refl

    ended_db :
        (out : Console api × Result Bool)
        → (and_then api (λ done. if done then print api (ended rounds) else pure api tt) out).0.db
          ≡ out.0.db
    unfolding print
    ended_db (c, ok true) = refl
    ended_db (c, ok false) = refl
    ended_db (c, err e) = refl
    ended_db (c, panic) = refl
    ended_db (c, out_of_fuel) = refl

    for_range-Runs :
        ((for_range api starting ended request parts c).0.db ≡ (each request rounds i c.db).0)
        × ((each request rounds i c.db).1 ≡ ok tt
            → for_range api starting ended request parts c ≡ (
              left_by c
                  (each request rounds i c.db).0
                  (c.written ++ (announced starting rounds i ++ (ended rounds ∷ []))),
              ok tt,
            ))
    unfolding print
    for_range-Runs =
        let runs = for_ids-Runs rounds i c in
        (
          ap (λ r. r.0.db) for_range-runs
              ∙ ended_db (for_ids api starting request rounds i c)
              ∙ runs.state,
          λ h.
              for_range-runs
              ∙ ap (and_then api (λ done. if done then print api (ended rounds) else pure api tt))
                  (runs.all_done h)
              ∙ ap (λ ms. (left_by c (each request rounds i c.db).0 ms, ok tt))
                  (append_assoc c.written (announced starting rounds i) (ended rounds ∷ [])),
        )

split_three :
    (first last text : Text) (i j : ℕ)
    → parse_uint first ≡ some i
    → parse_uint last ≡ some j
    → split_n (words first (words last text)) 3 ≡ first ∷ last ∷ text ∷ []
unfolding split_n
split_three first last text i j parsed parsed' =
    let h = cut-digits i 0 first (words last text) (digits_of_number first i parsed) in
    let h' = cut-digits j 0 last text (digits_of_number last j parsed') in ground (arith, h, h')

module _ (api : SimpleJsonDb) (indent : Text → Text) (first last : Text) (i j : ℕ)
    (parsed : parse_uint first ≡ some i) (parsed' : parse_uint last ≡ some j) (order : i ≤ j)
    (c : Console api) where
  -- The line `bulk-insert` with two numbers in order that fit in 32 bits and a text makes the requests
  -- to insert the text under each ID from the first number to the second, in this order, up to the
  -- first request that fails: the database is left as by these requests.
  pub command_bulk_insert :
      (text : Text)
      → (command api indent (codes "bulk-insert " ++ words first (words last text)) c).0.db
        ≡ (each (λ id. api.insert_record id text) (j - i + 1) i c.db).0
  unfolding command has_prefix bulk_insert bulk_insert_parts part
  command_bulk_insert text =
      rw (split_three first last text i j parsed parsed')
        (for_range-Runs api inserting (λ id. api.insert_record id text) inserted first last i j
          parsed parsed' order (first ∷ last ∷ text ∷ []) refl refl c).0

  -- If none of the requests fails, the console announces each ID and then says how many there were.
  pub bulk_insert_says :
      (text : Text)
      → let done = each (λ id. api.insert_record id text) (j - i + 1) i c.db in
        done.1 ≡ ok tt
        → command api indent (codes "bulk-insert " ++ words first (words last text)) c ≡ (
          record c {
            db = done.0;
            written =
                c.written ++ (announced inserting (j - i + 1) i ++ (inserted (j - i + 1) ∷ []));
          },
          ok tt,
        )
  unfolding command has_prefix bulk_insert bulk_insert_parts part
  bulk_insert_says text =
      rw (split_three first last text i j parsed parsed')
        (for_range-Runs api inserting (λ id. api.insert_record id text) inserted first last i j
          parsed parsed' order (first ∷ last ∷ text ∷ []) refl refl c).1

  -- The line `bulk-delete` with two such numbers likewise makes the requests to delete the records.
  pub command_bulk_delete :
      (command api indent (codes "bulk-delete " ++ words first last) c).0.db
      ≡ (each api.delete_record (j - i + 1) i c.db).0
  unfolding command has_prefix bulk_delete bulk_delete_parts part
  command_bulk_delete =
      rw (split_two first i parsed last)
        (for_range-Runs api deleting api.delete_record removed first last i j parsed parsed' order
          (first ∷ last ∷ []) refl refl c).0
