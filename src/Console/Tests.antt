-- ===== src/Console/Tests.antt =====
-- Lines on a database that keeps texts by ID.
use pucrs_metadata_db.Base.{
  ℕ, ◌≡◌, refl, arith, ◌==◌, if◌then◌else◌, Option, none, some, [], ◌∷◌, ◌++◌, Result, ok, err,
  panic, key_exists, key_not_found,
}
use pucrs_metadata_db.Console.Strings.{Text, codes, digits, parse_uint}
use pucrs_metadata_db.Console.Commands.{words, update_refused, insert_without_text}
use pucrs_metadata_db.Console.Bulk.{each, command_bulk_insert}
use pucrs_metadata_db.Console.Requests.{insert_line, find_line, main_loop_requests}
use pucrs_metadata_db.Console.{
  SimpleJsonDb, warn, usage, updated, failed, found, line_end, Console, command, main_loop,
}

abbrev Texts : Type 0
Texts = ℕ → Option Text

abbrev with_text : Texts → ℕ → Option Text → Texts
with_text texts id x = λ k. if k == id then x else texts k

abbrev put_new : ℕ → Text → Texts → Option Text → Texts × Result (Unit {0})
put_new id text texts none = (with_text texts id (some text), ok tt)
put_new id text texts (some old) = (texts, err key_exists)

abbrev replace : ℕ → Text → Texts → Option Text → Texts × Result (Unit {0})
replace id text texts none = (texts, err key_not_found)
replace id text texts (some old) = (with_text texts id (some text), ok tt)

abbrev take_out : ℕ → Texts → Option Text → Texts × Result (Unit {0})
take_out id texts none = (texts, err key_not_found)
take_out id texts (some old) = (with_text texts id none, ok tt)

abbrev texts_db : SimpleJsonDb
texts_db = record {
  State = Texts;
  insert_record = λ id text texts. put_new id text texts (texts id);
  delete_record = λ id texts. take_out id texts (texts id);
  update_record = λ id text texts. replace id text texts (texts id);
  find_record = λ id texts. (
    texts,
    elim (texts id) [
      | some text ↦ ok (record { id = id; record_data = text })
      | none ↦ err key_not_found
    ],
  );
  search_records = λ key value texts. (texts, ok []);
  dump_index = λ texts. (texts, []);
}

-- every text is laid out as it is
abbrev plain : Text → Text
plain text = text

abbrev started : Console texts_db
started = record { db = λ _. none; log_level = warn; written = [] }

seven : parse_uint (codes "7") ≡ some 7
unfolding parse_uint digits
seven = refl

nine : parse_uint (codes "9") ≡ some 9
unfolding parse_uint digits
nine = refl

update_refused_example :
    command texts_db plain (codes "update " ++ words (codes "7") (codes "{}")) started
    ≡ (record started { db = λ _. none; written = failed key_not_found ∷ updated ∷ [] }, ok tt)
update_refused_example =
    update_refused texts_db plain started (codes "7") (codes "{}") 7 key_not_found seven refl

insert_without_text_example :
    command texts_db plain (codes "insert " ++ codes "7") started
    ≡ (record started { written = usage ∷ [] }, panic)
insert_without_text_example = insert_without_text texts_db plain started (codes "7") 7 seven

command_bulk_insert_example :
    (command texts_db plain
      (codes "bulk-insert " ++ words (codes "7") (words (codes "9") (codes "{}")))
      started).0.db
    ≡ (each (λ id. texts_db.insert_record id (codes "{}")) 3 7 started.db).0
command_bulk_insert_example =
    command_bulk_insert texts_db plain (codes "7") (codes "9") 7 9 seven nine (omega arith) started
      (codes "{}")

main_loop_requests_example :
    main_loop texts_db plain
      (insert_line (codes "7") (codes "{}") ∷ find_line (codes "7") ∷ [])
      started
    ≡ (
      record started {
        db = with_text (λ _. none) 7 (some (codes "{}"));
        written = found (codes "{}" ++ (line_end ∷ [])) ∷ [];
      },
      ok tt,
    )
main_loop_requests_example =
    main_loop_requests texts_db plain (codes "7") 7 seven (codes "{}") started refl
