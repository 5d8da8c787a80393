-- ===== src/Examples.antt =====
-- Concrete inputs for the theorems: one table with a row inserted and deleted, and a task; Queries has
-- a pipeline of three segments.
mod Queries
mod Reads
mod Polls
mod Statements
mod Following
mod Embeddings
mod Workers
mod Disks
mod Rebuilds
use seekbase.Base.{
  ◌+◌, drop, length, ◌≡◌, refl, ◌≢◌, ◌++◌, Text, codes, List, [], ◌∷◌, true, false, none, some,
  same, All, ok, err, query_error, member, text_le, leb, ◌&&◌, if◌then◌else◌, schema_error,
}
use seekbase.Base.Keyed.{find_by}
use seekbase.Base.Number.{is_digit}
use seekbase.Value.{Dict, text, null, str}
use seekbase.Schema.Types.{sql_type, decimal_sql, find_scalar, at_end}
use seekbase.Schema.Data.{Column, TableSpec, Schema, table, find_table}
use seekbase.Schema.Parse.{
  parse_schema, parse_tables, parse_table, parse_fields, required, parse_columns,
  parse_columns_from, column_keys, parse_column, typed_column, check_type, find_column,
  check_searchable, get_searchable, new_table, no_other_keys,
}
use seekbase.Schema.WellFormed.{IsGoodSchema, parse_schema-IsGoodSchema}
use seekbase.Schema.Accepts.{raw_schema, parse_schema-raw_schema, table-parse_schema}
use seekbase.Schema.Decimals.{decimal_text, sql_type-decimal_text}
use seekbase.Store.Rows.{StoredRow, row_key}
use seekbase.Files.Mirror.{iter_events}
use seekbase.Write.Execute.{
  World, Engine, inserted, deleted, Op, insert, delete, execute, or_raise, execute_insert,
  execute_delete, insert_records, commit, delete_keys,
}
use seekbase.Store.Validate.{
  validate, validate_rows, normalize_rows, has_unknown, check_keys, has_repeat, existing_keys,
  refuse_existing, skip_keys,
}
use seekbase.Store.Change.{insert_rows, insert_row}
use seekbase.Write.Past.{seen, seen-execute}
use seekbase.Admin.Replay.{replay_table}
use seekbase.Admin.Inserts.{SameWorld, IsMirrored}
use seekbase.Admin.Reached.{Reached, start, wrote, empty_engine, rebuild-Reached}
use seekbase.Tasks.Record.{Task, to_wire, from_wire}
use seekbase.Tasks.Log.{Log, append, status, ds_of, ds_of_parts, split_on, isdigit, all_digits}
use seekbase.Tasks.Drive.{raised, once, working, submit, pending, running, new_task}
use seekbase.Tasks.Trip.{from_wire-to_wire}
use seekbase.Tasks.Life.{status-append, status-submit, is_settled, IsDated}
use seekbase.Store.Fresh.{AreNew, validate_rows-AreNew}
use seekbase.Streams.Reader.{Bytes, ends_line, not_blank, join, read_file}
use seekbase.Streams.Lines.{read_file-lines}
use seekbase.Wire.{Exc, exception_from, error_body, exception_from-error_body}

-- One table.

abbrev column : Text → Column
column name = record { name = name; type = codes "str"; sql_type = codes "VARCHAR" }

abbrev docs : TableSpec
docs = record {
  name = codes "docs";
  columns = column (codes "id") ∷ column (codes "body") ∷ [];
  primary_key = codes "id";
  searchable = [];
}

abbrev schema : Schema
schema = record { tables = docs ∷ [] }

docs_accepted : parse_schema (raw_schema schema) ≡ ok schema
unfolding parse_schema parse_tables parse_table parse_fields required parse_columns
    parse_columns_from column_keys parse_column member same sql_type find_scalar typed_column
    check_type find_column check_searchable get_searchable new_table no_other_keys
docs_accepted = refl

docs_good : IsGoodSchema schema
docs_good = parse_schema-IsGoodSchema (raw_schema schema) schema docs_accepted

parse_schema-IsGoodSchema_example : IsGoodSchema schema
parse_schema-IsGoodSchema_example =
    parse_schema-IsGoodSchema (raw_schema schema) schema docs_accepted

parse_schema-raw_schema_example : parse_schema (raw_schema schema) ≡ ok schema
parse_schema-raw_schema_example = parse_schema-raw_schema schema docs_good

table-parse_schema_example : All (λ t. table schema t.name ≡ ok t) schema.tables
table-parse_schema_example = table-parse_schema (raw_schema schema) schema docs_accepted

sql_type-decimal_text_example :
    sql_type (decimal_text 12 3 (codes "\n"))
    ≡ (if leb 1 12 && leb 3 12 then ok (decimal_sql 12 3) else err schema_error)
sql_type-decimal_text_example = sql_type-decimal_text 12 3 (codes "\n") (unfold at_end in refl)

-- A row is inserted on one day and deleted on the next.

abbrev world_at : Text → World
world_at day = record {
  today = day;
  now = day ++ codes "T00:00:00";
  searching = false;
  embed = λ spec records. ok tt;
  index = λ spec records. ok tt;
  dumps = str;
  accepts = λ spec r. true;
  valid = λ stmt. true;
  matches = λ stmt r. true;
}

abbrev first_day : World
first_day = world_at (codes "20240101")

abbrev second_day : World
second_day = world_at (codes "20240102")

abbrev insert_one : Op
insert_one =
    insert (codes "docs")
      (((codes "id", text (codes "a")) ∷ (codes "body", text (codes "hello")) ∷ []) ∷ []) false

abbrev delete_all : Op
delete_all = delete (codes "docs") (some (codes "true"))

abbrev after_insert : Engine
after_insert = (execute first_day schema insert_one empty_engine).1

abbrev after_delete : Engine
after_delete = (execute second_day schema delete_all after_insert).1

insert_runs : execute first_day schema insert_one empty_engine ≡ (ok (inserted none), after_insert)
unfolding execute execute_insert or_raise validate table find_table validate_rows normalize_rows
    has_unknown check_keys has_repeat existing_keys refuse_existing insert_records commit
    insert_rows insert_row member same
insert_runs = refl

delete_runs : execute second_day schema delete_all after_insert ≡ (ok (deleted 1), after_delete)
unfolding execute execute_delete delete_keys
delete_runs = refl

docs-IsMirrored : All IsMirrored schema.tables
docs-IsMirrored = ((docs_good.good.0, unfold member same in refl), tt)

same_world : (day : Text) → SameWorld first_day (world_at day)
same_world [] = record { accepts = refl; dumps = refl; some_now = λ e. absurd (cc e) }
same_world (c ∷ day) = record { accepts = refl; dumps = refl; some_now = λ e. absurd (cc e) }

docs_found : table schema (codes "docs") ≡ ok docs
unfolding table find_table same
docs_found = refl

after_delete-Reached : Reached first_day schema after_delete
after_delete-Reached =
    wrote after_insert after_delete second_day delete_all (deleted 1)
      (wrote empty_engine after_insert first_day insert_one (inserted none) start
        (same_world (codes "20240101")) insert_runs)
      (same_world (codes "20240102")) delete_runs

rebuild-Reached_example :
    (rebuilt : List StoredRow) × (replay_table first_day docs
        (iter_events docs.name after_delete.mirror)
        []
      ≡ (ok tt, rebuilt))
    × ((k : Text)
        → find_by (row_key docs) k rebuilt
          ≡ find_by (row_key docs) k (after_delete.tables docs.name))
rebuild-Reached_example =
    rebuild-Reached first_day schema docs-IsMirrored after_delete (codes "docs") docs
      after_delete-Reached docs_found

seen-execute_example :
    seen none
      (codes "20240101")
      second_day
      (unfold text_le in refl)
      (after_delete.tables (codes "docs"))
    ≡ seen none
        (codes "20240101")
        second_day
        (unfold text_le in refl)
        (after_insert.tables (codes "docs"))
seen-execute_example =
    seen-execute none (codes "20240101") second_day (unfold text_le in refl) schema delete_all
      after_insert (codes "docs")

-- A task that is cancelled while it works.

abbrev pub id : Text
id = codes "r_20240101_ab12"

abbrev pub empty_log : Log
empty_log name = []

pub id-IsDated : IsDated id
unfolding ds_of split_on ds_of_parts isdigit all_digits is_digit
id-IsDated e = absurd (cc e)

pub some_id : id ≢ []
some_id e = absurd (cc e)

status-submit_example :
    (t : Task) × (status id (
        submit id
          (codes "query")
          none
          (codes "now")
          (codes "later")
          (raised (codes "no"))
          (working once)
          empty_log)
      ≡ ok t)
    × (is_settled t.state ≡ true)
    × (member t.state (pending ∷ running ∷ []) ≡ false)
status-submit_example =
    status-submit id (codes "query") none (codes "now") (codes "later") (raised (codes "no"))
      (working once) empty_log id-IsDated some_id

abbrev task : Task
task = new_task id (codes "query") pending none (codes "now")

status-append_example : status task.id (append task empty_log) ≡ ok task
status-append_example = status-append task empty_log id-IsDated some_id

from_wire-to_wire_example : from_wire (to_wire task) ≡ ok task
from_wire-to_wire_example = from_wire-to_wire task some_id

abbrev exc : Exc
exc = record { error = query_error; message = codes "no such column" }

exception_from-error_body_example : exception_from (error_body (codes "KeyError") exc) ≡ exc
exception_from-error_body_example =
    exception_from-error_body (codes "KeyError") exc (λ e. absurd (cc e))

-- Rows that are sent again, and a file of which a poll has read the first line.

abbrev sent_again : List Dict
sent_again =
    ((codes "id", text (codes "a")) ∷ [])
    ∷ ((codes "id", text (codes "b")) ∷ [])
    ∷ ((codes "id", text (codes "b")) ∷ [])
    ∷ []

abbrev kept_rows : List Dict
kept_rows = ((codes "id", text (codes "b")) ∷ (codes "body", null) ∷ []) ∷ []

sent_again_accepted :
    validate_rows docs (after_insert.tables docs.name) true sent_again ≡ ok kept_rows
unfolding execute execute_insert or_raise validate table find_table validate_rows normalize_rows
    has_unknown check_keys has_repeat existing_keys refuse_existing insert_records commit
    insert_rows insert_row member same skip_keys
sent_again_accepted = refl

validate_rows-AreNew_example : AreNew docs (after_insert.tables docs.name) kept_rows
validate_rows-AreNew_example =
    validate_rows-AreNew docs (after_insert.tables docs.name) true sent_again kept_rows
      sent_again_accepted

abbrev content : Bytes
content = codes "{}\n{}\n{"

read_file-lines_example :
    (front : List Bytes) × (rest : Bytes) × (drop 3 content ≡ join front ++ rest)
    × All (λ raw. ends_line raw ≡ true) front
    × (read_file 64 0 3 content ≡ (not_blank front, 3 + length (join front)))
    × (leb (0 + length (not_blank front)) 64 ≡ true)
read_file-lines_example = read_file-lines 64 0 3 content refl
