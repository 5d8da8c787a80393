-- ===== src/Write/Execute.antt =====
-- `_execute_one`: one insert or delete, over the database and the file mirror together. What is
-- written before an exception stays written, so the state comes back beside the error too.
use seekbase.Base.{
  ℕ, Text, List, [], ◌∷◌, map, Bool, Option, none, some, length, if◌then◌else◌, Result, ok, err,
  query_error,
}
use seekbase.Value.{Value, text, Dict}
use seekbase.Schema.Data.{TableSpec, Schema, table}
use seekbase.Store.Rows.{StoredRow, Tables, put}
use seekbase.Store.Validate.{validate}
use seekbase.Store.Change.{new_row, insert_rows, soft_delete, match_live}
use seekbase.Files.Mirror.{Mirror, write_puts, write_deletes}

-- What the code calls during one operation: the clock (runtime/clock.py), the embedder, the search
-- index, `json.dumps`, and the decisions of DuckDB.
pub record World : Type 0 where
  pub today : Text
  pub now : Text
  pub searching : Bool  -- an embedder was given
  pub embed : TableSpec → List Dict → Result (Unit {0})
  pub index : TableSpec → List Dict → Result (Unit {0})
  pub dumps : Value → Text
  pub accepts : TableSpec → StoredRow → Bool
  pub valid : Text → Bool
  pub matches : Text → StoredRow → Bool

pub record Engine : Type 0 where
  pub tables : Tables
  pub mirror : Mirror

-- `deleted n` is the task's `matched`; `inserted` names the table whose text index is refreshed.
pub data Outcome : Type 0 where
  inserted : Option Text → Outcome
  deleted : ℕ → Outcome

abbrev pub Step : Type 0 → Type 0
Step A = Result A × Engine

unfoldable pub or_raise : {A B : Type 0} → Result A → Engine → (A → Step B) → Step B
or_raise (ok a) e f = f a
or_raise (err x) e f = (err x, e)

-- files first, then the rows, then the search index
unfoldable pub commit : World → TableSpec → List Dict → Engine → Step Outcome
unfolding write_puts insert_rows new_row or_raise
commit w spec records e =
    let rows = map (new_row w.dumps spec (text w.today) (text w.now)) records in
    let (done, stored) = insert_rows (w.accepts spec) spec rows (e.tables spec.name) in
    let e' : Engine = record {
      tables = put spec.name stored e.tables;
      mirror = write_puts spec records w.today w.now e.mirror;
    } in
    or_raise done e' λ _.
      or_raise (w.index spec records) e'
        λ _. (ok (inserted (if w.searching then some spec.name else none)), e')

unfoldable pub insert_records : World → TableSpec → List Dict → Engine → Step Outcome
unfolding commit or_raise
insert_records w spec [] e = (ok (inserted none), e)
insert_records w spec (r ∷ records) e =
    or_raise (w.embed spec (r ∷ records)) e λ _. commit w spec (r ∷ records) e

unfoldable pub execute_insert : World → Schema → Text → Bool → List Dict → Engine → Step Outcome
unfolding validate insert_records or_raise
execute_insert w schema name skip_existing rows e =
    or_raise (validate schema e.tables name skip_existing rows) e
      λ records. or_raise (table schema name) e λ spec. insert_records w spec records e

unfoldable pub delete_keys : World → TableSpec → List Value → Engine → Step Outcome
unfolding write_deletes soft_delete
delete_keys w spec keys e = (
  ok (deleted (length keys)),
  record {
    tables =
        put spec.name (soft_delete spec keys (text w.today) (text w.now) (e.tables spec.name))
          e.tables;
    mirror = write_deletes spec.name keys w.today w.now e.mirror;
  },
)

unfoldable pub execute_delete : World → Schema → Text → Text → Engine → Step Outcome
unfolding match_live delete_keys table or_raise
execute_delete w schema name where_text e = or_raise (table schema name) e λ spec.
    or_raise (match_live w.valid w.matches spec where_text (e.tables name)) e
      λ keys. delete_keys w spec keys e

pub data Op : Type 0 where
  insert : Text → List Dict → Bool → Op
  delete : Text → Option Text → Op

-- `insert`, and `delete` with its guard; the queue hands each to the worker
unfoldable pub execute : World → Schema → Op → Engine → Step Outcome
unfolding execute_insert execute_delete
execute w schema (insert name rows skip_existing) e =
    execute_insert w schema name skip_existing rows e
execute w schema (delete name none) e = (err query_error, e)
execute w schema (delete name (some [])) e = (err query_error, e)
execute w schema (delete name (some (c ∷ s))) e = execute_delete w schema name (c ∷ s) e
