-- ===== src/Store/Change.antt =====
-- The statements that change rows: `_insert_rows`, `commit_rows`, `soft_delete`, `clear`, and
-- `match_live`, which finds the rows that a delete means. What DuckDB decides is an argument:
-- `accepts` (a row's values fit the column types) and `matches` (the caller's WHERE clause).
use seekbase.Base.{
  Text, codes, List, [], ◌∷◌, ◌++◌, map, Bool, not, ◌&&◌, none, same, member, select, if◌then◌else◌,
  Result, ok, err, query_error, other, ◌>>=◌, ◌==◌,
}
use seekbase.Base.Strip.{strip, rstrip_by, has_char}
use seekbase.Value.{Value, null, text, Dict, get, or_null, is_null, str}
use seekbase.Schema.Data.{Column, TableSpec}
use seekbase.Store.Rows.{StoredRow, row_key}
use seekbase.Store.Visible.{visible}

-- A value as it is stored: `json.dumps(v)` in a json column.
unfoldable pub column_value : (Value → Text) → Column → Value → Value
unfolding same
column_value dumps c v = if same c.type (codes "json") && not (is_null v) then text (dumps v) else v

unfoldable pub column_values : (Value → Text) → List Column → Dict → Dict
unfolding column_value get
column_values dumps [] rec = []
column_values dumps (c ∷ cs) rec =
    (c.name, column_value dumps c (or_null (get c.name rec))) ∷ column_values dumps cs rec

unfoldable pub new_row : (Value → Text) → TableSpec → Value → Value → Dict → StoredRow
unfolding column_values
new_row dumps spec ds now rec = record {
  values = column_values dumps spec.columns rec;
  ds = ds;
  created_at = now;
  deleted_ds = null;
  deleted_at = null;
}

-- One INSERT. The PRIMARY KEY constraint refuses a key that is there.
unfoldable pub insert_row :
    (StoredRow → Bool) → TableSpec → StoredRow → List StoredRow → Result (List StoredRow)
unfolding member
insert_row accepts spec row rows =
    if accepts row && not (member (row_key spec row) (map (row_key spec) rows))
    then ok (rows ++ row ∷ [])
    else err other

-- `executemany`: the rows before one that is refused stay.
unfoldable pub insert_rows :
    (StoredRow → Bool)
    → TableSpec
    → List StoredRow
    → List StoredRow
    → Result (Unit {0}) × List StoredRow
unfolding insert_row
insert_rows accepts spec [] rows = (ok tt, rows)
insert_rows accepts spec (row ∷ more) rows = elim (insert_row accepts spec row rows) [
  | ok rows' ↦ insert_rows accepts spec more rows'
  | err e ↦ (err e, rows)
]

unfoldable pub tombstone : TableSpec → List Text → Value → Value → StoredRow → StoredRow
unfolding member
tombstone spec keys ds now r =
    if member (row_key spec r) keys && is_null r.deleted_ds
    then record r { deleted_ds = ds; deleted_at = now }
    else r

-- soft_delete
unfoldable pub soft_delete :
    TableSpec → List Value → Value → Value → List StoredRow → List StoredRow
unfolding tombstone str
soft_delete spec [] ds now rows = rows
soft_delete spec (k ∷ keys) ds now rows = map (tombstone spec (map str (k ∷ keys)) ds now) rows

-- _one_statement
unfoldable pub one_statement : Text → Result Text
unfolding strip rstrip_by has_char
one_statement sql =
    let s = strip (rstrip_by (λ c. c == b';') (strip sql)) in
    if has_char b';' s then err query_error else ok s

-- The primary keys of the live rows that the WHERE clause selects.
unfoldable pub live_keys : TableSpec → (StoredRow → Bool) → List StoredRow → List Value
unfolding visible select get
live_keys spec matches rows =
    map (λ r. or_null (get spec.primary_key r.values)) (select matches (visible none none rows))

-- match_live; `valid` says whether DuckDB accepts the statement
unfoldable pub match_live :
    (Text → Bool)
    → (Text → StoredRow → Bool)
    → TableSpec
    → Text
    → List StoredRow
    → Result (List Value)
unfolding one_statement live_keys
match_live valid matches spec where_text rows = do
  stmt ← one_statement where_text
  if valid stmt then ok (live_keys spec (matches stmt) rows) else err query_error
