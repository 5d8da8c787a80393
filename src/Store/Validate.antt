-- ===== src/Store/Validate.antt =====
-- `validate` and `_existing_keys`: what `insert` asks of its rows.
use seekbase.Base.{
  Text, List, [], ◌∷◌, map, Bool, false, not, ◌||◌, member, select, if◌then◌else◌, Result, ok, err,
  query_error, ◌>>=◌,
}
use seekbase.Value.{Dict, get, or_null}
use seekbase.Schema.Data.{TableSpec, Schema, column_names, table}
use seekbase.Store.Rows.{StoredRow, key, row_key, Tables}

-- set(row) - set(spec.column_names) is not empty
unfoldable pub has_unknown : List Text → Dict → Bool
unfolding member
has_unknown names [] = false
has_unknown names ((k, v) ∷ row) = not (member k names) || has_unknown names row

-- {c: row.get(c) for c in spec.column_names}
unfoldable pub normalize : List Text → Dict → Dict
unfolding get
normalize names row = map (λ c. (c, or_null (get c row))) names

unfoldable pub normalize_rows : List Text → List Dict → Result (List Dict)
unfolding has_unknown normalize
normalize_rows names [] = ok []
normalize_rows names (row ∷ rows) =
    if has_unknown names row
    then err query_error
    else do rest ← normalize_rows names rows; ok (normalize names row ∷ rest)

-- The first record of each key that is not in `seen`.
unfoldable pub dedup : TableSpec → List Text → List Dict → List Dict
unfolding member key
dedup spec seen [] = []
dedup spec seen (r ∷ records) =
    let k = key spec r in
    let repeated = dedup spec seen records in
    let fresh = dedup spec (k ∷ seen) records in if member k seen then repeated else r ∷ fresh

-- len(set(keys)) != len(keys)
unfoldable pub has_repeat : List Text → Bool
unfolding member
has_repeat [] = false
has_repeat (k ∷ keys) = member k keys || has_repeat keys

-- _existing_keys: the keys of the table, in its order, that are among `keys`
unfoldable pub existing_keys : TableSpec → List StoredRow → List Text → List Text
unfolding select member
existing_keys spec rows [] = []
existing_keys spec rows (k ∷ keys) = select (λ j. member j (k ∷ keys)) (map (row_key spec) rows)

unfoldable pub refuse_existing : List Text → List Dict → Result (List Dict)
refuse_existing [] records = ok records
refuse_existing (k ∷ existing) records = err query_error

unfoldable pub check_keys : TableSpec → List StoredRow → List Dict → Result (List Dict)
unfolding has_repeat existing_keys refuse_existing
check_keys spec rows records =
    let keys = map (key spec) records in
    if has_repeat keys
    then err query_error
    else refuse_existing (existing_keys spec rows keys) records

unfoldable pub skip_keys : TableSpec → List StoredRow → List Dict → List Dict
unfolding dedup existing_keys select member
skip_keys spec rows records =
    let unique = dedup spec [] records in
    let existing = existing_keys spec rows (map (key spec) unique) in
    select (λ r. not (member (key spec r) existing)) unique

-- validate(table, rows, skip_existing=…), for a table that the schema has
unfoldable pub validate_rows : TableSpec → List StoredRow → Bool → List Dict → Result (List Dict)
unfolding normalize_rows check_keys skip_keys
validate_rows spec stored skip_existing rows = do
  records ← normalize_rows (column_names spec) rows
  if skip_existing then ok (skip_keys spec stored records) else check_keys spec stored records

unfoldable pub validate : Schema → Tables → Text → Bool → List Dict → Result (List Dict)
unfolding validate_rows table
validate schema tables name skip_existing rows = do
  spec ← table schema name
  validate_rows spec (tables name) skip_existing rows
