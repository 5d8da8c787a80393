-- ===== src/Schema/Parse.antt =====
-- seekbase/schema.py: `parse_schema` and its helpers. The raw SCHEMA is Python data, modelled by what
-- the parser reads of it: an entry that is not of the expected container type is `malformed`; of a
-- dict, the values under the keys that are read, and the list of its other keys.
use seekbase.Base.{
  Text, codes, List, [], ◌∷◌, Option, none, some, same, member, if◌then◌else◌, Result, ok, err,
  schema_error, ◌>>=◌,
}
use seekbase.Schema.Types.{sql_type}
use seekbase.Schema.Data.{Column, TableSpec, Schema, meta_columns}

pub data Raw (A : Type 0) : Type 0 where
  malformed : Raw A
  shaped : A → Raw A

pub record RawColumn : Type 0 where
  pub name : Option Text
  pub type : Option Text

pub record RawTable : Type 0 where
  pub table : Option Text
  pub columns : Option (Raw (List (Raw RawColumn)))
  pub primary : Option Text
  pub searchable : Option (List Text)
  pub other_keys : List Text

unfoldable pub parse_column : List Text → Text → Text → Result Column
unfolding member
parse_column seen name decl =
    if member name meta_columns
    then err schema_error
    else if member name seen
    then err schema_error
    else do sql ← sql_type decl; ok (record { name = name; type = decl; sql_type = sql })

-- `"name" not in entry or "type" not in entry`
unfoldable pub column_keys : Raw RawColumn → Result (Text × Text)
column_keys malformed = err schema_error
column_keys (shaped entry) = elim entry.name [
  | none ↦ err schema_error
  | some name ↦ elim entry.type [ none ↦ err schema_error | some decl ↦ ok (name, decl) ]
]

-- the `for` loop of `_parse_columns`; `seen` holds the names of the columns before
unfoldable pub parse_columns_from : List Text → List (Raw RawColumn) → Result (List Column)
unfolding column_keys
parse_columns_from seen [] = ok []
parse_columns_from seen (entry ∷ raw) = do
  keys ← column_keys entry
  column ← parse_column seen keys.0 keys.1
  columns ← parse_columns_from (keys.0 ∷ seen) raw
  ok (column ∷ columns)

unfoldable pub parse_columns : Raw (List (Raw RawColumn)) → Result (List Column)
unfolding parse_columns_from
parse_columns malformed = err schema_error
parse_columns (shaped []) = err schema_error
parse_columns (shaped (entry ∷ raw)) = parse_columns_from [] (entry ∷ raw)

-- by_name[name]: no two columns share a name, so the first is the last
unfoldable pub find_column : Text → List Column → Option Column
find_column name [] = none
find_column name (c ∷ cs) = if same c.name name then some c else find_column name cs

unfoldable pub check_type : List Text → Text → Option Column → Result Text
unfolding member
check_type types name none = err schema_error
check_type types name (some c) = if member c.type types then ok name else err schema_error

-- a declared column whose type is in `types`
unfoldable pub typed_column : List Text → List Column → Text → Result Text
unfolding find_column check_type
typed_column types columns name = check_type types name (find_column name columns)

-- _PRIMARY_OK
abbrev pub primary_types : List Text
primary_types = codes "str" ∷ codes "int" ∷ []

unfoldable pub check_searchable : List Column → List Text → Result (List Text)
unfolding typed_column
check_searchable columns [] = ok []
check_searchable columns (s ∷ names) = do
  name ← typed_column (codes "str" ∷ []) columns s
  rest ← check_searchable columns names
  ok (name ∷ rest)

unfoldable pub required {ℓ} : {A : Type ℓ} → Option A → Result A
required none = err schema_error
required (some a) = ok a

-- entry.get("searchable", ())
unfoldable pub get_searchable : Option (List Text) → List Text
get_searchable none = []
get_searchable (some names) = names

unfoldable pub no_other_keys : List Text → Result (List Text)
no_other_keys [] = ok []
no_other_keys (k ∷ ks) = err schema_error

unfoldable pub parse_fields : RawTable → Result TableSpec
unfolding required no_other_keys get_searchable
parse_fields entry = do
  name ← required entry.table
  no_keys ← no_other_keys entry.other_keys
  raw ← required entry.columns
  columns ← parse_columns raw
  declared ← required entry.primary
  primary ← typed_column primary_types columns declared
  searchable ← check_searchable columns (get_searchable entry.searchable)
  ok (record { name = name; columns = columns; primary_key = primary; searchable = searchable })

-- _parse_table
unfoldable pub parse_table : Raw RawTable → Result TableSpec
unfolding parse_fields
parse_table malformed = err schema_error
parse_table (shaped entry) = parse_fields entry

unfoldable pub new_table : List Text → TableSpec → Result TableSpec
unfolding member
new_table seen spec = if member spec.name seen then err schema_error else ok spec

-- the `for` loop of `parse_schema`
unfoldable pub parse_tables : List Text → List (Raw RawTable) → Result (List TableSpec)
unfolding parse_table new_table
parse_tables seen [] = ok []
parse_tables seen (entry ∷ raw) = do
  spec ← parse_table entry
  fresh ← new_table seen spec
  tables ← parse_tables (fresh.name ∷ seen) raw
  ok (fresh ∷ tables)

unfoldable pub parse_schema : Raw (List (Raw RawTable)) → Result Schema
unfolding parse_tables
parse_schema malformed = err schema_error
parse_schema (shaped []) = err schema_error
parse_schema (shaped (entry ∷ raw)) = do
  tables ← parse_tables [] (entry ∷ raw)
  ok (record { tables = tables })
