-- ===== src/Schema/Data.antt =====
-- seekbase/struct/schema.py: the parsed shape of a table, and the columns that the engine manages.
use seekbase.Base.{
  Text, codes, List, [], ◌∷◌, ◌++◌, map, member, same, if◌then◌else◌, Bool, ◌||◌, Result, ok, err,
  schema_error,
}

abbrev pub ds_column : Text
ds_column = codes "ds"

abbrev pub created_at_column : Text
created_at_column = codes "created_at"

abbrev pub deleted_ds_column : Text
deleted_ds_column = codes "deleted_ds"

abbrev pub deleted_at_column : Text
deleted_at_column = codes "deleted_at"

-- META_COLUMNS
abbrev pub meta_columns : List Text
meta_columns = ds_column ∷ created_at_column ∷ deleted_ds_column ∷ deleted_at_column ∷ []

pub record Column : Type 0 where
  pub name : Text
  pub type : Text
  pub sql_type : Text

pub record TableSpec : Type 0 where
  pub name : Text
  pub columns : List Column
  pub primary_key : Text
  pub searchable : List Text

abbrev pub column_names : TableSpec → List Text
column_names spec = map (λ c. c.name) spec.columns

unfoldable pub all_column_names : TableSpec → List Text
all_column_names spec = column_names spec ++ meta_columns

unfoldable pub is_column : TableSpec → Text → Bool
is_column spec name = member name (column_names spec) || member name meta_columns

pub record Schema : Type 0 where
  pub tables : List TableSpec

abbrev pub table_names : Schema → List Text
table_names schema = map (λ t. t.name) schema.tables

unfoldable pub find_table : Text → List TableSpec → Result TableSpec
find_table name [] = err schema_error
find_table name (t ∷ ts) = if same t.name name then ok t else find_table name ts

-- Schema.table
unfoldable pub table : Schema → Text → Result TableSpec
unfolding find_table
table schema name = find_table name schema.tables
