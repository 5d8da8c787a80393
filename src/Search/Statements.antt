-- ===== src/Search/Statements.antt =====
-- The statements of `_create_tables`, `_visible`, `_existing_keys`, `_insert_rows`, `match_live`,
-- `soft_delete` and `clear`.
use seekbase.Base.{
  ℕ, Text, codes, List, [], ◌∷◌, ◌++◌, map, Bool, Option, none, some, length, Result, ok, ◌>>=◌,
  if◌then◌else◌,
}
use seekbase.Base.Number.{print_nat}
use seekbase.Schema.Data.{
  Column, TableSpec, column_names, all_column_names, ds_column, created_at_column,
  deleted_ds_column, deleted_at_column,
}
use seekbase.Store.Visible.{
  Cond, deleted_ds_is_null, ds_le, deleted_ds_is_null_or_gt, ds_ge, asof_conds,
}
use seekbase.Search.Names.{concat, join_by, marks, quoted, ident, idents, phys, veccol, tokcol}

abbrev pub comma : Text
comma = codes ", "

-- the text of a condition; the names of the columns are identifiers
unfoldable pub cond_sql : Cond → Text
unfolding concat
cond_sql deleted_ds_is_null = quoted deleted_ds_column ++ codes " IS NULL"
cond_sql (ds_le d) = concat (quoted ds_column ∷ codes " <= '" ∷ d ∷ codes "'" ∷ [])
cond_sql (deleted_ds_is_null_or_gt d) = concat (
    codes "("
    ∷ quoted deleted_ds_column
    ∷ codes " IS NULL OR "
    ∷ quoted deleted_ds_column
    ∷ codes " > '"
    ∷ d
    ∷ codes "')"
    ∷ [])
cond_sql (ds_ge d) = concat (quoted ds_column ∷ codes " >= '" ∷ d ∷ codes "'" ∷ [])

-- " AND ".join(_asof_conds(ds_start, ds_end))
unfoldable pub conds_sql : Option Text → Option Text → Text
unfolding cond_sql join_by asof_conds
conds_sql ds_start ds_end = join_by (codes " AND ") (map cond_sql (asof_conds ds_start ds_end))

-- _visible
unfoldable pub visible_sql : TableSpec → Option Text → Option Text → Result Text
unfolding idents phys join_by concat conds_sql all_column_names
visible_sql spec ds_start ds_end = do
  cols ← idents (all_column_names spec)
  table ← phys spec.name
  ok (
      concat (
        codes "SELECT "
        ∷ join_by comma cols
        ∷ codes " FROM "
        ∷ table
        ∷ codes " WHERE "
        ∷ conds_sql ds_start ds_end
        ∷ []))

unfoldable pub column_defs : List Column → Result (List Text)
unfolding ident
column_defs [] = ok []
column_defs (c ∷ cs) = do
  name ← ident c.name
  rest ← column_defs cs
  ok ((name ++ codes " " ++ c.sql_type) ∷ rest)

-- the four metadata columns
abbrev pub meta_defs : List Text
meta_defs =
    (quoted ds_column ++ codes " VARCHAR")
    ∷ (quoted created_at_column ++ codes " VARCHAR")
    ∷ (quoted deleted_ds_column ++ codes " VARCHAR")
    ∷ (quoted deleted_at_column ++ codes " VARCHAR")
    ∷ []

unfoldable pub search_defs : ℕ → List Text → Result (List Text)
unfolding ident concat print_nat
search_defs dim [] = ok []
search_defs dim (col ∷ cols) = do
  vec ← ident (veccol col)
  tok ← ident (tokcol col)
  rest ← search_defs dim cols
  ok (
      concat (vec ∷ codes " FLOAT[" ∷ print_nat dim ∷ codes "]" ∷ [])
      ∷ (tok ++ codes " VARCHAR")
      ∷ rest)

-- `dim` where the vss columns are in the table
abbrev pub vss_defs : Option ℕ → List Text → Result (List Text)
vss_defs none cols = ok []
vss_defs (some dim) cols = search_defs dim cols

unfoldable pub create_table : Option ℕ → TableSpec → Result Text
unfolding column_defs search_defs ident phys concat join_by
create_table vss spec = do
  defs ← column_defs spec.columns
  search ← vss_defs vss spec.searchable
  key ← ident spec.primary_key
  table ← phys spec.name
  ok (
      concat (
        codes "CREATE TABLE IF NOT EXISTS "
        ∷ table
        ∷ codes " ("
        ∷ join_by comma (
            defs
            ++ (meta_defs
                ++ (search ++ concat (codes "PRIMARY KEY (" ∷ key ∷ codes ")" ∷ []) ∷ [])))
        ∷ codes ")"
        ∷ []))

-- _create_tables: the statements, until a name is refused
unfoldable pub create_tables : Option ℕ → List TableSpec → Result (List Text)
unfolding create_table
create_tables vss [] = ok []
create_tables vss (spec ∷ specs) = do
  first ← create_table vss spec
  rest ← create_tables vss specs
  ok (first ∷ rest)

abbrev pub search_names : List Text → List Text
search_names [] = []
search_names (col ∷ cols) = veccol col ∷ tokcol col ∷ search_names cols

-- the columns that `_insert_rows` fills
unfoldable pub insert_names : Bool → TableSpec → List Text
insert_names vss spec =
    column_names spec
    ++ ((ds_column ∷ created_at_column ∷ deleted_ds_column ∷ deleted_at_column ∷ [])
        ++ (if vss then search_names spec.searchable else []))

unfoldable pub insert_sql : Bool → TableSpec → Result Text
unfolding insert_names idents phys concat join_by marks
insert_sql vss spec = do
  cols ← idents (insert_names vss spec)
  table ← phys spec.name
  ok (
      concat (
        codes "INSERT INTO "
        ∷ table
        ∷ codes " ("
        ∷ join_by comma cols
        ∷ codes ") VALUES ("
        ∷ marks (length (insert_names vss spec))
        ∷ codes ")"
        ∷ []))

unfoldable pub existing_sql : TableSpec → ℕ → Result Text
unfolding ident phys concat marks
existing_sql spec count = do
  key ← ident spec.primary_key
  table ← phys spec.name
  ok (
      concat (
        codes "SELECT CAST("
        ∷ key
        ∷ codes " AS VARCHAR) FROM "
        ∷ table
        ∷ codes " WHERE CAST("
        ∷ key
        ∷ codes " AS VARCHAR) IN ("
        ∷ marks count
        ∷ codes ")"
        ∷ []))

unfoldable pub soft_delete_sql : TableSpec → ℕ → Result Text
unfolding ident phys concat marks
soft_delete_sql spec count = do
  table ← phys spec.name
  key ← ident spec.primary_key
  ok (
      concat (
        codes "UPDATE "
        ∷ table
        ∷ codes " SET "
        ∷ quoted deleted_ds_column
        ∷ codes "=?, "
        ∷ quoted deleted_at_column
        ∷ codes "=? WHERE CAST("
        ∷ key
        ∷ codes " AS VARCHAR) IN ("
        ∷ marks count
        ∷ codes ") AND "
        ∷ quoted deleted_ds_column
        ∷ codes " IS NULL"
        ∷ []))
