-- ===== src/Schema/Accepts.antt =====
-- `parse_schema` accepts every schema that meets its promise, and its tables are found by name. Here
-- is also the SCHEMA that declares a parsed schema.
use seekbase.Base.{
  ◌≡◌, refl, ◌≢◌, Text, codes, List, [], ◌∷◌, map, true, false, some, same, same_iff, same_refl,
  member, All, All-map₂, inl, inr, Bool-cases, ok, arith,
}
use seekbase.Schema.Data.{Column, TableSpec, Schema, table, find_table}
use seekbase.Schema.Parse.{
  Raw, shaped, RawColumn, RawTable, parse_column, column_keys, parse_columns_from, parse_columns,
  check_type, typed_column, check_searchable, parse_fields, parse_table, new_table, parse_tables,
  parse_schema,
}
use seekbase.Schema.WellFormed.{
  AllNew, IsTyped, IsGoodTable, IsGoodSchema, ColumnsFrom, TablesFrom, parse_schema-IsGoodSchema,
}

abbrev pub raw_column : Column → Raw RawColumn
raw_column c = shaped (record { name = some c.name; type = some c.type })

abbrev pub raw_table : TableSpec → Raw RawTable
raw_table t = shaped (record {
  table = some t.name;
  columns = some (shaped (map raw_column t.columns));
  primary = some t.primary_key;
  searchable = some t.searchable;
  other_keys = [];
})

abbrev pub raw_schema : Schema → Raw (List (Raw RawTable))
raw_schema schema = shaped (map raw_table schema.tables)

parse_columns_from-raw :
    (seen : List Text) (cs : List Column)
    → ColumnsFrom seen cs
    → parse_columns_from seen (map raw_column cs) ≡ ok cs
unfolding parse_columns_from column_keys parse_column
parse_columns_from-raw seen [] h = refl
parse_columns_from-raw seen (c ∷ cs) h =
    rw (h.1.0.0, h.0.0, h.1.0.1) (rw (parse_columns_from-raw (c.name ∷ seen) cs (h.0.1, h.1.1)))

typed_column-IsTyped :
    (types : List Text) (columns : List Column) (name : Text)
    → IsTyped types columns name
    → typed_column types columns name ≡ ok name
unfolding typed_column check_type
typed_column-IsTyped types columns name (c, found, fits) = rw found (rw fits)

check_searchable-IsTyped :
    (columns : List Column) (names : List Text)
    → All (IsTyped (codes "str" ∷ []) columns) names
    → check_searchable columns names ≡ ok names
unfolding check_searchable
check_searchable-IsTyped columns [] h = refl
check_searchable-IsTyped columns (s ∷ names) h =
    rw (typed_column-IsTyped _ columns s h.0, check_searchable-IsTyped columns names h.1)

parse_columns-raw :
    (cs : List Column)
    → cs ≢ []
    → ColumnsFrom [] cs
    → parse_columns (shaped (map raw_column cs)) ≡ ok cs
unfolding parse_columns
parse_columns-raw [] some_column h = absurd (some_column refl)
parse_columns-raw (c ∷ cs) some_column h = parse_columns_from-raw [] (c ∷ cs) h

parse_table-raw : (t : TableSpec) → IsGoodTable t → parse_table (raw_table t) ≡ ok t
unfolding parse_table parse_fields
parse_table-raw t h = rw (parse_columns-raw t.columns h.some_column (h.distinct, h.good)) (
    rw (typed_column-IsTyped _ t.columns t.primary_key h.primary)
      (rw (check_searchable-IsTyped t.columns t.searchable h.searchable)))

parse_tables-raw :
    (seen : List Text) (ts : List TableSpec)
    → TablesFrom seen ts
    → parse_tables seen (map raw_table ts) ≡ ok ts
unfolding parse_tables new_table
parse_tables-raw seen [] h = refl
parse_tables-raw seen (t ∷ ts) h =
    rw (parse_table-raw t h.1.0)
      (rw h.0.0 (rw (parse_tables-raw (t.name ∷ seen) ts (h.0.1, h.1.1))))

parse_schema-raw_tables :
    (ts : List TableSpec)
    → ts ≢ []
    → TablesFrom [] ts
    → parse_schema (shaped (map raw_table ts)) ≡ ok (record { tables = ts })
unfolding parse_schema
parse_schema-raw_tables [] some_table h = absurd (some_table refl)
parse_schema-raw_tables (t ∷ ts) some_table h = rw (parse_tables-raw [] (t ∷ ts) h)

-- Every schema of that kind is accepted: parsing its declaration gives it back.
pub parse_schema-raw_schema :
    (schema : Schema) → IsGoodSchema schema → parse_schema (raw_schema schema) ≡ ok schema
parse_schema-raw_schema schema h =
    parse_schema-raw_tables schema.tables h.some_table (h.distinct, h.good)

-- A name that is already in `seen` is the name of none of the tables that come new.
pub names_differ :
    (seen : List Text) (name : Text) (ts : List TableSpec)
    → member name seen ≡ true
    → AllNew seen (map (λ t. t.name) ts)
    → All (λ t. same name t.name ≡ false) ts
unfolding member
names_differ seen name [] m h = tt
names_differ seen name (t ∷ ts) m h = (
  elim (Bool-cases (same name t.name)) [
    | inl e ↦ absurd (let p = (same_iff name t.name).0 e in cc (p, m, h.0))
    | inr e ↦ e
  ],
  names_differ (t.name ∷ seen) name ts (ground (arith, m)) h.1,
)

pub find_table_each :
    (seen : List Text) (ts : List TableSpec)
    → AllNew seen (map (λ t. t.name) ts)
    → All (λ t. find_table t.name ts ≡ ok t) ts
unfolding find_table
find_table_each seen [] h = tt
find_table_each seen (t ∷ ts) h = (
  rw (same_refl t.name),
  All-map₂ (λ u. same t.name u.name ≡ false) (λ u. find_table u.name ts ≡ ok u) _
      (λ u differ found. rw differ found) ts
      (names_differ (t.name ∷ seen) t.name ts (unfold member in rw (same_refl t.name)) h.1)
      (find_table_each (t.name ∷ seen) ts h.1),
)

-- In a schema that was accepted, each table is found under its own name.
pub table-parse_schema :
    (raw : Raw (List (Raw RawTable))) (schema : Schema)
    → parse_schema raw ≡ ok schema
    → All (λ t. table schema t.name ≡ ok t) schema.tables
unfolding table
table-parse_schema raw schema e =
    find_table_each [] schema.tables (parse_schema-IsGoodSchema raw schema e).distinct
