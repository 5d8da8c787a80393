-- ===== src/Schema/WellFormed.antt =====
-- What `parse_schema` promises of a schema.
use seekbase.Base.{
  ◌≡◌, refl, ◌≢◌, Text, codes, List, [], ◌∷◌, map, true, false, some, member, All, inl, inr,
  Option-cases, Bool-cases, ok, OnOk, OnOk-bind, OnOk-and, OnOk-ok,
}
use seekbase.Schema.Types.{sql_type}
use seekbase.Schema.Data.{Column, TableSpec, Schema, meta_columns, column_names, table_names}
use seekbase.Schema.Parse.{
  Raw, malformed, shaped, RawColumn, RawTable, parse_column, column_keys, parse_columns_from,
  parse_columns, find_column, typed_column, primary_types, check_searchable, required,
  get_searchable, no_other_keys, parse_fields, parse_table, new_table, parse_tables, parse_schema,
}

-- No name is in `seen`, and none is repeated.
abbrev pub AllNew : List Text → List Text → Type 0
AllNew seen [] = Unit
AllNew seen (n ∷ ns) = (member n seen ≡ false) × AllNew (n ∷ seen) ns

-- A column that the engine does not manage, with the DuckDB type of its declared type.
abbrev pub IsGoodColumn : Column → Type 0
IsGoodColumn c = (member c.name meta_columns ≡ false) × (sql_type c.type ≡ ok c.sql_type)

-- `name` is a declared column whose type is in `types`.
abbrev pub IsTyped : List Text → List Column → Text → Type 0
IsTyped types columns name =
    (c : Column) × (find_column name columns ≡ some c) × (member c.type types ≡ true)

pub record IsGoodTable (spec : TableSpec) : Type 0 where
  pub some_column : spec.columns ≢ []
  pub distinct : AllNew [] (column_names spec)
  pub good : All IsGoodColumn spec.columns
  pub primary : IsTyped primary_types spec.columns spec.primary_key
  pub searchable : All (IsTyped (codes "str" ∷ []) spec.columns) spec.searchable

pub record IsGoodSchema (schema : Schema) : Type 0 where
  pub some_table : schema.tables ≢ []
  pub distinct : AllNew [] (table_names schema)
  pub good : All IsGoodTable schema.tables

-- One lemma for each step of the parser.

abbrev ColumnFrom : List Text → Text → Text → Column → Type 0
ColumnFrom seen name decl c =
    (c.name ≡ name) × (c.type ≡ decl) × (member name seen ≡ false) × IsGoodColumn c

parse_column_lem :
    (seen : List Text) (name decl : Text)
    → OnOk (ColumnFrom seen name decl) (parse_column seen name decl)
unfolding parse_column
parse_column_lem seen name decl = elim (Bool-cases (member name meta_columns)) [
  | inl reserved ↦ rw reserved tt
  | inr free ↦ elim (Bool-cases (member name seen)) [
    | inl old ↦ rw (free, old) tt
    | inr new ↦
        rw (free, new)
          (OnOk-bind (ColumnFrom seen name decl) (sql_type decl)
            (λ sql. ok (record { name = name; type = decl; sql_type = sql }))
            (λ sql e. (refl, refl, new, (free, e))))
  ]
]

abbrev pub ColumnsFrom : List Text → List Column → Type 0
ColumnsFrom seen cs = AllNew seen (map (λ c. c.name) cs) × All IsGoodColumn cs

parse_columns_from_lem :
    (seen : List Text) (raw : List (Raw RawColumn))
    → OnOk (ColumnsFrom seen) (parse_columns_from seen raw)
unfolding parse_columns_from
parse_columns_from_lem seen [] = (tt, tt)
parse_columns_from_lem seen (entry ∷ raw) =
    OnOk-bind (ColumnsFrom seen) (column_keys entry) _ λ keys _.
      OnOk-bind (ColumnsFrom seen) (parse_column seen keys.0 keys.1) _ λ c e.
        OnOk-bind (ColumnsFrom seen) (parse_columns_from (keys.0 ∷ seen) raw) _ λ cs e'.
          let from =
            OnOk-ok (ColumnFrom seen keys.0 keys.1) e (parse_column_lem seen keys.0 keys.1) in
          let rest =
            OnOk-ok (ColumnsFrom (keys.0 ∷ seen)) e' (parse_columns_from_lem (keys.0 ∷ seen) raw) in
          ((rw from.0 from.2, rw from.0 rest.0), (from.3, rest.1))

abbrev TypedAs : List Text → List Column → Text → Text → Type 0
TypedAs types columns name n = (n ≡ name) × IsTyped types columns n

typed_column_lem :
    (types : List Text) (columns : List Column) (name : Text)
    → OnOk (TypedAs types columns name) (typed_column types columns name)
unfolding typed_column
typed_column_lem types columns name = elim (Option-cases (find_column name columns)) [
  | inl missing ↦ rw missing tt
  | inr (c, found) ↦ elim (Bool-cases (member c.type types)) [
    | inl fits ↦ rw (found, fits) (refl, (c, found, fits))
    | inr wrong ↦ rw (found, wrong) tt
  ]
]

check_searchable_lem :
    (columns : List Column) (names : List Text)
    → OnOk (All (IsTyped (codes "str" ∷ []) columns)) (check_searchable columns names)
unfolding check_searchable
check_searchable_lem columns [] = tt
check_searchable_lem columns (s ∷ names) =
    let types = codes "str" ∷ [] in
    OnOk-bind (All (IsTyped types columns)) (typed_column types columns s) _ λ name e.
      OnOk-bind (All (IsTyped types columns)) (check_searchable columns names) _ λ rest e'. (
        (OnOk-ok (TypedAs types columns s) e (typed_column_lem types columns s)).1,
        OnOk-ok (All (IsTyped types columns)) e' (check_searchable_lem columns names),
      )

parse_columns_from-cons :
    (seen : List Text) (entry : Raw RawColumn) (raw : List (Raw RawColumn))
    → OnOk (λ cs. cs ≢ []) (parse_columns_from seen (entry ∷ raw))
unfolding parse_columns_from
parse_columns_from-cons seen entry raw =
    OnOk-bind (λ cs. cs ≢ []) (column_keys entry) _
      λ keys _.
        OnOk-bind (λ cs. cs ≢ []) (parse_column seen keys.0 keys.1) _
          λ c _. OnOk-bind (λ cs. cs ≢ []) (parse_columns_from (keys.0 ∷ seen) raw) _ λ cs _ e. cc

parse_columns_lem :
    (raw : Raw (List (Raw RawColumn)))
    → OnOk (λ cs. (cs ≢ []) × ColumnsFrom [] cs) (parse_columns raw)
unfolding parse_columns
parse_columns_lem malformed = tt
parse_columns_lem (shaped []) = tt
parse_columns_lem (shaped (entry ∷ raw)) =
    OnOk-and (λ cs. cs ≢ []) (ColumnsFrom []) (parse_columns_from [] (entry ∷ raw))
      (parse_columns_from-cons [] entry raw) (parse_columns_from_lem [] (entry ∷ raw))

parse_table_lem : (raw : Raw RawTable) → OnOk IsGoodTable (parse_table raw)
unfolding parse_table parse_fields
parse_table_lem malformed = tt
parse_table_lem (shaped entry) = OnOk-bind IsGoodTable (required entry.table) _ λ name _.
    OnOk-bind IsGoodTable (no_other_keys entry.other_keys) _ λ _ _.
      OnOk-bind IsGoodTable (required entry.columns) _ λ raw _.
        OnOk-bind IsGoodTable (parse_columns raw) _ λ columns e.
          OnOk-bind IsGoodTable (required entry.primary) _ λ declared _.
            OnOk-bind IsGoodTable (typed_column primary_types columns declared) _ λ primary e'.
              OnOk-bind IsGoodTable (check_searchable columns (get_searchable entry.searchable)) _
                λ searchable e''.
                  let from =
                    OnOk-ok (λ cs. (cs ≢ []) × ColumnsFrom [] cs) e (parse_columns_lem raw) in
                  record {
                    some_column = from.0;
                    distinct = from.1.0;
                    good = from.1.1;
                    primary =
                        (OnOk-ok (TypedAs primary_types columns declared) e'
                          (typed_column_lem primary_types columns declared)).1;
                    searchable =
                        OnOk-ok (All (IsTyped (codes "str" ∷ []) columns)) e''
                          (check_searchable_lem columns (get_searchable entry.searchable));
                  }

new_table_lem :
    (seen : List Text) (spec : TableSpec)
    → OnOk (λ t. (t ≡ spec) × (member t.name seen ≡ false)) (new_table seen spec)
unfolding new_table
new_table_lem seen spec = elim (Bool-cases (member spec.name seen)) [
  | inl old ↦ rw old tt
  | inr new ↦ rw new (refl, new)
]

abbrev pub TablesFrom : List Text → List TableSpec → Type 0
TablesFrom seen ts = AllNew seen (map (λ t. t.name) ts) × All IsGoodTable ts

parse_tables_lem :
    (seen : List Text) (raw : List (Raw RawTable)) → OnOk (TablesFrom seen) (parse_tables seen raw)
unfolding parse_tables
parse_tables_lem seen [] = (tt, tt)
parse_tables_lem seen (entry ∷ raw) = OnOk-bind (TablesFrom seen) (parse_table entry) _ λ spec e.
    OnOk-bind (TablesFrom seen) (new_table seen spec) _ λ fresh e'.
      OnOk-bind (TablesFrom seen) (parse_tables (fresh.name ∷ seen) raw) _ λ ts e''.
        let good = OnOk-ok IsGoodTable e (parse_table_lem entry) in
        let new =
          OnOk-ok (λ t. (t ≡ spec) × (member t.name seen ≡ false)) e' (new_table_lem seen spec) in
        let rest =
          OnOk-ok (TablesFrom (fresh.name ∷ seen)) e'' (parse_tables_lem (fresh.name ∷ seen) raw) in
        ((new.1, rest.0), (rw new.0 good, rest.1))

parse_tables-cons :
    (seen : List Text) (entry : Raw RawTable) (raw : List (Raw RawTable))
    → OnOk (λ ts. ts ≢ []) (parse_tables seen (entry ∷ raw))
unfolding parse_tables
parse_tables-cons seen entry raw =
    OnOk-bind (λ ts. ts ≢ []) (parse_table entry) _
      λ spec _.
        OnOk-bind (λ ts. ts ≢ []) (new_table seen spec) _
          λ fresh _. OnOk-bind (λ ts. ts ≢ []) (parse_tables (fresh.name ∷ seen) raw) _ λ ts _ e. cc

parse_schema_lem : (raw : Raw (List (Raw RawTable))) → OnOk IsGoodSchema (parse_schema raw)
unfolding parse_schema
parse_schema_lem malformed = tt
parse_schema_lem (shaped []) = tt
parse_schema_lem (shaped (entry ∷ raw)) =
    OnOk-bind IsGoodSchema (parse_tables [] (entry ∷ raw)) _ λ ts e.
      let from = OnOk-ok (TablesFrom []) e (parse_tables_lem [] (entry ∷ raw)) in
      record {
        some_table = OnOk-ok (λ l. l ≢ []) e (parse_tables-cons [] entry raw);
        distinct = from.0;
        good = from.1;
      }

-- A schema that is accepted has a table; its table names differ, and so do the column names of each
-- table. No column has the name of an engine-managed one, and each has the DuckDB type of its
-- declared type. The primary key is a str or int column, and the searchable columns are str columns.
pub parse_schema-IsGoodSchema :
    (raw : Raw (List (Raw RawTable))) (schema : Schema)
    → parse_schema raw ≡ ok schema
    → IsGoodSchema schema
parse_schema-IsGoodSchema raw schema e = OnOk-ok IsGoodSchema e (parse_schema_lem raw)
