-- ===== src/Examples/Statements.antt =====
-- The SQL for the one table, with its column `body` searched.
use seekbase.Base.{
  ℕ, ◌≡◌, refl, Text, codes, List, [], ◌∷◌, All, map, length, true, Option, none, some, Result, ok,
  err,
}
use seekbase.Schema.Data.{TableSpec, Schema, table, find_table, all_column_names}
use seekbase.Search.Names.{ident, idents, is_ident, ident_rest, phys}
use seekbase.Search.Statements.{
  create_tables, create_table, column_defs, search_defs, insert_sql, insert_names, existing_sql,
  soft_delete_sql, visible_sql,
}
use seekbase.Search.Lower.{vss, Bound, search_lower, vss_search_sql}
use seekbase.Search.Marks.{count}
use seekbase.Search.Prepare.{Embedding, prepare, search_column, prepare-count}
use seekbase.Schema.Parse.{
  parse_schema, parse_tables, parse_table, parse_fields, required, parse_columns,
  parse_columns_from, column_keys, parse_column, typed_column, check_type, find_column,
  check_searchable, get_searchable, new_table, no_other_keys,
}
use seekbase.Schema.Types.{sql_type, find_scalar}
use seekbase.Schema.WellFormed.{IsGoodSchema, parse_schema-IsGoodSchema}
use seekbase.Schema.Accepts.{raw_schema}
use seekbase.Search.Writes.{IsNamed, create_tables-IsNamed}
use seekbase.Search.Values.{insert_values, soft_delete_values, writes-count}
use seekbase.Value.{text}
use seekbase.Store.Visible.{check_ds, is_ds}
use seekbase.Base.{same, member}
use seekbase.Examples.{docs}

abbrev value_or : {A : Type 0} → A → Result A → A
value_or a (ok b) = b
value_or a (err e) = a

abbrev created : List Text
created = value_or [] (create_tables none (docs ∷ []))

tables_made : create_tables none (docs ∷ []) ≡ ok created
unfolding create_tables create_table column_defs ident is_ident ident_rest phys
tables_made = refl

create_tables-IsNamed_example : All IsNamed (docs ∷ [])
create_tables-IsNamed_example = create_tables-IsNamed none (docs ∷ []) created tables_made

abbrev insert_text : Text
insert_text = value_or [] (insert_sql true docs)

abbrev existing_text : Text
existing_text = value_or [] (existing_sql docs 3)

abbrev delete_text : Text
delete_text = value_or [] (soft_delete_sql docs 3)

insert_made : insert_sql true docs ≡ ok insert_text
unfolding insert_sql insert_names idents ident is_ident ident_rest phys
insert_made = refl

existing_made : existing_sql docs 3 ≡ ok existing_text
unfolding existing_sql ident is_ident ident_rest phys
existing_made = refl

delete_made : soft_delete_sql docs 3 ≡ ok delete_text
unfolding soft_delete_sql ident is_ident ident_rest phys
delete_made = refl

abbrev no_vector : Text → Option (List ℕ)
no_vector col = none

abbrev no_words : Text → Option Text
no_words col = none

abbrev three : List Text
three = codes "a" ∷ codes "b" ∷ codes "c" ∷ []

writes-count_example :
    (count insert_text
      ≡ length (
          insert_values
            (λ v. [])
            true
            docs
            (text (codes "20240101"))
            (text (codes "now"))
            no_vector
            no_words
            []))
    × (count existing_text ≡ 3)
    × (count delete_text
        ≡ length
            (soft_delete_values (text (codes "20240101")) (text (codes "now")) (map text three)))
writes-count_example =
    writes-count no_vector no_words (λ v. []) true docs (text (codes "20240101"))
      (text (codes "now")) [] three (map text three) insert_text existing_text delete_text
      insert_made existing_made delete_made

abbrev searched_docs : TableSpec
searched_docs = record docs { searchable = codes "body" ∷ [] }

abbrev searched_schema : Schema
searched_schema = record { tables = searched_docs ∷ [] }

searched_accepted : parse_schema (raw_schema searched_schema) ≡ ok searched_schema
unfolding parse_schema parse_tables parse_table parse_fields required parse_columns
    parse_columns_from column_keys parse_column member same sql_type find_scalar typed_column
    check_type find_column check_searchable get_searchable new_table no_other_keys
searched_accepted = refl

searched_good : IsGoodSchema searched_schema
searched_good =
    parse_schema-IsGoodSchema (raw_schema searched_schema) searched_schema searched_accepted

abbrev vss_created : List Text
vss_created = value_or [] (create_tables (some 4) (searched_docs ∷ []))

vss_tables_made : create_tables (some 4) (searched_docs ∷ []) ≡ ok vss_created
unfolding create_tables create_table column_defs search_defs ident is_ident ident_rest phys
vss_tables_made = refl

abbrev embedding : Embedding ℕ
embedding = record { embed = λ t. ok 7; tok = λ t. t }

abbrev searched : Result (Text × List (Bound ℕ))
searched =
    prepare (λ v. v) (vss (some 4)) searched_schema (some embedding) (codes "docs") (codes "hello")
      none 100 none (some (codes "20240101"))

abbrev sql : Text
sql = (value_or ([], []) searched).0

abbrev params : List (Bound ℕ)
params = (value_or ([], []) searched).1

search_made : searched ≡ ok (sql, params)
unfolding prepare search_column search_lower vss_search_sql visible_sql ident idents is_ident
    ident_rest phys table find_table same all_column_names
search_made = refl

prepare-count_example : count sql ≡ length params
prepare-count_example =
    prepare-count (λ v. v) (vss (some 4)) searched_schema (some embedding) (codes "docs")
      (codes "hello") none 100 none (some (codes "20240101")) (some 4) vss_created sql params
      searched_good vss_tables_made (unfold check_ds in refl) (unfold check_ds is_ds in refl) tt
      search_made
