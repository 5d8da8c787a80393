-- ===== src/Search/Writes.antt =====
-- The placeholders of the statements that write and look up rows, and the names of created tables.
use seekbase.Base.{
  ℕ, ◌+◌, ◌≡◌, refl, ◌∙◌, Text, codes, List, [], ◌∷◌, ◌++◌, Bool, true, Option, length, All, ok,
  >>=-eq-ok, ◌>>=◌, OnOk-ok, Bool-cases, inl, inr, arith,
}
use seekbase.Schema.Data.{Column, TableSpec, deleted_ds_column, deleted_at_column}
use seekbase.Search.Names.{concat, join_by, marks, quoted, ident, idents, phys, phys_name, is_ident}
use seekbase.Search.Statements.{
  comma, insert_names, insert_sql, existing_sql, soft_delete_sql, column_defs, vss_defs,
  create_table, create_tables,
}
use seekbase.Search.Marks.{
  count, count-concat, count-ident, count-idents, count-join_by, count-marks,
}

pub insert_sql-count :
    (vss : Bool) (spec : TableSpec) (sql : Text)
    → insert_sql vss spec ≡ ok sql
    → count sql ≡ length (insert_names vss spec)
unfolding insert_sql phys count
insert_sql-count vss spec sql h =
    let n = length (insert_names vss spec) in
    let pieces : List Text → Text → List Text = λ cols t.
      codes "INSERT INTO "
      ∷ t
      ∷ codes " ("
      ∷ join_by comma cols
      ∷ codes ") VALUES ("
      ∷ marks n
      ∷ codes ")"
      ∷ [] in
    let (cols, named, rest) =
      >>=-eq-ok (idents (insert_names vss spec))
        (λ cols. phys spec.name >>= λ t. ok (concat (pieces cols t))) h in
    let (t, found, end) = >>=-eq-ok (phys spec.name) (λ t. ok (concat (pieces cols t))) rest in
    let clean = count-ident (phys_name spec.name) t found in
    let joined = count-join_by comma cols refl (count-idents (insert_names vss spec) cols named) in
    OnOk-ok (λ s. count s ≡ n) end
      (count-concat (pieces cols t) ∙ omega (arith, clean.1, joined, count-marks n))

pub existing_sql-count :
    (spec : TableSpec) (n : ℕ) (sql : Text) → existing_sql spec n ≡ ok sql → count sql ≡ n
unfolding existing_sql phys count
existing_sql-count spec n sql h =
    let pieces : Text → Text → List Text = λ key t.
      codes "SELECT CAST("
      ∷ key
      ∷ codes " AS VARCHAR) FROM "
      ∷ t
      ∷ codes " WHERE CAST("
      ∷ key
      ∷ codes " AS VARCHAR) IN ("
      ∷ marks n
      ∷ codes ")"
      ∷ [] in
    let (key, named, rest) =
      >>=-eq-ok (ident spec.primary_key) (λ key. phys spec.name >>= λ t. ok (concat (pieces key t)))
        h in
    let (t, found, end) = >>=-eq-ok (phys spec.name) (λ t. ok (concat (pieces key t))) rest in
    let clean = count-ident (phys_name spec.name) t found in
    let key_clean = count-ident spec.primary_key key named in
    OnOk-ok (λ s. count s ≡ n) end
      (count-concat (pieces key t) ∙ omega (arith, clean.1, key_clean.1, count-marks n))

pub soft_delete_sql-count :
    (spec : TableSpec) (n : ℕ) (sql : Text) → soft_delete_sql spec n ≡ ok sql → count sql ≡ 2 + n
unfolding soft_delete_sql phys count
soft_delete_sql-count spec n sql h =
    let pieces : Text → Text → List Text = λ t key.
      codes "UPDATE "
      ∷ t
      ∷ codes " SET "
      ∷ quoted deleted_ds_column
      ∷ codes "=?, "
      ∷ quoted deleted_at_column
      ∷ codes "=? WHERE CAST("
      ∷ key
      ∷ codes " AS VARCHAR) IN ("
      ∷ marks n
      ∷ codes ") AND "
      ∷ quoted deleted_ds_column
      ∷ codes " IS NULL"
      ∷ [] in
    let (t, found, rest) =
      >>=-eq-ok (phys spec.name) (λ t. ident spec.primary_key >>= λ key. ok (concat (pieces t key)))
        h in
    let (key, named, end) =
      >>=-eq-ok (ident spec.primary_key) (λ key. ok (concat (pieces t key))) rest in
    let clean = count-ident (phys_name spec.name) t found in
    let key_clean = count-ident spec.primary_key key named in
    OnOk-ok (λ s. count s ≡ 2 + n) end
      (count-concat (pieces t key) ∙ omega (arith, clean.1, key_clean.1, count-marks n))

-- The names that `_ident` accepts.
abbrev pub IsIdent : Text → Type 0
IsIdent name = is_ident name ≡ true

ident-eq-ok : (name q : Text) → ident name ≡ ok q → IsIdent name
unfolding ident
ident-eq-ok name q h = elim (Bool-cases (is_ident name)) [
  | inl e ↦ e
  | inr e ↦ absurd (cc (rw e at h))
]

column_defs-eq-ok :
    (cs : List Column) (defs : List Text) → column_defs cs ≡ ok defs → All (λ c. IsIdent c.name) cs
unfolding column_defs
column_defs-eq-ok [] defs h = tt
column_defs-eq-ok (c ∷ cs) defs h =
    let define : Text → List Text → List Text = λ q rest. (q ++ codes " " ++ c.sql_type) ∷ rest in
    let (q, named, more) =
      >>=-eq-ok (ident c.name) (λ q. column_defs cs >>= λ rest. ok (define q rest)) h in
    let (rest, others, _) = >>=-eq-ok (column_defs cs) (λ rest. ok (define q rest)) more in
    (ident-eq-ok c.name q named, column_defs-eq-ok cs rest others)

-- The columns and the key of a table are identifiers, and so is its physical name.
pub record IsNamed (spec : TableSpec) : Type 0 where
  pub columns : All (λ c. IsIdent c.name) spec.columns
  pub key : IsIdent spec.primary_key
  pub physical : IsIdent (phys_name spec.name)

create_table-IsNamed :
    (vss : Option ℕ) (spec : TableSpec) (sql : Text) → create_table vss spec ≡ ok sql → IsNamed spec
unfolding create_table phys
create_table-IsNamed vss spec sql h =
    let (defs, columns, h₁) = >>=-eq-ok (column_defs spec.columns) _ h in
    let (search, _, h₂) = >>=-eq-ok (vss_defs vss spec.searchable) _ h₁ in
    let (key, named, h₃) = >>=-eq-ok (ident spec.primary_key) _ h₂ in
    let (t, found, _) = >>=-eq-ok (ident (phys_name spec.name)) _ h₃ in
    record {
      columns = column_defs-eq-ok spec.columns defs columns;
      key = ident-eq-ok spec.primary_key key named;
      physical = ident-eq-ok (phys_name spec.name) t found;
    }

-- When the tables of a schema were created, every column and every key of theirs is an identifier, and
-- so is each table's physical name.
pub create_tables-IsNamed :
    (vss : Option ℕ) (specs : List TableSpec) (made : List Text)
    → create_tables vss specs ≡ ok made
    → All IsNamed specs
unfolding create_tables
create_tables-IsNamed vss [] made h = tt
create_tables-IsNamed vss (spec ∷ specs) made h =
    let (first, one, more) = >>=-eq-ok (create_table vss spec) _ h in
    let (rest, others, _) = >>=-eq-ok (create_tables vss specs) _ more in
    (create_table-IsNamed vss spec first one, create_tables-IsNamed vss specs rest others)
