-- ===== src/Schema/Find.antt =====
-- What the lookup of a table by its name finds.
use seekbase.Base.{◌≡◌, Text, List, [], ◌∷◌, Bool-cases, inl, inr, same, same_iff, All, OnOk-ok, ok}
use seekbase.Schema.Data.{TableSpec, Schema, find_table, table}

pub find_table-name :
    (name : Text) (ts : List TableSpec) (spec : TableSpec)
    → find_table name ts ≡ ok spec
    → spec.name ≡ name
unfolding find_table
find_table-name name [] spec h = absurd (cc h)
find_table-name name (t ∷ ts) spec h = elim (Bool-cases (same t.name name)) [
  | inl e ↦ let p : ok t ≡ ok spec = rw e at h in cc (p, (same_iff t.name name).0 e)
  | inr e ↦ find_table-name name ts spec (rw e at h)
]

pub find_table-All :
    (P : TableSpec → Type 0) (name : Text) (ts : List TableSpec) (spec : TableSpec)
    → find_table name ts ≡ ok spec
    → All P ts
    → P spec
unfolding find_table
find_table-All P name [] spec h all = absurd (cc h)
find_table-All P name (t ∷ ts) spec h all = elim (Bool-cases (same t.name name)) [
  | inl e ↦ let p : ok t ≡ ok spec = rw e at h in OnOk-ok P p all.0
  | inr e ↦ find_table-All P name ts spec (rw e at h) all.1
]

pub table-name :
    (schema : Schema) (name : Text) (spec : TableSpec)
    → table schema name ≡ ok spec
    → spec.name ≡ name
unfolding table
table-name schema name spec h = find_table-name name schema.tables spec h

-- A table is found under its own name.
pub table-again :
    (schema : Schema) (name : Text) (spec other : TableSpec)
    → table schema name ≡ ok spec
    → table schema spec.name ≡ ok other
    → other ≡ spec
table-again schema name spec other h again =
    let same_table : table schema name ≡ ok other = rw (table-name schema name spec h) at again in
    cc (h, same_table)
