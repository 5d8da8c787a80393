-- ===== src/Write/Keeps.antt =====
-- A property of the rows of the tables that every operation keeps, whether it succeeds or raises.
use seekbase.Base.{
  ◌≡◌, refl, Text, List, [], ◌∷◌, map, none, some, same, same_iff, Bool-cases, inl, inr, Result, ok,
  err,
}
use seekbase.Value.{Value, text, Dict}
use seekbase.Schema.Data.{TableSpec, Schema, table}
use seekbase.Store.Rows.{StoredRow, Tables, put}
use seekbase.Store.Validate.{validate}
use seekbase.Store.Change.{new_row, insert_rows, soft_delete, match_live}
use seekbase.Write.Execute.{
  World, Engine, Step, or_raise, commit, insert_records, execute_insert, delete_keys,
  execute_delete, Op, insert, delete, execute,
}

or_raise-keeps :
    {A B : Type 0} (P : Engine → Type 0) (m : Result A) (e : Engine) (f : A → Step B)
    → P e
    → ((a : A) → m ≡ ok a → P (f a).1)
    → P (or_raise m e f).1
unfolding or_raise
or_raise-keeps P (ok a) e f h g = g a refl
or_raise-keeps P (err x) e f h g = h

module _ (w : World) (schema : Schema) (P : Text → List StoredRow → Type 0)
    (inserts : (name : Text) (spec : TableSpec)
      → table schema name ≡ ok spec
      → (records : List Dict) (rows : List StoredRow) → P spec.name rows
      → P spec.name
          (insert_rows
            (w.accepts spec)
            spec
            (map (new_row w.dumps spec (text w.today) (text w.now)) records)
            rows).1)
    (deletes : (name : Text) (spec : TableSpec)
      → table schema name ≡ ok spec
      → (keys : List Value) (rows : List StoredRow) → P spec.name rows
      → P spec.name (soft_delete spec keys (text w.today) (text w.now) rows)) where
  abbrev Everywhere : Tables → Type 0
  Everywhere tables = (name : Text) → P name (tables name)

  Everywhere-put :
      (name : Text) (rows : List StoredRow) (tables : Tables)
      → P name rows
      → Everywhere tables
      → Everywhere (put name rows tables)
  Everywhere-put name rows tables h all n = elim (Bool-cases (same name n)) [
    | inl found ↦ rw found (rw (← (same_iff name n).0 found) h)
    | inr differ ↦ rw differ (all n)
  ]

  abbrev Holds : Engine → Type 0
  Holds e = Everywhere e.tables

  module _ (e : Engine) (all : Holds e) where
    commit-keeps :
        (name : Text) (spec : TableSpec) (records : List Dict)
        → table schema name ≡ ok spec
        → Holds (commit w spec records e).1
    unfolding commit
    commit-keeps name spec records h =
        let rows = map (new_row w.dumps spec (text w.today) (text w.now)) records in
        let stored = insert_rows (w.accepts spec) spec rows (e.tables spec.name) in
        let changed =
          Everywhere-put spec.name stored.1 e.tables
            (inserts name spec h records (e.tables spec.name) (all spec.name)) all in
        or_raise-keeps Holds stored.0 _ _ changed
          (λ _ _. or_raise-keeps Holds (w.index spec records) _ _ changed (λ _ _. changed))

    insert-keeps :
        (name : Text) (spec : TableSpec) (records : List Dict)
        → table schema name ≡ ok spec
        → Holds (insert_records w spec records e).1
    unfolding insert_records
    insert-keeps name spec [] h = all
    insert-keeps name spec (r ∷ records) h =
        or_raise-keeps Holds (w.embed spec (r ∷ records)) e _ all
          (λ _ _. commit-keeps name spec (r ∷ records) h)

    delete-keeps :
        (name : Text) (spec : TableSpec) (keys : List Value)
        → table schema name ≡ ok spec
        → Holds (delete_keys w spec keys e).1
    unfolding delete_keys
    delete-keeps name spec keys h =
        Everywhere-put spec.name
          (soft_delete spec keys (text w.today) (text w.now) (e.tables spec.name)) e.tables
          (deletes name spec h keys (e.tables spec.name) (all spec.name)) all

    pub execute-keeps : (op : Op) → Holds (execute w schema op e).1
    unfolding execute execute_insert execute_delete
    execute-keeps (insert name rows skip) =
        or_raise-keeps Holds (validate schema e.tables name skip rows) e _ all (λ records _.
          or_raise-keeps Holds (table schema name) e _ all
            (λ spec h. insert-keeps name spec records h))
    execute-keeps (delete name none) = all
    execute-keeps (delete name (some [])) = all
    execute-keeps (delete name (some (c ∷ s))) =
        or_raise-keeps Holds (table schema name) e _ all (λ spec h.
          or_raise-keeps Holds (match_live w.valid w.matches spec (c ∷ s) (e.tables name)) e _ all
            (λ keys _. delete-keeps name spec keys h))
