-- ===== src/Store/Insert.antt =====
-- What `executemany` does with the rows, one by one.
use seekbase.Base.{
  ◌≡◌, List, [], ◌∷◌, ◌++◌, map, Bool, true, false, ◌⊎◌, inl, inr, ok, err, member, All, arith,
  Text, Bool-cases, ◌&&◌,
}
use seekbase.Value.{Value, is_null}
use seekbase.Schema.Data.{TableSpec}
use seekbase.Store.Rows.{StoredRow, row_key}
use seekbase.Store.Change.{insert_row, insert_rows, tombstone}

pub insert_row_cases :
    (accepts : StoredRow → Bool) (spec : TableSpec) (r : StoredRow) (rows : List StoredRow)
    → (insert_row accepts spec r rows ≡ ok (rows ++ r ∷ []))
        × (accepts r ≡ true)
        × (member (row_key spec r) (map (row_key spec) rows) ≡ false)
      ⊎ ((x : _) × (insert_row accepts spec r rows ≡ err x))
unfolding insert_row
insert_row_cases accepts spec r rows = ground arith

-- A property of the stored rows that every accepted row keeps.
pub insert_rows-keeps :
    (accepts : StoredRow → Bool) (spec : TableSpec) (P : List StoredRow → Type 0)
    (Q : StoredRow → Type 0)
    → ((r : StoredRow) (rows : List StoredRow)
        → Q r
        → member (row_key spec r) (map (row_key spec) rows) ≡ false
        → P rows
        → P (rows ++ r ∷ []))
    → (more rows : List StoredRow) → All Q more
    → P rows
    → P (insert_rows accepts spec more rows).1
unfolding insert_rows
insert_rows-keeps accepts spec P Q step [] rows all h = h
insert_rows-keeps accepts spec P Q step (r ∷ more) rows all h =
    elim (insert_row_cases accepts spec r rows) [
      | inl (e, _, fresh) ↦
          rw (e, insert_rows)
            (insert_rows-keeps accepts spec P Q step more (rows ++ r ∷ []) all.1
              (step r rows all.0 fresh h))
      | inr (x, e) ↦ rw (e, insert_rows) h
    ]

-- A deletion keeps the key.
pub tombstone-key :
    (spec : TableSpec) (keys : List Text) (ds now : Value) (r : StoredRow)
    → row_key spec (tombstone spec keys ds now r) ≡ row_key spec r
unfolding tombstone
tombstone-key spec keys ds now r =
    elim (Bool-cases (member (row_key spec r) keys && is_null r.deleted_ds)) [
      | inl e ↦ rw e
      | inr e ↦ rw e
    ]
