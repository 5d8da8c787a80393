-- ===== src/Store/Unhindered.antt =====
-- The rows that `validate` accepts never meet the PRIMARY KEY constraint.
use seekbase.Base.{Text, List, [], ◌∷◌, ◌++◌, Bool, if◌then◌else◌, ok, err, other, Result}
use seekbase.Value.{Value, Dict}
use seekbase.Schema.Data.{TableSpec}
use seekbase.Schema.WellFormed.{IsGoodTable}
use seekbase.Store.Rows.{StoredRow}
use seekbase.Store.Change.{new_row}

-- The rows go in one by one, until DuckDB refuses the values of one.
unfoldable pub insert_until_refused :
    (StoredRow → Bool) → List StoredRow → List StoredRow → Result (Unit {0}) × List StoredRow
insert_until_refused accepts [] rows = (ok tt, rows)
insert_until_refused accepts (r ∷ more) rows =
    let rest = insert_until_refused accepts more (rows ++ r ∷ []) in
    if accepts r then rest else (err other, rows)

module _ (accepts : StoredRow → Bool) (dumps : Value → Text) (spec : TableSpec) (ds now : Value)
    (good : IsGoodTable spec) where
  abbrev row_of : Dict → StoredRow
  row_of rec = new_row dumps spec ds now rec
