-- ===== src/Store/Rows.antt =====
-- The rows of the physical table `_sb_<table>`. The vector and token columns are the search index's
-- and are left out.
use seekbase.Base.{◌≡◌, Text, List, same, same_refl, if◌then◌else◌}
use seekbase.Value.{Value, Dict, str, get, or_null}
use seekbase.Schema.Data.{TableSpec}

-- `null` in a metadata column is SQL's NULL.
pub record StoredRow : Type 0 where
  pub values : Dict
  pub ds : Value
  pub created_at : Value
  pub deleted_ds : Value
  pub deleted_at : Value

-- str(rec[spec.primary_key]), and CAST(pk AS VARCHAR) of a stored row
unfoldable pub key : TableSpec → Dict → Text
unfolding get str
key spec rec = str (or_null (get spec.primary_key rec))

abbrev pub row_key : TableSpec → StoredRow → Text
row_key spec r = key spec r.values

-- The database: the rows of each table, in insertion order.
abbrev pub Tables : Type 0
Tables = Text → List StoredRow

abbrev pub put : Text → List StoredRow → Tables → Tables
put name rows tables t = if same name t then rows else tables t

pub put_self :
    (name : Text) (rows : List StoredRow) (tables : Tables) → put name rows tables name ≡ rows
put_self name rows tables = rw (same_refl name)
