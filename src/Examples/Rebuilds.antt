-- ===== src/Examples/Rebuilds.antt =====
-- A whole rebuild of the one table.
use seekbase.Base.{◌≡◌, refl, Text, ok}
use seekbase.Schema.Data.{TableSpec, table}
use seekbase.Store.Rows.{Tables}
use seekbase.Admin.Replay.{Stats, replay}
use seekbase.Admin.Whole.{SameRows, replay-Reached}
use seekbase.Examples.{
  schema, docs_good, first_day, after_delete, after_delete-Reached, docs-IsMirrored,
}

replay-Reached_example :
    (s : Stats) × (rebuilt : Tables) × (replay first_day schema after_delete ≡ (ok s, rebuilt))
    × ((name : Text) (spec : TableSpec)
        → table schema name ≡ ok spec
        → SameRows rebuilt after_delete.tables spec)
replay-Reached_example =
    replay-Reached first_day schema docs-IsMirrored after_delete docs_good (λ spec records. refl)
      after_delete-Reached
