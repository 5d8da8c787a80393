-- ===== src/Admin/Reached.antt =====
-- The states that a sequence of writes reaches, and rebuilding them.
use seekbase.Base.{◌≡◌, Text, List, [], All, ok}
use seekbase.Base.Keyed.{find_by}
use seekbase.Schema.Data.{TableSpec, Schema, table}
use seekbase.Store.Rows.{StoredRow, row_key}
use seekbase.Files.Mirror.{iter_events}
use seekbase.Write.Execute.{World, Engine, Outcome, Op, execute}
use seekbase.Admin.Replay.{replay_table}
use seekbase.Admin.Synced.{Synced-nil}
use seekbase.Admin.Rebuild.{replay_table-Synced}
use seekbase.Admin.Inserts.{IsMirrored, SameWorld}
use seekbase.Admin.History.{AllSynced, execute-AllSynced}

abbrev pub empty_engine : Engine
empty_engine = record { tables = λ name. []; mirror = [] }

-- Successful writes, from the empty database on. DuckDB and `json.dumps` decide at each as they do at
-- the rebuild; the days and times may be any.
pub data Reached (w : World) (schema : Schema) : Engine → Type 0 where
  start : Reached w schema empty_engine
  wrote :
      (e e' : Engine) (v : World) (op : Op) (out : Outcome)
      → Reached w schema e
      → SameWorld w v
      → execute v schema op e ≡ (ok out, e')
      → Reached w schema e'

module _ (w : World) (schema : Schema) (mirrored : All IsMirrored schema.tables) where
  pub Reached-AllSynced : (e : Engine) → Reached w schema e → AllSynced w schema mirrored e
  unfolding iter_events
  Reached-AllSynced _ start = λ name spec h. Synced-nil w spec
  Reached-AllSynced _ (wrote e e' v op out before like run) =
      execute-AllSynced w schema mirrored v like e e' out (Reached-AllSynced e before) op run

  -- In every state that successful writes reach from the empty database, under a schema of accepted
  -- tables none of which has a column `_deleted`, replaying the events that the mirror has of a table
  -- succeeds, and finds for every key the row, live or deleted, that the table has.
  pub rebuild-Reached :
      (e : Engine) (name : Text) (spec : TableSpec)
      → Reached w schema e
      → table schema name ≡ ok spec
      → (rebuilt : List StoredRow) × (replay_table w spec (iter_events spec.name e.mirror) []
          ≡ (ok tt, rebuilt))
        × ((k : Text)
            → find_by (row_key spec) k rebuilt ≡ find_by (row_key spec) k (e.tables spec.name))
  rebuild-Reached e name spec reached h =
      replay_table-Synced w spec (e.tables spec.name) (iter_events spec.name e.mirror)
        (Reached-AllSynced e reached name spec h)
