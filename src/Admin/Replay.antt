-- ===== src/Admin/Replay.antt =====
-- `_replay`: read and embed every table's events, clear the tables, insert the puts again, and apply
-- the tombstones again. The search indexes are refreshed after each table and are left out.
use seekbase.Base.{
  ℕ, ◌+◌, Text, List, [], ◌∷◌, map, Bool, is_some, length, if◌then◌else◌, Result, ok, err, ◌>>=◌,
}
use seekbase.Value.{Value, null, text, number, Dict, get, or_null, str}
use seekbase.Schema.Data.{
  TableSpec, Schema, column_names, ds_column, created_at_column, deleted_at_column,
}
use seekbase.Store.Rows.{StoredRow, Tables, put}
use seekbase.Store.Validate.{normalize}
use seekbase.Store.Change.{new_row, insert_rows, soft_delete}
use seekbase.Files.Mirror.{Mirror, deleted_key, iter_events}
use seekbase.Write.Execute.{World, Engine}

unfoldable pub is_tombstone : Dict → Bool
unfolding get
is_tombstone line = is_some (get deleted_key line)

unfoldable pub puts : List (Text × Dict) → List Dict
unfolding is_tombstone
puts [] = []
puts ((ds, line) ∷ events) =
    let rest = puts events in if is_tombstone line then rest else line ∷ rest

pub record Tombstone : Type 0 where
  pub key : Text
  pub ds : Text
  pub at : Value

unfoldable pub tombstone_of : Text → Dict → Tombstone
unfolding get str
tombstone_of ds line = record {
  key = str (or_null (get deleted_key line));
  ds = ds;
  at = or_null (get deleted_at_column line);
}

unfoldable pub tombstones : List (Text × Dict) → List Tombstone
unfolding is_tombstone tombstone_of
tombstones [] = []
tombstones ((ds, line) ∷ events) =
    let rest = tombstones events in if is_tombstone line then tombstone_of ds line ∷ rest else rest

-- `ca or now()`
unfoldable pub or_now : Text → Value → Value
or_now now null = text now
or_now now (text []) = text now
or_now now (number ℕ.zero) = text now
or_now now v = v

unfoldable pub put_row : World → TableSpec → Dict → StoredRow
unfolding new_row normalize get or_now
put_row w spec line =
    new_row w.dumps spec (or_null (get ds_column line))
      (or_now w.now (or_null (get created_at_column line))) (normalize (column_names spec) line)

-- `commit_rows` of one record at a time
unfoldable pub replay_puts :
    World → TableSpec → List Dict → List StoredRow → Result (Unit {0}) × List StoredRow
unfolding insert_rows put_row
replay_puts w spec lines = insert_rows (w.accepts spec) spec (map (put_row w spec) lines)

unfoldable pub replay_tombstones : TableSpec → List Tombstone → List StoredRow → List StoredRow
unfolding soft_delete
replay_tombstones spec [] rows = rows
replay_tombstones spec (t ∷ ts) rows =
    replay_tombstones spec ts (soft_delete spec (text t.key ∷ []) (text t.ds) t.at rows)

unfoldable pub finish_table :
    TableSpec
    → List (Text × Dict)
    → Result (Unit {0}) × List StoredRow
    → Result (Unit {0}) × List StoredRow
unfolding replay_tombstones tombstones
finish_table spec events (ok _, stored) = (ok tt, replay_tombstones spec (tombstones events) stored)
finish_table spec events (err e, stored) = (err e, stored)

-- one table, from its events
unfoldable pub replay_table :
    World → TableSpec → List (Text × Dict) → List StoredRow → Result (Unit {0}) × List StoredRow
unfolding finish_table replay_puts puts
replay_table w spec events rows = finish_table spec events (replay_puts w spec (puts events) rows)

pub record Stats : Type 0 where
  pub tables : ℕ
  pub rows : ℕ
  pub deleted : ℕ  -- the key `tombstones`

unfoldable pub add_table : List (Text × Dict) → Stats → Stats
unfolding puts tombstones
add_table events s = record {
  tables = s.tables + 1;
  rows = s.rows + length (puts events);
  deleted = s.deleted + length (tombstones events);
}

unfoldable pub clear_tables : List TableSpec → Tables → Tables
clear_tables [] tables = tables
clear_tables (spec ∷ specs) tables = clear_tables specs (put spec.name [] tables)

unfoldable pub embed_tables : World → List TableSpec → Mirror → Result (Unit {0})
unfolding puts normalize iter_events
embed_tables w [] mirror = ok tt
embed_tables w (spec ∷ specs) mirror = do
  done ← w.embed spec (map (normalize (column_names spec)) (puts (iter_events spec.name mirror)))
  embed_tables w specs mirror

unfoldable pub replay_tables :
    World → List TableSpec → Mirror → Stats → Tables → Result Stats × Tables
unfolding replay_table add_table iter_events
replay_tables w [] mirror s tables = (ok s, tables)
replay_tables w (spec ∷ specs) mirror s tables =
    let events = iter_events spec.name mirror in
    let (done, stored) = replay_table w spec events (tables spec.name) in
    let tables' = put spec.name stored tables in
    elim done [
      | ok _ ↦ replay_tables w specs mirror (add_table events s) tables'
      | err e ↦ (err e, tables')
    ]

-- _replay
unfoldable pub replay : World → Schema → Engine → Result Stats × Tables
unfolding embed_tables clear_tables replay_tables
replay w schema e = elim (embed_tables w schema.tables e.mirror) [
  | err x ↦ (err x, e.tables)
  | ok _ ↦
      replay_tables w schema.tables e.mirror (record { tables = 0; rows = 0; deleted = 0 })
        (clear_tables schema.tables e.tables)
]
