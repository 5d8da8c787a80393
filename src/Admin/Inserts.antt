-- ===== src/Admin/Inserts.antt =====
-- One insert keeps the rows and the events of a table in step.
use seekbase.Base.{
  ◌≡◌, sym, ap, ◌∙◌, ◌≢◌, List, [], ◌∷◌, ◌++◌, map, true, false, member, inl, inr, ok,
}
use seekbase.Base.Keyed.{find_by-none_iff}
use seekbase.Value.{text, Dict}
use seekbase.Schema.Data.{TableSpec, column_names}
use seekbase.Schema.WellFormed.{IsGoodTable}
use seekbase.Store.Rows.{StoredRow, row_key}
use seekbase.Store.Change.{new_row, insert_rows}
use seekbase.Store.Insert.{insert_row_cases}
use seekbase.Files.Mirror.{Mirror, append, append_all, put_line, deleted_key, iter_events}
use seekbase.Files.Append.{iter_events-append}
use seekbase.Write.Execute.{World}
use seekbase.Admin.Replay.{put_row}
use seekbase.Admin.Synced.{Synced, Synced-put}
use seekbase.Admin.Lines.{put_row-put_line, put_line-put}

-- Each table is one that `parse_schema` accepts, and has no column `_deleted`.
abbrev pub IsMirrored : TableSpec → Type 0
IsMirrored t = IsGoodTable t × (member deleted_key (column_names t) ≡ false)

-- The time at which rows are written is no empty text, and DuckDB and `json.dumps` do not change
-- between the write and the rebuild.
pub record SameWorld (w v : World) : Type 0 where
  pub accepts : v.accepts ≡ w.accepts
  pub dumps : v.dumps ≡ w.dumps
  pub some_now : v.now ≢ []

module _ (w v : World) (like : SameWorld w v) (spec : TableSpec) (good : IsMirrored spec) where
  abbrev pub row_of : Dict → StoredRow
  row_of rec = new_row v.dumps spec (text v.today) (text v.now) rec

  abbrev pub line_of : Dict → Dict
  line_of rec = put_line spec v.today v.now rec

  row-put_line : (rec : Dict) → put_row w spec (line_of rec) ≡ row_of rec
  row-put_line rec =
      put_row-put_line spec good.0 v.today v.now rec w like.some_now
      ∙ ap (λ d. new_row d spec (text v.today) (text v.now) rec) (sym like.dumps)

  Synced-put_one :
      (rec : Dict) (rows : List StoredRow) (mirror : Mirror)
      → v.accepts spec (row_of rec) ≡ true
      → member (row_key spec (row_of rec)) (map (row_key spec) rows) ≡ false
      → Synced w spec rows (iter_events spec.name mirror)
      → Synced w spec
          (rows ++ row_of rec ∷ [])
          (iter_events spec.name (append v.today spec.name (line_of rec) mirror))
  Synced-put_one rec rows mirror fits fresh s =
      let i = iter_events-append v.today spec.name (line_of rec) mirror in
      let e = row-put_line rec in
      rw i.new_eq (
        rw (← e) (
          Synced-put w spec rows v.today (line_of rec) i.before i.after
            (put_line-put spec good.0 v.today v.now rec good.1) (rw e (rw (← like.accepts) fits))
            (rw e ((find_by-none_iff (row_key spec) (row_key spec (row_of rec)) rows).1 fresh))
            (rw i.old_eq at s)))

  -- An insert whose rows are all accepted.
  pub Synced-insert :
      (records : List Dict) (rows : List StoredRow) (mirror : Mirror)
      → (insert_rows (v.accepts spec) spec (map row_of records) rows).0 ≡ ok tt
      → Synced w spec rows (iter_events spec.name mirror)
      → Synced w spec
          (insert_rows (v.accepts spec) spec (map row_of records) rows).1
          (iter_events spec.name (append_all v.today spec.name (map line_of records) mirror))
  unfolding append_all insert_rows
  Synced-insert [] rows mirror h s = s
  Synced-insert (rec ∷ records) rows mirror h s =
      elim (insert_row_cases (v.accepts spec) spec (row_of rec) rows) [
        | inl (e, fits, fresh) ↦
            rw (e, insert_rows)
              (Synced-insert records (rows ++ row_of rec ∷ [])
                (append v.today spec.name (line_of rec) mirror) (rw (e, insert_rows) at h)
                (Synced-put_one rec rows mirror fits fresh s))
        | inr (x, e) ↦ absurd (let h' = rw (e, insert_rows) at h in cc h')
      ]
