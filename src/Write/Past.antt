-- ===== src/Write/Past.antt =====
-- The time machine: what was to be seen as of an earlier day stays as it was.
use seekbase.Base.{
  ◌≡◌, refl, ap, ◌∙◌, Text, List, [], ◌∷◌, ◌++◌, map, true, false, ◌&&◌, Option, none, some, member,
  text_le, select, Bool-cases, inl, inr, All, arith,
}
use seekbase.Value.{Value, text, Dict, is_null, str}
use seekbase.Schema.Data.{TableSpec, Schema}
use seekbase.Store.Rows.{StoredRow, row_key}
use seekbase.Store.Visible.{
  asof_conds, end_conds, start_conds, sql_le, sql_gt, holds, all_hold, visible,
}
use seekbase.Store.Change.{new_row, insert_rows, tombstone, soft_delete}
use seekbase.Store.Insert.{insert_rows-keeps}
use seekbase.Write.Execute.{World, Engine, Op, execute}
use seekbase.Write.Keeps.{execute-keeps}

-- A row, without the marks of its deletion.
abbrev pub Written : Type 0
Written = Dict × Value × Value

abbrev pub written : StoredRow → Written
written r = (r.values, r.ds, r.created_at)

start-all_hold :
    (start : Option Text) (r : StoredRow) (ds now : Value)
    → all_hold (start_conds start) (record r { deleted_ds = ds; deleted_at = now })
      ≡ all_hold (start_conds start) r
unfolding all_hold start_conds holds
start-all_hold none r ds now = refl
start-all_hold (some d) r ds now = refl

module _ (start : Option Text) (day : Text) (w : World) (later : text_le w.today day ≡ false) where
  abbrev pub seen : List StoredRow → List Written
  seen rows = map written (visible start (some day) rows)

  new_row-all_hold :
      (spec : TableSpec) (rec : Dict)
      → all_hold
          (asof_conds start (some day))
          (new_row w.dumps spec (text w.today) (text w.now) rec)
        ≡ false
  unfolding all_hold asof_conds end_conds holds new_row sql_le
  new_row-all_hold spec rec = rw later

  seen-insert :
      (r : StoredRow) (rows : List StoredRow)
      → all_hold (asof_conds start (some day)) r ≡ false
      → seen (rows ++ r ∷ []) ≡ seen rows
  unfolding visible select
  seen-insert r [] h = rw h
  seen-insert r (x ∷ rows) h = elim (Bool-cases (all_hold (asof_conds start (some day)) x)) [
    | inl e ↦ rw e (ap (λ l. written x ∷ l) (seen-insert r rows h))
    | inr e ↦ rw e (seen-insert r rows h)
  ]

  seen-insert_rows :
      (spec : TableSpec) (records : List Dict) (rows : List StoredRow)
      → seen
          (insert_rows
            (w.accepts spec)
            spec
            (map (new_row w.dumps spec (text w.today) (text w.now)) records)
            rows).1
        ≡ seen rows
  seen-insert_rows spec records rows =
      insert_rows-keeps (w.accepts spec) spec (λ l. seen l ≡ seen rows)
        (λ r. all_hold (asof_conds start (some day)) r ≡ false)
        (λ r l unseen _ h. seen-insert r l unseen ∙ h)
        (map (new_row w.dumps spec (text w.today) (text w.now)) records) rows (unseen records) refl
    where
      unseen :
          (l : List Dict)
          → All
              (λ r. all_hold (asof_conds start (some day)) r ≡ false)
              (map (new_row w.dumps spec (text w.today) (text w.now)) l)
      unseen [] = tt
      unseen (rec ∷ l) = (new_row-all_hold spec rec, unseen l)

  tombstone-all_hold :
      (spec : TableSpec) (keys : List Text) (r : StoredRow)
      → all_hold (asof_conds start (some day)) (tombstone spec keys (text w.today) (text w.now) r)
        ≡ all_hold (asof_conds start (some day)) r
  unfolding all_hold asof_conds end_conds holds tombstone sql_gt
  tombstone-all_hold spec keys r =
      elim (Bool-cases (member (row_key spec r) keys && is_null r.deleted_ds)) [
        | inl e ↦
            let live : is_null r.deleted_ds ≡ true = ground (arith, e) in
            rw e (
              rw live (
                rw later (
                  ap (λ b. sql_le r.ds day && b)
                    (start-all_hold start r (text w.today) (text w.now)))))
        | inr e ↦ rw e
      ]

  tombstone-written :
      (spec : TableSpec) (keys : List Text) (r : StoredRow)
      → written (tombstone spec keys (text w.today) (text w.now) r) ≡ written r
  unfolding tombstone
  tombstone-written spec keys r =
      elim (Bool-cases (member (row_key spec r) keys && is_null r.deleted_ds)) [
        | inl e ↦ rw e
        | inr e ↦ rw e
      ]

  seen-tombstones :
      (spec : TableSpec) (keys : List Text) (rows : List StoredRow)
      → seen (map (tombstone spec keys (text w.today) (text w.now)) rows) ≡ seen rows
  unfolding visible select
  seen-tombstones spec keys [] = refl
  seen-tombstones spec keys (r ∷ rows) =
      let rest = seen-tombstones spec keys rows in
      elim (Bool-cases (all_hold (asof_conds start (some day)) r)) [
        | inl e ↦
            rw (tombstone-all_hold spec keys r)
              (rw e (rw (tombstone-written spec keys r) (ap (λ l. written r ∷ l) rest)))
        | inr e ↦ rw (tombstone-all_hold spec keys r) (rw e rest)
      ]

  seen-soft_delete :
      (spec : TableSpec) (keys : List Value) (rows : List StoredRow)
      → seen (soft_delete spec keys (text w.today) (text w.now) rows) ≡ seen rows
  unfolding soft_delete
  seen-soft_delete spec [] rows = refl
  seen-soft_delete spec (k ∷ keys) rows = seen-tombstones spec (map str (k ∷ keys)) rows

  -- A write on a later day, whatever it does and whether it succeeds or raises, changes in no table
  -- which rows are seen as of the day, nor their values, their day and their time of writing.
  pub seen-execute :
      (schema : Schema) (op : Op) (e : Engine) (name : Text)
      → seen ((execute w schema op e).1.tables name) ≡ seen (e.tables name)
  seen-execute schema op e =
      execute-keeps w schema (λ name rows. seen rows ≡ seen (e.tables name))
        (λ name spec h records rows before. seen-insert_rows spec records rows ∙ before)
        (λ name spec h keys rows before. seen-soft_delete spec keys rows ∙ before) e (λ name. refl)
        op
