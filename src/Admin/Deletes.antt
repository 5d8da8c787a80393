-- ===== src/Admin/Deletes.antt =====
-- One delete of live rows keeps the rows and the events of a table in step.
use seekbase.Base.{
  ◌≡◌, refl, sym, ap, ◌∙◌, Text, List, [], ◌∷◌, map, true, false, Option, none, some, member,
  if◌then◌else◌, Bool-cases, Option-cases, inl, inr, arith,
}
use mathlib.Core.Option
use seekbase.Base.Keyed.{find_by, find_by-map, Distinct-map, find_by-key}
use seekbase.Value.{Value, text, Dict, is_null, str}
use seekbase.Schema.Data.{TableSpec}
use seekbase.Store.Rows.{StoredRow, row_key}
use seekbase.Store.Insert.{tombstone-key}
use seekbase.Store.Change.{tombstone, soft_delete}
use seekbase.Files.Mirror.{Mirror, iter_events}
use seekbase.Write.Execute.{World}
use seekbase.Admin.Replay.{tombstones, Tombstone, put_row}
use seekbase.Admin.Synced.{Synced, bury, put_rows, tomb_key}
use seekbase.Admin.Marked.{marked, tomb, puts-marked, find-marked}

-- `soft_delete` is the same statement with no keys.
soft_delete-map :
    (spec : TableSpec) (keys : List Value) (ds now : Value) (rows : List StoredRow)
    → soft_delete spec keys ds now rows ≡ map (tombstone spec (map str keys) ds now) rows
unfolding soft_delete
soft_delete-map spec [] ds now rows = sym (untouched rows)
  where
    untouched : (l : List StoredRow) → map (tombstone spec [] ds now) l ≡ l
    untouched [] = refl
    untouched (r ∷ l) = unfold tombstone member in rw (untouched l)
soft_delete-map spec (k ∷ keys) ds now rows = refl

bury-none : (o : Option StoredRow) → bury o none ≡ o
bury-none none = refl
bury-none (some r) = refl

bury-dead :
    (o : Option StoredRow) (t : Tombstone) (r : StoredRow)
    → bury o (some t) ≡ some r
    → is_null r.deleted_ds ≡ true
    → ⊥
bury-dead none t r h l = ground arith
bury-dead (some p) t r h l = ground arith

module _ (spec : TableSpec) (keys : List Text) (ds now : Value) (r : StoredRow) where
  mark_live :
      member (row_key spec r) keys ≡ true
      → is_null r.deleted_ds ≡ true
      → tombstone spec keys ds now r ≡ record r { deleted_ds = ds; deleted_at = now }
  unfolding tombstone
  mark_live m l = rw m (rw l)

  mark_other : member (row_key spec r) keys ≡ false → tombstone spec keys ds now r ≡ r
  unfolding tombstone
  mark_other m = rw m

-- A delete of live rows, in the database and in the mirror.
module _ (w : World) (spec : TableSpec) (rows : List StoredRow) (mirror : Mirror) (ds now : Text)
    (keys : List Value)
    (live : (k : Text)
      → member k (map str keys) ≡ true
      → (r : StoredRow) × (find_by (row_key spec) k rows ≡ some r) × (is_null r.deleted_ds ≡ true))
    (synced : Synced w spec rows (iter_events spec.name mirror)) where
  abbrev before : List (Text × Dict)
  before = iter_events spec.name mirror

  abbrev behind : List (Text × Dict)
  behind = iter_events spec.name (marked ds now spec.name keys mirror)

  put_rows-behind : put_rows w spec behind ≡ put_rows w spec before
  put_rows-behind = ap (map (put_row w spec)) (puts-marked ds now spec.name keys mirror)

  -- A live row has no tombstone.
  live-free :
      (k : Text) → member k (map str keys) ≡ true → find_by tomb_key k (tombstones before) ≡ none
  live-free k m =
      let (r, e, l) = live k m in
      elim (Option-cases (find_by tomb_key k (tombstones before))) [
        | inl free ↦ free
        | inr (t, buried) ↦ absurd (
            bury-dead (find_by (row_key spec) k (put_rows w spec before)) t r
              (rw buried at (sym (synced.found k) ∙ e)) l)
      ]

  find-behind :
      (k : Text)
      → find_by tomb_key k (tombstones behind) ≡ (
          if member k (map str keys)
          then some (tomb ds now spec.name k)
          else find_by tomb_key k (tombstones before))
  find-behind k = find-marked ds now spec.name k keys mirror (λ i m. inl (live-free i m))

  abbrev mark : StoredRow → StoredRow
  mark = tombstone spec (map str keys) (text ds) (text now)

  mark_found :
      (k : Text)
      → Option.map mark (find_by (row_key spec) k rows)
        ≡ bury
            (find_by (row_key spec) k (put_rows w spec before))
            (find_by tomb_key k (tombstones behind))
  mark_found k = elim (Bool-cases (member k (map str keys))) [
    | inl m ↦
        let (r, e, l) = live k m in
        let is_put : find_by (row_key spec) k (put_rows w spec before) ≡ some r =
          sym (bury-none _) ∙ (rw (live-free k m) at (sym (synced.found k))) ∙ e in
        rw (find-behind k) (
          rw m (
            rw e (
              rw is_put (
                rw l (
                  ap some (
                    mark_live spec (map str keys) (text ds) (text now) r
                      (rw (find_by-key (row_key spec) k rows r e) m) l))))))
    | inr absent ↦ rw (find-behind k) (rw absent (mark_absent k absent ∙ synced.found k))
  ]
    where
      mark_absent :
          (j : Text)
          → member j (map str keys) ≡ false
          → Option.map mark (find_by (row_key spec) j rows) ≡ find_by (row_key spec) j rows
      mark_absent j absent = elim (Option-cases (find_by (row_key spec) j rows)) [
        | inl missing ↦ rw missing
        | inr (r, e) ↦ rw e (
            ap some (
              mark_other spec (map str keys) (text ds) (text now) r
                (rw (find_by-key (row_key spec) j rows r e) absent)))
      ]

  pub Synced-delete : Synced w spec (soft_delete spec keys (text ds) (text now) rows) behind
  Synced-delete = rw (soft_delete-map spec keys (text ds) (text now) rows) (record {
    found = λ k.
        find_by-map (row_key spec) mark (tombstone-key spec (map str keys) (text ds) (text now)) k
          rows
        ∙ rw put_rows-behind (mark_found k);
    distinct =
        Distinct-map (row_key spec) mark (tombstone-key spec (map str keys) (text ds) (text now))
          rows synced.distinct;
    put_once = rw put_rows-behind synced.put_once;
    accepted = rw put_rows-behind synced.accepted;
    put_before = λ k h. elim (Bool-cases (member k (map str keys))) [
      | inl m ↦
          let (r, e, l) = live k m in
          let missing : find_by (row_key spec) k (put_rows w spec before) ≡ none =
            rw put_rows-behind at h in
          let gone : find_by (row_key spec) k rows ≡ none = rw missing at (synced.found k) in
          absurd (cc (e, gone))
      | inr absent ↦ rw (find-behind k) (rw absent (synced.put_before k (rw put_rows-behind at h)))
    ];
  })
