-- ===== src/Admin/Rebuild.antt =====
-- Replaying the events of a table that are in step with its rows.
use seekbase.Base.{
  ◌≡◌, refl, sym, ap, ◌∙◌, Text, List, [], ◌∷◌, ◌++◌, map, append_assoc, append-nil, Bool, true,
  false, ◌&&◌, Option, none, some, same, same_iff, member, if◌then◌else◌, All, Bool-cases,
  Option-cases, inl, inr, ok, arith,
}
use mathlib.Core.Option
use seekbase.Base.Keyed.{find_by, Distinct, find_by-map, find_by-key}
use seekbase.Value.{text, Dict, is_null, str}
use seekbase.Schema.Data.{TableSpec}
use seekbase.Store.Rows.{StoredRow, row_key}
use seekbase.Store.Change.{insert_row, insert_rows, tombstone, soft_delete}
use seekbase.Write.Execute.{World}
use seekbase.Admin.Replay.{
  puts, tombstones, Tombstone, replay_puts, replay_tombstones, replay_table, finish_table,
}
use seekbase.Admin.Synced.{Synced, bury, bury_row, put_rows, tomb_key}

find_by-none_ne :
    (spec : TableSpec) (k : Text) (r : StoredRow) (xs ys : List StoredRow)
    → find_by (row_key spec) k (xs ++ r ∷ ys) ≡ none
    → same (row_key spec r) k ≡ false
unfolding find_by
find_by-none_ne spec k r [] ys h = ground (arith, h)
find_by-none_ne spec k r (x ∷ xs) ys h = ground (arith, h, find_by-none_ne spec k r xs ys)

-- A row in the middle of a list of different keys has a key that stands not before it.
Distinct-fresh :
    (spec : TableSpec) (r : StoredRow) (xs ys : List StoredRow)
    → Distinct (row_key spec) (xs ++ r ∷ ys)
    → member (row_key spec r) (map (row_key spec) xs) ≡ false
unfolding member
Distinct-fresh spec r [] ys d = refl
Distinct-fresh spec r (x ∷ xs) ys d = elim (Bool-cases (same (row_key spec x) (row_key spec r))) [
  | inl e ↦
      let ne = find_by-none_ne spec (row_key spec x) r xs ys d.0 in
      absurd (
        ground (
          arith,
          ne,
          e,
          same_iff (row_key spec x) (row_key spec r),
          same_iff (row_key spec r) (row_key spec x),
        ))
  | inr e ↦ rw e (Distinct-fresh spec r xs ys d.1)
]

insert_row-fresh :
    (accepts : StoredRow → Bool) (spec : TableSpec) (r : StoredRow) (rows : List StoredRow)
    → accepts r ≡ true
    → member (row_key spec r) (map (row_key spec) rows) ≡ false
    → insert_row accepts spec r rows ≡ ok (rows ++ r ∷ [])
unfolding insert_row
insert_row-fresh accepts spec r rows a m = rw (a, m)

-- Rows that DuckDB accepts, with keys of their own, are all inserted.
insert_rows-Distinct :
    (accepts : StoredRow → Bool) (spec : TableSpec) (more rows : List StoredRow)
    → Distinct (row_key spec) (rows ++ more)
    → All (λ r. accepts r ≡ true) more
    → insert_rows accepts spec more rows ≡ (ok tt, rows ++ more)
unfolding insert_rows
insert_rows-Distinct accepts spec [] rows d h = rw append-nil
insert_rows-Distinct accepts spec (r ∷ more) rows d h =
    rw (insert_row-fresh accepts spec r rows h.0 (Distinct-fresh spec r rows more d), insert_rows)
      (insert_rows-Distinct accepts spec more (rows ++ r ∷ []) (rw append_assoc d) h.1
        ∙ rw append_assoc)

-- One replayed tombstone.
abbrev marked : TableSpec → Tombstone → StoredRow → StoredRow
marked spec t = tombstone spec (t.key ∷ []) (text t.ds) t.at

marked-key :
    (spec : TableSpec) (t : Tombstone) (r : StoredRow)
    → row_key spec (marked spec t r) ≡ row_key spec r
unfolding tombstone
marked-key spec t r =
    elim (Bool-cases (member (row_key spec r) (t.key ∷ []) && is_null r.deleted_ds)) [
      | inl e ↦ rw e
      | inr e ↦ rw e
    ]

marked_lem :
    (spec : TableSpec) (t : Tombstone) (r : StoredRow)
    → marked spec t r ≡ (if same t.key (row_key spec r) then bury_row t r else r)
unfolding tombstone member
marked_lem spec t r = elim (Bool-cases (same t.key (row_key spec r))) [
  | inl e ↦ rw e
  | inr e ↦ rw e
]

bury_row_twice : (t u : Tombstone) (r : StoredRow) → bury_row u (bury_row t r) ≡ bury_row t r
bury_row_twice t u r = elim (Bool-cases (is_null r.deleted_ds)) [
  | inl e ↦ rw e
  | inr e ↦ rw e (rw e)
]

bury-bury_row :
    (t : Tombstone) (r : StoredRow) (later : Option Tombstone)
    → bury (some (bury_row t r)) later ≡ some (bury_row t r)
bury-bury_row t r none = refl
bury-bury_row t r (some u) = ap some (bury_row_twice t u r)

-- Of the tombstones of a key the first counts.
bury-marked :
    (spec : TableSpec) (k : Text) (t : Tombstone) (o : Option StoredRow) (later : Option Tombstone)
    → ((r : StoredRow) → o ≡ some r → row_key spec r ≡ k)
    → bury (Option.map (marked spec t) o) later ≡ bury o (if same t.key k then some t else later)
bury-marked spec k t none later h = refl
bury-marked spec k t (some r) later h = rw (← h r refl) (
    ap (λ x. bury (some x) later) (marked_lem spec t r)
    ∙ elim (Bool-cases (same t.key (row_key spec r))) [
      | inl e ↦ rw e (bury-bury_row t r later)
      | inr e ↦ rw e
    ])

find-replay_tombstones :
    (spec : TableSpec) (k : Text) (ts : List Tombstone) (rows : List StoredRow)
    → find_by (row_key spec) k (replay_tombstones spec ts rows)
      ≡ bury (find_by (row_key spec) k rows) (find_by tomb_key k ts)
unfolding replay_tombstones soft_delete str find_by
find-replay_tombstones spec k [] rows = elim (Option-cases (find_by (row_key spec) k rows)) [
  | inl e ↦ rw e
  | inr (r, e) ↦ rw e
]
find-replay_tombstones spec k (t ∷ ts) rows =
    find-replay_tombstones spec k ts (map (marked spec t) rows)
    ∙ (ap (λ o. bury o (find_by tomb_key k ts))
          (find_by-map (row_key spec) (marked spec t) (marked-key spec t) k rows)
        ∙ bury-marked spec k t (find_by (row_key spec) k rows) (find_by tomb_key k ts)
            (find_by-key (row_key spec) k rows))

replay_puts-Distinct :
    (w : World) (spec : TableSpec) (rows : List StoredRow) (events : List (Text × Dict))
    → Synced w spec rows events
    → replay_puts w spec (puts events) [] ≡ (ok tt, put_rows w spec events)
unfolding replay_puts
replay_puts-Distinct w spec rows events s =
    insert_rows-Distinct (w.accepts spec) spec (put_rows w spec events) [] s.put_once s.accepted

-- Replaying the events that are in step with the rows succeeds, and gives for every key the row that
-- the table has.
pub replay_table-Synced :
    (w : World) (spec : TableSpec) (rows : List StoredRow) (events : List (Text × Dict))
    → Synced w spec rows events
    → (rebuilt : List StoredRow) × (replay_table w spec events [] ≡ (ok tt, rebuilt))
      × ((k : Text) → find_by (row_key spec) k rebuilt ≡ find_by (row_key spec) k rows)
unfolding replay_table finish_table
replay_table-Synced w spec rows events s = (
  replay_tombstones spec (tombstones events) (put_rows w spec events),
  rw (replay_puts-Distinct w spec rows events s),
  λ k. find-replay_tombstones spec k (tombstones events) (put_rows w spec events) ∙ sym (s.found k),
)
