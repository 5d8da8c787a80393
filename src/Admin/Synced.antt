-- ===== src/Admin/Synced.antt =====
-- When the rows of a table and its events in the file mirror tell the same story, and that every
-- recorded insert and delete keeps it so.
use seekbase.Base.{
  ◌≡◌, refl, sym, ◌∙◌, Text, List, [], ◌∷◌, ◌++◌, map, append-nil, true, false, Option, none, some,
  same, same_iff, if◌then◌else◌, All, All-insert, Bool-cases, inl, inr, arith,
}
use mathlib.Core.List.{map-append}
use seekbase.Base.Keyed.{find_by, Distinct, find_by-insert, Distinct-insert}
use seekbase.Value.{text, Dict, is_null}
use seekbase.Schema.Data.{TableSpec}
use seekbase.Store.Rows.{StoredRow, row_key}
use seekbase.Write.Execute.{World}
use seekbase.Admin.Replay.{puts, tombstones, is_tombstone, tombstone_of, Tombstone, put_row}

-- A row that is deleted now, unless it was before.
abbrev pub bury_row : Tombstone → StoredRow → StoredRow
bury_row t r =
    if is_null r.deleted_ds then record r { deleted_ds = text t.ds; deleted_at = t.at } else r

abbrev pub bury : Option StoredRow → Option Tombstone → Option StoredRow
bury none t = none
bury (some r) none = some r
bury (some r) (some t) = some (bury_row t r)

abbrev pub put_rows : World → TableSpec → List (Text × Dict) → List StoredRow
put_rows w spec events = map (put_row w spec) (puts events)

abbrev pub tomb_key : Tombstone → Text
tomb_key t = t.key

-- `found`: for every key, the table has the row that its put line tells of, deleted by its first
-- tombstone if there is one.
pub record Synced (w : World) (spec : TableSpec) (rows : List StoredRow)
    (events : List (Text × Dict)) : Type 0 where
  pub found :
      (k : Text)
      → find_by (row_key spec) k rows
        ≡ bury
            (find_by (row_key spec) k (put_rows w spec events))
            (find_by tomb_key k (tombstones events))
  pub distinct : Distinct (row_key spec) rows
  pub put_once : Distinct (row_key spec) (put_rows w spec events)
  pub accepted : All (λ r. w.accepts spec r ≡ true) (put_rows w spec events)
  pub put_before :
      (k : Text)
      → find_by (row_key spec) k (put_rows w spec events) ≡ none
      → find_by tomb_key k (tombstones events) ≡ none

pub Synced-nil : (w : World) (spec : TableSpec) → Synced w spec [] []
unfolding find_by puts tombstones
Synced-nil w spec = record {
  found = λ k. refl;
  distinct = tt;
  put_once = tt;
  accepted = tt;
  put_before = λ k _. refl;
}

puts-append : (a b : List (Text × Dict)) → puts (a ++ b) ≡ puts a ++ puts b
unfolding puts
puts-append [] b = refl
puts-append ((ds, line) ∷ a) b = elim (Bool-cases (is_tombstone line)) [
  | inl e ↦ rw e (puts-append a b)
  | inr e ↦ rw e (rw (puts-append a b))
]

pub tombstones-append :
    (a b : List (Text × Dict)) → tombstones (a ++ b) ≡ tombstones a ++ tombstones b
unfolding tombstones
tombstones-append [] b = refl
tombstones-append ((ds, line) ∷ a) b = elim (Bool-cases (is_tombstone line)) [
  | inl e ↦ rw e (rw (tombstones-append a b))
  | inr e ↦ rw e (tombstones-append a b)
]

module _ (ds : Text) (line : Dict) (a b : List (Text × Dict)) where
  pub puts-put : is_tombstone line ≡ false → puts (a ++ (ds, line) ∷ b) ≡ puts a ++ line ∷ puts b
  puts-put e = puts-append a ((ds, line) ∷ b) ∙ unfold puts in rw e

  pub puts-delete : is_tombstone line ≡ true → puts (a ++ (ds, line) ∷ b) ≡ puts (a ++ b)
  puts-delete e = puts-append a ((ds, line) ∷ b) ∙ (unfold puts in rw e (sym (puts-append a b)))

  pub tombstones-put :
      is_tombstone line ≡ false → tombstones (a ++ (ds, line) ∷ b) ≡ tombstones (a ++ b)
  tombstones-put e =
      tombstones-append a ((ds, line) ∷ b)
      ∙ (unfold tombstones in rw e (sym (tombstones-append a b)))

  pub tombstones-delete :
      is_tombstone line ≡ true
      → tombstones (a ++ (ds, line) ∷ b) ≡ tombstones a ++ tombstone_of ds line ∷ tombstones b
  tombstones-delete e = tombstones-append a ((ds, line) ∷ b) ∙ unfold tombstones in rw e

bury-eq-none : (o : Option StoredRow) (t : Option Tombstone) → bury o t ≡ none → o ≡ none
bury-eq-none none t h = refl
bury-eq-none (some r) none h = h
bury-eq-none (some r) (some t) h = absurd (ground (arith, h))

-- A put of a key that the table does not have.
module _ (w : World) (spec : TableSpec) (rows : List StoredRow) (ds : Text) (line : Dict)
    (a b : List (Text × Dict)) (is_put : is_tombstone line ≡ false)
    (accepts : w.accepts spec (put_row w spec line) ≡ true)
    (fresh : find_by (row_key spec) (row_key spec (put_row w spec line)) rows ≡ none)
    (synced : Synced w spec rows (a ++ b)) where
  abbrev row : StoredRow
  row = put_row w spec line

  put_rows-put :
      put_rows w spec (a ++ (ds, line) ∷ b) ≡ put_rows w spec a ++ row ∷ put_rows w spec b
  put_rows-put =
      rw (puts-put ds line a b is_put) (map-append (put_row w spec) (puts a) (line ∷ puts b))

  put_rows-append : put_rows w spec (a ++ b) ≡ put_rows w spec a ++ put_rows w spec b
  put_rows-append = rw (puts-append a b) (map-append (put_row w spec) (puts a) (puts b))

  no_put : find_by (row_key spec) (row_key spec row) (put_rows w spec (a ++ b)) ≡ none
  no_put = bury-eq-none _ _ (sym (synced.found (row_key spec row)) ∙ fresh)

  find_put :
      (k : Text)
      → find_by (row_key spec) k (put_rows w spec (a ++ (ds, line) ∷ b)) ≡ (
          if same (row_key spec row) k
          then some row
          else find_by (row_key spec) k (put_rows w spec (a ++ b)))
  find_put k = rw put_rows-put (
      rw put_rows-append (
        find_by-insert (row_key spec) k row (put_rows w spec a) (put_rows w spec b)
          (inl (rw put_rows-append at no_put))))

  find_row :
      (k : Text)
      → find_by (row_key spec) k (rows ++ row ∷ [])
        ≡ (if same (row_key spec row) k then some row else find_by (row_key spec) k rows)
  find_row k =
      rw (append-nil rows) at
        (find_by-insert (row_key spec) k row rows [] (inl (rw (append-nil rows) fresh)))

  same_found :
      (k : Text)
      → find_by (row_key spec) k (rows ++ row ∷ [])
        ≡ bury
            (find_by (row_key spec) k (put_rows w spec (a ++ (ds, line) ∷ b)))
            (find_by tomb_key k (tombstones (a ++ (ds, line) ∷ b)))
  same_found k = rw (find_row k) (
      rw (find_put k) (
        rw (tombstones-put ds line a b is_put) (elim (Bool-cases (same (row_key spec row) k)) [
          | inl e ↦
              rw e (rw (← (same_iff (row_key spec row) k).0 e) (rw (synced.put_before _ no_put)))
          | inr e ↦ rw e (synced.found k)
        ])))

  pub Synced-put : Synced w spec (rows ++ row ∷ []) (a ++ (ds, line) ∷ b)
  Synced-put = record {
    found = same_found;
    distinct =
        Distinct-insert (row_key spec) row rows [] (rw (append-nil rows) synced.distinct)
          (rw (append-nil rows) fresh);
    put_once = rw put_rows-put (
        Distinct-insert (row_key spec) row (put_rows w spec a) (put_rows w spec b)
          (rw put_rows-append at synced.put_once) (rw put_rows-append at no_put));
    accepted = rw put_rows-put (
        All-insert (λ r. w.accepts spec r ≡ true) row (put_rows w spec a) (put_rows w spec b)
          accepts (rw put_rows-append at synced.accepted));
    put_before = λ k h.
        rw (tombstones-put ds line a b is_put)
          (synced.put_before k (ground (arith, h, find_put k)));
  }
