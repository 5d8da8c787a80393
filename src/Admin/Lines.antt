-- ===== src/Admin/Lines.antt =====
-- The lines of the file mirror, read back: a put line gives the row that was inserted, a delete line
-- the tombstone.
use seekbase.Base.{
  ◌≡◌, refl, ap, ◌∙◌, ◌≢◌, Text, List, [], ◌∷◌, ◌++◌, map, append-nil, true, false, some, same,
  same_iff, same_refl, member, All, Bool-cases, inl, inr, arith,
}
use seekbase.Value.{Value, text, Dict, get, or_null, str}
use seekbase.Schema.Data.{
  Column, TableSpec, column_names, meta_columns, ds_column, created_at_column,
}
use seekbase.Schema.WellFormed.{IsGoodTable, IsGoodColumn}
use seekbase.Store.Validate.{normalize}
use seekbase.Store.Change.{new_row, column_values}
use seekbase.Files.Mirror.{put_line, delete_line, deleted_key}
use seekbase.Write.Execute.{World}
use seekbase.Admin.Replay.{is_tombstone, tombstone_of, or_now, put_row}

get-map :
    (f : Text → Value) (c : Text) (names : List Text) (rest : Dict)
    → member c names ≡ true
    → get c (map (λ n. (n, f n)) names ++ rest) ≡ some (f c)
unfolding member get
get-map f c [] rest h = absurd (ground (arith, h))
get-map f c (n ∷ names) rest h = elim (Bool-cases (same n c)) [
  | inl e ↦ rw e (rw ((same_iff n c).0 e))
  | inr e ↦ rw e (get-map f c names rest (ground (arith, h, e)))
]

get-map_none :
    (f : Text → Value) (c : Text) (names : List Text) (rest : Dict)
    → member c names ≡ false
    → get c (map (λ n. (n, f n)) names ++ rest) ≡ get c rest
unfolding member get
get-map_none f c [] rest h = refl
get-map_none f c (n ∷ names) rest h = elim (Bool-cases (same n c)) [
  | inl e ↦ absurd (ground (arith, h, e))
  | inr e ↦ rw e (get-map_none f c names rest (ground (arith, h, e)))
]

-- A name of a list in which no column's name stands is no column's name.
not_column :
    (m : Text) (names : List Text) (cs : List Column)
    → member m names ≡ true
    → All (λ c. member c.name names ≡ false) cs
    → member m (map (λ c. c.name) cs) ≡ false
unfolding member
not_column m names [] h all = refl
not_column m names (c ∷ cs) h all = elim (Bool-cases (same c.name m)) [
  | inl e ↦ absurd (let p = (same_iff c.name m).0 e in cc (p, h, all.0))
  | inr e ↦ rw e (not_column m names cs h all.1)
]

good-free :
    (cs : List Column) → All IsGoodColumn cs → All (λ c. member c.name meta_columns ≡ false) cs
good-free [] h = tt
good-free (c ∷ cs) h = (h.0.0, good-free cs h.1)

-- Each column's name is a name of the list, with any names before.
own_names :
    (cs : List Column) (names : List Text)
    → ((n : Text) → member n (map (λ c. c.name) cs) ≡ true → member n names ≡ true)
    → All (λ c. member c.name names ≡ true) cs
unfolding member
own_names [] names f = tt
own_names (c ∷ cs) names f =
    (f c.name (rw (same_refl c.name)), own_names cs names (λ n h. f n (ground (arith, h))))

module _ (spec : TableSpec) (good : IsGoodTable spec) where
  names_free : (m : Text) → member m meta_columns ≡ true → member m (column_names spec) ≡ false
  names_free m h = not_column m meta_columns spec.columns h (good-free spec.columns good.good)

  module _ (ds now : Text) (rec : Dict) where
    get-ds : get ds_column (put_line spec ds now rec) ≡ some (text ds)
    unfolding put_line
    get-ds =
        get-map_none (λ c. or_null (get c rec)) ds_column (column_names spec) _
          (names_free ds_column (unfold member same in refl))
        ∙ unfold get same in refl

    get-created_at : get created_at_column (put_line spec ds now rec) ≡ some (text now)
    unfolding put_line
    get-created_at =
        get-map_none (λ c. or_null (get c rec)) created_at_column (column_names spec) _
          (names_free created_at_column (unfold member same in refl))
        ∙ unfold get same in refl

    get-column :
        (c : Text)
        → member c (column_names spec) ≡ true
        → get c (put_line spec ds now rec) ≡ some (or_null (get c rec))
    unfolding put_line
    get-column c h = get-map (λ n. or_null (get n rec)) c (column_names spec) _ h

    get-normalize :
        (c : Text)
        → member c (column_names spec) ≡ true
        → get c (normalize (column_names spec) (put_line spec ds now rec))
          ≡ some (or_null (get c rec))
    unfolding normalize
    get-normalize c h =
        rw append-nil at
          (get-map (λ n. or_null (get n (put_line spec ds now rec))) c (column_names spec) [] h)
        ∙ ap (λ o. some (or_null o)) (get-column c h)

    values_again :
        (dumps : Value → Text) (cs : List Column)
        → All (λ c. member c.name (column_names spec) ≡ true) cs
        → column_values dumps cs (normalize (column_names spec) (put_line spec ds now rec))
          ≡ column_values dumps cs rec
    unfolding column_values
    values_again dumps [] h = refl
    values_again dumps (c ∷ cs) h = rw (get-normalize c.name h.0) (rw (values_again dumps cs h.1))

    -- Replaying a put line makes the row that the insert made.
    pub put_row-put_line :
        (w : World)
        → now ≢ []
        → put_row w spec (put_line spec ds now rec) ≡ new_row w.dumps spec (text ds) (text now) rec
    unfolding put_row new_row
    put_row-put_line w some_now =
        rw (get-ds, get-created_at)
          (rw
            (values_again w.dumps spec.columns
              (own_names spec.columns (column_names spec) (λ n h. h)))
            (rw (or_now_text w.now now some_now)))
      where
        or_now_text : (n t : Text) → t ≢ [] → or_now n (text t) ≡ text t
        or_now_text n [] h = absurd (h refl)
        or_now_text n (c ∷ s) h = unfold or_now in refl

    pub put_line-put :
        member deleted_key (column_names spec) ≡ false
        → is_tombstone (put_line spec ds now rec) ≡ false
    unfolding is_tombstone put_line
    put_line-put h =
        rw
          (get-map_none (λ c. or_null (get c rec)) deleted_key (column_names spec)
            ((ds_column, text ds) ∷ (created_at_column, text now) ∷ []) h)
          (unfold get same in refl)

pub delete_line-tombstone : (now : Text) (k : Value) → is_tombstone (delete_line now k) ≡ true
unfolding is_tombstone delete_line get same
delete_line-tombstone now k = refl

pub tombstone_of-delete_line :
    (ds now : Text) (k : Value)
    → tombstone_of ds (delete_line now k) ≡ record { key = str k; ds = ds; at = text now }
unfolding tombstone_of delete_line get same
tombstone_of-delete_line ds now k = refl
