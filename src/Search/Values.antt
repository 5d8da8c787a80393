-- ===== src/Search/Values.antt =====
-- What is bound to the statements that write and look up rows: `_insert_rows`, `_existing_keys` and
-- `soft_delete`.
use seekbase.Base.{
  ◌≡◌, refl, sym, ◌∙◌, Text, List, [], ◌∷◌, ◌++◌, map, Bool, true, false, Option, length,
  length-append, ok, if◌then◌else◌, arith,
}
use seekbase.Value.{Value, null, text, Dict, str}
use seekbase.Schema.Data.{Column, TableSpec, column_names}
use seekbase.Store.Change.{column_values}
use seekbase.Search.Statements.{
  insert_sql, insert_names, existing_sql, soft_delete_sql, search_names,
}
use seekbase.Search.Marks.{count}
use seekbase.Search.Writes.{insert_sql-count, existing_sql-count, soft_delete_sql-count}

-- A value, and the vector and the tokens of a searchable column, if the record has a text in it.
pub data Cell (F : Type 0) : Type 0 where
  stored : Value → Cell F
  vector : Option (List F) → Cell F
  words : Option Text → Cell F

module _ {F : Type 0} where
  -- `vecs` and `toks` at the place of the record
  abbrev pub search_values :
      (Text → Option (List F)) → (Text → Option Text) → List Text → List (Cell F)
  search_values vec tok [] = []
  search_values vec tok (col ∷ cols) =
      vector (vec col) ∷ words (tok col) ∷ search_values vec tok cols

  -- The row of the payload that `_insert_rows` makes of a record.
  unfoldable pub insert_values :
      (Value → Text)
      → Bool
      → TableSpec
      → Value
      → Value
      → (Text → Option (List F))
      → (Text → Option Text)
      → Dict
      → List (Cell F)
  unfolding column_values
  insert_values dumps vss spec ds now vec tok rec =
      map (λ v. stored v.1) (column_values dumps spec.columns rec)
      ++ ((stored ds ∷ stored now ∷ stored null ∷ stored null ∷ [])
          ++ (if vss then search_values vec tok spec.searchable else []))

-- [ds, now, *[str(k) for k in keys]]
unfoldable pub soft_delete_values : Value → Value → List Value → List Value
unfolding str
soft_delete_values ds now keys = ds ∷ now ∷ map (λ k. text (str k)) keys

length-map : {A B : Type 0} (f : A → B) (xs : List A) → length (map f xs) ≡ length xs
length-map f [] = refl
length-map f (x ∷ xs) = omega (arith, length-map f xs)

length-column_values :
    (dumps : Value → Text) (cs : List Column) (rec : Dict)
    → length (column_values dumps cs rec) ≡ length (map (λ c. c.name) cs)
unfolding column_values
length-column_values dumps [] rec = refl
length-column_values dumps (c ∷ cs) rec = omega (arith, length-column_values dumps cs rec)

append-length :
    {A B : Type 0} (as₁ as₂ : List A) (bs₁ bs₂ : List B)
    → length as₁ ≡ length bs₁
    → length as₂ ≡ length bs₂
    → length (as₁ ++ as₂) ≡ length (bs₁ ++ bs₂)
append-length as₁ as₂ bs₁ bs₂ h k =
    length-append as₁ as₂ ∙ (omega (arith, h, k) ∙ sym (length-append bs₁ bs₂))

module _ {F : Type 0} (vec : Text → Option (List F)) (tok : Text → Option Text) where
  length-search_values :
      (cols : List Text) → length (search_values vec tok cols) ≡ length (search_names cols)
  length-search_values [] = refl
  length-search_values (col ∷ cols) = omega (arith, length-search_values cols)

  length-searched :
      (vss : Bool) (cols : List Text)
      → length (if vss then search_values vec tok cols else [])
        ≡ length (if vss then search_names cols else [])
  length-searched true cols = length-search_values cols
  length-searched false cols = refl

  length-insert_values :
      (dumps : Value → Text) (vss : Bool) (spec : TableSpec) (ds now : Value) (rec : Dict)
      → length (insert_values dumps vss spec ds now vec tok rec) ≡ length (insert_names vss spec)
  unfolding insert_values insert_names
  length-insert_values dumps vss spec ds now rec =
      append-length (map (λ v. stored v.1) (column_values dumps spec.columns rec))
        (stored ds
          ∷ stored now
          ∷ stored null
          ∷ stored null
          ∷ (if vss then search_values vec tok spec.searchable else []))
        (column_names spec) _
        (length-map (λ v. stored v.1) (column_values dumps spec.columns rec)
          ∙ length-column_values dumps spec.columns rec)
        (omega (arith, length-searched vss spec.searchable))

  -- Each statement that writes or looks up rows has as many placeholders as values are bound to it: the
  -- insert of a record, with its vectors and tokens or without them, the lookup of keys, and the delete
  -- of keys.
  pub writes-count :
      (dumps : Value → Text) (vss : Bool) (spec : TableSpec) (ds now : Value) (rec : Dict)
      (looked_up : List Text) (deleted : List Value) (insert_text existing_text delete_text : Text)
      → insert_sql vss spec ≡ ok insert_text
      → existing_sql spec (length looked_up) ≡ ok existing_text
      → soft_delete_sql spec (length deleted) ≡ ok delete_text
      → (count insert_text ≡ length (insert_values dumps vss spec ds now vec tok rec))
        × (count existing_text ≡ length looked_up)
        × (count delete_text ≡ length (soft_delete_values ds now deleted))
  unfolding soft_delete_values
  writes-count dumps vss spec ds now rec looked_up deleted insert_text existing_text delete_text i e
        d =
      (
        insert_sql-count vss spec insert_text i
            ∙ sym (length-insert_values dumps vss spec ds now rec),
        existing_sql-count spec (length looked_up) existing_text e,
        soft_delete_sql-count spec (length deleted) delete_text d
            ∙ omega (arith, length-map (λ k. text (str k)) deleted),
      )
