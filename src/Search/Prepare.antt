-- ===== src/Search/Prepare.antt =====
-- seekbase/operator/builtins.py: `Search.prepare`, which finds the column and makes the SQL.
use seekbase.Base.{
  ℕ, ◌≡◌, Text, List, [], ◌∷◌, true, Option, none, some, member, same, same_iff, length, All,
  if◌then◌else◌, Bool-cases, inl, inr, Result, ok, err, query_error, ◌>>=◌, >>=-eq-ok, OnOk-ok,
  codes, All-map₂,
}
use mathlib.Core.Path.{subst}
use seekbase.Schema.Data.{Column, TableSpec, Schema, table, find_table}
use seekbase.Schema.Find.{find_table-All}
use seekbase.Schema.Parse.{find_column}
use seekbase.Schema.WellFormed.{IsGoodTable, IsGoodSchema, IsTyped}
use seekbase.Search.Lower.{Backend, Bound, search_lower}
use seekbase.Search.Marks.{count, IsUnmarked, IsDay, count-is_ident}
use seekbase.Search.Bound.{IsPlainPath, search_lower-count}
use seekbase.Search.Statements.{create_tables}
use seekbase.Search.Writes.{IsIdent, IsNamed, create_tables-IsNamed}

-- the single searchable column
abbrev pub only : List Text → Result Text
only [] = err query_error
only (col ∷ []) = ok col
only (col ∷ other ∷ more) = err query_error

-- the column that is searched
unfoldable pub search_column : TableSpec → Option Text → Result Text
unfolding member
search_column spec none = only spec.searchable
search_column spec (some col) = if member col spec.searchable then ok col else err query_error

-- The embedder: the vector of a text, and its tokens.
pub record Embedding (V : Type 0) : Type 0 where
  pub embed : Text → Result V
  pub tok : Text → Text

abbrev pub need : {A : Type 0} → Option A → Result A
need none = err query_error
need (some a) = ok a

-- prepare; `optimize_duck` hands over what it made
unfoldable pub prepare :
    {V : Type 0}
    → (V → V)
    → Backend
    → Schema
    → Option (Embedding V)
    → Text
    → Text
    → Option Text
    → ℕ
    → Option Text
    → Option Text
    → Result (Text × List (Bound V))
unfolding search_column search_lower table
prepare normalize backend schema embedding name words col k ds_start ds_end = do
  spec ← table schema name
  found ← search_column spec col
  e ← need embedding
  qvec ← e.embed words
  search_lower normalize backend schema name found qvec (e.tok words) k ds_start ds_end

All-member : (P : Text → Type 0) (x : Text) (xs : List Text) → member x xs ≡ true → All P xs → P x
unfolding member
All-member P x [] h all = absurd (cc h)
All-member P x (y ∷ xs) h all = elim (Bool-cases (same y x)) [
  | inl e ↦ subst P ((same_iff y x).0 e) all.0
  | inr e ↦ All-member P x xs (rw e at h) all.1
]

only-All : (P : Text → Type 0) (xs : List Text) (x : Text) → only xs ≡ ok x → All P xs → P x
only-All P [] x h all = absurd (cc h)
only-All P (y ∷ []) x h all = OnOk-ok P h all.0
only-All P (y ∷ z ∷ xs) x h all = absurd (cc h)

-- The column is one of the searchable ones.
search_column-All :
    (P : Text → Type 0) (spec : TableSpec) (col : Option Text) (found : Text)
    → search_column spec col ≡ ok found
    → All P spec.searchable
    → P found
unfolding search_column
search_column-All P spec none found h all = only-All P spec.searchable found h all
search_column-All P spec (some col) found h all = elim (Bool-cases (member col spec.searchable)) [
  | inl e ↦
      let p : ok col ≡ ok found = rw e at h in OnOk-ok P p (All-member P col spec.searchable e all)
  | inr e ↦ absurd (cc (rw e at h))
]

find_column-IsIdent :
    (name : Text) (cs : List Column) (c : Column)
    → find_column name cs ≡ some c
    → All (λ c. IsIdent c.name) cs
    → IsIdent name
unfolding find_column
find_column-IsIdent name [] c h all = absurd (cc h)
find_column-IsIdent name (d ∷ cs) c h all = elim (Bool-cases (same d.name name)) [
  | inl e ↦ subst IsIdent ((same_iff d.name name).0 e) all.0
  | inr e ↦ find_column-IsIdent name cs c (rw e at h) all.1
]

-- The searchable columns of a table that was created have no question mark.
searchable-IsUnmarked :
    (spec : TableSpec) → IsGoodTable spec → IsNamed spec → All IsUnmarked spec.searchable
searchable-IsUnmarked spec good named =
    All-map₂ (IsTyped (codes "str" ∷ []) spec.columns) (IsTyped (codes "str" ∷ []) spec.columns)
      IsUnmarked
      (λ name typed _.
        count-is_ident name (find_column-IsIdent name spec.columns typed.0 typed.1 named.columns))
      spec.searchable good.searchable good.searchable

-- When the schema was accepted and its tables were created, the days are checked and, for lance, the
-- path of the dataset has no question mark: a search that is prepared has SQL with as many placeholders
-- as there are values that are bound to them.
pub prepare-count :
    {V : Type 0} (normalize : V → V) (backend : Backend) (schema : Schema)
    (embedding : Option (Embedding V)) (name words : Text) (col : Option Text) (k : ℕ)
    (ds_start ds_end : Option Text) (vss : Option ℕ) (made : List Text) (sql : Text)
    (params : List (Bound V))
    → IsGoodSchema schema
    → create_tables vss schema.tables ≡ ok made
    → IsDay ds_start
    → IsDay ds_end
    → IsPlainPath backend name
    → prepare normalize backend schema embedding name words col k ds_start ds_end ≡ ok (sql, params)
    → count sql ≡ length params
unfolding prepare table
prepare-count normalize backend schema embedding name words col k ds_start ds_end vss made sql
      params good created from until plain h =
    let (spec, is_table, h₁) = >>=-eq-ok (find_table name schema.tables) _ h in
    let (found, chosen, h₂) = >>=-eq-ok (search_column spec col) _ h₁ in
    let (e, _, h₃) = >>=-eq-ok (need embedding) _ h₂ in
    let (qvec, _, lowered) = >>=-eq-ok (e.embed words) _ h₃ in
    let named =
      find_table-All IsNamed name schema.tables spec is_table
        (create_tables-IsNamed vss schema.tables made created) in
    let fits = find_table-All IsGoodTable name schema.tables spec is_table good.good in
    search_lower-count ds_start ds_end from until found
      (search_column-All IsUnmarked spec col found chosen (searchable-IsUnmarked spec fits named)) k
      normalize backend schema name qvec (e.tok words) sql params plain lowered
