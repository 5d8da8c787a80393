-- ===== src/Search/Bound.antt =====
-- A search binds as many values as its SQL has placeholders.
use seekbase.Base.{
  ℕ, ◌*◌, ◌≡◌, ◌∙◌, Text, List, [], ◌∷◌, Option, none, some, length, ok, >>=-eq-ok, ◌>>=◌, OnOk-ok,
  arith,
}
use seekbase.Schema.Data.{TableSpec, Schema, table}
use seekbase.Schema.Find.{table-name}
use seekbase.Search.Names.{concat, ident}
use seekbase.Search.Statements.{conds_sql, visible_sql}
use seekbase.Search.Lower.{
  Backend, vss, lance, Bound, vector, words, search_lower, vss_search_sql, lance_search_sql,
  vss_pieces, lance_pieces, candidates, overfetch,
}
use seekbase.Search.Marks.{
  count, IsUnmarked, IsDay, total, count-concat, count-print_nat, count-ident, count-visible_sql,
  count-conds_sql,
}

total-vss_pieces :
    (dim : ℕ) (pk name col : Text) (k cand : ℕ) (vis base key : Text)
    → IsUnmarked pk
    → IsUnmarked name
    → IsUnmarked col
    → IsUnmarked vis
    → IsUnmarked base
    → IsUnmarked key
    → total (vss_pieces dim pk name col k cand vis base key) ≡ 3
unfolding count
total-vss_pieces dim pk name col k cand vis base key p n c v b q =
    omega (arith, p, n, c, v, b, q, count-print_nat dim, count-print_nat cand, count-print_nat k)

total-lance_pieces :
    (dim : ℕ) (dataset col : Text) (k cand : ℕ) (base key : Text)
    → IsUnmarked dataset
    → IsUnmarked col
    → IsUnmarked base
    → IsUnmarked key
    → total (lance_pieces dim dataset col k cand base key) ≡ 2
unfolding count
total-lance_pieces dim dataset col k cand base key d c b q =
    omega (arith, d, c, b, q, count-print_nat dim, count-print_nat cand, count-print_nat k)

-- The path of a dataset has no question mark.
abbrev pub IsPlainPath : Backend → Text → Type 0
IsPlainPath (vss dim) name = Unit
IsPlainPath (lance dim path) name = IsUnmarked (path name)

module _ (ds_start ds_end : Option Text) (from : IsDay ds_start) (until : IsDay ds_end) (col : Text)
    (clean : IsUnmarked col) (k : ℕ) where
  vss_search_sql-count :
      (dim : ℕ) (spec : TableSpec) (name sql : Text)
      → spec.name ≡ name
      → vss_search_sql dim spec name col k ds_start ds_end ≡ ok sql
      → count sql ≡ 3
  unfolding vss_search_sql
  vss_search_sql-count dim spec name sql same_name h =
      let pieces : Text → Text → List Text = λ base key.
        vss_pieces dim spec.primary_key name col k (candidates k ds_end) (conds_sql ds_start ds_end)
          base key in
      let (base, seen, rest) =
        >>=-eq-ok (visible_sql spec ds_start ds_end)
          (λ base. ident spec.primary_key >>= λ key. ok (concat (pieces base key))) h in
      let (key, named, end) =
        >>=-eq-ok (ident spec.primary_key) (λ key. ok (concat (pieces base key))) rest in
      let view = count-visible_sql ds_start ds_end from until spec base seen in
      let key_clean = count-ident spec.primary_key key named in
      OnOk-ok (λ s. count s ≡ 3) end
        (count-concat (pieces base key)
          ∙ total-vss_pieces dim spec.primary_key name col k (candidates k ds_end)
              (conds_sql ds_start ds_end) base key key_clean.0 (rw same_name at view.1) clean
              (count-conds_sql ds_start ds_end from until) view.0 key_clean.1)

  lance_search_sql-count :
      (dim : ℕ) (spec : TableSpec) (dataset sql : Text)
      → IsUnmarked dataset
      → lance_search_sql dim spec dataset col k ds_start ds_end ≡ ok sql
      → count sql ≡ 2
  unfolding lance_search_sql
  lance_search_sql-count dim spec dataset sql plain h =
      let pieces : Text → Text → List Text =
        λ base key. lance_pieces dim dataset col k (k * overfetch) base key in
      let (base, seen, rest) =
        >>=-eq-ok (visible_sql spec ds_start ds_end)
          (λ base. ident spec.primary_key >>= λ key. ok (concat (pieces base key))) h in
      let (key, named, end) =
        >>=-eq-ok (ident spec.primary_key) (λ key. ok (concat (pieces base key))) rest in
      let view = count-visible_sql ds_start ds_end from until spec base seen in
      OnOk-ok (λ s. count s ≡ 2) end
        (count-concat (pieces base key)
          ∙ total-lance_pieces dim dataset col k (k * overfetch) base key plain clean view.0
              (count-ident spec.primary_key key named).1)

  abbrev BindsAll : {V : Type 0} → Text × List (Bound V) → Type 0
  BindsAll (sql, params) = count sql ≡ length params

  -- For days that are checked, a column without a question mark and, for lance, a path without one: the
  -- SQL of a search has as many placeholders as there are values that are bound to them.
  pub search_lower-count :
      {V : Type 0} (normalize : V → V) (backend : Backend) (schema : Schema) (name : Text)
      (qvec : V) (qtok sql : Text) (params : List (Bound V))
      → IsPlainPath backend name
      → search_lower normalize backend schema name col qvec qtok k ds_start ds_end
        ≡ ok (sql, params)
      → count sql ≡ length params
  unfolding search_lower
  search_lower-count normalize (vss none) schema name qvec qtok sql params plain h = absurd (cc h)
  search_lower-count normalize (lance none path) schema name qvec qtok sql params plain h =
      absurd (cc h)
  search_lower-count normalize (vss (some dim)) schema name qvec qtok sql params plain h =
      let bound = vector qvec ∷ words qtok ∷ words qtok ∷ [] in
      let (spec, found, rest) =
        >>=-eq-ok (table schema name)
          (λ spec. vss_search_sql dim spec name col k ds_start ds_end >>= λ s. ok (s, bound)) h in
      let (s, made, end) =
        >>=-eq-ok (vss_search_sql dim spec name col k ds_start ds_end) (λ s. ok (s, bound)) rest in
      OnOk-ok BindsAll end
        (vss_search_sql-count dim spec name s (table-name schema name spec found) made)
  search_lower-count normalize (lance (some dim) path) schema name qvec qtok sql params plain h =
      let bound = vector (normalize qvec) ∷ words qtok ∷ [] in
      let (spec, found, rest) =
        >>=-eq-ok (table schema name)
          (λ spec.
            lance_search_sql dim spec (path name) col k ds_start ds_end >>= λ s. ok (s, bound))
          h in
      let (s, made, end) =
        >>=-eq-ok (lance_search_sql dim spec (path name) col k ds_start ds_end) (λ s. ok (s, bound))
          rest in
      OnOk-ok BindsAll end (lance_search_sql-count dim spec (path name) s plain made)
