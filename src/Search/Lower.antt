-- ===== src/Search/Lower.antt =====
-- `search_lower`: the SQL of a hybrid search, for either backend.
use seekbase.Base.{
  ℕ, ◌*◌, Text, codes, List, [], ◌∷◌, Option, none, some, Result, ok, err, query_error, ◌>>=◌,
}
use seekbase.Base.Number.{print_nat}
use seekbase.Schema.Data.{TableSpec, Schema, table}
use seekbase.Search.Names.{concat, ident, veccol, tokcol, phys_name}
use seekbase.Search.Statements.{conds_sql, visible_sql}

abbrev pub overfetch : ℕ
overfetch = 4

-- the candidates of an arm
abbrev pub candidates : ℕ → Option Text → ℕ
candidates k none = k
candidates k (some ds_end) = k * overfetch

-- RRF
abbrev pub fused : Text
fused =
    codes
      "_h AS (SELECT COALESCE(_v.pk, _f.pk) pk, COALESCE(1.0/(60+_v.rk),0)+COALESCE(1.0/(60+_f.rk),0) score FROM _v FULL OUTER JOIN _f ON _v.pk=_f.pk"

-- the pieces of the SQL, from the names, the conditions, the view and the key
abbrev pub vss_pieces : ℕ → Text → Text → Text → ℕ → ℕ → Text → Text → Text → List Text
vss_pieces dim pk name col k cand vis base key =
    codes "WITH _v AS (SELECT pk, row_number() OVER (ORDER BY dd) rk FROM (SELECT \""
    ∷ pk
    ∷ codes "\" pk, array_cosine_distance(\""
    ∷ veccol col
    ∷ codes "\", ?::FLOAT["
    ∷ print_nat dim
    ∷ codes "]) dd FROM \""
    ∷ phys_name name
    ∷ codes "\" WHERE \""
    ∷ veccol col
    ∷ codes "\" IS NOT NULL AND "
    ∷ vis
    ∷ codes " ORDER BY dd LIMIT "
    ∷ print_nat cand
    ∷ codes ")), _f AS (SELECT pk, row_number() OVER (ORDER BY sc DESC) rk FROM (SELECT \""
    ∷ pk
    ∷ codes "\" pk, fts_main_"
    ∷ phys_name name
    ∷ codes ".match_bm25(\""
    ∷ pk
    ∷ codes "\", ?, fields := '"
    ∷ tokcol col
    ∷ codes "') sc FROM \""
    ∷ phys_name name
    ∷ codes "\" WHERE fts_main_"
    ∷ phys_name name
    ∷ codes ".match_bm25(\""
    ∷ pk
    ∷ codes "\", ?, fields := '"
    ∷ tokcol col
    ∷ codes "') IS NOT NULL AND "
    ∷ vis
    ∷ codes " ORDER BY sc DESC LIMIT "
    ∷ print_nat cand
    ∷ codes ")), "
    ∷ fused
    ∷ codes " ORDER BY score DESC LIMIT "
    ∷ print_nat k
    ∷ codes ") SELECT base.*, _h.score AS _score FROM ("
    ∷ base
    ∷ codes ") base JOIN _h ON CAST(base."
    ∷ key
    ∷ codes " AS VARCHAR) = CAST(_h.pk AS VARCHAR)"
    ∷ []

-- _vss_search_sql
unfoldable pub vss_search_sql :
    ℕ → TableSpec → Text → Text → ℕ → Option Text → Option Text → Result Text
unfolding visible_sql conds_sql ident concat print_nat
vss_search_sql dim spec name col k ds_start ds_end = do
  base ← visible_sql spec ds_start ds_end
  key ← ident spec.primary_key
  ok (
      concat (
        vss_pieces dim spec.primary_key name col k (candidates k ds_end) (conds_sql ds_start ds_end)
          base key))

abbrev pub lance_pieces : ℕ → Text → Text → ℕ → ℕ → Text → Text → List Text
lance_pieces dim dataset col k cand base key =
    codes
      "WITH _v AS (SELECT pk, row_number() OVER (ORDER BY _distance) rk FROM lance_vector_search('"
    ∷ dataset
    ∷ codes "', 'vec_"
    ∷ col
    ∷ codes "', ?::FLOAT["
    ∷ print_nat dim
    ∷ codes "], k="
    ∷ print_nat cand
    ∷ codes ")), _f AS (SELECT pk, row_number() OVER (ORDER BY _score DESC) rk FROM lance_fts('"
    ∷ dataset
    ∷ codes "', 'tok_"
    ∷ col
    ∷ codes "', ?, k="
    ∷ print_nat cand
    ∷ codes ")), "
    ∷ fused
    ∷ codes ") SELECT base.*, _h.score AS _score FROM ("
    ∷ base
    ∷ codes ") base JOIN _h ON CAST(base."
    ∷ key
    ∷ codes " AS VARCHAR) = _h.pk ORDER BY _score DESC LIMIT "
    ∷ print_nat k
    ∷ []

-- _lance_search_sql; `dataset` is the path of the table's dataset
unfoldable pub lance_search_sql :
    ℕ → TableSpec → Text → Text → ℕ → Option Text → Option Text → Result Text
unfolding visible_sql ident concat print_nat
lance_search_sql dim spec dataset col k ds_start ds_end = do
  base ← visible_sql spec ds_start ds_end
  key ← ident spec.primary_key
  ok (concat (lance_pieces dim dataset col k (k * overfetch) base key))

-- The backend, with the dimension of the vectors if there is an embedder.
pub data Backend : Type 0 where
  vss : Option ℕ → Backend
  lance : Option ℕ → (Text → Text) → Backend

-- What is bound to the placeholders.
pub data Bound (V : Type 0) : Type 0 where
  vector : V → Bound V
  words : Text → Bound V

-- search_lower
unfoldable pub search_lower :
    {V : Type 0}
    → (V → V)
    → Backend
    → Schema
    → Text
    → Text
    → V
    → Text
    → ℕ
    → Option Text
    → Option Text
    → Result (Text × List (Bound V))
unfolding vss_search_sql lance_search_sql table
search_lower normalize (vss none) schema name col qvec qtok k ds_start ds_end = err query_error
search_lower normalize (lance none path) schema name col qvec qtok k ds_start ds_end =
    err query_error
search_lower normalize (vss (some dim)) schema name col qvec qtok k ds_start ds_end = do
  spec ← table schema name
  sql ← vss_search_sql dim spec name col k ds_start ds_end
  ok (sql, vector qvec ∷ words qtok ∷ words qtok ∷ [])
search_lower normalize (lance (some dim) path) schema name col qvec qtok k ds_start ds_end = do
  spec ← table schema name
  sql ← lance_search_sql dim spec (path name) col k ds_start ds_end
  ok (sql, vector (normalize qvec) ∷ words qtok ∷ [])
