-- ===== src/Embedding/Records.antt =====
-- seekbase/service/embedding_service.py: the vectors and tokens of the records of a table. jieba's
-- `lcut_for_search` and Python's `str.lower` are parameters, and `float` is left out.
use seekbase.Base.{
  ℕ, Text, List, [], ◌∷◌, ◌++◌, map, Option, none, some, Result, ok, err, other, ◌>>=◌, select,
  Bool, true, false,
}
use mathlib.Core.Option
use seekbase.Base.Strip.{strip}
use seekbase.Value.{Value, null, Dict, get, or_null, str}
use seekbase.Schema.Data.{TableSpec}
use seekbase.Embedding.Api.{check_dims}

-- " ".join(parts)
unfoldable pub join_words : List Text → Text
join_words [] = []
join_words (w ∷ []) = w
join_words (w ∷ x ∷ ws) = w ++ b' ' ∷ join_words (x ∷ ws)

abbrev pub is_word : Text → Bool
is_word [] = false
is_word (c ∷ s) = true

-- _tokens
unfoldable pub tokens : (Text → List Text) → (Text → Text) → Text → Text
unfolding join_words select strip
tokens cut lower [] = []
tokens cut lower (c ∷ s) = join_words (select is_word (map (λ t. lower (strip t)) (cut (c ∷ s))))

-- str(t), if t is not None and str(t) != ""
unfoldable pub text_of_value : Value → Option Text
unfolding str
text_of_value null = none
text_of_value v = elim (str v) [ [] ↦ none | c ∷ s ↦ some (c ∷ s) ]

-- rec.get(col), where it has a text
unfoldable pub wanted : Text → Dict → Option Text
unfolding text_of_value get
wanted col rec = text_of_value (or_null (get col rec))

abbrev pub somes : List (Option Text) → List Text
somes [] = []
somes (none ∷ ts) = somes ts
somes (some t ∷ ts) = t ∷ somes ts

-- A column's name, its vectors and its tokens, one of each for a record.
abbrev pub Filled : Type 0 → Type 0
Filled F = Text × (List (Option (List F)) × List (Option Text))

module _ {F : Type 0} where
  -- What EmbeddingService.embed makes of the embedder's vectors.
  unfoldable pub embed_texts :
      (List Text → Result (List (List F))) → ℕ → List Text → Result (List (List F))
  unfolding check_dims
  embed_texts embedder dim texts = do vs ← embedder texts; check_dims dim vs

  -- nothing is asked for no text
  unfoldable pub embed_some :
      (List Text → Result (List (List F))) → ℕ → List Text → Result (List (List F))
  unfolding embed_texts
  embed_some embedder dim [] = ok []
  embed_some embedder dim (t ∷ texts) = embed_texts embedder dim (t ∷ texts)

  -- `cv[i] = emb[j]` for each text; too few vectors are an IndexError, and more are not read
  unfoldable pub fill : List (Option Text) → List (List F) → Result (List (Option (List F)))
  fill [] vs = ok []
  fill (none ∷ ts) vs = do rest ← fill ts vs; ok (none ∷ rest)
  fill (some t ∷ ts) [] = err other
  fill (some t ∷ ts) (v ∷ vs) = do rest ← fill ts vs; ok (some v ∷ rest)

  unfoldable pub embed_column :
      (List Text → Result (List (List F)))
      → ℕ
      → (Text → Text)
      → Text
      → List Dict
      → Result (Filled F)
  unfolding wanted embed_some fill
  embed_column embedder dim tok col records = do
    vs ← embed_some embedder dim (somes (map (wanted col) records))
    cv ← fill (map (wanted col) records) vs
    ok (col, (cv, map (λ r. Option.map tok (wanted col r)) records))

  unfoldable pub embed_columns :
      (List Text → Result (List (List F)))
      → ℕ
      → (Text → Text)
      → List Text
      → List Dict
      → Result (List (Filled F))
  unfolding embed_column
  embed_columns embedder dim tok [] records = ok []
  embed_columns embedder dim tok (col ∷ cols) records = do
    first ← embed_column embedder dim tok col records
    rest ← embed_columns embedder dim tok cols records
    ok (first ∷ rest)

  -- embed_records
  unfoldable pub embed_records :
      (List Text → Result (List (List F)))
      → ℕ
      → (Text → Text)
      → TableSpec
      → List Dict
      → Result (List (Filled F))
  unfolding embed_columns
  embed_records embedder dim tok spec records =
      embed_columns embedder dim tok spec.searchable records
