-- ===== src/Embedding/Aligned.antt =====
-- The vectors and tokens stand beside the records whose text they are of.
use seekbase.Base.{
  ℕ, ◌≡◌, refl, Text, List, [], ◌∷◌, map, length, Result, ok, Option-cases, inl, inr,
}
use mathlib.Core.Option
use seekbase.Value.{Dict}
use seekbase.Schema.Data.{TableSpec}
use seekbase.Embedding.Api.{check_dims}
use seekbase.Embedding.Retries.{all_dim-map}
use seekbase.Embedding.Records.{
  wanted, somes, embed_texts, embed_some, fill, Filled, embed_column, embed_columns, embed_records,
}

-- What a column's vectors and tokens should be, record by record.
abbrev pub filled_by : {F : Type 0} → (Text → List F) → (Text → Text) → List Dict → Text → Filled F
filled_by vector tok records col = (
  col,
  (
    map (λ r. Option.map vector (wanted col r)) records,
    map (λ r. Option.map tok (wanted col r)) records,
  ),
)

module _ {F : Type 0} (embedder : List Text → Result (List (List F))) (dim : ℕ)
    (vector : Text → List F) (tok : Text → Text) where
  fill-somes :
      (col : Text) (records : List Dict)
      → fill (map (wanted col) records) (map vector (somes (map (wanted col) records)))
        ≡ ok (map (λ r. Option.map vector (wanted col r)) records)
  unfolding fill
  fill-somes col [] = refl
  fill-somes col (r ∷ records) = elim (Option-cases (wanted col r)) [
    | inl e ↦ rw e (rw (fill-somes col records))
    | inr (t, e) ↦ rw e (rw (fill-somes col records))
  ]

  module _ (embeds : (texts : List Text) → embedder texts ≡ ok (map vector texts))
      (dims : (t : Text) → length (vector t) ≡ dim) where
    embed_some-map : (texts : List Text) → embed_some embedder dim texts ≡ ok (map vector texts)
    unfolding embed_some embed_texts check_dims
    embed_some-map [] = refl
    embed_some-map (t ∷ texts) =
        rw (embeds (t ∷ texts)) (rw (all_dim-map dim vector dims (t ∷ texts)))

    embed_columns-filled_by :
        (cols : List Text) (records : List Dict)
        → embed_columns embedder dim tok cols records ≡ ok (map (filled_by vector tok records) cols)
    unfolding embed_columns embed_column
    embed_columns-filled_by [] records = refl
    embed_columns-filled_by (col ∷ cols) records =
        rw (embed_some-map (somes (map (wanted col) records)))
          (rw (fill-somes col records) (rw (embed_columns-filled_by cols records)))

    -- When the embedder gives one vector of the dimension for each text, every searchable column has a
    -- vector and the tokens for each record with a text in it, at the place of the record, and nothing
    -- for the others.
    pub embed_records-filled_by :
        (spec : TableSpec) (records : List Dict)
        → embed_records embedder dim tok spec records
          ≡ ok (map (filled_by vector tok records) spec.searchable)
    unfolding embed_records
    embed_records-filled_by spec records = embed_columns-filled_by spec.searchable records
