-- ===== src/Embedding/Api.antt =====
-- seekbase/embedders/api.py: `ApiEmbedder.embed` asks an HTTP API for the vectors of its texts, batch
-- by batch, and asks again when an attempt fails. The waiting between attempts is left out.
use seekbase.Base.{
  ℕ, zero, suc, ◌+◌, Text, List, [], ◌∷◌, ◌++◌, Bool, true, ◌&&◌, ◌==◌, length, take, drop,
  if◌then◌else◌, Result, ok, err, embedder_invalid, other,
}

-- What comes of one post: a body with vectors, a `TransportError` or a status of failure, or a body of
-- another shape.
pub data Reply (F : Type 0) : Type 0 where
  vectors : List (List F) → Reply F
  transient : Reply F
  misshapen : Reply F

-- The server, which may answer each post differently: the n-th post, and its batch.
abbrev pub Server : Type 0 → Type 0
Server F = ℕ → List Text → Reply F

-- The batches from the start of each; as many rounds as there are texts are enough.
unfoldable pub batches_of : ℕ → ℕ → List Text → List (List Text)
batches_of zero size texts = []
batches_of (suc rounds) size [] = []
batches_of (suc rounds) size (t ∷ texts) =
    take size (t ∷ texts) ∷ batches_of rounds size (drop size (t ∷ texts))

module _ {F : Type 0} where
  unfoldable pub all_dim : ℕ → List (List F) → Bool
  all_dim dim [] = true
  all_dim dim (v ∷ vs) = (length v == dim) && all_dim dim vs

  -- `embed` of an embedder checks the dimension of each vector
  unfoldable pub check_dims : ℕ → List (List F) → Result (List (List F))
  unfolding all_dim
  check_dims dim vs = if all_dim dim vs then ok vs else err embedder_invalid

  -- _embed_batch, with `tries` attempts left and `n` posts made before; how many are made then
  unfoldable pub embed_batch : Server F → ℕ → ℕ → ℕ → List Text → Result (List (List F)) × ℕ
  unfolding check_dims
  embed_batch server dim zero n batch = (err embedder_invalid, n)
  embed_batch server dim (suc tries) n batch =
      let again = embed_batch server dim tries (n + 1) batch in
      elim (server n batch) [
        | vectors vs ↦ (check_dims dim vs, n + 1)
        | transient ↦ again
        | misshapen ↦ (err other, n + 1)
      ]

  abbrev add_all : List (List F) → Result (List (List F)) × ℕ → Result (List (List F)) × ℕ
  add_all vs (ok more, n) = (ok (vs ++ more), n)
  add_all vs (err e, n) = (err e, n)

  unfoldable pub embed_batches :
      Server F → ℕ → ℕ → ℕ → List (List Text) → Result (List (List F)) × ℕ
  unfolding embed_batch
  embed_batches server dim tries n [] = (ok [], n)
  embed_batches server dim tries n (batch ∷ batches) =
      let (first, m) = embed_batch server dim tries n batch in
      let rest = embed_batches server dim tries m batches in
      elim first [ ok vs ↦ add_all vs rest | err e ↦ (err e, m) ]

  -- embed; `range` refuses a step of 0
  unfoldable pub embed : Server F → ℕ → ℕ → ℕ → List Text → Result (List (List F)) × ℕ
  unfolding embed_batches batches_of
  embed server dim tries zero texts = (err other, 0)
  embed server dim tries (suc size) texts =
      embed_batches server dim tries 0 (batches_of (length texts) (suc size) texts)
