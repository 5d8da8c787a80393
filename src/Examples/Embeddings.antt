-- ===== src/Examples/Embeddings.antt =====
-- A server whose first post fails, and batches of one text.
use seekbase.Base.{
  ℕ, zero, suc, ◌+◌, ◌*◌, ◌≤◌, ◌≡◌, refl, ap, Text, codes, List, [], ◌∷◌, map, length, inl, inr, ok,
  arith,
}
use seekbase.Value.{Dict, text}
use seekbase.Embedding.Api.{vectors, transient, Server, embed}
use seekbase.Embedding.Retries.{IsHonest, IsAnswering, embed-answered, embed-posts}
use seekbase.Embedding.Records.{embed_records}
use seekbase.Embedding.Aligned.{filled_by, embed_records-filled_by}
use seekbase.Examples.{docs}

abbrev vector : Text → List ℕ
vector t = length t ∷ []

abbrev server : Server ℕ
server zero batch = transient
server (suc n) batch = vectors (map vector batch)

server-IsHonest : IsHonest server 1 vector
server-IsHonest zero batch = inl refl
server-IsHonest (suc n) batch = inr refl

server-IsAnswering : IsAnswering server 1 vector 2
server-IsAnswering n =
    let next : n + 1 ≡ suc n = omega arith in
    (1, omega arith, λ batch. ap (λ m. server m batch) next)

abbrev texts : List Text
texts = codes "a" ∷ codes "bc" ∷ []

embed-answered_example : (embed server 1 2 1 texts).0 ≡ ok (map vector texts)
embed-answered_example =
    embed-answered server 1 vector server-IsHonest (λ t. refl) 2 0 texts server-IsAnswering

embed-posts_example :
    (count : ℕ) × ((embed server 1 2 1 texts).1 ≤ 2 * count) × (count * 1 ≤ length texts + 0)
embed-posts_example = embed-posts server 1 2 0 texts

abbrev records : List Dict
records = ((codes "body", text (codes "hello")) ∷ []) ∷ [] ∷ []

embed_records-filled_by_example :
    embed_records
      (λ ts. (embed server 1 2 1 ts).0)
      1
      (λ t. t)
      (record docs { searchable = codes "body" ∷ [] })
      records
    ≡ ok (map (filled_by vector (λ t. t) records) (codes "body" ∷ []))
embed_records-filled_by_example =
    embed_records-filled_by (λ ts. (embed server 1 2 1 ts).0) 1 vector (λ t. t)
      (λ ts. embed-answered server 1 vector server-IsHonest (λ t. refl) 2 0 ts server-IsAnswering)
      (λ t. refl) (record docs { searchable = codes "body" ∷ [] }) records
