-- ===== src/Embedding/Retries.antt =====
-- Batches and retries do not show in the result, and how often the server is asked.
use seekbase.Base.{
  ℕ, zero, suc, ◌+◌, ◌*◌, ◌≤◌, ◌<◌, ◌≡◌, refl, ap, ◌∙◌, Text, List, [], ◌∷◌, ◌++◌, map, true,
  length, take, drop, ◌⊎◌, inl, inr, ok, arith,
}
use mathlib.Core.List.{map-append}
use seekbase.Embedding.Api.{
  vectors, transient, Server, all_dim, check_dims, embed_batch, embed_batches, batches_of, embed,
}

abbrev joined : List (List Text) → List Text
joined [] = []
joined (b ∷ bs) = b ++ joined bs

le_total : (a b : ℕ) → (a ≤ b) ⊎ (b ≤ a)
le_total a b = ground arith

take-drop : (n : ℕ) (xs : List Text) → take n xs ++ drop n xs ≡ xs
take-drop zero xs = refl
take-drop (suc n) [] = refl
take-drop (suc n) (x ∷ xs) = ap (λ l. x ∷ l) (take-drop n xs)

length-drop : (n : ℕ) (x : Text) (xs : List Text) → length (drop (suc n) (x ∷ xs)) ≤ length xs
length-drop zero x xs = omega arith
length-drop (suc n) x [] = omega arith
length-drop (suc n) x (y ∷ xs) = omega (arith, length-drop n y xs)

-- As many rounds as there are texts give all of them.
joined-batches_of :
    (rounds size : ℕ) (texts : List Text)
    → length texts ≤ rounds
    → joined (batches_of rounds (suc size) texts) ≡ texts
unfolding batches_of
joined-batches_of zero size [] h = refl
joined-batches_of zero size (t ∷ texts) h = absurd (omega (arith, h))
joined-batches_of (suc rounds) size [] h = refl
joined-batches_of (suc rounds) size (t ∷ texts) h =
    ap (λ l. take (suc size) (t ∷ texts) ++ l)
      (joined-batches_of rounds size (drop (suc size) (t ∷ texts))
        (omega (arith, length-drop size t texts, h)))
    ∙ take-drop (suc size) (t ∷ texts)

pub all_dim-map :
    {F : Type 0} (dim : ℕ) (vector : Text → List F)
    → ((t : Text) → length (vector t) ≡ dim)
    → (texts : List Text) → all_dim dim (map vector texts) ≡ true
unfolding all_dim
all_dim-map dim vector dims [] = refl
all_dim-map dim vector dims (t ∷ texts) = ground (arith, dims t, all_dim-map dim vector dims texts)

module _ {F : Type 0} (server : Server F) (dim : ℕ) (vector : Text → List F) where
  -- A post fails, or is answered with the vector of each text of its batch.
  abbrev pub IsHonest : Type 0
  IsHonest =
      (n : ℕ) (batch : List Text)
      → (server n batch ≡ transient) ⊎ (server n batch ≡ vectors (map vector batch))

  -- Of `tries` posts in a row one is answered.
  abbrev pub IsAnswering : ℕ → Type 0
  IsAnswering tries =
      (n : ℕ)
      → (k : ℕ) × (k < tries)
        × ((batch : List Text) → server (n + k) batch ≡ vectors (map vector batch))

  module _ (honest : IsHonest) (dims : (t : Text) → length (vector t) ≡ dim) where
    embed_batch-now :
        (tries n : ℕ) (batch : List Text)
        → server n batch ≡ vectors (map vector batch)
        → (embed_batch server dim (suc tries) n batch).0 ≡ ok (map vector batch)
    unfolding embed_batch check_dims
    embed_batch-now tries n batch now =
        rw (embed_batch, now) (rw (all_dim-map dim vector dims batch))

    embed_batch-later :
        (tries n : ℕ) (batch : List Text)
        → server n batch ≡ transient
        → embed_batch server dim (suc tries) n batch ≡ embed_batch server dim tries (n + 1) batch
    unfolding embed_batch
    embed_batch-later tries n batch later = rw (embed_batch, later)

    embed_batch-answered :
        (tries n k : ℕ) (batch : List Text)
        → k < tries
        → server (n + k) batch ≡ vectors (map vector batch)
        → (embed_batch server dim tries n batch).0 ≡ ok (map vector batch)
    embed_batch-answered zero n k batch h answered = absurd (omega (arith, h))
    embed_batch-answered (suc tries) n zero batch h answered =
        embed_batch-now tries n batch (ap (λ m. server m batch) (omega arith) ∙ answered)
    embed_batch-answered (suc tries) n (suc k) batch h answered = elim (honest n batch) [
      | inr now ↦ embed_batch-now tries n batch now
      | inl later ↦
          ap (λ r. r.0) (embed_batch-later tries n batch later)
          ∙ embed_batch-answered tries (n + 1) k batch (omega (arith, h))
              (ap (λ m. server m batch) (omega arith) ∙ answered)
    ]

    embed_batches-answered :
        (tries n : ℕ) (batches : List (List Text))
        → IsAnswering tries
        → (embed_batches server dim tries n batches).0 ≡ ok (map vector (joined batches))
    unfolding embed_batches
    embed_batches-answered tries n [] answers = refl
    embed_batches-answered tries n (batch ∷ batches) answers =
        let (k, soon, answered) = answers n in
        let first = embed_batch-answered tries n k batch soon (answered batch) in
        let m = (embed_batch server dim tries n batch).1 in
        let rest = embed_batches-answered tries m batches answers in
        rw (map-append vector batch (joined batches)) (rw (embed_batches, first) (rw rest))

    -- When the server answers each post with one vector of the dimension for each text, or fails, and
    -- never fails as often in a row as there are attempts, then `embed` gives the vectors of all texts,
    -- in order, whatever the size of a batch.
    pub embed-answered :
        (tries size : ℕ) (texts : List Text)
        → IsAnswering tries
        → (embed server dim tries (suc size) texts).0 ≡ ok (map vector texts)
    unfolding embed
    embed-answered tries size texts answers =
        embed_batches-answered tries 0 (batches_of (length texts) (suc size) texts) answers
        ∙ ap (λ l. ok (map vector l)) (joined-batches_of (length texts) size texts (omega arith))

drop-all : (n : ℕ) (xs : List Text) → length xs ≤ n → drop n xs ≡ []
drop-all zero [] h = refl
drop-all zero (x ∷ xs) h = absurd (omega (arith, h))
drop-all (suc n) [] h = refl
drop-all (suc n) (x ∷ xs) h = drop-all n xs (omega (arith, h))

drop-length : (n : ℕ) (xs : List Text) → n ≤ length xs → n + length (drop n xs) ≡ length xs
drop-length zero xs h = omega arith
drop-length (suc n) [] h = absurd (omega (arith, h))
drop-length (suc n) (x ∷ xs) h = omega (arith, drop-length n xs (omega (arith, h)))

batches_of-nil : (rounds size : ℕ) → batches_of rounds size [] ≡ []
unfolding batches_of
batches_of-nil zero size = refl
batches_of-nil (suc rounds) size = refl

batches_of-few :
    (rounds size : ℕ) (texts : List Text)
    → length (batches_of rounds (suc size) texts) * suc size ≤ length texts + size
unfolding batches_of
batches_of-few zero size texts = omega arith
batches_of-few (suc rounds) size [] = omega arith
batches_of-few (suc rounds) size (t ∷ texts) = elim (le_total (suc size) (length (t ∷ texts))) [
  | inl full ↦
      let rest = batches_of-few rounds size (drop (suc size) (t ∷ texts)) in
      ground (arith, rest, drop-length (suc size) (t ∷ texts) full)
  | inr short ↦
      rw (drop-all (suc size) (t ∷ texts) short)
        (rw (batches_of-nil rounds (suc size)) (omega arith))
]

module _ {F : Type 0} (server : Server F) (dim : ℕ) where
  embed_batch-posts :
      (tries n : ℕ) (batch : List Text) → (embed_batch server dim tries n batch).1 ≤ n + tries
  unfolding embed_batch
  embed_batch-posts zero n batch = omega arith
  embed_batch-posts (suc tries) n batch = ground (arith, embed_batch-posts tries (n + 1) batch)

  embed_batches-posts :
      (tries n : ℕ) (batches : List (List Text))
      → (embed_batches server dim tries n batches).1 ≤ n + tries * length batches
  unfolding embed_batches
  embed_batches-posts tries n [] = omega arith
  embed_batches-posts tries n (batch ∷ batches) =
      let first = embed_batch-posts tries n batch in
      let rest = embed_batches-posts tries (embed_batch server dim tries n batch).1 batches in
      ground (arith, first, rest)

  -- `embed` makes at most as many posts as there are attempts for each of its batches, and the batches
  -- are as few as their size allows: all but the last are full.
  pub embed-posts :
      (tries size : ℕ) (texts : List Text)
      → (count : ℕ) × ((embed server dim tries (suc size) texts).1 ≤ tries * count)
        × (count * suc size ≤ length texts + size)
  unfolding embed
  embed-posts tries size texts =
      let batches = batches_of (length texts) (suc size) texts in
      let bound : (embed_batches server dim tries 0 batches).1 ≤ tries * length batches =
        omega (arith, embed_batches-posts tries 0 batches) in
      (length batches, bound, batches_of-few (length texts) size texts)
