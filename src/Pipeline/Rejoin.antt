-- ===== src/Pipeline/Rejoin.antt =====
-- Splitting a query text at its separators loses nothing.
use seekbase.Base.{
  ℕ, ◌≡◌, refl, ap, ◌∙◌, Text, List, [], ◌∷◌, ◌++◌, Option, none, some, ◌==◌, arith, Bool-cases,
  inl, inr,
}
use seekbase.Pipeline.Split.{
  Move, one, two, cut, is_quote, move, last_move, Parts, push, separate, split_from,
}

-- "|".join of the parts
abbrev pub rejoin_after : Text → List Text → Text
rejoin_after first [] = first
rejoin_after first (p ∷ ps) = first ++ (b'|' ∷ rejoin_after p ps)

abbrev pub rejoin : Parts → Text
rejoin (first, rest) = rejoin_after first rest

rejoin-push : (c : ℕ) (p : Parts) → rejoin (push c p) ≡ c ∷ rejoin p
rejoin-push c (first, []) = refl
rejoin-push c (first, p ∷ ps) = refl

-- A cut stands at a bar only.
Cuts : Move → ℕ → Type 0
Cuts (one q) c = Unit
Cuts (two q) c = Unit
Cuts cut c = c ≡ b'|'

move-Cuts : (quote : Option ℕ) (c d : ℕ) → Cuts (move quote c d) c
unfolding move Cuts
move-Cuts (some q) c d = elim (Bool-cases (c == q)) [
  | inl e ↦ elim (Bool-cases (d == q)) [ inl f ↦ rw e (rw f tt) | inr f ↦ rw e (rw f tt) ]
  | inr e ↦ rw e tt
]
move-Cuts none c d = elim (Bool-cases (is_quote c)) [
  | inl e ↦ rw e tt
  | inr e ↦ elim (Bool-cases (c == b'|')) [
    | inl bar ↦ elim (Bool-cases (d == b'|')) [
      | inl f ↦ rw e (rw bar (rw f tt))
      | inr f ↦ rw e (rw bar (rw f (ground (arith, bar))))
    ]
    | inr f ↦ rw e (rw f tt)
  ]
]

last_move-Cuts : (quote : Option ℕ) (c : ℕ) → Cuts (last_move quote c) c
unfolding last_move Cuts
last_move-Cuts (some q) c = tt
last_move-Cuts none c = elim (Bool-cases (c == b'|')) [
  | inl bar ↦ rw bar (ground (arith, bar))
  | inr f ↦ rw f tt
]

rejoin-last :
    (c : ℕ) (m : Move)
    → Cuts m c
    → rejoin (elim m [ one _ ↦ (c ∷ [], []) | two _ ↦ (c ∷ [], []) | cut ↦ ([], [] ∷ []) ]) ≡ c ∷ []
unfolding Cuts
rejoin-last c (one q) h = refl
rejoin-last c (two q) h = refl
rejoin-last c cut h = rw h

rejoin-next :
    (c d : ℕ) (s : Text) (m : Move)
    → Cuts m c
    → ((quote : Option ℕ) → rejoin (split_from quote s) ≡ s)
    → ((quote : Option ℕ) → rejoin (split_from quote (d ∷ s)) ≡ d ∷ s)
    → rejoin (elim m [
      | one quote' ↦ push c (split_from quote' (d ∷ s))
      | two quote' ↦ push c (push d (split_from quote' s))
      | cut ↦ separate (split_from none (d ∷ s))
    ])
      ≡ c ∷ d ∷ s
unfolding Cuts
rejoin-next c d s (one q) h behind next = rejoin-push c _ ∙ ap (λ t. c ∷ t) (next q)
rejoin-next c d s (two q) h behind next =
    rejoin-push c _ ∙ ap (λ t. c ∷ t) (rejoin-push d _ ∙ ap (λ t. d ∷ t) (behind q))
rejoin-next c d s cut h behind next = rw h (ap (λ t. b'|' ∷ t) (next none))

-- Joining the parts of a query text with bars gives the text back, whatever quotation is open where
-- the text begins.
pub rejoin-split_from : (quote : Option ℕ) (s : Text) → rejoin (split_from quote s) ≡ s
unfolding split_from Cuts
rejoin-split_from quote [] = refl
rejoin-split_from quote (c ∷ []) = rejoin-last c (last_move quote c) (last_move-Cuts quote c)
rejoin-split_from quote (c ∷ d ∷ s) =
    rejoin-next c d s (move quote c d) (move-Cuts quote c d) (λ q. rejoin-split_from q s)
      (λ q. rejoin-split_from q (d ∷ s))
